-- ===== src/Listeners/WsProtocol/Reading.antt =====
-- provider_simulator/listeners/ws_protocol.py: reading an exact number of bytes, however the socket
-- cuts them up.
use provider_simulator.Base.{
  ℕ, zero, suc, ◌+◌, ◌-◌, ◌≤◌, ◌≡◌, refl, ap, sym, ◌∙◌, List, [], ◌∷◌, ◌++◌, arith, length,
  length-append,
}
use provider_simulator.Base.Results.{ok, ◌>>=◌}
use provider_simulator.Listeners.WsProtocol.{Socket, recv_loop, recv_exact}

-- What `recv` documents of a connection with bytes to come: a call gives some of them, at least
-- one and at most as many as it was asked for, and the others are still to come.
pub record IsStream (socket : Socket) : Type 0 where
  pub gives :
      (c : socket.Conn) (n : ℕ) (b : ℕ) (bs : List ℕ)
      → socket.pending c ≡ b ∷ bs
      → (chunk : List ℕ) × ((socket.recv c (suc n)).0 ≡ b ∷ chunk)
        × (length chunk ≤ n)
        × (chunk ++ socket.pending (socket.recv c (suc n)).1 ≡ bs)

cons-injective : (a b : ℕ) (xs ys : List ℕ) → a ∷ xs ≡ b ∷ ys → (a ≡ b) × (xs ≡ ys)
cons-injective a b xs ys h = (cc, cc)

-- A list that starts in two ways: the longer start holds the shorter one.
split_start :
    (chunk rest front back : List ℕ)
    → chunk ++ rest ≡ front ++ back
    → length chunk ≤ length front
    → (more : List ℕ) × (front ≡ chunk ++ more) × (rest ≡ more ++ back)
split_start [] rest front back h short = (front, refl, h)
split_start (b ∷ chunk) rest [] back h short = absurd (omega (arith, short))
split_start (b ∷ chunk) rest (f ∷ front) back h short =
    let (same, tails) = cons-injective b f (chunk ++ rest) (front ++ back) h in
    let (more, starts, ends) = split_start chunk rest front back tails (omega (arith, short)) in
    (more, cc, ends)

module _ (socket : Socket) (stream : IsStream socket) where
  recv_loop_of_chunk :
      (fuel n : ℕ) (c : socket.Conn) (b : ℕ) (chunk : List ℕ)
      → (socket.recv c (suc n)).0 ≡ b ∷ chunk
      → recv_loop socket (suc fuel) (suc n) c ≡ (
          recv_loop socket fuel (n - length chunk) (socket.recv c (suc n)).1 >>= λ r.
          ok (b ∷ chunk ++ r.0, r.1))
  unfolding recv_loop
  recv_loop_of_chunk fuel n c b chunk h = rw (h, recv_loop) refl

  recv_loop_lem :
      (fuel n : ℕ) (front back : List ℕ) (c : socket.Conn)
      → n ≡ length front
      → n ≤ fuel
      → socket.pending c ≡ front ++ back
      → (c' : socket.Conn) × (recv_loop socket fuel n c ≡ ok (front, c'))
        × (socket.pending c' ≡ back)
  unfolding recv_loop
  recv_loop_lem fuel zero [] back c size enough pending = (c, refl, pending)
  recv_loop_lem fuel zero (b ∷ front) back c size enough pending = absurd (omega (arith, size))
  recv_loop_lem zero (suc n) front back c size enough pending = absurd (omega (arith, enough))
  recv_loop_lem (suc fuel) (suc n) [] back c size enough pending = absurd (omega (arith, size))
  recv_loop_lem (suc fuel) (suc n) (b ∷ front) back c size enough pending =
      let (chunk, got, short, left) = stream.gives c n b (front ++ back) pending in
      let (more, starts, ends) =
        split_start chunk (socket.pending (socket.recv c (suc n)).1) front back left
          (omega (arith, size, short)) in
      let counted : length front ≡ length chunk + length more =
        ap length starts ∙ length-append chunk more in
      let (c', rest, pending') =
        recv_loop_lem fuel (n - length chunk) more back (socket.recv c (suc n)).1
          (omega (arith, size, counted)) (omega (arith, enough)) ends in
      (
        c',
        recv_loop_of_chunk fuel n c b chunk got
            ∙ rw rest (ap (λ (xs : List ℕ). ok (b ∷ xs, c')) (sym starts)),
        pending',
      )

  -- Exactly the bytes that were asked for come, in their order, and the others are still to come.
  pub recv_exact_lem :
      (front back : List ℕ) (c : socket.Conn)
      → socket.pending c ≡ front ++ back
      → (c' : socket.Conn) × (recv_exact socket (length front) c ≡ ok (front, c'))
        × (socket.pending c' ≡ back)
  unfolding recv_exact
  recv_exact_lem front back c pending =
      recv_loop_lem (length front) (length front) front back c refl (omega arith) pending
