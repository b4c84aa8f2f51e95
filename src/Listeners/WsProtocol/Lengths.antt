-- ===== src/Listeners/WsProtocol/Lengths.antt =====
-- provider_simulator/listeners/ws_protocol.py: a length field that was written is read again.
use provider_simulator.Base.{
  ℕ, ◌+◌, ◌%◌, ◌^◌, ◌<◌, ◌≡◌, refl, ap, sym, ◌∙◌, Bool, List, [], ◌∷◌, ◌++◌, arith, length, ltb,
  leb, Bool-cases, inl, inr,
}
use provider_simulator.Base.Results.{Result, ok, ◌>>=◌}
use provider_simulator.Listeners.WsProtocol.{Socket, mask_bit, len_field, recv_exact, read_length}
use provider_simulator.Listeners.WsProtocol.Bytes.{
  be_bytes, from_be, length-be_bytes, from_be-be_bytes,
}
use provider_simulator.Listeners.WsProtocol.Reading.{IsStream, recv_exact_lem}

module _ (socket : Socket) (stream : IsStream socket) where
  -- As many bytes as there are in the front.
  pub recv_front :
      (n : ℕ) (front back : List ℕ) (c : socket.Conn)
      → length front ≡ n
      → socket.pending c ≡ front ++ back
      → (c' : socket.Conn) × (recv_exact socket n c ≡ ok (front, c')) × (socket.pending c' ≡ back)
  recv_front n front back c size pending =
      let (c', got, left) = recv_exact_lem socket stream front back c pending in
      (c', ap (λ (k : ℕ). recv_exact socket k c) (sym size) ∙ got, left)

  -- The bytes of a length field: the first one tells the mask, and the length is read again.
  pub record IsLength (mask : Bool) (n : ℕ) (len : List ℕ) : Type 0 where
    pub first : ℕ
    pub others : List ℕ
    pub parts : len ≡ first ∷ others
    pub bit : leb 128 first ≡ mask
    pub reads :
        (c : socket.Conn) (back : List ℕ)
        → socket.pending c ≡ others ++ back
        → (c' : socket.Conn) × (read_length socket (first % 128) c ≡ ok (n, c'))
          × (socket.pending c' ≡ back)

  abbrev unpacked : List ℕ × socket.Conn → Result (ℕ × socket.Conn)
  unpacked (bytes, c) = ok (from_be bytes, c)

  long_length :
      (k n : ℕ) (c : socket.Conn) (back : List ℕ)
      → n < 256 ^ k
      → socket.pending c ≡ be_bytes k n ++ back
      → (c' : socket.Conn) × ((recv_exact socket k c >>= unpacked) ≡ ok (n, c'))
        × (socket.pending c' ≡ back)
  long_length k n c back fits pending =
      let (c', got, left) = recv_front k (be_bytes k n) back c (length-be_bytes k n) pending in
      (c', rw (got, from_be-be_bytes k n fits) refl, left)

  read_short :
      (short n : ℕ) (c : socket.Conn) (back : List ℕ)
      → short ≡ n
      → n < 126
      → socket.pending c ≡ back
      → (c' : socket.Conn) × (read_length socket short c ≡ ok (n, c')) × (socket.pending c' ≡ back)
  unfolding read_length
  read_short short n c back same small pending = (c, ground arith, pending)

  read_two :
      (short n : ℕ) (c : socket.Conn) (back : List ℕ)
      → short ≡ 126
      → n < 65536
      → socket.pending c ≡ be_bytes 2 n ++ back
      → (c' : socket.Conn) × (read_length socket short c ≡ ok (n, c')) × (socket.pending c' ≡ back)
  unfolding read_length
  read_two short n c back same fits pending =
      let (c', got, left) = long_length 2 n c back (omega arith) pending in
      (c', ap (λ (k : ℕ). read_length socket k c) same ∙ got, left)

  read_eight :
      (short n : ℕ) (c : socket.Conn) (back : List ℕ)
      → short ≡ 127
      → n < 256 ^ 8
      → socket.pending c ≡ be_bytes 8 n ++ back
      → (c' : socket.Conn) × (read_length socket short c ≡ ok (n, c')) × (socket.pending c' ≡ back)
  unfolding read_length
  read_eight short n c back same fits pending =
      let (c', got, left) = long_length 8 n c back fits pending in
      (c', ap (λ (k : ℕ). read_length socket k c) same ∙ got, left)

  pub len_field-IsLength :
      (mask : Bool) (n : ℕ) (len : List ℕ) → len_field mask n ≡ ok len → IsLength mask n len
  unfolding len_field
  len_field-IsLength mask n len h = elim (Bool-cases (ltb n 126)) [
    | inl small ↦ record {
      first = mask_bit mask + n;
      others = [];
      parts = ground arith;
      bit = ground arith;
      reads = λ c back pending.
          read_short ((mask_bit mask + n) % 128) n c back (ground arith) (ground arith) pending;
    }
    | inr big ↦ elim (Bool-cases (ltb n 65536)) [
      | inl medium ↦ record {
        first = mask_bit mask + 126;
        others = be_bytes 2 n;
        parts = ground arith;
        bit = ground arith;
        reads = λ c back pending.
            read_two ((mask_bit mask + 126) % 128) n c back (ground arith) (ground arith) pending;
      }
      | inr large ↦ elim (Bool-cases (ltb n (256 ^ 8))) [
        | inl fits ↦ record {
          first = mask_bit mask + 127;
          others = be_bytes 8 n;
          parts = ground arith;
          bit = ground arith;
          reads = λ c back pending.
              read_eight ((mask_bit mask + 127) % 128) n c back (ground arith) (ground arith)
                pending;
        }
        | inr huge ↦ absurd (ground arith)
      ]
    ]
  ]
