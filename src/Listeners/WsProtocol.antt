-- ===== src/Listeners/WsProtocol.antt =====
-- provider_simulator/listeners/ws_protocol.py: the codec of WebSocket frames. A byte is a number
-- below 256. The socket's `recv` is a parameter: a connection of any type, from which a call reads
-- at most as many bytes as asked. The four bytes of `os.urandom` are an argument.
pub mod Bytes
pub mod Reading
pub mod Lengths
pub mod RoundTrip
pub mod Fragments
pub mod Control
mod Tests
use provider_simulator.Base.{
  ℕ, zero, suc, ◌+◌, ◌-◌, ◌*◌, ◌/◌, ◌%◌, ◌^◌, Bool, true, false, not, ◌&&◌, Option, none, some,
  List, [], ◌∷◌, ◌++◌, length, ltb, leb, nat_eq, if◌then◌else◌,
}
use provider_simulator.Base.Results.{
  Result, ok, err, value_error, frame_parse_error, ◌>>=◌, ◌>>◌, raise_if,
}
use provider_simulator.Listeners.WsProtocol.Bytes.{xor, be_bytes, from_be, nth}

abbrev pub opcode_continuation : ℕ
opcode_continuation = 0

pub record Frame : Type 0 where
  pub fin : Bool
  pub opcode : ℕ
  pub payload : List ℕ

-- bytes(b ^ key[i % 4] for i, b in enumerate(payload)), from an index on
unfoldable pub mask_from : List ℕ → ℕ → List ℕ → List ℕ
mask_from key i [] = []
mask_from key i (b ∷ bs) = xor 8 b (nth key (i % 4)) ∷ mask_from key (i + 1) bs

abbrev pub mask_bit : Bool → ℕ
mask_bit true = 128
mask_bit false = 0

-- A length that does not fit in 64 bits is refused by struct.pack.
unfoldable pub len_field : Bool → ℕ → Result (List ℕ)
len_field mask n =
    if ltb n 126
    then ok ((mask_bit mask + n) ∷ [])
    else if ltb n 65536
    then ok ((mask_bit mask + 126) ∷ be_bytes 2 n)
    else if ltb n (256 ^ 8)
    then ok ((mask_bit mask + 127) ∷ be_bytes 8 n)
    else err value_error

-- Without a mask the argument `key` is not looked at.
unfoldable pub encode_frame : ℕ → List ℕ → Bool → List ℕ → Result (List ℕ)
encode_frame opcode payload mask key = do
  raise_if (ltb 15 opcode) value_error
  len ← len_field mask (length payload)
  ok ((128 + opcode) ∷ len ++ (if mask then key ++ mask_from key 0 payload else payload))

-- The opcode of a message is that of its first frame.
abbrev pub opcode_of : Option ℕ → ℕ → ℕ
opcode_of none opcode = opcode
opcode_of (some first) opcode = first

-- What the socket does, and the bytes that it has still to give.
pub record Socket : Type 1 where
  pub Conn : Type 0
  pub recv : Conn → ℕ → List ℕ × Conn
  pub pending : Conn → List ℕ

module _ (socket : Socket) where
  -- The loop, on at most `fuel` calls of `recv`: each one gives a byte or the peer is gone.
  unfoldable pub recv_loop : ℕ → ℕ → socket.Conn → Result (List ℕ × socket.Conn)
  recv_loop fuel zero c = ok ([], c)
  recv_loop zero (suc n) c = err frame_parse_error
  recv_loop (suc fuel) (suc n) c =
      let (chunk, c') = socket.recv c (suc n) in
      elim chunk [
        | [] ↦ err frame_parse_error
        | b ∷ bs ↦ do (rest, c'') ← recv_loop fuel (n - length bs) c'; ok (b ∷ bs ++ rest, c'')
      ]

  unfoldable pub recv_exact : ℕ → socket.Conn → Result (List ℕ × socket.Conn)
  recv_exact n c = recv_loop n n c

  unfoldable pub read_length : ℕ → socket.Conn → Result (ℕ × socket.Conn)
  unfolding recv_exact
  read_length short c =
      if nat_eq short 126
      then (do (bytes, c') ← recv_exact 2 c; ok (from_be bytes, c'))
      else if nat_eq short 127
      then (do (bytes, c') ← recv_exact 8 c; ok (from_be bytes, c'))
      else ok (short, c)

  unfoldable pub read_payload : Bool → ℕ → socket.Conn → Result (List ℕ × socket.Conn)
  unfolding recv_exact
  read_payload true n c = do
    (key, c1) ← recv_exact 4 c
    (payload, c2) ← recv_exact n c1
    ok (mask_from key 0 payload, c2)
  read_payload false n c = recv_exact n c

  -- One frame: its two header bytes, the length, the mask and the payload.
  unfoldable pub read_frame : socket.Conn → Result (Frame × socket.Conn)
  unfolding recv_exact read_length read_payload
  read_frame c = do
    (header, c1) ← recv_exact 2 c
    (n, c2) ← read_length (nth header 1 % 128) c1
    (payload, c3) ← read_payload (leb 128 (nth header 1)) n c2
    ok (record { fin = leb 128 (nth header 0); opcode = nth header 0 % 16; payload = payload }, c3)

  -- The loop over the fragments, for at most `fuel` frames; past that there is no answer.
  unfoldable pub parse_from :
      ℕ → Option ℕ → List ℕ → socket.Conn → Option (Result (Frame × socket.Conn))
  parse_from zero first assembled c = none
  parse_from (suc fuel) first assembled c = elim (read_frame c) [
    | err e ↦ some (err e)
    | ok (frame, c') ↦
        let opcode = opcode_of first frame.opcode in
        let rest = parse_from fuel (some opcode) (assembled ++ frame.payload) c' in
        if leb 8 frame.opcode
        then some (ok (frame, c'))
        else if frame.fin
        then some
            (ok (record { fin = true; opcode = opcode; payload = assembled ++ frame.payload }, c'))
        else rest
  ]

  unfoldable pub parse_frame : ℕ → socket.Conn → Option (Result (Frame × socket.Conn))
  parse_frame fuel c = parse_from fuel none [] c
