-- ===== src/Listeners/WsProtocol/Fragments.antt =====
-- provider_simulator/listeners/ws_protocol.py: a message that the peer cut into fragments.
use provider_simulator.Base.{
  ℕ, zero, suc, ◌+◌, ◌≤◌, ◌<◌, ◌≡◌, ◌%◌, refl, ap, sym, ◌∙◌, Bool, true, false, Option, none, some,
  List, [], ◌∷◌, ◌++◌, All, arith, length, ltb, leb, if◌then◌else◌,
}
use provider_simulator.Base.Results.{
  Result, ok, value_error, ◌>>=◌, ◌>>◌, raise_if, >>=-eq-ok, ok-injective,
}
use provider_simulator.Listeners.WsProtocol.{
  Frame, Socket, mask_from, len_field, encode_frame, opcode_continuation, opcode_of, read_frame,
  parse_from, parse_frame,
}
use provider_simulator.Listeners.WsProtocol.Reading.{IsStream}
use provider_simulator.Listeners.WsProtocol.RoundTrip.{
  IsByte, append_assoc, read_frame_lem, parse_from_frame, finished_byte,
}

pub record Piece : Type 0 where
  pub payload : List ℕ
  pub mask : Bool
  pub key : List ℕ

abbrev pub IsPiece : Piece → Type 0
IsPiece p = (length p.key ≡ 4) × All IsByte p.payload

-- The bytes of a frame with the FIN bit set or cleared.
unfoldable pub piece_bytes : Bool → ℕ → Piece → Result (List ℕ)
piece_bytes fin opcode p = do
  raise_if (ltb 15 opcode) value_error
  len ← len_field p.mask (length p.payload)
  ok (
      ((if fin then 128 else 0) + opcode) ∷ len
      ++ (if p.mask then p.key ++ mask_from p.key 0 p.payload else p.payload))

-- A message in fragments: the first has the opcode, the others continue it, the last is final.
unfoldable pub message_bytes : ℕ → List Piece → Piece → Result (List ℕ)
message_bytes opcode [] last = encode_frame opcode last.payload last.mask last.key
message_bytes opcode (p ∷ ps) last = do
  bytes ← piece_bytes false opcode p
  rest ← message_bytes opcode_continuation ps last
  ok (bytes ++ rest)

unfoldable pub message_payload : List Piece → Piece → List ℕ
message_payload [] last = last.payload
message_payload (p ∷ ps) last = p.payload ++ message_payload ps last

piece_bytes-encode_frame :
    (opcode : ℕ) (p : Piece)
    → encode_frame opcode p.payload p.mask p.key ≡ piece_bytes true opcode p
unfolding piece_bytes encode_frame
piece_bytes-encode_frame opcode p = refl

first_byte :
    (fin : Bool) (opcode : ℕ)
    → opcode ≤ 15
    → (leb 128 ((if fin then 128 else 0) + opcode) ≡ fin)
      × (((if fin then 128 else 0) + opcode) % 16 ≡ opcode)
first_byte true opcode h = finished_byte opcode h
first_byte false opcode h = (ground (arith, h), omega (arith, h))

module _ (socket : Socket) (stream : IsStream socket) where
  pub read_piece :
      (fin : Bool) (opcode : ℕ) (p : Piece) (bytes back : List ℕ) (c : socket.Conn)
      → IsPiece p
      → piece_bytes fin opcode p ≡ ok bytes
      → socket.pending c ≡ bytes ++ back
      → (c' : socket.Conn) × (read_frame socket c
          ≡ ok (record { fin = fin; opcode = opcode; payload = p.payload }, c'))
        × (socket.pending c' ≡ back)
  unfolding piece_bytes
  read_piece fin opcode p bytes back c good made pending =
      let (_, in_range, h1) = >>=-eq-ok (raise_if (ltb 15 opcode) value_error) _ made in
      let (len, sized, h2) = >>=-eq-ok (len_field p.mask (length p.payload)) _ h1 in
      let (c', got, left) =
        read_frame_lem socket stream ((if fin then 128 else 0) + opcode) p.payload p.mask p.key len
          back c good.0 good.1 sized
          (pending ∙ ap (λ (bs : List ℕ). bs ++ back) (sym (ok-injective _ _ h2))) in
      let (bit, same) = first_byte fin opcode (ground (arith, in_range)) in
      (c', got ∙ rw (bit, same) refl, left)

  last_turn :
      (fuel : ℕ) (first : Option ℕ) (assembled : List ℕ) (frame : Frame) (c c' : socket.Conn)
      → read_frame socket c ≡ ok (frame, c')
      → frame.opcode < 8
      → frame.fin ≡ true
      → parse_from socket (suc fuel) first assembled c
        ≡ some (
            ok (
              record {
                fin = true;
                opcode = opcode_of first frame.opcode;
                payload = assembled ++ frame.payload;
              },
              c',
            ))
  last_turn fuel first assembled frame c c' got is_data fin =
      parse_from_frame socket stream fuel first assembled frame c c' got
      ∙ ground (arith, is_data, fin)

  pub next_turn :
      (fuel : ℕ) (first : Option ℕ) (assembled : List ℕ) (frame : Frame) (c c' : socket.Conn)
      → read_frame socket c ≡ ok (frame, c')
      → frame.opcode < 8
      → frame.fin ≡ false
      → parse_from socket (suc fuel) first assembled c
        ≡ parse_from socket fuel
            (some (opcode_of first frame.opcode))
            (assembled ++ frame.payload)
            c'
  next_turn fuel first assembled frame c c' got is_data fin =
      parse_from_frame socket stream fuel first assembled frame c c' got
      ∙ ground (arith, is_data, fin)

  parse_from_message :
      (fuel : ℕ) (first : Option ℕ) (assembled : List ℕ) (opcode : ℕ) (ps : List Piece)
      (last : Piece) (bytes back : List ℕ) (c : socket.Conn)
      → length ps < fuel
      → opcode < 8
      → All IsPiece ps
      → IsPiece last
      → message_bytes opcode ps last ≡ ok bytes
      → socket.pending c ≡ bytes ++ back
      → (c' : socket.Conn) × (parse_from socket fuel first assembled c
          ≡ some (
              ok (
                record {
                  fin = true;
                  opcode = opcode_of first opcode;
                  payload = assembled ++ message_payload ps last;
                },
                c',
              )))
        × (socket.pending c' ≡ back)
  unfolding message_bytes message_payload
  parse_from_message zero first assembled opcode ps last bytes back c enough is_data goods good made
        pending =
      absurd (omega (arith, enough))
  parse_from_message (suc fuel) first assembled opcode [] last bytes back c enough is_data goods
        good made pending =
      let (c', got, left) =
        read_piece true opcode last bytes back c good
          (sym (piece_bytes-encode_frame opcode last) ∙ made) pending in
      (
        c',
        last_turn fuel first assembled
            (record { fin = true; opcode = opcode; payload = last.payload }) c c' got is_data refl,
        left,
      )
  parse_from_message (suc fuel) first assembled opcode (p ∷ ps) last bytes back c enough is_data
        goods good made pending =
      let (piece, h0, h1) = >>=-eq-ok (piece_bytes false opcode p) _ made in
      let (rest, h2, h3) = >>=-eq-ok (message_bytes opcode_continuation ps last) _ h1 in
      let (c1, got, left1) = read_piece false opcode p piece (rest ++ back) c goods.0 h0 (
        pending
        ∙ ap (λ (bs : List ℕ). bs ++ back) (sym (ok-injective _ _ h3))
        ∙ append_assoc piece rest back) in
      let (c', parsed, left) =
        parse_from_message fuel (some (opcode_of first opcode)) (assembled ++ p.payload)
          opcode_continuation ps last rest back c1 (omega (arith, enough)) (omega arith) goods.1
          good h2 left1 in
      (
        c',
        next_turn fuel first assembled
              (record { fin = false; opcode = opcode; payload = p.payload }) c c1 got is_data refl
            ∙ parsed
            ∙ ap
                (λ (payload : List ℕ). some (
                  ok (
                    record { fin = true; opcode = opcode_of first opcode; payload = payload },
                    c',
                  )))
                (append_assoc assembled p.payload (message_payload ps last)),
        left,
      )

-- A text or binary message that comes in fragments, each masked in its own way or not at all, is
-- parsed as one frame with the opcode of the first fragment and the payloads in their order,
-- however the socket cuts the bytes up; as many frames as there are fragments are enough.
pub parse_frame-message_bytes :
    (socket : Socket) (fuel opcode : ℕ) (ps : List Piece) (last : Piece) (bytes back : List ℕ)
    (c : socket.Conn)
    → IsStream socket
    → length ps < fuel
    → opcode < 8
    → All IsPiece ps
    → IsPiece last
    → message_bytes opcode ps last ≡ ok bytes
    → socket.pending c ≡ bytes ++ back
    → (c' : socket.Conn) × (parse_frame socket fuel c
        ≡ some (ok (record { fin = true; opcode = opcode; payload = message_payload ps last }, c')))
      × (socket.pending c' ≡ back)
unfolding parse_frame
parse_frame-message_bytes socket fuel opcode ps last bytes back c stream enough is_data goods good
      made pending =
    parse_from_message socket stream fuel none [] opcode ps last bytes back c enough is_data goods
      good made pending
