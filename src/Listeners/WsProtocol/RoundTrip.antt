-- ===== src/Listeners/WsProtocol/RoundTrip.antt =====
-- provider_simulator/listeners/ws_protocol.py: a frame that was encoded is parsed again.
use provider_simulator.Base.{
  ℕ, suc, ◌+◌, ◌%◌, ◌≤◌, ◌<◌, ◌≡◌, refl, ap, sym, ◌∙◌, Bool, true, false, Option, none, some, List,
  [], ◌∷◌, ◌++◌, All, arith, length, ltb, leb, if◌then◌else◌,
}
use provider_simulator.Base.Results.{ok, value_error, raise_if, >>=-eq-ok, ok-injective}
use provider_simulator.Listeners.WsProtocol.{
  Frame, Socket, mask_from, len_field, encode_frame, opcode_of, read_payload, read_frame,
  parse_from, parse_frame,
}
use provider_simulator.Listeners.WsProtocol.Bytes.{nth, xor-xor}
use provider_simulator.Listeners.WsProtocol.Reading.{IsStream}
use provider_simulator.Listeners.WsProtocol.Lengths.{recv_front, len_field-IsLength}

abbrev pub IsByte : ℕ → Type 0
IsByte b = b < 256

mask_from-mask_from :
    (key : List ℕ) (i : ℕ) (payload : List ℕ)
    → All IsByte payload
    → mask_from key i (mask_from key i payload) ≡ payload
unfolding mask_from
mask_from-mask_from key i [] h = refl
mask_from-mask_from key i (b ∷ bs) h =
    let same = xor-xor 8 b (nth key (i % 4)) h.0 in
    let rest = mask_from-mask_from key (i + 1) bs h.1 in rw (same, rest) refl

length-mask_from :
    (key : List ℕ) (i : ℕ) (payload : List ℕ) → length (mask_from key i payload) ≡ length payload
unfolding mask_from
length-mask_from key i [] = refl
length-mask_from key i (b ∷ bs) = ap suc (length-mask_from key (i + 1) bs)

pub append_assoc : (xs ys zs : List ℕ) → (xs ++ ys) ++ zs ≡ xs ++ (ys ++ zs)
append_assoc [] ys zs = refl
append_assoc (x ∷ xs) ys zs = ap (λ (t : List ℕ). x ∷ t) (append_assoc xs ys zs)

header_split :
    (first second : ℕ) (len others rest back : List ℕ)
    → len ≡ second ∷ others
    → (first ∷ len ++ rest) ++ back ≡ first ∷ second ∷ (others ++ (rest ++ back))
header_split first second len others rest back parts =
    rw parts (ap (λ (t : List ℕ). first ∷ second ∷ t) (append_assoc others rest back))

module _ (socket : Socket) (stream : IsStream socket) where
  -- What stands for the payload on the wire.
  abbrev body : Bool → List ℕ → List ℕ → List ℕ
  body mask key payload = if mask then key ++ mask_from key 0 payload else payload

  read_body :
      (mask : Bool) (key payload back : List ℕ) (c : socket.Conn)
      → length key ≡ 4
      → All IsByte payload
      → socket.pending c ≡ body mask key payload ++ back
      → (c' : socket.Conn) × (read_payload socket mask (length payload) c ≡ ok (payload, c'))
        × (socket.pending c' ≡ back)
  unfolding read_payload
  read_body true key payload back c four bytes pending =
      let (c1, got_key, left) =
        recv_front socket stream 4 key (mask_from key 0 payload ++ back) c four
          (pending ∙ append_assoc key (mask_from key 0 payload) back) in
      let (c2, got, left2) =
        recv_front socket stream (length payload) (mask_from key 0 payload) back c1
          (length-mask_from key 0 payload) left in
      (c2, rw (got_key, got, mask_from-mask_from key 0 payload bytes) refl, left2)
  read_body false key payload back c four bytes pending =
      recv_front socket stream (length payload) payload back c refl pending

  pub read_frame_lem :
      (first : ℕ) (payload : List ℕ) (mask : Bool) (key len back : List ℕ) (c : socket.Conn)
      → length key ≡ 4
      → All IsByte payload
      → len_field mask (length payload) ≡ ok len
      → socket.pending c ≡ (first ∷ len ++ body mask key payload) ++ back
      → (c' : socket.Conn) × (read_frame socket c
          ≡ ok (record { fin = leb 128 first; opcode = first % 16; payload = payload }, c'))
        × (socket.pending c' ≡ back)
  unfolding read_frame
  read_frame_lem first payload mask key len back c four bytes sized pending =
      let field = len_field-IsLength socket stream mask (length payload) len sized in
      let (c1, header, left1) =
        recv_front socket stream 2 (first ∷ field.first ∷ [])
          (field.others ++ (body mask key payload ++ back)) c refl
          (pending
            ∙ header_split first field.first len field.others (body mask key payload) back
                field.parts) in
      let (c2, size, left2) = field.reads c1 (body mask key payload ++ back) left1 in
      let (c3, got, left3) = read_body mask key payload back c2 four bytes left2 in
      (c3, rw (header, size, field.bit, got) refl, left3)

  -- One turn of the loop, on a frame that was read.
  pub parse_from_frame :
      (fuel : ℕ) (first : Option ℕ) (assembled : List ℕ) (frame : Frame) (c c' : socket.Conn)
      → read_frame socket c ≡ ok (frame, c')
      → parse_from socket (suc fuel) first assembled c ≡ (
          if leb 8 frame.opcode
          then some (ok (frame, c'))
          else if frame.fin
          then some (
              ok (
                record {
                  fin = true;
                  opcode = opcode_of first frame.opcode;
                  payload = assembled ++ frame.payload;
                },
                c',
              ))
          else parse_from socket fuel
              (some (opcode_of first frame.opcode))
              (assembled ++ frame.payload)
              c')
  unfolding parse_from
  parse_from_frame fuel first assembled frame c c' got = rw (got, parse_from) refl

  parse_from_whole :
      (fuel opcode : ℕ) (payload : List ℕ) (c c' : socket.Conn)
      → read_frame socket c ≡ ok (record { fin = true; opcode = opcode; payload = payload }, c')
      → parse_from socket (suc fuel) none [] c
        ≡ some (ok (record { fin = true; opcode = opcode; payload = payload }, c'))
  parse_from_whole fuel opcode payload c c' got =
      let frame : Frame = record { fin = true; opcode = opcode; payload = payload } in
      parse_from_frame fuel none [] frame c c' got ∙ ground arith

-- The first byte of a frame.
pub finished_byte :
    (opcode : ℕ) → opcode ≤ 15 → (leb 128 (128 + opcode) ≡ true) × ((128 + opcode) % 16 ≡ opcode)
finished_byte opcode h = (ground arith, omega (arith, h))

-- A frame that was encoded with a mask of four bytes or without one is parsed as it was, however the
-- socket cuts its bytes up, and no byte after it is taken. One frame is enough.
pub parse_frame-encode_frame :
    (socket : Socket) (fuel opcode : ℕ) (payload : List ℕ) (mask : Bool) (key bytes back : List ℕ)
    (c : socket.Conn)
    → IsStream socket
    → length key ≡ 4
    → All IsByte payload
    → encode_frame opcode payload mask key ≡ ok bytes
    → socket.pending c ≡ bytes ++ back
    → (c' : socket.Conn) × (parse_frame socket (suc fuel) c
        ≡ some (ok (record { fin = true; opcode = opcode; payload = payload }, c')))
      × (socket.pending c' ≡ back)
unfolding encode_frame parse_frame
parse_frame-encode_frame socket fuel opcode payload mask key bytes back c stream four small encoded
      pending =
    let (_, in_range, h1) = >>=-eq-ok (raise_if (ltb 15 opcode) value_error) _ encoded in
    let (len, sized, h2) = >>=-eq-ok (len_field mask (length payload)) _ h1 in
    let (c', got, left) =
      read_frame_lem socket stream (128 + opcode) payload mask key len back c four small sized
        (pending ∙ ap (λ (bs : List ℕ). bs ++ back) (sym (ok-injective _ _ h2))) in
    let (fin, same) = finished_byte opcode (ground (arith, in_range)) in
    (c', parse_from_whole socket stream fuel opcode payload c c' (got ∙ rw (fin, same) refl), left)
