-- ===== src/Listeners/WsProtocol/Tests.antt =====
-- Runs of provider_simulator/listeners/ws_protocol.py, on a socket that gives one byte at a time.
use provider_simulator.Base.{
  ℕ, suc, ◌≡◌, ◌≤◌, refl, true, false, some, List, [], ◌∷◌, ◌++◌, arith, length,
}
use provider_simulator.Base.Results.{ok, err, value_error, frame_parse_error}
use provider_simulator.Listeners.WsProtocol.{
  Socket, mask_from, len_field, encode_frame, recv_loop, recv_exact, read_length, read_payload,
  read_frame, parse_from, parse_frame,
}
use provider_simulator.Listeners.WsProtocol.Bytes.{xor, be_bytes, from_be, from_be_onto}
use provider_simulator.Listeners.WsProtocol.Control.{parse_frame-piece_bytes}
use provider_simulator.Listeners.WsProtocol.Fragments.{
  Piece, piece_bytes, message_bytes, message_payload, parse_frame-message_bytes,
}
use provider_simulator.Listeners.WsProtocol.Reading.{IsStream}
use provider_simulator.Listeners.WsProtocol.RoundTrip.{parse_frame-encode_frame}

abbrev drip : List ℕ → ℕ → List ℕ × List ℕ
drip [] n = ([], [])
drip (b ∷ bs) n = (b ∷ [], bs)

abbrev socket : Socket
socket = record { Conn = List ℕ; recv = drip; pending = λ c. c }

drip_gives :
    (c : List ℕ) (n b : ℕ) (bs : List ℕ)
    → c ≡ b ∷ bs
    → (chunk : List ℕ) × ((drip c (suc n)).0 ≡ b ∷ chunk)
      × (length chunk ≤ n)
      × (chunk ++ (drip c (suc n)).1 ≡ bs)
drip_gives [] n b bs h = absurd cc
drip_gives (x ∷ xs) n b bs h = ([], cc, omega arith, cc)

socket-IsStream : IsStream socket
socket-IsStream = record { gives = λ c n b bs h. drip_gives c n b bs h }

program : Unit {0}
unfolding mask_from len_field encode_frame recv_loop recv_exact read_length read_payload read_frame
    parse_from parse_frame xor be_bytes from_be from_be_onto piece_bytes message_bytes
    message_payload
program = tt

-- The masked "Hello" of RFC 6455, section 5.7.
abbrev hello : List ℕ
hello = 0x48 ∷ 0x65 ∷ 0x6c ∷ 0x6c ∷ 0x6f ∷ []

abbrev key : List ℕ
key = 0x37 ∷ 0xfa ∷ 0x21 ∷ 0x3d ∷ []

abbrev masked : List ℕ
masked = 0x81 ∷ 0x85 ∷ 0x37 ∷ 0xfa ∷ 0x21 ∷ 0x3d ∷ 0x7f ∷ 0x9f ∷ 0x4d ∷ 0x51 ∷ 0x58 ∷ []

hello-masked : encode_frame 1 hello true key ≡ ok masked
unfolding program
hello-masked = refl

out_of_range : encode_frame 16 hello false [] ≡ err value_error
unfolding program
out_of_range = refl

-- The peer closes before the frame is complete.
short : parse_frame socket 1 (0x81 ∷ 0x05 ∷ 0x48 ∷ []) ≡ some (err frame_parse_error)
unfolding program
short = refl

parse_frame-encode_frame_example :
    (c' : List ℕ) × (parse_frame socket 1 (masked ++ 7 ∷ [])
      ≡ some (ok (record { fin = true; opcode = 1; payload = hello }, c')))
    × (c' ≡ 7 ∷ [])
parse_frame-encode_frame_example =
    parse_frame-encode_frame socket 0 1 hello true key masked (7 ∷ []) (masked ++ 7 ∷ [])
      socket-IsStream refl
      (omega arith, (omega arith, (omega arith, (omega arith, (omega arith, tt))))) hello-masked
      refl

abbrev piece : List ℕ → Piece
piece payload = record { payload = payload; mask = false; key = 0 ∷ 0 ∷ 0 ∷ 0 ∷ [] }

two_pieces :
    message_bytes 1 (piece (1 ∷ []) ∷ []) (piece (2 ∷ [])) ≡ ok (0x01 ∷ 1 ∷ 1 ∷ 0x80 ∷ 1 ∷ 2 ∷ [])
unfolding program
two_pieces = refl

parse_frame-message_bytes_example :
    (c' : List ℕ) × (parse_frame socket 2 (0x01 ∷ 1 ∷ 1 ∷ 0x80 ∷ 1 ∷ 2 ∷ [])
      ≡ some (
          ok (
            record {
              fin = true;
              opcode = 1;
              payload = message_payload (piece (1 ∷ []) ∷ []) (piece (2 ∷ []));
            },
            c',
          )))
    × (c' ≡ [])
parse_frame-message_bytes_example =
    parse_frame-message_bytes socket 2 1 (piece (1 ∷ []) ∷ []) (piece (2 ∷ []))
      (0x01 ∷ 1 ∷ 1 ∷ 0x80 ∷ 1 ∷ 2 ∷ []) [] (0x01 ∷ 1 ∷ 1 ∷ 0x80 ∷ 1 ∷ 2 ∷ []) socket-IsStream
      (omega arith) (omega arith) ((refl, (omega arith, tt)), tt) (refl, (omega arith, tt))
      two_pieces refl

first_piece : piece_bytes false 1 (piece (1 ∷ [])) ≡ ok (0x01 ∷ 1 ∷ 1 ∷ [])
unfolding program
first_piece = refl

ping_frame : piece_bytes true 9 (piece []) ≡ ok (0x89 ∷ 0 ∷ [])
unfolding program
ping_frame = refl

-- A text message that a ping interrupts: the rest is parsed as a message of its own, of opcode 0.
interrupted :
    parse_frame socket 2 (0x01 ∷ 1 ∷ 1 ∷ 0x89 ∷ 0 ∷ 0x80 ∷ 1 ∷ 2 ∷ [])
      ≡ some (ok (record { fin = true; opcode = 9; payload = [] }, 0x80 ∷ 1 ∷ 2 ∷ []))
    × (parse_frame socket 1 (0x80 ∷ 1 ∷ 2 ∷ [])
        ≡ some (ok (record { fin = true; opcode = 0; payload = 2 ∷ [] }, [])))
unfolding program
interrupted = (refl, refl)

parse_frame-piece_bytes_example :
    (c' : List ℕ) × (parse_frame socket 2 (0x01 ∷ 1 ∷ 1 ∷ 0x89 ∷ 0 ∷ 0x80 ∷ [])
      ≡ some (ok (record { fin = true; opcode = 9; payload = [] }, c')))
    × (c' ≡ 0x80 ∷ [])
parse_frame-piece_bytes_example =
    parse_frame-piece_bytes socket 0 1 9 (piece (1 ∷ [])) (piece []) (0x01 ∷ 1 ∷ 1 ∷ [])
      (0x89 ∷ 0 ∷ []) (0x80 ∷ []) (0x01 ∷ 1 ∷ 1 ∷ 0x89 ∷ 0 ∷ 0x80 ∷ []) socket-IsStream
      (omega arith) (omega arith) (refl, (omega arith, tt)) (refl, tt) first_piece ping_frame refl
