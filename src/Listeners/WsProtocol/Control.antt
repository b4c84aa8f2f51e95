-- ===== src/Listeners/WsProtocol/Control.antt =====
-- provider_simulator/listeners/ws_protocol.py: a control frame between the fragments of a message.
use provider_simulator.Base.{
  ℕ, suc, ◌≡◌, ◌≤◌, ◌<◌, refl, ◌∙◌, true, false, none, some, List, [], ◌++◌, arith,
}
use provider_simulator.Base.Results.{ok}
use provider_simulator.Listeners.WsProtocol.{Socket, parse_frame, parse_from, read_frame}
use provider_simulator.Listeners.WsProtocol.Fragments.{
  Piece, IsPiece, piece_bytes, read_piece, next_turn,
}
use provider_simulator.Listeners.WsProtocol.Reading.{IsStream}
use provider_simulator.Listeners.WsProtocol.RoundTrip.{parse_from_frame}

control_turn :
    (socket : Socket) (stream : IsStream socket) (fuel first opcode : ℕ)
    (assembled payload : List ℕ) (c c' : socket.Conn)
    → 8 ≤ opcode
    → read_frame socket c ≡ ok (record { fin = true; opcode = opcode; payload = payload }, c')
    → parse_from socket (suc fuel) (some first) assembled c
      ≡ some (ok (record { fin = true; opcode = opcode; payload = payload }, c'))
control_turn socket stream fuel first opcode assembled payload c c' control got =
    parse_from_frame socket stream fuel (some first) assembled
      (record { fin = true; opcode = opcode; payload = payload }) c c' got
    ∙ ground (arith, control)

-- When a control frame comes between the first fragment of a message and the rest, it alone is the
-- result: the fragment was taken from the socket, and nothing of its payload or of its opcode is in
-- the result or still to come.
pub parse_frame-piece_bytes :
    (socket : Socket) (fuel opcode control : ℕ) (p ping : Piece) (bytes ping_bytes back : List ℕ)
    (c : socket.Conn)
    → IsStream socket
    → opcode < 8
    → 8 ≤ control
    → IsPiece p
    → IsPiece ping
    → piece_bytes false opcode p ≡ ok bytes
    → piece_bytes true control ping ≡ ok ping_bytes
    → socket.pending c ≡ bytes ++ (ping_bytes ++ back)
    → (c' : socket.Conn) × (parse_frame socket (suc (suc fuel)) c
        ≡ some (ok (record { fin = true; opcode = control; payload = ping.payload }, c')))
      × (socket.pending c' ≡ back)
unfolding parse_frame
parse_frame-piece_bytes socket fuel opcode control p ping bytes ping_bytes back c stream is_data
      is_control good good_ping made made_ping pending =
    let (c1, got, left) =
      read_piece socket stream false opcode p bytes (ping_bytes ++ back) c good made pending in
    let (c2, got_ping, left2) =
      read_piece socket stream true control ping ping_bytes back c1 good_ping made_ping left in
    (
      c2,
      next_turn socket stream (suc fuel) none []
            (record { fin = false; opcode = opcode; payload = p.payload }) c c1 got is_data refl
          ∙ control_turn socket stream fuel opcode control p.payload ping.payload c1 c2 is_control
              got_ping,
      left2,
    )
