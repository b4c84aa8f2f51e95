-- ===== src/RespProxy/Threads.antt =====
-- provider_simulator/resp_proxy.py: the thread of a connection, from one hold of the lock, or one
-- call of the operating system, to the next.
pub mod Steps
pub mod Counts
pub mod LiveSet
pub mod Drain
pub mod Quiet
use provider_simulator.Base.{
  ℕ, ◌+◌, ◌-◌, Bool, true, false, not, Option, none, some, List, [], ◌∷◌, set, select, nat_eq,
  if◌then◌else◌,
}
use provider_simulator.RespProxy.{
  Gate, forwarding, shut, Kind, timeout, error, ProxyCounters, Source, router, store, Place,
  admitted, refused, looping, dialing, pumped, ending, ended, pumping, sending, writing, releasing,
  Conn, Proxy, shutdown,
}

-- recv: it timed out, it gave nothing or raised, it gave a chunk
pub data Received : Type 0 where
  nothing closed chunk : Received

-- What the operating system answers: whether the router has gone, whether the store was reached,
-- what a read gave, whether a write raised, and whether the idle limit has passed.
pub record System : Type 0 where
  pub peer_gone : Bool
  pub dialed : Bool
  pub received : Received
  pub raised : Bool
  pub expired : Bool

abbrev pub to : Place → Conn → Conn
to place conn = record conn { place = place }

-- The thread `c` goes on, and nothing else changes.
abbrev pub go : ℕ → Conn → Proxy → Proxy
go c conn p = record p { conns = set p.conns c conn }

-- serve: a connection that met an `error` gate is counted and closed, another one is registered.
unfoldable pub refuse : ℕ → Conn → Proxy → Proxy
refuse c conn p = record (go c (to ended (shutdown conn)) p) {
  counters = record p.counters { closed_by_cut_off = p.counters.closed_by_cut_off + 1 };
}

unfoldable pub register : ℕ → Conn → Proxy → Proxy
register c conn p = record (go c (to looping conn) p) {
  live = c ∷ p.live;
  counters = record p.counters { carried = p.counters.carried + 1 };
}

-- Where a turn of _carry leads.
abbrev pub turn : Gate → Bool → Option Bool → Place
turn (shut error) gone upstream = ending
turn (shut timeout) gone upstream = if gone then ending else looping
turn forwarding gone none = dialing
turn forwarding gone (some is_open) = pumping router

-- _dial
unfoldable pub dial : Bool → ℕ → Conn → Proxy → Proxy
dial false c conn p = go c (to ending conn) p
dial true c conn p =
    record (go c (record conn { place = pumping router; upstream = some true }) p) {
      counters = record p.counters { forwarded = p.counters.forwarded + 1 };
    }

-- The place after a source has been served.
abbrev pub after : Source → Place
after router = pumping store
after store = pumped

abbrev pub received_place : Source → Received → Place
received_place source nothing = after source
received_place source closed = ending
received_place source chunk = sending source

-- _send_if_forwarding, at the gate: the chunk is dropped, or its write is counted.
unfoldable pub send : Source → ℕ → Conn → Proxy → Proxy
send source c conn p = elim p.gate [
  | shut kind ↦ go c (to (after source) conn) p
  | forwarding ↦ record (go c (to (writing source) conn) p) { delivering = p.delivering + 1 }
]

-- The write, which can raise.
unfoldable pub write : Source → Bool → ℕ → Conn → Proxy → Proxy
write source raised c conn p = record (go c (to (releasing source (not raised)) conn) p) {
  written = p.written + 1;
}

-- The `finally` of _send_if_forwarding.
unfoldable pub release : Source → Bool → ℕ → Conn → Proxy → Proxy
release source done c conn p = record (go c (to (if done then after source else ending) conn) p) {
  delivering = p.delivering - 1;
}

-- A connection past the idle limit is given up when the gate, read again, forwards.
unfoldable pub reclaim : Gate → Bool → ℕ → Conn → Proxy → Proxy
reclaim forwarding true c conn p = record (go c (to ending conn) p) {
  counters = record p.counters { closed_when_idle = p.counters.closed_when_idle + 1 };
}
reclaim gate expired c conn p = go c (to looping conn) p

-- The `finally` of serve.
unfoldable pub finish : ℕ → Conn → Proxy → Proxy
finish c conn p = record (go c (to ended (shutdown conn)) p) {
  live = select (λ d. not (nat_eq d c)) p.live;
}

-- What the thread `c`, at a place, does next.
unfoldable pub advance : System → ℕ → Conn → Place → Proxy → Proxy
unfolding refuse register dial send write release reclaim finish
advance os c conn refused p = refuse c conn p
advance os c conn admitted p = register c conn p
advance os c conn looping p = go c (to (turn p.gate os.peer_gone conn.upstream) conn) p
advance os c conn dialing p = dial os.dialed c conn p
advance os c conn (pumping source) p = go c (to (received_place source os.received) conn) p
advance os c conn (sending source) p = send source c conn p
advance os c conn (writing source) p = write source os.raised c conn p
advance os c conn (releasing source done) p = release source done c conn p
advance os c conn pumped p = reclaim p.gate os.expired c conn p
advance os c conn ending p = finish c conn p
advance os c conn ended p = p
