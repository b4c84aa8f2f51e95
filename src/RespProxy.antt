-- ===== src/RespProxy.antt =====
-- provider_simulator/resp_proxy.py: the proxy between the router and its RESP store. A hold of the
-- lock is one function on the state of the proxy; a connection is the place that its thread has
-- reached, with its two sockets. A thread's place is its number in `conns`, and `live` holds those
-- numbers. What the operating system answers a thread is an argument. `written` counts the writes
-- to a socket, for the statements alone.
pub mod Threads
pub mod Proxies
mod Tests
use provider_simulator.Base.{
  ℕ, ◌+◌, ◌-◌, String, Bool, true, false, not, Option, none, some, List, [], ◌∷◌, ◌++◌, length, set,
  select, nat_eq, ◌==◌, if◌then◌else◌,
}
use provider_simulator.Base.Int.{ℤ, pos, negsuc}
use provider_simulator.Base.Results.{Result, ok, err, value_error}

-- CUT_OFF_KINDS
pub data Kind : Type 0 where
  timeout error : Kind

pub data Gate : Type 0 where
  forwarding : Gate
  shut : Kind → Gate

pub record ProxyCounters : Type 0 where
  pub accepted : ℕ
  pub forwarded : ℕ
  pub carried : ℕ
  pub closed_by_cut_off : ℕ
  pub closed_when_idle : ℕ

abbrev pub new_counters : ProxyCounters
new_counters = record {
  accepted = 0;
  forwarded = 0;
  carried = 0;
  closed_by_cut_off = 0;
  closed_when_idle = 0;
}

-- Which socket a pump reads: the router's first, then the store's.
pub data Source : Type 0 where
  router store : Source

-- Where the thread of a connection stands, in serve, _carry, _pump_once and _send_if_forwarding.
pub data Place : Type 0 where
  admitted refused looping dialing pumped ending ended : Place
  pumping sending writing : Source → Place
  releasing : Source → Bool → Place

pub record Conn : Type 0 where
  pub place : Place
  pub downstream_open : Bool
  pub upstream : Option Bool

-- `draining` is the call of cut_off that holds _transitions and waits, with its kind and the
-- connections that were live when it was made. `closing` holds the connections that calls which
-- stopped waiting have still to close.
pub record Proxy : Type 0 where
  pub gate : Gate
  pub latency_ms : ℕ
  pub live : List ℕ
  pub counters : ProxyCounters
  pub delivering : ℕ
  pub draining : Option (Kind × List ℕ)
  pub closing : List ℕ
  pub conns : List Conn
  pub written : ℕ

abbrev pub new_proxy : Proxy
new_proxy = record {
  gate = forwarding;
  latency_ms = 0;
  live = [];
  counters = new_counters;
  delivering = 0;
  draining = none;
  closing = [];
  conns = [];
  written = 0;
}

-- The check of cut_off: a kind outside CUT_OFF_KINDS raises UnknownCutOffKind.
unfoldable pub cut_off_kind : String → Result Kind
cut_off_kind name =
    if name == "timeout" then ok timeout else if name == "error" then ok error else err value_error

-- set_latency; a negative one raises NegativeLatency.
unfoldable pub set_latency : ℤ → Proxy → Result (ℕ × Proxy)
set_latency (negsuc n) p = err value_error
set_latency (pos n) p = ok (n, record p { latency_ms = n })

-- The connections that cut_off counts at once as closed by it.
abbrev pub counted : Kind → List ℕ → ℕ
counted timeout live = 0
counted error live = length live

-- cut_off, up to the wait.
unfoldable pub cut_off : Kind → Proxy → Proxy
cut_off kind p = record p {
  gate = shut kind;
  counters = record p.counters {
    closed_by_cut_off = p.counters.closed_by_cut_off + counted kind p.live;
  };
  draining = some (kind, p.live);
}

abbrev pub to_close : Kind → List ℕ → List ℕ
to_close timeout live = []
to_close error live = live

-- cut_off, when no delivery runs any more: it lets the locks go.
unfoldable pub end_drain : Kind → List ℕ → Proxy → Proxy
end_drain kind live p = record p { draining = none; closing = p.closing ++ to_close kind live }

abbrev pub shut_upstream : Option Bool → Option Bool
shut_upstream none = none
shut_upstream (some is_open) = some false

-- _shutdown of both sockets of a connection
abbrev pub shutdown : Conn → Conn
shutdown conn = record conn { downstream_open = false; upstream = shut_upstream conn.upstream }

-- cut_off closes one connection of its snapshot.
unfoldable pub close_one : ℕ → Conn → List ℕ → Proxy → Proxy
close_one c conn rest p = record p { closing = rest; conns = set p.conns c (shutdown conn) }

unfoldable pub restore : Proxy → Proxy
restore p = record p { gate = forwarding }

unfoldable pub reset_counters : Proxy → Proxy
reset_counters p = record p { counters = new_counters }

abbrev pub live_connections : Proxy → ℕ
live_connections p = length p.live

abbrev pub first_place : Gate → Place
first_place (shut error) = refused
first_place gate = admitted

-- serve, up to its first test: the thread has counted the connection and read the gate.
unfoldable pub accept : Proxy → Proxy
accept p = record p {
  counters = record p.counters { accepted = p.counters.accepted + 1 };
  conns =
      p.conns
      ++ record { place = first_place p.gate; downstream_open = true; upstream = none } ∷ [];
}
