-- ===== src/RespProxy/Threads/Steps.antt =====
-- provider_simulator/resp_proxy.py: the interleavings of the threads of the connections, the callers
-- of cut_off and restore, and the other callers; and what holds between any two of their steps.
use provider_simulator.Base.{
  ℕ, ◌≡◌, Bool, true, false, none, some, List, ◌∷◌, ◌++◌, count_if, get_elem?,
}
use provider_simulator.RespProxy.{
  Kind, shut, Place, writing, releasing, Conn, Proxy, cut_off, end_drain, close_one, restore,
  reset_counters, accept,
}
use provider_simulator.RespProxy.Threads.{System, advance}

-- Every step but that of restore. A call of cut_off takes _transitions, and lets it go when it has
-- waited; the callers that closed the snapshot of theirs do so in any order.
pub data Move (p : Proxy) : Proxy → Type 0 where
  accepts : Move p (accept p)
  moves :
      (os : System) (c : ℕ) (conn : Conn)
      → get_elem? p.conns c ≡ some conn
      → Move p (advance os c conn conn.place p)
  cuts : (kind : Kind) → p.draining ≡ none → Move p (cut_off kind p)
  drains :
      (kind : Kind) (live : List ℕ)
      → p.draining ≡ some (kind, live)
      → p.delivering ≡ 0
      → Move p (end_drain kind live p)
  closes :
      (before : List ℕ) (c : ℕ) (rest : List ℕ) (conn : Conn)
      → p.closing ≡ before ++ c ∷ rest
      → get_elem? p.conns c ≡ some conn
      → Move p (close_one c conn (before ++ rest) p)
  slows : (latency_ms : ℕ) → Move p (record p { latency_ms = latency_ms })
  resets : Move p (reset_counters p)

-- restore waits for _transitions.
pub data Step (p : Proxy) : Proxy → Type 0 where
  moved : {p' : Proxy} → Move p p' → Step p p'
  restores : p.draining ≡ none → Step p (restore p)

pub data Reach (start : Proxy) : Proxy → Type 0 where
  here : Reach start start
  next : {p p' : Proxy} → Reach start p → Step p p' → Reach start p'

-- A run without a step of restore.
pub data Calm (start : Proxy) : Proxy → Type 0 where
  still : Calm start start
  later : {p p' : Proxy} → Calm start p → Move p p' → Calm start p'

-- A delivery was counted and not yet discounted.
abbrev pub is_delivering : Place → Bool
is_delivering (writing source) = true
is_delivering (releasing source done) = true
is_delivering _ = false

abbrev pub is_busy : Conn → Bool
is_busy conn = is_delivering conn.place

abbrev pub IsCounted : Proxy → Type 0
IsCounted p = p.delivering ≡ count_if is_busy p.conns

-- The count of the deliveries is right, and a call that drains has the gate shut its way.
pub record IsConsistent (p : Proxy) : Type 0 where
  pub counted : IsCounted p
  pub held : (kind : Kind) (live : List ℕ) → p.draining ≡ some (kind, live) → p.gate ≡ shut kind
