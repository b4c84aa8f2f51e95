-- ===== src/RespProxy/Threads/LiveSet.antt =====
-- provider_simulator/resp_proxy.py: the set of the live connections.
use provider_simulator.Base.{
  ℕ, ◌≡◌, refl, ap, sym, ◌∙◌, Bool, true, false, not, Option, none, some, List, [], ◌∷◌, ◌++◌, set,
  get_elem?, arith, zero, suc, any, select, nat_eq, nat_eq_iff, Bool-cases, if◌then◌else◌, inl, inr,
}
use provider_simulator.RespProxy.{
  timeout, error, Gate, forwarding, shut, Source, router, store, Place, admitted, refused, looping,
  dialing, pumped, ending, ended, pumping, sending, writing, releasing, Conn, Proxy, new_proxy,
  cut_off, end_drain, close_one, restore, reset_counters, accept, shutdown, first_place,
}
use provider_simulator.RespProxy.Threads.{
  Received, nothing, closed, chunk, System, turn, after, received_place, refuse, register, dial,
  send, write, release, reclaim, finish, advance,
}
use provider_simulator.RespProxy.Threads.Steps.{
  Move, accepts, moves, cuts, drains, closes, slows, resets, moved, restores, Reach, here, next,
}

-- The places between the registration of a connection and the end of its thread.
abbrev pub is_carried : Place → Bool
is_carried admitted = false
is_carried refused = false
is_carried ended = false
is_carried _ = true

abbrev pub carried_at : Option Conn → Bool
carried_at none = false
carried_at (some conn) = is_carried conn.place

-- c in self._live
abbrev pub is_live : ℕ → List ℕ → Bool
is_live c live = any (λ d. nat_eq d c) live

-- A connection is in the set when its thread carries it.
abbrev pub IsLive : Proxy → Type 0
IsLive p = (c : ℕ) → is_live c p.live ≡ carried_at (get_elem? p.conns c)

carried-set :
    (conns : List Conn) (c d : ℕ) (conn conn' : Conn)
    → get_elem? conns c ≡ some conn
    → carried_at (get_elem? (set conns c conn') d)
      ≡ (if nat_eq c d then is_carried conn'.place else carried_at (get_elem? conns d))
carried-set [] c d conn conn' found = cc
carried-set (x ∷ xs) zero zero conn conn' found = refl
carried-set (x ∷ xs) zero (suc d) conn conn' found = ground arith
carried-set (x ∷ xs) (suc c) zero conn conn' found = ground arith
carried-set (x ∷ xs) (suc c) (suc d) conn conn' found =
    ground (arith, carried-set xs c d conn conn' found, nat_eq_iff c d, nat_eq_iff (suc c) (suc d))

carried-append :
    (conns : List Conn) (conn : Conn) (d : ℕ)
    → is_carried conn.place ≡ false
    → carried_at (get_elem? (conns ++ conn ∷ []) d) ≡ carried_at (get_elem? conns d)
carried-append [] conn zero fresh = fresh
carried-append [] conn (suc d) fresh = refl
carried-append (x ∷ xs) conn zero fresh = refl
carried-append (x ∷ xs) conn (suc d) fresh = carried-append xs conn d fresh

is_live-select :
    (live : List ℕ) (c d : ℕ)
    → is_live d (select (λ e. not (nat_eq e c)) live)
      ≡ (if nat_eq c d then false else is_live d live)
is_live-select [] c d = ground arith
is_live-select (e ∷ live) c d =
    ground (arith, nat_eq_iff c d, nat_eq_iff e c, nat_eq_iff e d, is_live-select live c d)

at_place :
    (conns : List Conn) (c d : ℕ) (conn : Conn)
    → get_elem? conns c ≡ some conn
    → nat_eq c d ≡ true
    → carried_at (get_elem? conns d) ≡ is_carried conn.place
at_place conns c d conn found same =
    ap (λ (i : ℕ). carried_at (get_elem? conns i)) (sym ((nat_eq_iff c d).0 same))
    ∙ ap carried_at found

-- To write a connection that stays carried, or stays not carried, keeps the set right.
kept :
    (conns : List Conn) (c d : ℕ) (conn conn' : Conn)
    → get_elem? conns c ≡ some conn
    → is_carried conn'.place ≡ is_carried conn.place
    → carried_at (get_elem? (set conns c conn') d) ≡ carried_at (get_elem? conns d)
kept conns c d conn conn' found same = elim (Bool-cases (nat_eq c d)) [
  | inl hit ↦
      carried-set conns c d conn conn' found
      ∙ ap (λ (b : Bool). if b then is_carried conn'.place else carried_at (get_elem? conns d)) hit
      ∙ same
      ∙ sym (at_place conns c d conn found hit)
  | inr missed ↦
      carried-set conns c d conn conn' found
      ∙ ap (λ (b : Bool). if b then is_carried conn'.place else carried_at (get_elem? conns d))
          missed
]

register-IsLive :
    (c : ℕ) (conn : Conn) (p : Proxy)
    → get_elem? p.conns c ≡ some conn
    → IsLive p
    → IsLive (register c conn p)
unfolding register
register-IsLive c conn p found h d =
    ground (arith, carried-set p.conns c d conn (record conn { place = looping }) found, h d)

finish-IsLive :
    (c : ℕ) (conn : Conn) (p : Proxy)
    → get_elem? p.conns c ≡ some conn
    → IsLive p
    → IsLive (finish c conn p)
unfolding finish
finish-IsLive c conn p found h d = ground (
  arith,
  carried-set p.conns c d conn (record (shutdown conn) { place = ended }) found,
  is_live-select p.live c d,
  h d,
)

after_carried : (source : Source) → is_carried (after source) ≡ true
after_carried router = refl
after_carried store = refl

turn_carried :
    (gate : Gate) (gone : Bool) (upstream : Option Bool)
    → is_carried (turn gate gone upstream) ≡ true
turn_carried (shut error) gone upstream = refl
turn_carried (shut timeout) true upstream = refl
turn_carried (shut timeout) false upstream = refl
turn_carried forwarding gone none = refl
turn_carried forwarding gone (some is_open) = refl

received_carried : (source : Source) (r : Received) → is_carried (received_place source r) ≡ true
received_carried source nothing = after_carried source
received_carried source closed = refl
received_carried source chunk = refl

release_carried :
    (source : Source) (done : Bool) → is_carried (if done then after source else ending) ≡ true
release_carried source true = after_carried source
release_carried source false = refl

dial-IsLive :
    (dialed : Bool) (c : ℕ) (conn : Conn) (p : Proxy)
    → get_elem? p.conns c ≡ some conn
    → is_carried conn.place ≡ true
    → IsLive p
    → IsLive (dial dialed c conn p)
unfolding dial
dial-IsLive true c conn p found on h d =
    h d
    ∙ sym (
        kept p.conns c d conn (record conn { place = pumping router; upstream = some true }) found
          (sym on))
dial-IsLive false c conn p found on h d =
    h d ∙ sym (kept p.conns c d conn (record conn { place = ending }) found (sym on))

send-IsLive :
    (source : Source) (c : ℕ) (conn : Conn) (p : Proxy)
    → get_elem? p.conns c ≡ some conn
    → is_carried conn.place ≡ true
    → IsLive p
    → (gate : Gate) → p.gate ≡ gate
    → IsLive (send source c conn p)
unfolding send
send-IsLive source c conn p found on h (shut kind) e =
    rw (e, send)
      (λ d.
        h d
        ∙ sym (
            kept p.conns c d conn (record conn { place = after source }) found
              (after_carried source ∙ sym on)))
send-IsLive source c conn p found on h forwarding e =
    rw (e, send)
      (λ d.
        h d ∙ sym (kept p.conns c d conn (record conn { place = writing source }) found (sym on)))

reclaim-IsLive :
    (gate : Gate) (expired : Bool) (c : ℕ) (conn : Conn) (p : Proxy)
    → get_elem? p.conns c ≡ some conn
    → is_carried conn.place ≡ true
    → IsLive p
    → IsLive (reclaim gate expired c conn p)
unfolding reclaim
reclaim-IsLive forwarding true c conn p found on h d =
    h d ∙ sym (kept p.conns c d conn (record conn { place = ending }) found (sym on))
reclaim-IsLive forwarding false c conn p found on h d =
    h d ∙ sym (kept p.conns c d conn (record conn { place = looping }) found (sym on))
reclaim-IsLive (shut kind) expired c conn p found on h d =
    h d ∙ sym (kept p.conns c d conn (record conn { place = looping }) found (sym on))

advance-IsLive :
    (os : System) (c : ℕ) (conn : Conn) (p : Proxy)
    → get_elem? p.conns c ≡ some conn
    → IsLive p
    → (place : Place) → conn.place ≡ place
    → IsLive (advance os c conn place p)
unfolding advance refuse write release
advance-IsLive os c conn p found h refused at d =
    h d
    ∙ sym (
        kept p.conns c d conn (record (shutdown conn) { place = ended }) found
          (sym (ap is_carried at)))
advance-IsLive os c conn p found h admitted at d = register-IsLive c conn p found h d
advance-IsLive os c conn p found h looping at d =
    h d
    ∙ sym (
        kept p.conns c d conn (record conn { place = turn p.gate os.peer_gone conn.upstream }) found
          (turn_carried p.gate os.peer_gone conn.upstream ∙ sym (ap is_carried at)))
advance-IsLive os c conn p found h dialing at d =
    dial-IsLive os.dialed c conn p found (ap is_carried at) h d
advance-IsLive os c conn p found h (pumping source) at d =
    h d
    ∙ sym (
        kept p.conns c d conn (record conn { place = received_place source os.received }) found
          (received_carried source os.received ∙ sym (ap is_carried at)))
advance-IsLive os c conn p found h (sending source) at d =
    send-IsLive source c conn p found (ap is_carried at) h p.gate refl d
advance-IsLive os c conn p found h (writing source) at d =
    h d
    ∙ sym (
        kept p.conns c d conn (record conn { place = releasing source (not os.raised) }) found
          (sym (ap is_carried at)))
advance-IsLive os c conn p found h (releasing source done) at d =
    h d
    ∙ sym (
        kept p.conns c d conn (record conn { place = if done then after source else ending }) found
          (release_carried source done ∙ sym (ap is_carried at)))
advance-IsLive os c conn p found h pumped at d =
    reclaim-IsLive p.gate os.expired c conn p found (ap is_carried at) h d
advance-IsLive os c conn p found h ending at d = finish-IsLive c conn p found h d
advance-IsLive os c conn p found h ended at d = h d

first_fresh : (gate : Gate) → is_carried (first_place gate) ≡ false
first_fresh forwarding = refl
first_fresh (shut timeout) = refl
first_fresh (shut error) = refl

Move-IsLive : {p p' : Proxy} → Move p p' → IsLive p → IsLive p'
unfolding accept cut_off end_drain close_one reset_counters
Move-IsLive {p} accepts h d =
    h d
    ∙ sym (
        carried-append p.conns
          (record { place = first_place p.gate; downstream_open = true; upstream = none }) d
          (first_fresh p.gate))
Move-IsLive {p} (moves os c conn found) h d = advance-IsLive os c conn p found h conn.place refl d
Move-IsLive (cuts kind free) h d = h d
Move-IsLive (drains kind live e over) h d = h d
Move-IsLive {p} (closes before c rest conn e found) h d =
    h d ∙ sym (kept p.conns c d conn (shutdown conn) found refl)
Move-IsLive (slows latency_ms) h d = h d
Move-IsLive resets h d = h d

-- In every interleaving the set of the live connections is that of the connections that a thread
-- has registered and not yet finished, so a cut-off finds each of them in the set.
pub Reach-IsLive : {p : Proxy} → Reach new_proxy p → IsLive p
unfolding restore
Reach-IsLive here = λ d. refl
Reach-IsLive (next run (moved m)) = Move-IsLive m (Reach-IsLive run)
Reach-IsLive (next run (restores free)) = Reach-IsLive run
