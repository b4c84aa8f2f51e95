-- ===== src/RespProxy/Threads/Counts.antt =====
-- provider_simulator/resp_proxy.py: the count of the running deliveries, step by step.
use provider_simulator.Base.{
  ℕ, ◌+◌, ◌≡◌, refl, ap, sym, ◌∙◌, Bool, true, false, not, Option, none, some, List, [], ◌∷◌, ◌++◌,
  set, count_if, count_if-set, count_if-append, get_elem?, arith, Bool-cases, if◌then◌else◌, inl,
  inr,
}
use provider_simulator.RespProxy.{
  Kind, timeout, error, Gate, forwarding, shut, Source, router, store, Place, admitted, refused,
  looping, dialing, pumped, ending, ended, pumping, sending, writing, releasing, Conn, Proxy,
  new_proxy, cut_off, end_drain, close_one, restore, reset_counters, accept, shutdown, first_place,
}
use provider_simulator.RespProxy.Threads.{
  Received, nothing, closed, chunk, System, turn, after, received_place, refuse, register, dial,
  send, write, release, reclaim, finish, advance,
}
use provider_simulator.RespProxy.Threads.Steps.{
  Move, accepts, moves, cuts, drains, closes, slows, resets, moved, restores, Reach, here, next,
  is_delivering, is_busy, IsCounted, IsConsistent,
}

-- A place outside a delivery leads to one outside, but where the gate lets a chunk through.
turn_idle :
    (gate : Gate) (gone : Bool) (upstream : Option Bool)
    → is_delivering (turn gate gone upstream) ≡ false
turn_idle (shut error) gone upstream = refl
turn_idle (shut timeout) gone upstream = ground arith
turn_idle forwarding gone none = refl
turn_idle forwarding gone (some is_open) = refl

after_idle : (source : Source) → is_delivering (after source) ≡ false
after_idle router = refl
after_idle store = refl

received_idle : (source : Source) (r : Received) → is_delivering (received_place source r) ≡ false
received_idle source nothing = after_idle source
received_idle source closed = refl
received_idle source chunk = refl

-- To write a connection that stays as busy as it was keeps the count.
same_count :
    (conns : List Conn) (c : ℕ) (conn conn' : Conn)
    → get_elem? conns c ≡ some conn
    → is_busy conn' ≡ is_busy conn
    → count_if is_busy (set conns c conn') ≡ count_if is_busy conns
same_count conns c conn conn' found same =
    let moved = count_if-set is_busy conns c conn conn' found in ground (arith, moved, same)

-- To begin a delivery counts one more, to end one counts one fewer.
one_more :
    (conns : List Conn) (c : ℕ) (conn conn' : Conn)
    → get_elem? conns c ≡ some conn
    → is_busy conn ≡ false
    → is_busy conn' ≡ true
    → count_if is_busy (set conns c conn') ≡ count_if is_busy conns + 1
one_more conns c conn conn' found idle busy =
    let moved = count_if-set is_busy conns c conn conn' found in ground (arith, moved, idle, busy)

pub one_fewer :
    (conns : List Conn) (c : ℕ) (conn conn' : Conn)
    → get_elem? conns c ≡ some conn
    → is_busy conn ≡ true
    → is_busy conn' ≡ false
    → count_if is_busy (set conns c conn') + 1 ≡ count_if is_busy conns
one_fewer conns c conn conn' found busy idle =
    let moved = count_if-set is_busy conns c conn conn' found in ground (arith, moved, idle, busy)

busy_of : (conn : Conn) (place : Place) → conn.place ≡ place → is_busy conn ≡ is_delivering place
busy_of conn place at = ap is_delivering at

-- The thread of a connection, at each place, keeps the count.
send-IsCounted :
    (source : Source) (c : ℕ) (conn : Conn) (p : Proxy)
    → get_elem? p.conns c ≡ some conn
    → conn.place ≡ sending source
    → IsCounted p
    → (gate : Gate) → p.gate ≡ gate
    → IsCounted (send source c conn p)
unfolding send
send-IsCounted source c conn p found at h (shut kind) e =
    rw (e, send)
      (h
        ∙ sym (
            same_count p.conns c conn (record conn { place = after source }) found
              (after_idle source ∙ sym (busy_of conn (sending source) at))))
send-IsCounted source c conn p found at h forwarding e =
    rw (e, send)
      (omega (
        arith,
        h,
        one_more p.conns c conn (record conn { place = writing source }) found
            (busy_of conn (sending source) at) refl,
      ))

release-IsCounted :
    (source : Source) (done : Bool) (c : ℕ) (conn : Conn) (p : Proxy)
    → get_elem? p.conns c ≡ some conn
    → conn.place ≡ releasing source done
    → IsCounted p
    → IsCounted (release source done c conn p)
unfolding release
release-IsCounted source done c conn p found at h =
    let idle : is_delivering (if done then after source else ending) ≡ false =
      elim (Bool-cases done) [ inl on ↦ rw on (after_idle source) | inr off ↦ rw off refl ] in
    let fewer =
      one_fewer p.conns c conn (record conn { place = if done then after source else ending }) found
        (busy_of conn (releasing source done) at) idle in
    omega (arith, h, fewer)

reclaim-IsCounted :
    (gate : Gate) (expired : Bool) (c : ℕ) (conn : Conn) (p : Proxy)
    → get_elem? p.conns c ≡ some conn
    → is_busy conn ≡ false
    → IsCounted p
    → IsCounted (reclaim gate expired c conn p)
unfolding reclaim
reclaim-IsCounted forwarding true c conn p found idle h =
    h ∙ sym (same_count p.conns c conn (record conn { place = ending }) found (sym idle))
reclaim-IsCounted forwarding false c conn p found idle h =
    h ∙ sym (same_count p.conns c conn (record conn { place = looping }) found (sym idle))
reclaim-IsCounted (shut kind) expired c conn p found idle h =
    h ∙ sym (same_count p.conns c conn (record conn { place = looping }) found (sym idle))

advance-IsCounted :
    (os : System) (c : ℕ) (conn : Conn) (p : Proxy)
    → get_elem? p.conns c ≡ some conn
    → IsCounted p
    → (place : Place) → conn.place ≡ place
    → IsCounted (advance os c conn place p)
unfolding advance refuse register dial write finish
advance-IsCounted os c conn p found h refused at =
    h
    ∙ sym (
        same_count p.conns c conn (record (shutdown conn) { place = ended }) found
          (sym (busy_of conn refused at)))
advance-IsCounted os c conn p found h admitted at =
    h
    ∙ sym (
        same_count p.conns c conn (record conn { place = looping }) found
          (sym (busy_of conn admitted at)))
advance-IsCounted os c conn p found h looping at =
    h
    ∙ sym (
        same_count p.conns c conn (record conn { place = turn p.gate os.peer_gone conn.upstream })
          found (turn_idle p.gate os.peer_gone conn.upstream ∙ sym (busy_of conn looping at)))
advance-IsCounted os c conn p found h dialing at = elim (Bool-cases os.dialed) [
  | inl on ↦
      rw (on, dial)
        (h
          ∙ sym (
              same_count p.conns c conn
                (record conn { place = pumping router; upstream = some true }) found
                (sym (busy_of conn dialing at))))
  | inr off ↦
      rw (off, dial)
        (h
          ∙ sym (
              same_count p.conns c conn (record conn { place = ending }) found
                (sym (busy_of conn dialing at))))
]
advance-IsCounted os c conn p found h (pumping source) at =
    h
    ∙ sym (
        same_count p.conns c conn (record conn { place = received_place source os.received }) found
          (received_idle source os.received ∙ sym (busy_of conn (pumping source) at)))
advance-IsCounted os c conn p found h (sending source) at =
    send-IsCounted source c conn p found at h p.gate refl
advance-IsCounted os c conn p found h (writing source) at =
    h
    ∙ sym (
        same_count p.conns c conn (record conn { place = releasing source (not os.raised) }) found
          (sym (busy_of conn (writing source) at)))
advance-IsCounted os c conn p found h (releasing source done) at =
    release-IsCounted source done c conn p found at h
advance-IsCounted os c conn p found h pumped at =
    reclaim-IsCounted p.gate os.expired c conn p found (busy_of conn pumped at) h
advance-IsCounted os c conn p found h ending at =
    h
    ∙ sym (
        same_count p.conns c conn (record (shutdown conn) { place = ended }) found
          (sym (busy_of conn ending at)))
advance-IsCounted os c conn p found h ended at = h

first_idle : (gate : Gate) → is_delivering (first_place gate) ≡ false
first_idle forwarding = refl
first_idle (shut timeout) = refl
first_idle (shut error) = refl

dial_frame :
    (dialed : Bool) (c : ℕ) (conn : Conn) (p : Proxy)
    → ((dial dialed c conn p).gate ≡ p.gate) × ((dial dialed c conn p).draining ≡ p.draining)
unfolding dial
dial_frame true c conn p = (refl, refl)
dial_frame false c conn p = (refl, refl)

send_frame :
    (source : Source) (c : ℕ) (conn : Conn) (p : Proxy) (gate : Gate)
    → p.gate ≡ gate
    → ((send source c conn p).gate ≡ p.gate) × ((send source c conn p).draining ≡ p.draining)
unfolding send
send_frame source c conn p (shut kind) e = rw (e, send) (e, refl)
send_frame source c conn p forwarding e = rw (e, send) (e, refl)

reclaim_frame :
    (gate : Gate) (expired : Bool) (c : ℕ) (conn : Conn) (p : Proxy)
    → ((reclaim gate expired c conn p).gate ≡ p.gate)
      × ((reclaim gate expired c conn p).draining ≡ p.draining)
unfolding reclaim
reclaim_frame forwarding true c conn p = (refl, refl)
reclaim_frame forwarding false c conn p = (refl, refl)
reclaim_frame (shut kind) expired c conn p = (refl, refl)

-- The thread of a connection moves neither the gate nor the call that drains.
pub advance_frame :
    (os : System) (c : ℕ) (conn : Conn) (place : Place) (p : Proxy)
    → ((advance os c conn place p).gate ≡ p.gate)
      × ((advance os c conn place p).draining ≡ p.draining)
unfolding advance refuse register write release finish
advance_frame os c conn refused p = (refl, refl)
advance_frame os c conn admitted p = (refl, refl)
advance_frame os c conn looping p = (refl, refl)
advance_frame os c conn dialing p = dial_frame os.dialed c conn p
advance_frame os c conn (pumping source) p = (refl, refl)
advance_frame os c conn (sending source) p = send_frame source c conn p p.gate refl
advance_frame os c conn (writing source) p = (refl, refl)
advance_frame os c conn (releasing source done) p = (refl, refl)
advance_frame os c conn pumped p = reclaim_frame p.gate os.expired c conn p
advance_frame os c conn ending p = (refl, refl)
advance_frame os c conn ended p = (refl, refl)

advance-IsConsistent :
    (os : System) (c : ℕ) (conn : Conn) (p : Proxy)
    → get_elem? p.conns c ≡ some conn
    → IsConsistent p
    → IsConsistent (advance os c conn conn.place p)
advance-IsConsistent os c conn p found h =
    let (gate, draining) = advance_frame os c conn conn.place p in
    record {
      counted = advance-IsCounted os c conn p found h.counted conn.place refl;
      held = λ kind live e. gate ∙ h.held kind live (sym draining ∙ e);
    }

accept-IsConsistent : (p : Proxy) → IsConsistent p → IsConsistent (accept p)
unfolding accept
accept-IsConsistent p h = record {
  counted =
      let fresh =
        count_if-append is_busy p.conns
          (record { place = first_place p.gate; downstream_open = true; upstream = none } ∷ []) in
      let idle = first_idle p.gate in ground (arith, h.counted, fresh, idle);
  held = h.held;
}

cut_off-IsConsistent : (kind : Kind) (p : Proxy) → IsConsistent p → IsConsistent (cut_off kind p)
unfolding cut_off
cut_off-IsConsistent kind p h = record { counted = h.counted; held = λ kind' live e. cc }

close_one-IsConsistent :
    (c : ℕ) (conn : Conn) (rest : List ℕ) (p : Proxy)
    → get_elem? p.conns c ≡ some conn
    → IsConsistent p
    → IsConsistent (close_one c conn rest p)
unfolding close_one
close_one-IsConsistent c conn rest p found h = record {
  counted = h.counted ∙ sym (same_count p.conns c conn (shutdown conn) found refl);
  held = h.held;
}

pub Move-IsConsistent : {p p' : Proxy} → Move p p' → IsConsistent p → IsConsistent p'
unfolding end_drain reset_counters
Move-IsConsistent {p} accepts h = accept-IsConsistent p h
Move-IsConsistent {p} (moves os c conn found) h = advance-IsConsistent os c conn p found h
Move-IsConsistent {p} (cuts kind free) h = cut_off-IsConsistent kind p h
Move-IsConsistent {p} (drains kind live e over) h = record {
  counted = h.counted;
  held = λ kind' live' e'. cc;
}
Move-IsConsistent {p} (closes before c rest conn e found) h =
    close_one-IsConsistent c conn (before ++ rest) p found h
Move-IsConsistent {p} (slows latency_ms) h = record { counted = h.counted; held = h.held }
Move-IsConsistent {p} resets h = record { counted = h.counted; held = h.held }

-- In every interleaving the count that a cut-off waits on is the number of the running deliveries,
-- and while a cut-off waits the gate is shut its way.
pub Reach-IsConsistent : {p : Proxy} → Reach new_proxy p → IsConsistent p
unfolding restore
Reach-IsConsistent here = record { counted = refl; held = λ kind live e. cc }
Reach-IsConsistent (next run (moved m)) = Move-IsConsistent m (Reach-IsConsistent run)
Reach-IsConsistent {p} (next run (restores free)) =
    let h = Reach-IsConsistent run in record { counted = h.counted; held = λ kind live e. cc }
