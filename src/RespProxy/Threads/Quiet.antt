-- ===== src/RespProxy/Threads/Quiet.antt =====
-- provider_simulator/resp_proxy.py: what a cut-off that has answered promises.
use provider_simulator.Base.{
  ℕ, ◌≡◌, refl, ap, ◌∙◌, Bool, true, false, some, List, get_elem?, arith, ◌≤◌,
}
use provider_simulator.RespProxy.{
  Kind, Gate, forwarding, shut, Source, Place, admitted, refused, looping, dialing, pumped, ending,
  ended, pumping, sending, writing, releasing, Conn, Proxy, new_proxy, cut_off, end_drain,
  close_one, reset_counters, accept,
}
use provider_simulator.RespProxy.Threads.{
  System, refuse, register, dial, send, reclaim, finish, advance,
}
use provider_simulator.RespProxy.Threads.Steps.{
  Move, accepts, moves, cuts, drains, closes, slows, resets, Reach, Calm, still, later,
  is_delivering, is_busy, IsCounted, IsConsistent,
}
use provider_simulator.RespProxy.Threads.Counts.{
  one_fewer, advance_frame, Move-IsConsistent, Reach-IsConsistent,
}

-- The gate is shut and no delivery runs.
pub record IsQuiet (p : Proxy) : Type 0 where
  pub kind : Kind
  pub gate : p.gate ≡ shut kind
  pub over : p.delivering ≡ 0
  pub consistent : IsConsistent p

-- Nothing is written from one state to another, and no connection given up as idle.
pub record IsSilent (p p' : Proxy) : Type 0 where
  pub written : p'.written ≡ p.written
  pub idle : p'.counters.closed_when_idle ≤ p.counters.closed_when_idle

silent : (p : Proxy) → IsSilent p p
silent p = record { written = refl; idle = omega arith }

none_busy :
    (c : ℕ) (conn : Conn) (p : Proxy)
    → get_elem? p.conns c ≡ some conn
    → IsCounted p
    → p.delivering ≡ 0
    → is_busy conn ≡ true
    → ⊥
none_busy c conn p found counted over busy =
    let fewer = one_fewer p.conns c conn (record conn { place = ended }) found busy refl in
    omega (arith, fewer, counted, over)

dial-IsSilent :
    (dialed : Bool) (c : ℕ) (conn : Conn) (p : Proxy)
    → ((dial dialed c conn p).delivering ≡ p.delivering) × IsSilent p (dial dialed c conn p)
unfolding dial
dial-IsSilent true c conn p = (refl, record { written = refl; idle = omega arith })
dial-IsSilent false c conn p = (refl, record { written = refl; idle = omega arith })

send-IsSilent :
    (source : Source) (c : ℕ) (conn : Conn) (p : Proxy) (kind : Kind)
    → p.gate ≡ shut kind
    → ((send source c conn p).delivering ≡ p.delivering) × IsSilent p (send source c conn p)
unfolding send
send-IsSilent source c conn p kind e =
    rw (e, send) (refl, record { written = refl; idle = omega arith })

reclaim-IsSilent :
    (gate : Gate) (expired : Bool) (c : ℕ) (conn : Conn) (p : Proxy) (kind : Kind)
    → gate ≡ shut kind
    → ((reclaim gate expired c conn p).delivering ≡ p.delivering)
      × IsSilent p (reclaim gate expired c conn p)
unfolding reclaim
reclaim-IsSilent (shut kind') expired c conn p kind e =
    (refl, record { written = refl; idle = omega arith })
reclaim-IsSilent forwarding expired c conn p kind e = cc

advance-IsSilent :
    (os : System) (c : ℕ) (conn : Conn) (p : Proxy)
    → get_elem? p.conns c ≡ some conn
    → IsQuiet p
    → (place : Place) → conn.place ≡ place
    → ((advance os c conn place p).delivering ≡ p.delivering)
      × IsSilent p (advance os c conn place p)
unfolding advance refuse register finish
advance-IsSilent os c conn p found h refused at =
    (refl, record { written = refl; idle = omega arith })
advance-IsSilent os c conn p found h admitted at =
    (refl, record { written = refl; idle = omega arith })
advance-IsSilent os c conn p found h looping at =
    (refl, record { written = refl; idle = omega arith })
advance-IsSilent os c conn p found h dialing at = dial-IsSilent os.dialed c conn p
advance-IsSilent os c conn p found h (pumping source) at =
    (refl, record { written = refl; idle = omega arith })
advance-IsSilent os c conn p found h (sending source) at =
    send-IsSilent source c conn p h.kind h.gate
advance-IsSilent os c conn p found h (writing source) at =
    absurd (none_busy c conn p found h.consistent.counted h.over (ap is_delivering at))
advance-IsSilent os c conn p found h (releasing source done) at =
    absurd (none_busy c conn p found h.consistent.counted h.over (ap is_delivering at))
advance-IsSilent os c conn p found h pumped at =
    reclaim-IsSilent p.gate os.expired c conn p h.kind h.gate
advance-IsSilent os c conn p found h ending at =
    (refl, record { written = refl; idle = omega arith })
advance-IsSilent os c conn p found h ended at = (refl, silent p)

Move-IsSilent :
    {p p' : Proxy}
    → Move p p'
    → IsQuiet p
    → ((kind : Kind) × (p'.gate ≡ shut kind)) × (p'.delivering ≡ 0) × IsSilent p p'
unfolding accept cut_off end_drain close_one reset_counters
Move-IsSilent accepts h = ((h.kind, h.gate), h.over, record { written = refl; idle = omega arith })
Move-IsSilent {p} (moves os c conn found) h =
    let (same, quiet) = advance-IsSilent os c conn p found h conn.place refl in
    ((h.kind, (advance_frame os c conn conn.place p).0 ∙ h.gate), same ∙ h.over, quiet)
Move-IsSilent (cuts kind free) h =
    ((kind, refl), h.over, record { written = refl; idle = omega arith })
Move-IsSilent {p} (drains kind live e over) h =
    ((h.kind, h.gate), h.over, record { written = refl; idle = omega arith })
Move-IsSilent (closes before c rest conn e found) h =
    ((h.kind, h.gate), h.over, record { written = refl; idle = omega arith })
Move-IsSilent (slows latency_ms) h =
    ((h.kind, h.gate), h.over, record { written = refl; idle = omega arith })
Move-IsSilent resets h = ((h.kind, h.gate), h.over, record { written = refl; idle = omega arith })

-- A step that is no restore keeps a proxy quiet.
Move-IsQuiet : {p p' : Proxy} → Move p p' → IsQuiet p → IsQuiet p' × IsSilent p p'
Move-IsQuiet m h =
    let ((kind, gate), over, quiet) = Move-IsSilent m h in
    (
      record {
        kind = kind;
        gate = gate;
        over = over;
        consistent = Move-IsConsistent m h.consistent;
      },
      quiet,
    )

Calm-IsQuiet : {p p' : Proxy} → Calm p p' → IsQuiet p → IsQuiet p' × IsSilent p p'
Calm-IsQuiet {p} still h = (h, silent p)
Calm-IsQuiet (later run m) h =
    let (mid, so_far) = Calm-IsQuiet run h in
    let (last, step) = Move-IsQuiet m mid in
    (
      last,
      record {
        written = step.written ∙ so_far.written;
        idle = omega (arith, step.idle, so_far.idle);
      },
    )

-- In every interleaving: from the moment a cut-off has waited and lets its locks go, before it
-- answers, until a restore, the gate is shut, no write to any socket runs or begins, and no
-- connection is given up as idle.
pub end_drain-IsSilent :
    {p p' : Proxy} (kind : Kind) (live : List ℕ)
    → Reach new_proxy p
    → p.draining ≡ some (kind, live)
    → p.delivering ≡ 0
    → Calm (end_drain kind live p) p'
    → IsQuiet p' × IsSilent p p'
unfolding end_drain
end_drain-IsSilent {p} {p'} kind live run e over calm =
    let h = Reach-IsConsistent run in
    let start : IsQuiet (end_drain kind live p) = record {
      kind = kind;
      gate = h.held kind live e;
      over = over;
      consistent = Move-IsConsistent (drains kind live e over) h;
    } in
    let (last, quiet) = Calm-IsQuiet calm start in
    (last, record { written = quiet.written; idle = quiet.idle })
