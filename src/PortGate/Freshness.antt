-- ===== src/PortGate/Freshness.antt =====
-- provider_simulator/port_gate.py: a report that a caller accepts comes from a pass that read the
-- scenario after the caller's own write.
use provider_simulator.Base.{
  ℕ, ◌+◌, ◌≡◌, ◌≤◌, refl, subst, Bool, true, some, arith, nat_eq, if◌then◌else◌,
}
use provider_simulator.PortGate.{new_gate, begin_pass, end_pass, ask, last_report, is_reached, wait}
use provider_simulator.PortGate.World.{
  Phase, idle, begun, read, World, start, Step, write, asks, begins, reads, ends, Reach, here, next,
}

-- What the phase knows: the pass saw every ask that was answered, and a pass that has read the
-- scenario read a write no older than those of the asks that it saw.
abbrev pub IsTimely : World → Phase → Type 0
IsTimely w idle = Unit
IsTimely w (begun seen) = (w.gate.answered ≤ seen) × (seen ≤ w.gate.asked)
IsTimely w (read seen at wish) =
    (w.gate.answered ≤ seen)
    × (seen ≤ w.gate.asked)
    × ((t : ℕ) → t ≤ seen → w.write_of t ≤ at)
    × (at ≤ w.writes)
    × (at ≡ w.writes → wish ≡ w.wish)

record IsSound (w : World) : Type 0 where
  past : (t : ℕ) → w.write_of t ≤ w.writes
  counted : w.gate.answered ≤ w.gate.asked
  timely : IsTimely w w.phase
  answered : (t : ℕ) → t ≤ w.gate.answered → w.write_of t ≤ w.read_write
  known : w.read_write ≤ w.writes
  current : w.read_write ≡ w.writes → w.read_wish ≡ w.wish

start-IsSound : (wish : Bool) → IsSound (start wish)
unfolding start new_gate
start-IsSound wish = record {
  past = λ t. omega arith;
  counted = omega arith;
  timely = tt;
  answered = λ t h. omega arith;
  known = omega arith;
  current = λ h. refl;
}

write-IsTimely :
    (w : World) (wish : Bool) (phase : Phase)
    → IsTimely w phase
    → IsTimely (record w { wish = wish; writes = w.writes + 1 }) phase
write-IsTimely w wish idle h = tt
write-IsTimely w wish (begun seen) h = h
write-IsTimely w wish (read seen at old) h =
    (h.0, h.1, h.2, omega (arith, h.3), λ e. absurd (omega (arith, h.3)))

asks-IsTimely :
    (w : World) (phase : Phase)
    → IsTimely w phase
    → IsTimely
        (record w {
          gate = (ask w.gate).0;
          write_of = λ ticket. if nat_eq ticket (ask w.gate).1 then w.writes else w.write_of ticket;
        })
        phase
unfolding ask
asks-IsTimely w idle h = tt
asks-IsTimely w (begun seen) h = omega (arith, h)
asks-IsTimely w (read seen at old) h =
    (omega (arith, h.0), omega (arith, h.1), λ t below. ground (arith, h.1, h.2 t), h.3, h.4)

Step-IsSound : {w w' : World} → Step w w' → IsSound w → IsSound w'
unfolding ask begin_pass end_pass
Step-IsSound {w} (write wish) h = record {
  past = λ t. omega (arith, h.past t);
  counted = h.counted;
  timely = write-IsTimely w wish w.phase h.timely;
  answered = h.answered;
  known = omega (arith, h.known);
  current = λ e. absurd (omega (arith, h.known));
}
Step-IsSound {w} asks h = record {
  past = λ t. ground (arith, h.past t);
  counted = omega (arith, h.counted);
  timely = asks-IsTimely w w.phase h.timely;
  answered = λ t below. ground (arith, h.counted, h.answered t);
  known = h.known;
  current = h.current;
}
Step-IsSound {w} (begins e) h = record {
  past = h.past;
  counted = h.counted;
  timely = omega (arith, h.counted);
  answered = h.answered;
  known = h.known;
  current = h.current;
}
Step-IsSound {w} (reads seen e) h =
    let t : IsTimely w (begun seen) = subst (IsTimely w) e h.timely in
    record {
      past = h.past;
      counted = h.counted;
      timely = (t.0, t.1, λ n below. h.past n, omega arith, λ e'. refl);
      answered = h.answered;
      known = h.known;
      current = h.current;
    }
Step-IsSound {w} (ends seen at wish is_open e) h =
    let t : IsTimely w (read seen at wish) = subst (IsTimely w) e h.timely in
    record {
      past = h.past;
      counted = omega (arith, t.0, t.1);
      timely = tt;
      answered = λ n below. t.2 n (omega (arith, t.0));
      known = t.3;
      current = t.4;
    }

Reach-IsSound : (wish : Bool) {w : World} → Reach (start wish) w → IsSound w
Reach-IsSound wish here = start-IsSound wish
Reach-IsSound wish (next r s) = Step-IsSound s (Reach-IsSound wish r)

-- However writers, askers and the serve loop interleave: when `wait` accepts a ticket, the newest
-- finished pass had read the scenario at or after the last write before the ask of that ticket,
-- the port is in the wanted state by the report, and a connection was accepted just when the port
-- was wanted open.
pub wait-fresh :
    {w : World} (wish : Bool) (ticket : ℕ) (want_open accepted : Bool)
    → Reach (start wish) w
    → wait w.gate ticket want_open accepted ≡ true
    → (w.write_of ticket ≤ w.read_write) × (w.gate.is_open ≡ want_open) × (accepted ≡ want_open)
unfolding wait is_reached
wait-fresh {w} wish ticket want_open accepted r reached =
    let sound = Reach-IsSound wish r in
    (ground (arith, sound.answered ticket), ground arith, ground arith)

-- However they interleave: when the gate gives a report and the scenario was not written since the
-- newest ask, the pass that made the report had read the scenario as it is now.
pub last_report-current :
    {w : World} (wish is_open : Bool)
    → Reach (start wish) w
    → last_report w.gate ≡ some is_open
    → w.write_of w.gate.asked ≡ w.writes
    → (w.read_wish ≡ w.wish) × (w.gate.is_open ≡ is_open)
unfolding last_report
last_report-current {w} wish is_open r report unwritten =
    let sound = Reach-IsSound wish r in
    let none_open : w.gate.asked ≤ w.gate.answered = ground arith in
    let latest : w.read_write ≡ w.writes =
      omega (arith, sound.answered w.gate.asked none_open, sound.known) in
    (sound.current latest, ground arith)
