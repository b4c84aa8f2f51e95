-- ===== src/PortGate/Tests.antt =====
-- Runs of provider_simulator/port_gate.py.
use provider_simulator.Base.{◌≡◌, ◌≤◌, refl, true, false, none, nat_eq, if◌then◌else◌}
use provider_simulator.PortGate.{new_gate, begin_pass, end_pass, ask, last_report, is_reached, wait}
use provider_simulator.PortGate.Freshness.{wait-fresh, last_report-current}
use provider_simulator.PortGate.World.{
  World, start, write, asks, begins, reads, ends, Reach, here, next, idle, begun, read,
}

-- A pass that began before the ask does not answer it, and the next pass does.
early :
    let (g, seen) = begin_pass new_gate in
    let (g, ticket) = ask g in
    let g = end_pass g seen true in
    (wait g ticket true true ≡ false)
    × (last_report g ≡ none)
    × (let (g, seen) = begin_pass g in wait (end_pass g seen true) ticket true true ≡ true)
unfolding new_gate begin_pass ask end_pass wait is_reached last_report
early = (refl, refl, refl)

-- A caller closes the port and asks, and a pass runs.
abbrev closing : World
closing = record (start false) { wish = true; writes = 1 }

abbrev asking : World
asking = record closing {
  gate = (ask closing.gate).0;
  write_of = λ ticket.
      if nat_eq ticket (ask closing.gate).1 then closing.writes else closing.write_of ticket;
}

abbrev beginning : World
beginning = record asking {
  gate = (begin_pass asking.gate).0;
  phase = begun (begin_pass asking.gate).1;
}

abbrev reading : World
reading = record beginning { phase = read 1 1 true }

abbrev ending : World
ending = record reading {
  gate = end_pass reading.gate 1 false;
  phase = idle;
  read_write = 1;
  read_wish = true;
}

ending-Reach : Reach (start false) ending
unfolding start new_gate ask begin_pass end_pass
ending-Reach =
    next (next (next (next (next here (write true)) asks) (begins refl)) (reads 1 refl))
      (ends 1 1 true false refl)

wait-fresh_example :
    (ending.write_of 1 ≤ ending.read_write) × (ending.gate.is_open ≡ false) × (false ≡ false)
unfolding start new_gate ask begin_pass end_pass wait is_reached
wait-fresh_example = wait-fresh false 1 false false ending-Reach refl

last_report-current_example : (ending.read_wish ≡ ending.wish) × (ending.gate.is_open ≡ false)
unfolding start new_gate ask begin_pass end_pass last_report
last_report-current_example = last_report-current false false ending-Reach refl refl
