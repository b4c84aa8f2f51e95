-- ===== src/PortGate.antt =====
-- provider_simulator/port_gate.py: one provider port that a scenario can close, and a way to wait
-- until it has. The condition variable's lock makes each method one step; `wake` and the TCP
-- connection of `accepts` are outside the model: the second is an argument of `wait`.
pub mod World
pub mod Freshness
mod Tests
use Prim.Native.Nat.{max}
use provider_simulator.Base.{
  ℕ, ◌+◌, Bool, true, false, not, ◌&&◌, ◌||◌, Option, none, some, leb, ltb, if◌then◌else◌,
}
use provider_simulator.Domain.Endpoint.{Endpoint}
use provider_simulator.FaultPolicy.{Scenario, port_closed}

-- `asked` counts the passes asked for, `answered` is the newest ask that a finished pass had seen.
pub record PortGate : Type 0 where
  pub asked : ℕ
  pub answered : ℕ
  pub is_open : Bool
  pub reported : Bool
  pub in_pass : Bool

unfoldable pub new_gate : PortGate
new_gate = record { asked = 0; answered = 0; is_open = false; reported = false; in_pass = false }

-- The wish is read from the scenario at the time of the call.
unfoldable pub wants_closed : Scenario → Endpoint → Bool
wants_closed s ep = port_closed s ep

unfoldable pub begin_pass : PortGate → PortGate × ℕ
begin_pass g = (record g { in_pass = true }, g.asked)

unfoldable pub end_pass : PortGate → ℕ → Bool → PortGate
end_pass g seen is_open = record g {
  answered = max g.answered seen;
  is_open = is_open;
  reported = true;
  in_pass = false;
}

unfoldable pub last_report : PortGate → Option Bool
last_report g =
    if not g.reported || g.in_pass || ltb g.answered g.asked then none else some g.is_open

unfoldable pub ask : PortGate → PortGate × ℕ
ask g = (record g { asked = g.asked + 1 }, g.asked + 1)

abbrev pub bool_eq : Bool → Bool → Bool
bool_eq true b = b
bool_eq false b = not b

-- The predicate that `wait` waits for.
unfoldable pub is_reached : PortGate → ℕ → Bool → Bool
is_reached g ticket want_open = leb ticket g.answered && bool_eq g.is_open want_open

-- The gate when the waiting ended, and whether a connection was accepted then.
unfoldable pub wait : PortGate → ℕ → Bool → Bool → Bool
wait g ticket want_open accepted = is_reached g ticket want_open && bool_eq accepted want_open
