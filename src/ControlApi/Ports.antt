-- ===== src/ControlApi/Ports.antt =====
-- provider_simulator/control_api.py: the ports that a scenario closes. What waiting for a port gives,
-- within the time allowed, is an argument: the serve loop runs beside the call.
use provider_simulator.Base.{
  ℕ, Bool, true, false, not, ◌&&◌, List, [], ◌∷◌, ◌++◌, Option, none, some, if◌then◌else◌,
}
use provider_simulator.Base.Dict
use provider_simulator.Base.Dict.{Dict, nat_key, string_key}
use provider_simulator.Base.Json.{is_text}
use provider_simulator.ControlApi.Fields.{Floats}
use provider_simulator.ControlApi.Rules.{targets_block}
use provider_simulator.Domain.Config.{snapshot}
use provider_simulator.Domain.Endpoint.{Endpoint}
use provider_simulator.Domain.Provider.{Provider}
use provider_simulator.Domain.Scenario.{scenario_config, value_of}
use provider_simulator.PortGate.{PortGate, last_report, ask, bool_eq}

-- A port, and whether it is to be open.
abbrev pub Wish : Type 0
Wish = ℕ × Bool

-- What `wait` answers for a port, the wanted state and the ticket of the ask.
abbrev pub Waits : Type 0
Waits = ℕ → Bool → ℕ → Bool

module _ (floats : Floats) where
  -- gate.wants_closed(), on the scenario as it is stored
  unfoldable pub closes : Provider → Endpoint → Bool
  closes p ep =
      let block = snapshot scenario_config p.scenario in
      is_text "port_closed" (value_of "mode" block) && targets_block floats block ep

  abbrev pub wishes_for : Dict ℕ PortGate → Provider → List Endpoint → List Wish
  wishes_for gates p [] = []
  wishes_for gates p (ep ∷ rest) =
      let others = wishes_for gates p rest in
      if Dict.has ep.port gates then (ep.port, not (closes p ep)) ∷ others else others

  -- _port_wishes
  unfoldable pub port_wishes : Dict ℕ PortGate → Provider → List Wish
  port_wishes gates p = wishes_for gates p p.endpoints

-- gate.last_report() == want_open
abbrev pub reports : Option Bool → Bool → Bool
reports none want_open = false
reports (some is_open) want_open = bool_eq is_open want_open

-- Each gate that does not report its wish is asked, with the ticket of the ask.
unfoldable pub ask_gates : List Wish → Dict ℕ PortGate → List (ℕ × Bool × ℕ) × Dict ℕ PortGate
ask_gates [] gates = ([], gates)
ask_gates ((port, want_open) ∷ rest) gates = elim (Dict.get port gates) [
  | none ↦ ask_gates rest gates
  | some g ↦
      if reports (last_report g) want_open
      then ask_gates rest gates
      else let (asked, ticket) = ask g in
        let (others, gates') = ask_gates rest (Dict.put port asked gates) in
        ((port, want_open, ticket) ∷ others, gates')
]

unfoldable pub all_reached : Waits → List (ℕ × Bool × ℕ) → Bool
all_reached waits [] = true
all_reached waits ((port, want_open, ticket) ∷ rest) =
    waits port want_open ticket && all_reached waits rest

-- _settle_ports: whether no port is stuck, and the gates after the asks
unfoldable pub settle_ports : Waits → List Wish → Dict ℕ PortGate → Bool × Dict ℕ PortGate
unfolding ask_gates all_reached
settle_ports waits wishes gates =
    let (asked, gates') = ask_gates wishes gates in (all_reached waits asked, gates')

module _ (floats : Floats) where
  abbrev pub wishes_of : Dict ℕ PortGate → List Provider → List Wish
  wishes_of gates [] = []
  wishes_of gates (p ∷ rest) = port_wishes floats gates p ++ wishes_of gates rest

  unfoldable pub settle_ports_of : Waits → List Provider → Dict ℕ PortGate → Bool × Dict ℕ PortGate
  settle_ports_of waits providers gates = settle_ports waits (wishes_of gates providers) gates
