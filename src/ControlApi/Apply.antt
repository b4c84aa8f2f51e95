-- ===== src/ControlApi/Apply.antt =====
-- provider_simulator/control_api.py: the write of a checked request, and POST /scenario as a whole.
-- One reading of the clock stands for those of the writes of one call.
use provider_simulator.Base.{
  ℕ, String, Bool, true, false, ◌++◌, List, [], ◌∷◌, Option, none, some, if◌then◌else◌,
}
use provider_simulator.Base.Dict
use provider_simulator.Base.Dict.{Dict, string_key, nat_key}
use provider_simulator.Base.Json.{Json, obj, fields}
use provider_simulator.Base.Results.{ok, err}
use provider_simulator.ControlApi.{
  Outcome, done, refused, raised, ◌>>=◌, Staged, guarded, object_of, stage_blocks,
}
use provider_simulator.ControlApi.Fields.{Floats}
use provider_simulator.ControlApi.Ports.{Wish, Waits, port_wishes, settle_ports}
use provider_simulator.Domain.Config.{ConfigClass, update, write_all}
use provider_simulator.Domain.Provider.{Pool, Provider, reset_fail}
use provider_simulator.Domain.Registry.{Registry, provider}
use provider_simulator.Domain.Scenario.{scenario_config, value_of}
use provider_simulator.PortGate.{PortGate}

-- A provider in the place that it stands in.
abbrev pub put_in_pool : String → Provider → Option Pool → Registry → String → Registry
put_in_pool pid p none reg pool = reg
put_in_pool pid p (some found) reg pool = record reg {
  pools = Dict.put pool (record found { providers = Dict.put pid p found.providers }) reg.pools;
}

unfoldable pub set_provider : String → String → Provider → Registry → Registry
set_provider pool pid p reg = put_in_pool pid p (Dict.get pool reg.pools) reg pool

-- if quirks_updates: provider.quirks.update(quirks_updates)
unfoldable pub write_quirks :
    ℕ → ConfigClass → Dict String Json → Provider → Outcome (Unit {0}) × Provider
write_quirks now cls [] p = (done tt, p)
write_quirks now cls (entry ∷ quirks) p = elim (update cls now (entry ∷ quirks) p.quirks) [
  | err e ↦ (guarded (err e), p)
  | ok c ↦ (done tt, record p { quirks = c })
]

-- What was written before a refusal stays written.
unfoldable pub write_provider : ℕ → Staged → Provider → Outcome (Unit {0}) × Provider
unfolding write_quirks
write_provider now st p =
    let fresh = if Dict.has "fail_first_n" st.updates then reset_fail p else p in
    elim (update scenario_config now st.updates fresh.scenario) [
      | err e ↦ (guarded (err e), fresh)
      | ok c ↦ write_quirks now st.quirks_class st.quirks (record fresh { scenario = c })
    ]

-- What the answer says of a block: every field but `responses`.
unfoldable pub applied_of : Staged → Dict String Json
applied_of st = Dict.remove "responses" (write_all st.quirks st.updates)

-- `applied` is keyed by the pool and the pid.
abbrev pub Applied : Type 0
Applied = List ((String × String) × Dict String Json)

pub record Written : Type 0 where
  pub registry : Registry
  pub applied : Applied
  pub wishes : List Wish

module _ (floats : Floats) where
  -- What follows the write of one block.
  abbrev pub carry_on :
      Dict ℕ PortGate
      → (Written → Outcome (Unit {0}) × Written)
      → Staged
      → Written
      → Outcome (Unit {0}) × Provider
      → Outcome (Unit {0}) × Written
  carry_on gates next st w (done _, p) = next (record {
    registry = set_provider st.pool st.pid p w.registry;
    applied = w.applied ++ ((st.pool, st.pid), applied_of st) ∷ [];
    wishes = w.wishes ++ port_wishes floats gates p;
  })
  carry_on gates next st w (refused status, p) =
      (refused status, record w { registry = set_provider st.pool st.pid p w.registry })
  carry_on gates next st w (raised e, p) =
      (raised e, record w { registry = set_provider st.pool st.pid p w.registry })

  unfoldable pub write_blocks :
      ℕ → Dict ℕ PortGate → List Staged → Written → Outcome (Unit {0}) × Written
  write_blocks now gates [] w = (done tt, w)
  write_blocks now gates (st ∷ rest) w = elim (provider w.registry st.pool st.pid) [
    | err e ↦ (raised e, w)
    | ok p ↦ carry_on gates (λ w'. write_blocks now gates rest w') st w (write_provider now st p)
  ]

-- A body without an object `providers` is refused like one that is no object.
abbrev pub providers_in : Json → Outcome (List (String × Json))
providers_in (obj body) = object_of (value_of "providers" (fields body))
providers_in _ = refused 400

-- The providers, and the gates of the ports that have a listener.
pub record Api : Type 0 where
  pub registry : Registry
  pub gates : Dict ℕ PortGate

-- 200 when every port settled
abbrev pub status_of : Bool → ℕ
status_of true = 200
status_of false = 500

-- The status of an answer, and what it says was applied.
pub record Answer : Type 0 where
  pub status : ℕ
  pub applied : Applied

module _ (floats : Floats) where
  -- The answer after the writes.
  abbrev pub answer_written :
      Waits → Dict ℕ PortGate → Outcome (Unit {0}) × Written → Outcome Answer × Api
  answer_written waits gates (refused status, w) =
      (refused status, record { registry = w.registry; gates = gates })
  answer_written waits gates (raised e, w) =
      (raised e, record { registry = w.registry; gates = gates })
  answer_written waits gates (done _, w) =
      let (settled, gates') = settle_ports waits w.wishes gates in
      (
        done (record { status = status_of settled; applied = w.applied }),
        record { registry = w.registry; gates = gates' },
      )

  abbrev pub answer_staged : ℕ → Waits → Api → Outcome (List Staged) → Outcome Answer × Api
  answer_staged now waits api (refused status) = (refused status, api)
  answer_staged now waits api (raised e) = (raised e, api)
  answer_staged now waits api (done staged) = answer_written waits api.gates (
      write_blocks floats now api.gates staged
        (record { registry = api.registry; applied = []; wishes = [] }))

  -- _apply_scenario
  unfoldable pub apply_scenario : ℕ → Waits → Json → Api → Outcome Answer × Api
  apply_scenario now waits body api = answer_staged now waits api (
      providers_in body >>= λ blocks.
      stage_blocks floats (λ port. Dict.has port api.gates) api.registry blocks)
