-- ===== src/ControlApi/Replay.antt =====
-- provider_simulator/control_api.py: a client that keeps the answers of its calls knows what every
-- scenario holds. The abstract view is a function from a provider and a field to a value; an answer
-- of POST /scenario overlays it, and a reset puts a scope of it back to the defaults.
use provider_simulator.Base.{
  ℕ, String, ◌≡◌, refl, ap, ◌∙◌, Bool, true, false, Bool-cases, List, [], ◌∷◌, Option, none, some,
  inl, inr, if◌then◌else◌,
}
use provider_simulator.Base.Dict
use provider_simulator.Base.Dict.{Dict, string_key}
use provider_simulator.Base.Entries.{map_values}
use provider_simulator.Base.Json.{Json, null, bool, num, real, text, arr, obj}
use provider_simulator.CacheSim.Entry.{Library}
use provider_simulator.ControlApi.{Outcome, done, refused, raised}
use provider_simulator.ControlApi.Apply.{Applied, Answer, Api, apply_scenario}
use provider_simulator.ControlApi.Atomic.{done-injective}
use provider_simulator.ControlApi.Fields.{Floats}
use provider_simulator.ControlApi.Outcomes.{IsAnswered, apply_scenario-IsAnswered}
use provider_simulator.ControlApi.Overlay.{reads, overlay, IsFollowed}
use provider_simulator.ControlApi.Ports.{Waits}
use provider_simulator.ControlApi.Scopes.{Simulator, Wipe, scope_of, is_in_scope}
use provider_simulator.ControlApi.Resets.{Cleared, reset_scope, perform_reset}
use provider_simulator.ControlApi.Sound.{IsSound}
use provider_simulator.ControlApi.Wiped.{wiped_pool, reset_pools-wiped}
use provider_simulator.ControlApi.WipedReads.{default_after, reads-wiped, wiped-IsSound}
use provider_simulator.Domain.Registry.{Registry}

-- A call with the time of its writes and what its waits give.
pub data Command : Type 0 where
  posted : ℕ → Waits → Json → Command
  wiped : Waits → Wipe → Json → Command

-- What the client knows from an answer: nothing from a refusal.
pub data Event : Type 0 where
  applied : Applied → Event
  scenarios_reset : Option String → Event
  nothing : Event

abbrev pub event_of_answer : Outcome Answer → Event
event_of_answer (done answer) = applied answer.applied
event_of_answer _ = nothing

-- The pool that a reset asks for.
abbrev pub asked_pool : Json → Option String
asked_pool (text pool) = some pool
asked_pool _ = none

abbrev pub event_of_reset : Wipe → Json → Outcome (Option Cleared) → Event
event_of_reset wipe pool (done _) =
    if wipe.scenario then scenarios_reset (asked_pool pool) else nothing
event_of_reset wipe pool _ = nothing

module _ (floats : Floats) (lib : Library) where
  abbrev pub perform : Command → Simulator → Event × Simulator
  perform (posted now waits body) sim =
      let (outcome, api) = apply_scenario floats now waits body sim.api in
      (event_of_answer outcome, record sim { api = api })
  perform (wiped waits wipe pool) sim =
      let (outcome, sim') = perform_reset floats lib waits wipe pool sim in
      (event_of_reset wipe pool outcome, sim')

  abbrev pub run : List Command → Simulator → List Event × Simulator
  run [] sim = ([], sim)
  run (c ∷ cs) sim =
      let (event, sim') = perform c sim in
      let (events, final) = run cs sim' in (event ∷ events, final)

-- The abstract view after an event.
abbrev pub replay_event : Event → String → String → String → Option Json → Option Json
replay_event (applied rows) pool pid name old = overlay rows pool pid name old
replay_event (scenarios_reset scope) pool pid name old =
    if is_in_scope scope pool then default_after name old else old
replay_event nothing pool pid name old = old

abbrev pub replay : List Event → String → String → String → Option Json → Option Json
replay [] pool pid name old = old
replay (event ∷ events) pool pid name old =
    replay events pool pid name (replay_event event pool pid name old)

-- The concrete step is the abstract one, and keeps what the next step needs.
abbrev pub IsReplayed : Event × Simulator → Simulator → Type 0
IsReplayed (event, after) before =
    ((pool pid name : String)
      → IsFollowed name
      → reads after.api.registry pool pid name
        ≡ replay_event event pool pid name (reads before.api.registry pool pid name))
    × IsSound after.api.registry

answered-IsReplayed :
    (sim : Simulator) (result : Outcome Answer × Api)
    → IsSound sim.api.registry
    → IsAnswered sim.api result
    → IsReplayed (event_of_answer result.0, record sim { api = result.1 }) sim
answered-IsReplayed sim (done answer, api) sound (_, follows, keeps) = (follows, keeps sound)
answered-IsReplayed sim (refused status, api) sound same = rw same (λ _ _ _ _. refl, sound)
answered-IsReplayed sim (raised e, api) sound same = rw same (λ _ _ _ _. refl, sound)

wiped-IsReplayed :
    (wipe : Wipe) (scope : Option String) (reg : Registry) (pool pid name : String)
    → IsFollowed name
    → reads (record reg { pools = map_values (wiped_pool wipe scope) reg.pools }) pool pid name
      ≡ replay_event
          (if wipe.scenario then scenarios_reset scope else nothing)
          pool
          pid
          name
          (reads reg pool pid name)
wiped-IsReplayed wipe scope reg pool pid name followed =
    reads-wiped wipe name followed scope reg pool pid ∙ elim (Bool-cases wipe.scenario) [
      | inl scenario ↦ rw scenario refl
      | inr other ↦ rw other (elim (Bool-cases (is_in_scope scope pool)) [
        | inl here ↦ rw here refl
        | inr there ↦ rw there refl
      ])
    ]

module _ (floats : Floats) (lib : Library) (waits : Waits) (wipe : Wipe) (sim : Simulator)
    (sound : IsSound sim.api.registry) where
  reset_scope-IsReplayed :
      (pool : Json) (outcome : Outcome (Option String))
      → ((scope : Option String) → outcome ≡ done scope → asked_pool pool ≡ scope)
      → IsReplayed
          (
            event_of_reset wipe pool (reset_scope floats lib waits wipe sim outcome).0,
            (reset_scope floats lib waits wipe sim outcome).1,
          )
          sim
  reset_scope-IsReplayed pool (refused status) asked = (λ _ _ _ _. refl, sound)
  reset_scope-IsReplayed pool (raised e) asked = (λ _ _ _ _. refl, sound)
  reset_scope-IsReplayed pool (done none) asked =
      rw (reset_pools-wiped wipe none sim.api.registry.pools sound, asked none refl)
        (
          wiped-IsReplayed wipe none sim.api.registry,
          wiped-IsSound wipe none sim.api.registry.pools sound,
        )
  reset_scope-IsReplayed pool (done (some q)) asked =
      rw (reset_pools-wiped wipe (some q) sim.api.registry.pools sound, asked (some q) refl)
        (
          wiped-IsReplayed wipe (some q) sim.api.registry,
          wiped-IsSound wipe (some q) sim.api.registry.pools sound,
        )

pool_there :
    (q : String) (there : Bool) {scope : Option String}
    → (if there then done (some q) else refused 400) ≡ done scope
    → some q ≡ scope
pool_there q true h = done-injective _ _ h
pool_there q false h = cc

scope_of-asked_pool :
    (pool : Json) (reg : Registry) (scope : Option String)
    → scope_of pool reg ≡ done scope
    → asked_pool pool ≡ scope
unfolding scope_of
scope_of-asked_pool null reg scope h = done-injective _ _ h
scope_of-asked_pool (text q) reg scope h = pool_there q (Dict.has q reg.pools) h
scope_of-asked_pool (bool b) reg scope h = cc
scope_of-asked_pool (num n) reg scope h = cc
scope_of-asked_pool (real nonzero s) reg scope h = cc
scope_of-asked_pool (arr values) reg scope h = cc
scope_of-asked_pool (obj fs) reg scope h = cc

module _ (floats : Floats) (lib : Library) where
  perform-IsReplayed :
      (c : Command) (sim : Simulator)
      → IsSound sim.api.registry
      → IsReplayed (perform floats lib c sim) sim
  unfolding perform_reset
  perform-IsReplayed (posted now waits body) sim sound =
      answered-IsReplayed sim (apply_scenario floats now waits body sim.api) sound
        (apply_scenario-IsAnswered floats now waits sim.api body)
  perform-IsReplayed (wiped waits wipe pool) sim sound =
      reset_scope-IsReplayed floats lib waits wipe sim sound pool (scope_of pool sim.api.registry)
        (scope_of-asked_pool pool sim.api.registry)

  -- Over any calls of POST /scenario and of the resets, from providers whose quirks all have a
  -- default: each field of a scenario but `responses` reads as the replay of what the answers said. An
  -- answer of POST /scenario overlays the fields that it names, and a reset that is not refused puts
  -- the scenarios of its scope back to the defaults.
  pub run-replay :
      (cs : List Command) (sim : Simulator) (pool pid name : String)
      → IsSound sim.api.registry
      → IsFollowed name
      → reads (run floats lib cs sim).1.api.registry pool pid name
        ≡ replay (run floats lib cs sim).0 pool pid name (reads sim.api.registry pool pid name)
  run-replay [] sim pool pid name sound followed = refl
  run-replay (c ∷ cs) sim pool pid name sound followed =
      let (one, sound') = perform-IsReplayed c sim sound in
      run-replay cs (perform floats lib c sim).1 pool pid name sound' followed
      ∙ ap (replay (run floats lib cs (perform floats lib c sim).1).0 pool pid name)
          (one pool pid name followed)
