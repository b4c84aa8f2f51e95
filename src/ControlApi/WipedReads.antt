-- ===== src/ControlApi/WipedReads.antt =====
-- provider_simulator/control_api.py: how the scenarios read after a reset.
use provider_simulator.Base.{
  String, ◌≡◌, refl, sym, Bool, true, false, Bool-cases, [], ◌∷◌, Option, none, some, inl, inr,
  if◌then◌else◌,
}
use provider_simulator.Base.Dict
use provider_simulator.Base.Dict.{Dict, string_key}
use provider_simulator.Base.Entries.{AllValues, map_values, map_some, get-map_values}
use provider_simulator.Base.Json.{Json, null}
use provider_simulator.ControlApi.Overlay.{reads, field_of, IsFollowed}
use provider_simulator.ControlApi.Places.{in_pool, found_in, provider-in_pool}
use provider_simulator.ControlApi.Scopes.{Wipe, with_log_cleared, is_in_scope}
use provider_simulator.ControlApi.Sound.{HasDefaultQuirks}
use provider_simulator.ControlApi.Wiped.{
  wiped, wiped_pool, reset_config, scenario_config-HasDefaults, scenario_config-HasDistinctKeys,
}
use provider_simulator.Domain.Config.{Config, is_field, reset}
use provider_simulator.Domain.Config.Laws.{defaults_of, reset_fields_reads}
use provider_simulator.Domain.Provider.{Provider, Pool, reset_fail, forget_executed}
use provider_simulator.Domain.Registry.{Registry}
use provider_simulator.Domain.Scenario.{scenario_config}

-- A field that is at its default, if the provider is there.
abbrev pub default_after : String → Option Json → Option Json
default_after name none = none
default_after name (some old) = some (Dict.get_or name null (defaults_of scenario_config))

abbrev pub wiped_value : Wipe → String → Option Json → Option Json
wiped_value wipe name old = if wipe.scenario then default_after name old else old

wiped_value-none : (wipe : Wipe) (name : String) → wiped_value wipe name none ≡ none
wiped_value-none wipe name = elim (Bool-cases wipe.scenario) [
  | inl scenario ↦ rw scenario refl
  | inr other ↦ rw other refl
]

with_log_cleared_keeps :
    (history : Bool) (p : Provider)
    → ((with_log_cleared history p).scenario ≡ p.scenario)
      × ((with_log_cleared history p).quirks_class ≡ p.quirks_class)
with_log_cleared_keeps true p = (refl, refl)
with_log_cleared_keeps false p = (refl, refl)

wiped_scenario :
    (wipe : Wipe) (p : Provider)
    → (wiped wipe p).scenario
      ≡ (if wipe.scenario then reset_config scenario_config p.scenario else p.scenario)
unfolding forget_executed reset_fail
wiped_scenario wipe p = elim (Bool-cases wipe.scenario) [
  | inl scenario ↦ rw scenario (with_log_cleared_keeps wipe.history _).0
  | inr other ↦ rw other (with_log_cleared_keeps wipe.history p).0
]

wiped_class : (wipe : Wipe) (p : Provider) → (wiped wipe p).quirks_class ≡ p.quirks_class
unfolding forget_executed reset_fail
wiped_class wipe p = elim (Bool-cases wipe.scenario) [
  | inl scenario ↦ rw scenario (with_log_cleared_keeps wipe.history _).1
  | inr other ↦ rw other (with_log_cleared_keeps wipe.history p).1
]

get_or-reset_config :
    (name : String) (c : Config)
    → is_field scenario_config name ≡ true
    → Dict.get_or name null (reset_config scenario_config c).values
      ≡ Dict.get_or name null (defaults_of scenario_config)
unfolding reset defaults_of is_field
get_or-reset_config name c declared =
    reset_fields_reads scenario_config.declared c.values name scenario_config-HasDefaults
      scenario_config-HasDistinctKeys declared

module _ (wipe : Wipe) (name : String) (followed : IsFollowed name) where
  field_of-wiped :
      (o : Option Provider)
      → field_of name (found_in (map_some (wiped wipe) o))
        ≡ wiped_value wipe name (field_of name (found_in o))
  field_of-wiped none = sym (wiped_value-none wipe name)
  field_of-wiped (some p) = rw (wiped_scenario wipe p) (elim (Bool-cases wipe.scenario) [
    | inl scenario ↦ rw (scenario, get_or-reset_config name p.scenario followed.0) refl
    | inr other ↦ rw other refl
  ])

  in_pool-wiped :
      (scope : Option String) (pool pid : String) (o : Option Pool)
      → field_of name (in_pool pid (map_some (wiped_pool wipe scope pool) o)) ≡ (
          if is_in_scope scope pool
          then wiped_value wipe name (field_of name (in_pool pid o))
          else field_of name (in_pool pid o))
  in_pool-wiped scope pool pid none = elim (Bool-cases (is_in_scope scope pool)) [
    | inl here ↦ rw here (sym (wiped_value-none wipe name))
    | inr other ↦ rw other refl
  ]
  in_pool-wiped scope pool pid (some found) = elim (Bool-cases (is_in_scope scope pool)) [
    | inl here ↦
        rw (here, get-map_values (λ _. wiped wipe) pid found.providers)
          (field_of-wiped (Dict.get pid found.providers))
    | inr other ↦ rw other refl
  ]

  pub reads-wiped :
      (scope : Option String) (reg : Registry) (pool pid : String)
      → reads (record reg { pools = map_values (wiped_pool wipe scope) reg.pools }) pool pid name
        ≡ (if is_in_scope scope pool
            then wiped_value wipe name (reads reg pool pid name)
            else reads reg pool pid name)
  reads-wiped scope reg pool pid =
      rw
        (
          provider-in_pool (record reg { pools = map_values (wiped_pool wipe scope) reg.pools })
              pool pid,
          provider-in_pool reg pool pid,
          get-map_values (wiped_pool wipe scope) pool reg.pools,
        )
        (in_pool-wiped scope pool pid (Dict.get pool reg.pools))

wiped-AllValues :
    (wipe : Wipe) (providers : Dict String Provider)
    → AllValues HasDefaultQuirks providers
    → AllValues HasDefaultQuirks (map_values (λ _. wiped wipe) providers)
wiped-AllValues wipe [] d = tt
wiped-AllValues wipe ((pid, p) ∷ rest) (d, ds) =
    (rw (wiped_class wipe p) d, wiped-AllValues wipe rest ds)

pub wiped-IsSound :
    (wipe : Wipe) (scope : Option String) (pools : Dict String Pool)
    → AllValues (λ pool. AllValues HasDefaultQuirks pool.providers) pools
    → AllValues
        (λ pool. AllValues HasDefaultQuirks pool.providers)
        (map_values (wiped_pool wipe scope) pools)
wiped-IsSound wipe scope [] d = tt
wiped-IsSound wipe scope ((name, pool) ∷ rest) (d, ds) =
    elim (Bool-cases (is_in_scope scope name)) [
      | inl here ↦ rw here (wiped-AllValues wipe pool.providers d, wiped-IsSound wipe scope rest ds)
      | inr other ↦ rw other (d, wiped-IsSound wipe scope rest ds)
    ]
