-- ===== src/ControlApi/Wiped.antt =====
-- provider_simulator/control_api.py: what a reset makes of the providers, when no config raises.
use provider_simulator.Base.{
  String, ◌≡◌, refl, Bool, true, Bool-cases, List, [], ◌∷◌, Option, none, some, inl, inr, not,
  arith, ◌&&◌, if◌then◌else◌,
}
use provider_simulator.Base.Dict
use provider_simulator.Base.Dict.{Dict, string_key, HasDistinctKeys}
use provider_simulator.Base.Entries.{AllValues, map_values}
use provider_simulator.Base.Json.{Json}
use provider_simulator.Base.Results.{ok}
use provider_simulator.ControlApi.Scopes.{
  Wipe, with_log_cleared, reset_provider, reset_providers, reset_pools, is_in_scope,
}
use provider_simulator.ControlApi.Sound.{HasDefaultQuirks}
use provider_simulator.Domain.Config.{ConfigClass, Config, reset, reset_fields}
use provider_simulator.Domain.Config.Laws.{HasDefaults}
use provider_simulator.Domain.Provider.{Provider, Pool, reset_fail, forget_executed}
use provider_simulator.Domain.Scenario.{scenario_config}

abbrev pub reset_config : ConfigClass → Config → Config
reset_config cls c = (reset cls c).1

abbrev pub wiped : Wipe → Provider → Provider
wiped wipe p =
    if wipe.scenario
    then with_log_cleared wipe.history (
        forget_executed (
          reset_fail (record p {
            scenario = reset_config scenario_config p.scenario;
            quirks = reset_config p.quirks_class p.quirks;
          })))
    else with_log_cleared wipe.history p

reset_fields-ok :
    (declared : List (String × Option Json)) (values : Dict String Json)
    → HasDefaults declared
    → (reset_fields declared values).0 ≡ ok tt
unfolding reset_fields
reset_fields-ok [] values d = refl
reset_fields-ok ((name, none) ∷ rest) values d = absurd d
reset_fields-ok ((name, some default) ∷ rest) values d =
    reset_fields-ok rest (Dict.put name default values) d

reset-ok :
    (cls : ConfigClass) (c : Config)
    → HasDefaults cls.declared
    → reset cls c ≡ (ok tt, reset_config cls c)
unfolding reset
reset-ok cls c d = rw (reset_fields-ok cls.declared c.values d) refl

-- The keys of a list of fields are distinct, as a test.
abbrev are_distinct : List (String × Option Json) → Bool
are_distinct [] = true
are_distinct ((name, default) ∷ rest) = not (Dict.has name rest) && are_distinct rest

are_distinct-HasDistinctKeys :
    (declared : List (String × Option Json))
    → are_distinct declared ≡ true
    → HasDistinctKeys declared
are_distinct-HasDistinctKeys [] h = tt
are_distinct-HasDistinctKeys ((name, default) ∷ rest) h =
    (ground arith, are_distinct-HasDistinctKeys rest (ground arith))

pub scenario_config-HasDefaults : HasDefaults scenario_config.declared
unfolding scenario_config
scenario_config-HasDefaults = tt

pub scenario_config-HasDistinctKeys : HasDistinctKeys scenario_config.declared
unfolding scenario_config
scenario_config-HasDistinctKeys = are_distinct-HasDistinctKeys scenario_config.declared refl

pub reset_provider-wiped :
    (wipe : Wipe) (p : Provider)
    → HasDefaultQuirks p
    → reset_provider wipe p ≡ (ok tt, wiped wipe p)
unfolding reset_provider
reset_provider-wiped wipe p d = elim (Bool-cases wipe.scenario) [
  | inl scenario ↦
      rw
        (
          reset_provider,
          scenario,
          reset-ok scenario_config p.scenario scenario_config-HasDefaults,
          reset-ok p.quirks_class p.quirks d,
        )
        refl
  | inr other ↦ rw (reset_provider, other) refl
]

reset_providers-wiped :
    (wipe : Wipe) (providers : Dict String Provider)
    → AllValues HasDefaultQuirks providers
    → reset_providers wipe providers ≡ (ok tt, map_values (λ _. wiped wipe) providers)
unfolding reset_providers
reset_providers-wiped wipe [] d = refl
reset_providers-wiped wipe ((pid, p) ∷ rest) (d, ds) =
    rw (reset_providers, reset_provider-wiped wipe p d, reset_providers-wiped wipe rest ds) refl

abbrev pub wiped_pool : Wipe → Option String → String → Pool → Pool
wiped_pool wipe scope name pool =
    if is_in_scope scope name
    then record pool { providers = map_values (λ _. wiped wipe) pool.providers }
    else pool

pub reset_pools-wiped :
    (wipe : Wipe) (scope : Option String) (pools : Dict String Pool)
    → AllValues (λ pool. AllValues HasDefaultQuirks pool.providers) pools
    → reset_pools wipe scope pools ≡ (ok tt, map_values (wiped_pool wipe scope) pools)
unfolding reset_pools
reset_pools-wiped wipe scope [] d = refl
reset_pools-wiped wipe scope ((name, pool) ∷ rest) (d, ds) =
    elim (Bool-cases (is_in_scope scope name)) [
      | inl here ↦
          rw
            (
              reset_pools,
              here,
              reset_providers-wiped wipe pool.providers d,
              reset_pools-wiped wipe scope rest ds,
            )
            refl
      | inr other ↦ rw (reset_pools, other, reset_pools-wiped wipe scope rest ds) refl
    ]
