-- ===== src/ControlApi/Reads.antt =====
-- provider_simulator/control_api.py: the reads of the providers, and the routes of the caches but for
-- the staging and the self-test. The lower case of a text is an argument. A copy of a row or of a call
-- is the value itself.
use provider_simulator.Base.{
  ℕ, String, Bool, true, false, not, ◌&&◌, List, [], ◌∷◌, Option, none, some, map, select, length,
  ◌==◌, if◌then◌else◌,
}
use provider_simulator.Base.Dict
use provider_simulator.Base.Dict.{Dict, string_key}
use provider_simulator.Base.Int.{ℤ, pos}
use provider_simulator.Base.Json.{Json, null, num, text}
use provider_simulator.Base.Results.{Result, ok, err, value_error}
use provider_simulator.Base.Sort.{sorted}
use provider_simulator.CacheSim.Log.{CacheSim, RecordedCall, State, state, clear_calls, reset}
use provider_simulator.Chains.{dict_of}
use provider_simulator.ControlApi.{Outcome, done, refused}
use provider_simulator.ControlApi.Scopes.{key_of}
use provider_simulator.Domain.CallLog.{Stats, stats}
use provider_simulator.Domain.Config.{snapshot, write_all}
use provider_simulator.Domain.Endpoint.{Endpoint}
use provider_simulator.Domain.Provider.{Provider, Pool}
use provider_simulator.Domain.Registry.{Registry, all_providers}
use provider_simulator.Domain.Scenario.{scenario_config, value_of}

-- {provider.key: f(provider) for provider in providers}
abbrev pub by_key {ℓ} : {V : Type ℓ} → (Provider → V) → List Provider → Dict String V
by_key f providers = dict_of (map (λ p. (key_of p, f p)) providers) []

-- The scenario without its responses, then the quirks and the name.
abbrev pub settings_of : Provider → Dict String Json
settings_of p = Dict.put "name" (text p.name) (
    write_all (snapshot p.quirks_class p.quirks)
      (Dict.remove "responses" (snapshot scenario_config p.scenario)))

unfoldable pub get_scenario : Registry → Dict String (Dict String Json)
get_scenario reg = by_key settings_of (all_providers reg)

unfoldable pub get_stats : Registry → Dict String (Stats × String)
get_stats reg = by_key (λ p. (stats p.log, p.name)) (all_providers reg)

pub record Facts : Type 0 where
  pub pool : String
  pub pid : String
  pub chain : String
  pub name : String
  pub is_backup : Bool
  pub group_label : String
  pub endpoints : List Endpoint

-- The chain of the pool that a provider names.
abbrev pub chain_of : Option Pool → String
chain_of none = ""
chain_of (some p) = p.chain

abbrev pub facts_of : Registry → Provider → Facts
facts_of reg p = record {
  pool = p.pool;
  pid = p.pid;
  chain = chain_of (Dict.get p.pool reg.pools);
  name = p.name;
  is_backup = p.is_backup;
  group_label = p.group_label;
  endpoints = p.endpoints;
}

abbrev pub same_bool : Bool → Bool → Bool
same_bool true b = b
same_bool false b = not b

-- A filter that the query does not give keeps every provider.
abbrev pub keeps : Option String → (String → Bool) → Bool
keeps none test = true
keeps (some wanted) test = test wanted

-- The name is compared in lower case, and a text other than true asks for the providers that are no
-- backup. A pool that is not there is refused.
unfoldable pub get_providers :
    (String → String) → Registry → Dict String String → Outcome (Dict String Facts)
get_providers lower reg query =
    if not (keeps (Dict.get "pool" query) (λ pool. Dict.has pool reg.pools))
    then refused 400
    else done (
        by_key (facts_of reg) (
          select
            (λ p.
              keeps (Dict.get "pool" query) (λ pool. p.pool == pool)
              && keeps (Dict.get "pid" query) (λ pid. p.pid == pid)
              && keeps (Dict.get "is_backup" query)
                  (λ wanted. same_bool p.is_backup (lower wanted == "true"))
              && keeps (Dict.get "name" query) (λ name. lower p.name == lower name))
            (all_providers reg)))

pub record PoolFacts : Type 0 where
  pub chain : String
  pub providers : Dict String (List Endpoint)
  pub names : Dict String String

unfoldable pub get_topology : Registry → Dict String PoolFacts
get_topology reg =
    map
      (λ (name, pool). (
        name,
        record {
          chain = pool.chain;
          providers = map (λ (pid, p). (pid, p.endpoints)) pool.providers;
          names = map (λ (pid, p). (pid, p.name)) pool.providers;
        },
      ))
      reg.pools

unfoldable pub ready : Registry → ℕ
ready reg = length (all_providers reg)

-- A route that changes the cache, and answers with its state.
abbrev pub change_cache :
    (CacheSim → CacheSim) → String → Dict String CacheSim → Outcome State × Dict String CacheSim
change_cache f name caches = elim (Dict.get name caches) [
  | none ↦ (refused 404, caches)
  | some sim ↦ (done (state (f sim)), Dict.put name (f sim) caches)
]

unfoldable pub cache_reset : String → Dict String CacheSim → Outcome State × Dict String CacheSim
cache_reset name caches = change_cache reset name caches

unfoldable pub cache_clear_calls :
    String → Dict String CacheSim → Outcome State × Dict String CacheSim
cache_clear_calls name caches = change_cache clear_calls name caches

unfoldable pub get_cache_calls : String → Dict String CacheSim → Outcome (List RecordedCall)
get_cache_calls name caches = elim (Dict.get name caches) [
  | none ↦ refused 404
  | some sim ↦ done sim.calls
]

unfoldable pub get_cache : String → Dict String CacheSim → Outcome State
get_cache name caches = elim (Dict.get name caches) [
  | none ↦ refused 404
  | some sim ↦ done (state sim)
]

abbrev pub states_of : Dict String CacheSim → List String → List State
states_of caches [] = []
states_of caches (name ∷ names) = elim (Dict.get name caches) [
  | none ↦ states_of caches names
  | some sim ↦ state sim ∷ states_of caches names
]

unfoldable pub get_caches : Dict String CacheSim → List State × ℕ
get_caches caches =
    let names = sorted (map (λ (name, sim). name) caches) in (states_of caches names, length names)

-- The head of a cache in a body that stages: none leaves it, and what is no whole number, or is below
-- zero, is refused.
unfoldable pub cache_head : Dict String Json → Result (Option ℤ)
cache_head body = read_head (value_of "seen_block" body)
  where
    read_head : Json → Result (Option ℤ)
    read_head null = ok none
    read_head (num (pos n)) = ok (some (pos n))
    read_head _ = err value_error
