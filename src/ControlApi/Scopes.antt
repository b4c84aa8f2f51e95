-- ===== src/ControlApi/Scopes.antt =====
-- provider_simulator/control_api.py: what a reset covers, and the providers that it resets.
use provider_simulator.Base.{
  String, Bool, true, false, List, [], ◌∷◌, Option, none, some, map, ◌==◌, if◌then◌else◌,
}
use Prim.Native.String as Texts
use provider_simulator.Base.Dict
use provider_simulator.Base.Dict.{Dict, string_key}
use provider_simulator.Base.Json.{Json, null, text}
use provider_simulator.Base.Results.{Result, ok, err}
use provider_simulator.CacheSim.Log.{CacheSim}
use provider_simulator.Chains
use provider_simulator.Chains.{Chain, AdvancingHead, iter_heads}
use provider_simulator.ControlApi.{Outcome, done, refused}
use provider_simulator.ControlApi.Apply.{Api}
use provider_simulator.Domain.CallLog.{clear}
use provider_simulator.Domain.Config.{Config, reset}
use provider_simulator.Domain.Provider.{Provider, Pool, reset_fail, forget_executed}
use provider_simulator.Domain.Registry.{Registry, all_providers, values}
use provider_simulator.Domain.Scenario.{scenario_config}
use provider_simulator.RespProxy.{Proxy}

-- CHAINS stands beside the parts that the control API holds.
pub record Simulator : Type 0 where
  pub api : Api
  pub chains : Dict String Chain
  pub caches : Dict String CacheSim
  pub proxies : Dict String Proxy

abbrev pub is_none {ℓ} : {A : Type ℓ} → Option A → Bool
is_none none = true
is_none (some a) = false

-- What a reset clears.
pub record Wipe : Type 0 where
  pub scenario : Bool
  pub history : Bool

-- Provider.key
abbrev pub key_of : Provider → String
key_of p = Texts.◌++◌ p.pool (Texts.◌++◌ ":" p.pid)

-- The pool of a call, `none` for the whole simulator.
unfoldable pub scope_of : Json → Registry → Outcome (Option String)
scope_of null reg = done none
scope_of (text pool) reg = if Dict.has pool reg.pools then done (some pool) else refused 400
scope_of _ reg = refused 400

abbrev pub providers_of_pool : Option Pool → List Provider
providers_of_pool none = []
providers_of_pool (some p) = values p.providers

unfoldable pub providers_in_scope : Option String → Registry → List Provider
providers_in_scope none reg = all_providers reg
providers_in_scope (some pool) reg = providers_of_pool (Dict.get pool reg.pools)

-- The chain of a pool, if the simulator has one of that name.
abbrev pub chain_of_pool : Option Pool → Dict String Chain → List String
chain_of_pool none chains = []
chain_of_pool (some p) chains = if Dict.has p.chain chains then p.chain ∷ [] else []

unfoldable pub chains_in_scope : Option String → Registry → Dict String Chain → List String
chains_in_scope none reg chains = map (λ (name, chain). name) chains
chains_in_scope (some pool) reg chains = chain_of_pool (Dict.get pool reg.pools) chains

-- Every head of the chains that are named.
abbrev pub reset_chain : Chain → Chain
reset_chain c = record {
  head = reset_single c.head;
  heads = map (λ (name, head). (name, Chains.reset head)) c.heads;
}
  where
    reset_single : Option AdvancingHead → Option AdvancingHead
    reset_single none = none
    reset_single (some head) = some (Chains.reset head)

unfoldable pub reset_heads : List String → Dict String Chain → Dict String Chain
reset_heads [] chains = chains
reset_heads (name ∷ rest) chains = elim (Dict.get name chains) [
  | none ↦ reset_heads rest chains
  | some chain ↦ reset_heads rest (Dict.put name (reset_chain chain) chains)
]

abbrev pub with_log_cleared : Bool → Provider → Provider
with_log_cleared true p = record p { log = clear p.log }
with_log_cleared false p = p

-- An exception of a config leaves what was reset before it.
abbrev pub after_quirks :
    Wipe → Provider → Result (Unit {0}) × Config → Result (Unit {0}) × Provider
after_quirks wipe p (err e, quirks) = (err e, record p { quirks = quirks })
after_quirks wipe p (ok _, quirks) = (
  ok tt,
  with_log_cleared wipe.history (forget_executed (reset_fail (record p { quirks = quirks }))),
)

abbrev pub after_scenario :
    Wipe → Provider → Result (Unit {0}) × Config → Result (Unit {0}) × Provider
after_scenario wipe p (err e, scenario) = (err e, record p { scenario = scenario })
after_scenario wipe p (ok _, scenario) =
    after_quirks wipe (record p { scenario = scenario }) (reset p.quirks_class p.quirks)

unfoldable pub reset_provider : Wipe → Provider → Result (Unit {0}) × Provider
reset_provider wipe p =
    if wipe.scenario
    then after_scenario wipe p (reset scenario_config p.scenario)
    else (ok tt, with_log_cleared wipe.history p)

-- The entries before an exception are new, and those after it old.
abbrev pub and_rest {ℓ} :
    {V : Type ℓ}
    → String
    → Dict String V
    → Result (Unit {0}) × V
    → Result (Unit {0}) × Dict String V
    → Result (Unit {0}) × Dict String V
and_rest key rest (err e, v) later = (err e, (key, v) ∷ rest)
and_rest key rest (ok _, v) (outcome, rest') = (outcome, (key, v) ∷ rest')

unfoldable pub reset_providers :
    Wipe → Dict String Provider → Result (Unit {0}) × Dict String Provider
reset_providers wipe [] = (ok tt, [])
reset_providers wipe ((pid, p) ∷ rest) =
    and_rest pid rest (reset_provider wipe p) (reset_providers wipe rest)

abbrev pub in_pool : Pool → Result (Unit {0}) × Dict String Provider → Result (Unit {0}) × Pool
in_pool pool (outcome, providers) = (outcome, record pool { providers = providers })

abbrev pub is_in_scope : Option String → String → Bool
is_in_scope none name = true
is_in_scope (some pool) name = name == pool

unfoldable pub reset_pools :
    Wipe → Option String → Dict String Pool → Result (Unit {0}) × Dict String Pool
unfolding reset_providers
reset_pools wipe scope [] = (ok tt, [])
reset_pools wipe scope ((name, pool) ∷ rest) =
    and_rest name rest
      (if is_in_scope scope name
        then in_pool pool (reset_providers wipe pool.providers)
        else (ok tt, pool))
      (reset_pools wipe scope rest)
