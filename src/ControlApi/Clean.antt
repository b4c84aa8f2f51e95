-- ===== src/ControlApi/Clean.antt =====
-- provider_simulator/control_api.py: POST /reset/all over everything leaves nothing of a test behind.
use provider_simulator.Base.{String, ◌≡◌, refl, true, [], ◌∷◌, map, Option, none}
use provider_simulator.Base.Dict.{Dict, string_key}
use provider_simulator.Base.Entries.{AllValues, map_values}
use provider_simulator.Base.Json.{null}
use provider_simulator.Base.Results.{ok}
use provider_simulator.CacheSim.Entry.{Library}
use provider_simulator.CacheSim.Log.{CacheSim, miss, reset as reset_sim}
use provider_simulator.ControlApi.{Outcome, done, refused, raised}
use provider_simulator.ControlApi.Fields.{Floats}
use provider_simulator.ControlApi.Ports.{Waits}
use provider_simulator.ControlApi.Resets.{
  Cleared, reset_scope, perform_reset, reset_cache, reset_all,
}
use provider_simulator.ControlApi.Scopes.{Simulator, Wipe, scope_of}
use provider_simulator.ControlApi.Sound.{IsSound, provider-AllValues}
use provider_simulator.ControlApi.Wiped.{
  wiped, wiped_pool, reset_pools-wiped, scenario_config-HasDefaults,
  scenario_config-HasDistinctKeys,
}
use provider_simulator.Domain.CallLog.{clear}
use provider_simulator.Domain.Config.{snapshot}
use provider_simulator.Domain.Config.Laws.{defaults_of, snapshot-reset}
use provider_simulator.Domain.Provider.{Provider, Pool, reset_fail, forget_executed}
use provider_simulator.Domain.Registry.{provider}
use provider_simulator.Domain.Scenario.{scenario_config}
use provider_simulator.RespProxy.{Proxy, forwarding, restore, set_latency}
use provider_simulator.RespProxy.Proxies.{restore_all, clear_latency_all}

abbrev everything : Wipe
everything = record { scenario = true; history = true }

-- A provider with every field of its scenario at its default, no counted failure, no transaction in its
-- memory and no call in its log.
abbrev pub IsClean : Provider → Type 0
IsClean p =
    (snapshot scenario_config p.scenario ≡ defaults_of scenario_config)
    × (p.fail_count ≡ 0)
    × (p.executed ≡ [])
    × (p.log.history ≡ [])
    × (p.log.total_calls ≡ 0)
    × (p.log.calls_by_status ≡ [])

-- A cache that misses, with nothing staged and no call on record.
abbrev pub IsCold : CacheSim → Type 0
IsCold c = (c.mode ≡ miss) × (c.entry ≡ none) × (c.calls ≡ [])

-- A proxy that forwards at once.
abbrev pub IsTransparent : Proxy → Type 0
IsTransparent p = (p.gate ≡ forwarding) × (p.latency_ms ≡ 0)

wiped-IsClean : (p : Provider) → IsClean (wiped everything p)
unfolding clear forget_executed reset_fail
wiped-IsClean p = (
  (snapshot-reset scenario_config p.scenario scenario_config-HasDefaults
      scenario_config-HasDistinctKeys).1,
  refl,
  refl,
  refl,
  refl,
  refl,
)

wiped-AllClean :
    (providers : Dict String Provider)
    → AllValues IsClean (map_values (λ _. wiped everything) providers)
wiped-AllClean [] = tt
wiped-AllClean ((pid, p) ∷ rest) = (wiped-IsClean p, wiped-AllClean rest)

wiped_pools-AllClean :
    (pools : Dict String Pool)
    → AllValues
        (λ pool. AllValues IsClean pool.providers)
        (map_values (wiped_pool everything none) pools)
wiped_pools-AllClean [] = tt
wiped_pools-AllClean ((name, pool) ∷ rest) =
    (wiped-AllClean pool.providers, wiped_pools-AllClean rest)

cleared-IsTransparent :
    (proxies : Dict String Proxy)
    → AllValues IsTransparent (clear_latency_all (restore_all proxies))
unfolding clear_latency_all restore_all set_latency restore
cleared-IsTransparent [] = tt
cleared-IsTransparent ((name, p) ∷ rest) = ((refl, refl), cleared-IsTransparent rest)

-- The answer and the state of a call that has left nothing behind.
abbrev pub HasLeftNothing : Outcome (Option Cleared) × Simulator → Type 0
HasLeftNothing (done answer, after) =
    ((pool pid : String) (p : Provider) → provider after.api.registry pool pid ≡ ok p → IsClean p)
    × AllValues IsCold after.caches
    × AllValues IsTransparent after.proxies
HasLeftNothing (refused status, after) = ⊥
HasLeftNothing (raised e, after) = ⊥

module _ (floats : Floats) (lib : Library) (waits : Waits) (sim : Simulator) where
  caches-AllCold :
      (caches : Dict String CacheSim)
      → AllValues IsCold (map (λ (name, cache). (name, reset_cache lib everything cache)) caches)
  unfolding reset_cache reset_sim
  caches-AllCold [] = tt
  caches-AllCold ((name, cache) ∷ rest) = ((refl, refl, refl), caches-AllCold rest)

  reset_scope-HasLeftNothing :
      IsSound sim.api.registry
      → HasLeftNothing (reset_scope floats lib waits everything sim (done none))
  reset_scope-HasLeftNothing sound =
      rw (reset_pools-wiped everything none sim.api.registry.pools sound) (
        (λ pool pid p found.
            provider-AllValues IsClean _ pool pid p (wiped_pools-AllClean sim.api.registry.pools)
              found),
        caches-AllCold sim.caches,
        cleared-IsTransparent sim.proxies,
      )

  -- From providers whose quirks all have a default, a reset of everything is answered. Then every
  -- provider that is there has each field of its scenario at its default, no counted failure, no
  -- transaction in its memory and no call in its log; every cache misses, with nothing staged and no
  -- call on record; and every proxy forwards at once.
  pub reset_all-HasLeftNothing :
      IsSound sim.api.registry → HasLeftNothing (reset_all floats lib waits null sim)
  unfolding reset_all perform_reset scope_of
  reset_all-HasLeftNothing sound = reset_scope-HasLeftNothing sound
