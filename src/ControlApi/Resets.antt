-- ===== src/ControlApi/Resets.antt =====
-- provider_simulator/control_api.py: the resets, over everything or over one pool. The wishes for the
-- ports are read when every provider of the scope is reset: a provider's wishes depend on it alone.
use provider_simulator.Base.{
  String, Bool, true, false, ◌&&◌, List, [], Option, none, some, map, if◌then◌else◌,
}
use provider_simulator.Base.Dict.{Dict, string_key}
use provider_simulator.Base.Json.{Json}
use provider_simulator.Base.Results.{Result, ok, err}
use provider_simulator.Base.Sort.{sorted}
use provider_simulator.CacheSim.Control.{Stage, stage}
use provider_simulator.CacheSim.Entry.{Library}
use provider_simulator.CacheSim.Log.{CacheSim, clear_calls, reset as reset_sim}
use provider_simulator.ControlApi.{Outcome, done, refused, raised}
use provider_simulator.ControlApi.Fields.{Floats}
use provider_simulator.ControlApi.Ports.{Waits, settle_ports_of}
use provider_simulator.Domain.Provider.{Pool}
use provider_simulator.RespProxy.Proxies.{restore_all, clear_latency_all, proxy_names}
use provider_simulator.ControlApi.Scopes.{
  Simulator, is_none, Wipe, key_of, scope_of, providers_in_scope, chains_in_scope, reset_heads,
  reset_pools,
}

-- sim.stage(mode=DEFAULT_CACHE_MODE), which no rule refuses
abbrev pub stage_miss : Library → CacheSim → CacheSim
stage_miss lib sim = elim (stage lib default sim) [ err e ↦ sim | ok staged ↦ staged ]
  where
    default : Stage
    default = record {
      mode = "miss";
      entry = none;
      latency_ms = 0;
      error_status = none;
      error_message = none;
      malformed_body = none;
      seen_block = none;
    }

unfoldable pub reset_cache : Library → Wipe → CacheSim → CacheSim
reset_cache lib wipe sim =
    if wipe.scenario && wipe.history
    then reset_sim sim
    else if wipe.scenario
    then stage_miss lib sim
    else if wipe.history
    then clear_calls sim
    else sim

abbrev pub names_of {ℓ} : {V : Type ℓ} → Dict String V → List String
names_of d = map (λ (name, v). name) d

-- What a reset says that it cleared.
pub record Cleared : Type 0 where
  pub pool : Option String
  pub providers : List String
  pub chains : List String
  pub caches : List String
  pub proxies : List String

-- 200 with what was cleared, or 500 for a port that is stuck
abbrev pub reset_answer : Bool → Cleared → Option Cleared
reset_answer true cleared = some cleared
reset_answer false cleared = none

module _ (floats : Floats) (lib : Library) where
  -- The caches and the proxies have no pool: a reset of one pool leaves them, but for the latencies.
  abbrev pub wipe_stores : Wipe → Option String → Simulator → Simulator
  wipe_stores wipe (some pool) sim = record sim { proxies = clear_latency_all sim.proxies }
  wipe_stores wipe none sim = record sim {
    caches = map (λ (name, cache). (name, reset_cache lib wipe cache)) sim.caches;
    proxies = clear_latency_all (if wipe.scenario then restore_all sim.proxies else sim.proxies);
  }

  abbrev pub cleared_by : Wipe → Option String → Simulator → Cleared
  cleared_by wipe scope sim = record {
    pool = scope;
    providers = sorted (map key_of (providers_in_scope scope sim.api.registry));
    chains =
        if wipe.scenario then sorted (chains_in_scope scope sim.api.registry sim.chains) else [];
    caches = if is_none scope then sorted (names_of sim.caches) else [];
    proxies = if is_none scope && wipe.scenario then proxy_names sim.proxies else [];
  }

  abbrev pub with_pools : Dict String Pool → Simulator → Simulator
  with_pools pools sim = record sim {
    api = record sim.api { registry = record sim.api.registry { pools = pools } };
  }

  -- The end of a reset, when the providers are done.
  abbrev pub settle_reset :
      Waits
      → Wipe
      → Option String
      → Simulator
      → Result (Unit {0}) × Dict String Pool
      → Outcome (Option Cleared) × Simulator
  settle_reset waits wipe scope sim (err e, pools) = (raised e, with_pools pools sim)
  settle_reset waits wipe scope sim (ok _, pools) =
      let wiped = wipe_stores wipe scope (with_pools pools sim) in
      let moved = if wipe.scenario then providers_in_scope scope wiped.api.registry else [] in
      let (settled, gates) = settle_ports_of floats waits moved wiped.api.gates in
      (
        done (reset_answer settled (cleared_by wipe scope wiped)),
        record wiped { api = record wiped.api { gates = gates } },
      )

  abbrev pub reset_scope :
      Waits → Wipe → Simulator → Outcome (Option String) → Outcome (Option Cleared) × Simulator
  reset_scope waits wipe sim (refused status) = (refused status, sim)
  reset_scope waits wipe sim (raised e) = (raised e, sim)
  reset_scope waits wipe sim (done scope) =
      let moved = chains_in_scope scope sim.api.registry sim.chains in
      settle_reset waits wipe scope
        (record sim { chains = if wipe.scenario then reset_heads moved sim.chains else sim.chains })
        (reset_pools wipe scope sim.api.registry.pools)

  -- _perform_reset
  unfoldable pub perform_reset :
      Waits → Wipe → Json → Simulator → Outcome (Option Cleared) × Simulator
  perform_reset waits wipe pool sim = reset_scope waits wipe sim (scope_of pool sim.api.registry)

  unfoldable pub reset_scenarios : Waits → Json → Simulator → Outcome (Option Cleared) × Simulator
  reset_scenarios waits pool sim =
      perform_reset waits (record { scenario = true; history = false }) pool sim

  unfoldable pub clear_history : Waits → Json → Simulator → Outcome (Option Cleared) × Simulator
  clear_history waits pool sim =
      perform_reset waits (record { scenario = false; history = true }) pool sim

  unfoldable pub reset_all : Waits → Json → Simulator → Outcome (Option Cleared) × Simulator
  reset_all waits pool sim =
      perform_reset waits (record { scenario = true; history = true }) pool sim
