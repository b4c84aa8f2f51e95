-- ===== src/Domain/Provider/Tests.antt =====
-- Runs of provider_simulator/domain/provider.py.
use provider_simulator.Base.{◌≡◌, refl, false, none, [], ◌∷◌, arith}
use provider_simulator.Base.Dict.{string_key}
use provider_simulator.Domain.CallLog.{new_log}
use provider_simulator.Domain.Quirks.{quirks}
use provider_simulator.Domain.Provider.{
  Provider, executed_memory_cap, remember, executed_snapshot, forget_executed,
}
use provider_simulator.Domain.Provider.Memory.{IsBounded, remember_all, remember_all-IsBounded}

abbrev provider : Provider
provider = record {
  pool = "sui";
  pid = "1";
  name = "SuiProvider1";
  is_backup = false;
  group_label = "";
  scenario = record { values = []; last_write_at = none };
  quirks_class = quirks;
  quirks = record { values = []; last_write_at = none };
  log = new_log "sui" "1" 2000 "SuiProvider1";
  endpoints = [];
  fail_count = 0;
  executed = ("d1", 5) ∷ [];
}

-- The memory of two digests drops the older one, and a digest that ran keeps its first time.
small :
    (remember 2 "d3" 9 (("d1", 5) ∷ ("d2", 7) ∷ []) ≡ ("d2", 7) ∷ ("d3", 9) ∷ [])
    × (remember 2 "d1" 9 (("d1", 5) ∷ ("d2", 7) ∷ []) ≡ ("d1", 5) ∷ ("d2", 7) ∷ [])
unfolding remember
small = (refl, refl)

remember_all-IsBounded_example : IsBounded executed_memory_cap (
    executed_snapshot
      (remember_all (("d1", 1) ∷ ("d2", 2) ∷ ("d1", 3) ∷ []) (forget_executed provider)))
remember_all-IsBounded_example =
    remember_all-IsBounded (("d1", 1) ∷ ("d2", 2) ∷ ("d1", 3) ∷ []) provider

one-IsBounded : IsBounded executed_memory_cap provider.executed
unfolding executed_memory_cap
one-IsBounded = record { within = omega arith; distinct = (refl, tt) }
