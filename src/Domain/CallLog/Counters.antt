-- ===== src/Domain/CallLog/Counters.antt =====
-- provider_simulator/domain/call_log.py: the counters of the statuses, up and down.
use provider_simulator.Base.{
  ℕ, ◌+◌, ◌-◌, ◌≡◌, ◌≢◌, String, some, arith, ◌==◌, eq_iff, if◌then◌else◌,
}
use provider_simulator.Base.Dict
use provider_simulator.Base.Dict.{Dict, string_key, get-put, get-remove, get_or-put, get_or-remove}
use provider_simulator.Domain.CallLog.{count_up, count_down}

pub get_or-count_up :
    (s j : String) (d : Dict String ℕ)
    → Dict.get_or j 0 (count_up s d) ≡ Dict.get_or j 0 d + (if s == j then 1 else 0)
unfolding count_up
get_or-count_up s j d = ground (arith, get_or-put s j (Dict.get_or s 0 d + 1) 0 d, eq_iff s j)

pub get-count_up :
    (s j : String) (d : Dict String ℕ) → Dict.get j d ≢ some 0 → Dict.get j (count_up s d) ≢ some 0
unfolding count_up
get-count_up s j d h = ground (arith, get-put s j (Dict.get_or s 0 d + 1) d)

pub get_or-count_down :
    (s j : String) (d : Dict String ℕ)
    → Dict.get_or j 0 (count_down s d) ≡ Dict.get_or j 0 d - (if s == j then 1 else 0)
unfolding count_down
get_or-count_down s j d =
    ground (arith, get_or-put s j (Dict.get_or s 0 d - 1) 0 d, get_or-remove s j 0 d, eq_iff s j)

pub get-count_down :
    (s j : String) (d : Dict String ℕ)
    → Dict.get j d ≢ some 0
    → Dict.get j (count_down s d) ≢ some 0
unfolding count_down
get-count_down s j d h = ground (arith, get-put s j (Dict.get_or s 0 d - 1) d, get-remove s j d)
