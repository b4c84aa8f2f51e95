-- ===== src/CacheSim/Control.antt =====
-- provider_simulator/cache_sim.py: what a test stages for the next lookups.
use provider_simulator.Base.{
  ℕ, String, Bool, true, false, not, ◌||◌, Option, none, some, List, [], ◌∷◌, is_one_of, ◌==◌,
}
use provider_simulator.Base.Int.{ℤ}
use provider_simulator.Base.Dict.{Dict, string_key}
use provider_simulator.Base.Json.{Json}
use provider_simulator.Base.Results.{Result, ok, err, value_error, ◌>>=◌, ◌>>◌, raise_if}
use provider_simulator.CacheSim.Entry.{Library, CacheEntry, from_dict, validate}
use provider_simulator.CacheSim.Log.{CacheSim, Mode, hit, mode_of}

-- An entry as a test stages it: built, or as the dictionary of a control call.
pub data Staged : Type 0 where
  built : CacheEntry → Staged
  described : Dict String Json → Staged

pub record Stage : Type 0 where
  pub mode : String
  pub entry : Option Staged
  pub latency_ms : ℕ
  pub error_status : Option String
  pub error_message : Option String
  pub malformed_body : Option String
  pub seen_block : Option ℤ

abbrev pub or_kept {ℓ} : {A : Type ℓ} → Option A → A → A
or_kept none old = old
or_kept (some new) old = new

abbrev pub or_kept_entry : Option CacheEntry → Option CacheEntry → Option CacheEntry
or_kept_entry none old = old
or_kept_entry (some new) old = some new

module _ (lib : Library) where
  -- With no grpcio there are no names, and any status is accepted.
  unfoldable pub check_status : List String → String → Result (Unit {0})
  check_status [] status = ok tt
  check_status (n ∷ names) status =
      raise_if (status == "OK" || not (is_one_of status (n ∷ names))) value_error

  unfoldable pub check_optional_status : Option String → Result (Unit {0})
  unfolding check_status
  check_optional_status none = ok tt
  check_optional_status (some status) = check_status lib.grpc_status_names status

  unfoldable pub read_entry : Option Staged → Result (Option CacheEntry)
  read_entry none = ok none
  read_entry (some (built e)) = do validate e; ok (some e)
  read_entry (some (described body)) = do e ← from_dict lib body; validate e; ok (some e)

  abbrev pub is_hit_without_entry : Mode → Option Staged → Bool
  is_hit_without_entry hit none = true
  is_hit_without_entry _ _ = false

  unfoldable pub known_mode : String → Result Mode
  unfolding mode_of
  known_mode s = elim (mode_of s) [ none ↦ err value_error | some m ↦ ok m ]

  -- Every test comes before the first write: a refused stage leaves the cache as it is.
  unfoldable pub stage : Stage → CacheSim → Result CacheSim
  stage a sim = do
    mode ← known_mode a.mode
    raise_if (is_hit_without_entry mode a.entry) value_error
    check_optional_status a.error_status
    entry ← read_entry a.entry
    ok (record sim {
      mode = mode;
      entry = or_kept_entry entry sim.entry;
      latency_ms = a.latency_ms;
      error_status = or_kept a.error_status sim.error_status;
      error_message = or_kept a.error_message sim.error_message;
      malformed_body = or_kept a.malformed_body sim.malformed_body;
      seen_block = or_kept a.seen_block sim.seen_block;
    })
