-- ===== src/CacheSim/Tests.antt =====
-- Runs of provider_simulator/cache_sim.py, with a small library in the place of the real one.
use provider_simulator.Base.{
  ◌+◌, ◌≤◌, ◌≡◌, refl, String, false, none, some, [], ◌∷◌, if◌then◌else◌, ◌==◌, arith,
}
use provider_simulator.Base.Deque
use provider_simulator.Base.Int.{pos}
use provider_simulator.Base.Dict.{Dict, string_key}
use provider_simulator.Base.Json.{Json, num, text, obj, field, end}
use provider_simulator.Base.Results.{ok, value_error}
use provider_simulator.CacheSim.Entry.{
  Library, CacheEntry, entry_of, validate, with_payload, from_dict, b64_of, list_or_null,
  to_cache_relay_reply,
}
use provider_simulator.CacheSim.Lookups.{EndsInLookup, plan-unreadable, plan-raises}
use provider_simulator.CacheSim.Runs.{
  IsCounted, looked_up, refused_method, staged, apply, run, run-IsCounted,
}
use provider_simulator.CacheSim.Sims.{get_sim, reset_all, answer-reset_all}
use provider_simulator.CacheSim.Staging.{answer-stage}
use provider_simulator.CacheSim.Control.{
  Stage, described, stage, known_mode, check_status, check_optional_status, read_entry,
}
use provider_simulator.CacheSim.Log.{
  hit, mode_of, CacheSim, new_sim, record_call, record_other_method, call_count, clear_calls, reset,
  state,
}
use provider_simulator.CacheSim.Plans.{
  decode, int_of, str_of, list_of, hash_of, relay_key, answer, miss_reply, lookup_row, plan_decoded,
  plan, respond,
}

-- It reads one body, an object with a block that is not a number.
abbrev library : Library
library = record {
  dumps = λ value. "payload";
  loads = λ body.
      if body == "x" then some (obj (field "requested_block" (text "latest") end)) else none;
  b64 = λ s. s;
  unb64_hex = λ s. "";
  read_int = λ s. none;
  truncate = λ s. none;
  show = λ value. "0";
  grpc_status_names = "OK" ∷ "UNAVAILABLE" ∷ [];
}

abbrev body : Dict String Json
body = ("result", text "0x1") ∷ ("latest_block", num (pos 900)) ∷ []

abbrev hit_stage : Stage
hit_stage = record {
  mode = "hit";
  entry = some (described body);
  latency_ms = 5;
  error_status = none;
  error_message = none;
  malformed_body = none;
  seen_block = none;
}

program : Unit {0}
unfolding entry_of validate with_payload from_dict b64_of list_or_null to_cache_relay_reply mode_of
    new_sim stage known_mode check_status check_optional_status read_entry decode int_of str_of
    list_of hash_of relay_key answer miss_reply lookup_row plan_decoded plan record_call
    record_other_method call_count clear_calls reset state Deque.append apply run
program = tt

abbrev entry : CacheEntry
unfolding entry_of with_payload
entry =
    with_payload library (some (text "0x1")) none false
      (entry_of (("latest_block", num (pos 900)) ∷ []))

described_entry : from_dict library body ≡ ok entry
unfolding program
described_entry = refl

abbrev hit_sim : CacheSim
hit_sim = record (new_sim 2 "cache") { mode = hit; entry = some entry; latency_ms = 5 }

staged_hit : stage library hit_stage (new_sim 2 "cache") ≡ ok hit_sim
unfolding program
staged_hit = refl

-- Three lookups and another call, in a record of two.
counts :
    ((state (
        run library
          (new_sim 2 "cache")
          (looked_up "" 1 ∷ looked_up "?" 2 ∷ refused_method "Health" 3 ∷ []))).calls
      ≡ 1)
    × ((run library (new_sim 2 "cache") (looked_up "" 1 ∷ looked_up "x" 2 ∷ [])).records_total ≡ 1)
unfolding program
counts = (refl, refl)

run-IsCounted_example :
    IsCounted
      (run library (new_sim 2 "cache") (staged hit_stage ∷ looked_up "" 1 ∷ looked_up "x" 2 ∷ []))
run-IsCounted_example =
    run-IsCounted library 2 "cache" (staged hit_stage ∷ looked_up "" 1 ∷ looked_up "x" 2 ∷ [])

answer-stage_example :
    (e : CacheEntry) × (read_entry library (some (described body)) ≡ ok (some e))
    × (validate e ≡ ok tt)
    × (answer library hit_sim ≡ respond (to_cache_relay_reply library e) 5)
answer-stage_example = answer-stage library hit_stage (new_sim 2 "cache") hit_sim refl staged_hit

plan-unreadable_example :
    ((plan library "{not json" 7 hit_sim).0
      ≡ ok (respond (to_cache_relay_reply library entry) hit_sim.latency_ms))
    × ((plan library "{not json" 7 hit_sim).1.records_total ≡ hit_sim.records_total + 1)
    × EndsInLookup hit_sim 7 (plan library "{not json" 7 hit_sim).1.calls
unfolding new_sim
plan-unreadable_example =
    plan-unreadable library "{not json" 7 hit_sim entry refl refl refl (omega arith)

plan-raises_example :
    ((plan library "x" 7 hit_sim).1.calls ≡ hit_sim.calls)
    × ((plan library "x" 7 hit_sim).1.records_total ≤ hit_sim.records_total + 1)
unfolding program
plan-raises_example = plan-raises library "x" 7 hit_sim value_error refl

abbrev zones : Dict String CacheSim
zones = ("zone-a", hit_sim) ∷ []

answer-reset_all_example :
    (old : CacheSim) × (get_sim "zone-a" zones ≡ some old)
    × ((reset hit_sim).calls ≡ [])
    × ((reset hit_sim).records_total ≡ 0)
    × (answer library (reset hit_sim) ≡ respond (miss_reply (pos 0)) 0)
unfolding get_sim reset_all
answer-reset_all_example = answer-reset_all library "zone-a" zones (reset hit_sim) refl
