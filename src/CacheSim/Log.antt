-- ===== src/CacheSim/Log.antt =====
-- provider_simulator/cache_sim.py: a simulated cache and the record of the calls that it got.
use provider_simulator.Base.{
  ℕ, ◌+◌, String, Bool, true, false, not, Option, none, some, List, [], count_if, ◌==◌,
  if◌then◌else◌,
}
use provider_simulator.Base.Int.{ℤ, pos}
use provider_simulator.Base.Deque
use provider_simulator.Base.Dict.{string_key}
use provider_simulator.Base.Json.{Json}
use provider_simulator.CacheSim.Entry.{CacheEntry}

pub data Mode : Type 0 where
  hit miss error hang malformed : Mode

-- mode not in MODES
unfoldable pub mode_of : String → Option Mode
mode_of s =
    if s == "hit"
    then some hit
    else if s == "miss"
    then some miss
    else if s == "error"
    then some error
    else if s == "hang"
    then some hang
    else if s == "malformed"
    then some malformed
    else none

pub record RecordedCall : Type 0 where
  pub method : String
  pub chain_id : String
  pub request_hash_hex : String
  pub requested_block : ℤ
  pub finalized : Bool
  pub seen_block : ℤ
  pub shared_state_id : String
  pub blocks_hashes_to_heights : List Json
  pub key : String
  pub mode : Mode
  pub ts : ℕ

pub record CacheSim : Type 0 where
  pub name : String
  pub mode : Mode
  pub entry : Option CacheEntry
  pub latency_ms : ℕ
  pub error_status : String
  pub error_message : String
  pub malformed_body : String
  pub seen_block : ℤ
  pub history_max : ℕ
  pub calls : List RecordedCall
  pub records_total : ℕ

unfoldable pub new_sim : ℕ → String → CacheSim
new_sim history_max name = record {
  name = name;
  mode = miss;
  entry = none;
  latency_ms = 0;
  error_status = "UNAVAILABLE";
  error_message = "cache-sim: injected error";
  malformed_body = "{not json";
  seen_block = pos 0;
  history_max = history_max;
  calls = [];
  records_total = 0;
}

unfoldable pub reset : CacheSim → CacheSim
reset sim = record sim {
  mode = miss;
  entry = none;
  latency_ms = 0;
  calls = [];
  records_total = 0;
  seen_block = pos 0;
}

unfoldable pub clear_calls : CacheSim → CacheSim
clear_calls sim = record sim { calls = [] }

abbrev pub get_relay_method : String
get_relay_method = "/smartrouter.pairing.RelayerCache/GetRelay"

unfoldable pub record_call : CacheSim → RecordedCall → CacheSim
record_call sim call = record sim {
  records_total = sim.records_total + 1;
  calls = Deque.append sim.history_max sim.calls call;
}

unfoldable pub record_other_method : String → ℕ → CacheSim → CacheSim
unfolding record_call
record_other_method method now sim = record_call sim (record {
  method = method;
  chain_id = "";
  request_hash_hex = "";
  requested_block = pos 0;
  finalized = false;
  seen_block = pos 0;
  shared_state_id = "";
  blocks_hashes_to_heights = [];
  key = "";
  mode = sim.mode;
  ts = now;
})

abbrev pub is_lookup : RecordedCall → Bool
is_lookup call = call.method == get_relay_method

unfoldable pub call_count : CacheSim → ℕ
call_count sim = count_if is_lookup sim.calls

pub record State : Type 0 where
  pub name : String
  pub mode : Mode
  pub latency_ms : ℕ
  pub has_entry : Bool
  pub seen_block : ℤ
  pub calls : ℕ
  pub other_method_calls : ℕ

abbrev pub is_some : Option CacheEntry → Bool
is_some none = false
is_some (some e) = true

unfoldable pub state : CacheSim → State
state sim = record {
  name = sim.name;
  mode = sim.mode;
  latency_ms = sim.latency_ms;
  has_entry = is_some sim.entry;
  seen_block = sim.seen_block;
  calls = count_if is_lookup sim.calls;
  other_method_calls = count_if (λ call. not (is_lookup call)) sim.calls;
}
