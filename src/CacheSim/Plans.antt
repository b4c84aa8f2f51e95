-- ===== src/CacheSim/Plans.antt =====
-- provider_simulator/cache_sim.py: what one lookup is answered, and how it is recorded.
use Prim.Native.Nat.{max}
use Prim.Native.String
use provider_simulator.Base.{
  ℕ, ◌+◌, String, Bool, true, false, Option, none, some, List, [], ◌∷◌, ◌==◌, if◌then◌else◌,
}
use provider_simulator.Base.Int.{ℤ, pos}
use provider_simulator.Base.Dict
use provider_simulator.Base.Dict.{Dict, string_key}
use provider_simulator.Base.Json.{
  Json, null, bool, num, real, text, arr, obj, cons, end, field, fields, is_truthy, iterate,
}
use provider_simulator.Base.Results.{Result, ok, err, value_error, type_error, ◌>>=◌}
use provider_simulator.CacheSim.Entry.{Library, to_cache_relay_reply}
use provider_simulator.CacheSim.Log.{
  CacheSim, RecordedCall, error, get_relay_method, hang, hit, malformed, miss, record_call,
}

-- What the listener does for one lookup. A time to sleep is in milliseconds.
pub data Plan : Type 0 where
  respond : Json → ℕ → Plan
  abort : String → String → ℕ → Plan
  raw : String → ℕ → Plan

unfoldable pub miss_reply : ℤ → Json
miss_reply seen_block = obj (
    field "reply" null (
      field "optional_metadata" null (
        field "seen_block" (num seen_block) (
          field "blocks_hashes_to_heights" null
            (field "is_node_error" (bool false) (field "status_code" (num (pos 0)) end))))))

-- HANG_SECONDS
abbrev pub hang_ms : ℕ
hang_ms = 2000

abbrev pub value_of : String → Dict String Json → Json
value_of key d = Dict.get_or key null d

abbrev pub object_of : Option Json → Dict String Json
object_of (some (obj fs)) = fields fs
object_of _ = []

abbrev pub count_only : CacheSim → CacheSim
count_only sim = record sim { records_total = sim.records_total + 1 }

-- The parts of a formatted text, one after the other.
abbrev pub concat : List String → String
concat [] = ""
concat (s ∷ ss) = String.◌++◌ s (concat ss)

module _ (lib : Library) where
  -- json.loads(request_body or b"{}"), when that gives an object
  unfoldable pub decode : String → Dict String Json
  decode body = object_of (lib.loads (if body == "" then "{}" else body))

  -- int(value or 0)
  unfoldable pub int_of : Json → Result ℤ
  int_of (num n) = ok n
  int_of (bool true) = ok (pos 1)
  int_of (real true s) = elim (lib.truncate s) [ none ↦ err value_error | some n ↦ ok n ]
  int_of (text (String.◌∷◌ c s)) = elim (lib.read_int (String.◌∷◌ c s)) [
    | none ↦ err value_error
    | some n ↦ ok n
  ]
  int_of (arr (cons x xs)) = err type_error
  int_of (obj (field k v fs)) = err type_error
  int_of value = ok (pos 0)

  -- str(value or "")
  unfoldable pub str_of : Json → String
  str_of (text s) = s
  str_of value = if is_truthy value then lib.show value else ""

  -- list(value or [])
  unfoldable pub list_of : Json → Result (List Json)
  list_of value = if is_truthy value then iterate value else ok []

  -- _unb64(value).hex()
  unfoldable pub hash_of : Json → String
  hash_of (text s) = lib.unb64_hex s
  hash_of value = ""

  unfoldable pub relay_key : Bool → String → String → ℤ → String
  relay_key finalized chain_id request_hash block = concat (
      (if finalized then "rel:f:" else "rel:t:")
      ∷ chain_id
      ∷ ":"
      ∷ request_hash
      ∷ ":"
      ∷ lib.show (num block)
      ∷ [])

  -- The decision, from what was staged.
  unfoldable pub answer : CacheSim → Plan
  answer sim = elim sim.mode [
    | hang ↦ respond (miss_reply sim.seen_block) (max hang_ms sim.latency_ms)
    | error ↦ abort sim.error_status sim.error_message sim.latency_ms
    | malformed ↦ raw sim.malformed_body sim.latency_ms
    | hit ↦ elim sim.entry [
      | none ↦ respond (miss_reply sim.seen_block) sim.latency_ms
      | some e ↦ respond (to_cache_relay_reply lib e) sim.latency_ms
    ]
    | miss ↦ respond (miss_reply sim.seen_block) sim.latency_ms
  ]

  -- The row of a lookup; `seen_block` and the mappings are read after the call was counted.
  unfoldable pub lookup_row : CacheSim → Dict String Json → ℤ → ℕ → Result RecordedCall
  lookup_row sim d requested_block now = do
    seen ← int_of (value_of "seen_block" d)
    mappings ← list_of (value_of "blocks_hashes_to_heights" d)
    ok (record {
      method = get_relay_method;
      chain_id = str_of (value_of "chain_id" d);
      request_hash_hex = hash_of (value_of "request_hash" d);
      requested_block = requested_block;
      finalized = is_truthy (value_of "finalized" d);
      seen_block = seen;
      shared_state_id = str_of (value_of "shared_state_id" d);
      blocks_hashes_to_heights = mappings;
      key =
          relay_key (is_truthy (value_of "finalized" d)) (str_of (value_of "chain_id" d))
            (hash_of (value_of "request_hash" d)) requested_block;
      mode = sim.mode;
      ts = now;
    })

  -- What was written before an exception stays written, so the cache comes back beside it too.
  unfoldable pub plan_decoded : Dict String Json → ℕ → CacheSim → Result Plan × CacheSim
  plan_decoded d now sim = elim (int_of (value_of "requested_block" d)) [
    | err e ↦ (err e, sim)
    | ok requested_block ↦ elim (lookup_row sim d requested_block now) [
      | err e ↦ (err e, count_only sim)
      | ok row ↦ (ok (answer sim), record_call sim row)
    ]
  ]

  unfoldable pub plan : String → ℕ → CacheSim → Result Plan × CacheSim
  unfolding plan_decoded
  plan body now sim = plan_decoded (decode body) now sim
