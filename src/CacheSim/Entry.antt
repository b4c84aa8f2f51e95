-- ===== src/CacheSim/Entry.antt =====
-- provider_simulator/cache_sim.py: one entry that the cache can hand back, from a control call to
-- the reply on the wire. Every field is the JSON value that was staged: `validate` looks at its
-- type. A text stands for its bytes.
use provider_simulator.Base.{
  String, Bool, true, false, not, ◌&&◌, ◌||◌, Option, none, some, List, [], ◌∷◌, any, is_one_of,
  if◌then◌else◌,
}
use provider_simulator.Base.Int.{ℤ, pos}
use provider_simulator.Base.Dict
use provider_simulator.Base.Dict.{Dict, string_key}
use provider_simulator.Base.Json.{Json, null, bool, num, text, arr, obj, nil, end, field}
use provider_simulator.Base.Results.{Result, ok, value_error, type_error, ◌>>◌, raise_if}

-- json.dumps, json.loads, base64 and its inverse as hexadecimal, int() of a text and of a float,
-- str() of a JSON value, and the status names of grpcio.
pub record Library : Type 0 where
  pub dumps : Json → String
  pub loads : String → Option Json
  pub b64 : String → String
  pub unb64_hex : String → String
  pub read_int : String → Option ℤ
  pub truncate : String → Option ℤ
  pub show : Json → String
  pub grpc_status_names : List String

pub record CacheEntry : Type 0 where
  pub content : Json
  pub sig : Json
  pub sig_blocks : Json
  pub finalized_blocks_hashes : Json
  pub latest_block : Json
  pub metadata : Json
  pub optional_metadata : Json
  pub seen_block : Json
  pub blocks_hashes_to_heights : Json
  pub is_node_error : Json
  pub status_code : Json

abbrev pub known_fields : List String
known_fields =
    "data" ∷ "sig" ∷ "sig_blocks" ∷ "finalized_blocks_hashes" ∷ "latest_block" ∷ "metadata"
    ∷ "optional_metadata" ∷ "seen_block" ∷ "blocks_hashes_to_heights" ∷ "is_node_error"
    ∷ "status_code" ∷ []

-- cls(**body): the fields that the body leaves out have their defaults.
unfoldable pub entry_of : Dict String Json → CacheEntry
entry_of body = record {
  content = Dict.get_or "data" (text "") body;
  sig = Dict.get_or "sig" (text "") body;
  sig_blocks = Dict.get_or "sig_blocks" null body;
  finalized_blocks_hashes = Dict.get_or "finalized_blocks_hashes" null body;
  latest_block = Dict.get_or "latest_block" (num (pos 0)) body;
  metadata = Dict.get_or "metadata" (arr nil) body;
  optional_metadata = Dict.get_or "optional_metadata" (arr nil) body;
  seen_block = Dict.get_or "seen_block" (num (pos 0)) body;
  blocks_hashes_to_heights = Dict.get_or "blocks_hashes_to_heights" (arr nil) body;
  is_node_error = Dict.get_or "is_node_error" (bool false) body;
  status_code = Dict.get_or "status_code" (num (pos 0)) body;
}

abbrev pub is_bytes : Json → Bool
is_bytes null = true
is_bytes (text s) = true
is_bytes _ = false

abbrev pub is_int : Json → Bool
is_int (num n) = true
is_int _ = false

abbrev pub is_bool : Json → Bool
is_bool (bool b) = true
is_bool _ = false

abbrev pub is_list : Json → Bool
is_list (arr xs) = true
is_list _ = false

unfoldable pub validate : CacheEntry → Result (Unit {0})
validate e =
    raise_if
      (not (
        is_bytes e.content
        && is_bytes e.sig
        && is_bytes e.sig_blocks
        && is_bytes e.finalized_blocks_hashes
        && is_int e.latest_block
        && is_int e.seen_block
        && is_int e.status_code
        && is_bool e.is_node_error
        && is_list e.metadata
        && is_list e.optional_metadata
        && is_list e.blocks_hashes_to_heights))
      type_error

-- {"jsonrpc": "2.0", "id": 0, key: value}
abbrev pub envelope : String → Json → Json
envelope key value =
    obj (field "jsonrpc" (text "2.0") (field "id" (num (pos 0)) (field key value end)))

abbrev pub is_there : Option Json → Bool
is_there none = false
is_there (some v) = true

-- An empty list is sent as null.
unfoldable pub list_or_null : Json → Json
list_or_null (arr nil) = null
list_or_null value = value

module _ (lib : Library) where
  -- The payload of `result` or `error`, and the mark of a node error beside `error`.
  unfoldable pub with_payload : Option Json → Option Json → Bool → CacheEntry → CacheEntry
  with_payload (some result) error marked e = record e {
    content = text (lib.dumps (envelope "result" result));
  }
  with_payload none (some error) marked e = record e {
    content = text (lib.dumps (envelope "error" error));
    is_node_error = if marked then e.is_node_error else bool true;
  }
  with_payload none none marked e = e

  unfoldable pub from_dict : Dict String Json → Result CacheEntry
  from_dict body = do
    let result = Dict.get "result" body
    let error = Dict.get "error" body
    let rest = Dict.remove "error" (Dict.remove "result" body)
    raise_if (is_there result && is_there error) value_error
    raise_if ((is_there result || is_there error) && Dict.has "data" rest) value_error
    raise_if (any (λ (key, _). not (is_one_of key known_fields)) rest) value_error
    ok (with_payload result error (Dict.has "is_node_error" rest) (entry_of rest))

  -- _b64
  unfoldable pub b64_of : Json → Json
  b64_of (text s) = text (lib.b64 s)
  b64_of value = null

  unfoldable pub to_cache_relay_reply : CacheEntry → Json
  unfolding b64_of list_or_null
  to_cache_relay_reply e =
      let reply = obj (
        field "data" (b64_of e.content) (
          field "sig" (b64_of e.sig) (
            field "latest_block" e.latest_block (
              field "finalized_blocks_hashes" (b64_of e.finalized_blocks_hashes)
                (field "sig_blocks" (b64_of e.sig_blocks) (field "metadata" e.metadata end)))))) in
      obj (
        field "reply" reply (
          field "optional_metadata" (list_or_null e.optional_metadata) (
            field "seen_block" e.seen_block (
              field "blocks_hashes_to_heights" (list_or_null e.blocks_hashes_to_heights)
                (field "is_node_error" e.is_node_error (field "status_code" e.status_code end))))))
