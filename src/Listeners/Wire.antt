-- ===== src/Listeners/Wire.antt =====
-- provider_simulator/listeners/wire.py: a reply body as the bytes of the wire, with a corruption that
-- is configured. json.dumps and str.encode are parameters. A path is the list of its codes.
pub mod Paths
pub mod Corruption
mod Tests
use provider_simulator.Base.{
  ℕ, suc, zero, ◌-◌, String, Bool, true, false, not, ◌&&◌, Option, none, some, List, [], ◌∷◌, ◌++◌,
  length, take, ltb, nat_eq, ◌==◌, codes, if◌then◌else◌,
}
use provider_simulator.Base.Int.{pos}
use provider_simulator.Base.Json.{Json, null, bool, num, real, text, arr, obj, Fields, end, field}

pub record Encoder : Type 0 where
  pub dumps : Json → List ℕ
  pub encode : String → List ℕ

abbrev pub same : List ℕ → List ℕ → Bool
same [] [] = true
same (a ∷ s) (b ∷ t) = nat_eq a b && same s t
same _ _ = false

-- {k: v for k, v in data.items() if k != name}
abbrev pub remove_field : List ℕ → Fields → Fields
remove_field name end = end
remove_field name (field k v fs) =
    let rest = remove_field name fs in if same (codes k) name then rest else field k v rest

abbrev pub get_field : List ℕ → Fields → Option Json
get_field name end = none
get_field name (field k v fs) = if same (codes k) name then some v else get_field name fs

-- {**data, name: value}, for a name that is there
abbrev pub set_field : List ℕ → Json → Fields → Fields
set_field name value end = end
set_field name value (field k v fs) =
    if same (codes k) name then field k value fs else field k v (set_field name value fs)

abbrev pub onto_first : ℕ → List (List ℕ) → List (List ℕ)
onto_first c [] = (c ∷ []) ∷ []
onto_first c (s ∷ ss) = (c ∷ s) ∷ ss

-- path.split(".")
unfoldable pub split : List ℕ → List (List ℕ)
split [] = [] ∷ []
split (c ∷ cs) = let rest = split cs in if nat_eq c b'.' then [] ∷ rest else onto_first c rest

-- ".".join(segments)
unfoldable pub join : List (List ℕ) → List ℕ
join [] = []
join (s ∷ []) = s
join (s ∷ t ∷ ss) = s ++ (b'.' ∷ join (t ∷ ss))

-- What the value of a field becomes when it is an object.
abbrev pub set_inner : List ℕ → Fields → Option Json → (Fields → Fields) → Fields
set_inner name fs (some (obj inner)) f = set_field name (obj (f inner)) fs
set_inner name fs _ f = fs

-- _remove_dotted, on at most `fuel` levels.
unfoldable pub remove_dotted : ℕ → List ℕ → Fields → Fields
remove_dotted zero path fs = fs
remove_dotted (suc fuel) [] fs = fs
remove_dotted (suc fuel) (c ∷ cs) fs = elim (split (c ∷ cs)) [
  | [] ↦ fs
  | s ∷ ss ↦ elim ss [
    | [] ↦ remove_field s fs
    | t ∷ ts ↦ set_inner s fs (get_field s fs) (remove_dotted fuel (join (t ∷ ts)))
  ]
]

abbrev pub remove_at : List ℕ → Fields → Fields
remove_at path fs = remove_dotted (suc (length path)) path fs

unfoldable pub swap_type : Json → Json
swap_type (bool true) = num (pos 1)
swap_type (bool false) = num (pos 0)
swap_type (text s) = num (pos 12345)
swap_type value = text "wrong_type_value"

abbrev pub first_key : Fields → String
first_key end = ""
first_key (field k v fs) = k

-- missing_field or the default: the empty text stands for a target that is not there.
abbrev pub target_of : Bool → String → Fields → String
target_of dotted missing fs =
    if not (missing == "") then missing else if dotted then first_key fs else "result"

unfoldable pub wrong_type : String → Fields → Fields
unfolding swap_type
wrong_type target fs = elim (get_field (codes target) fs) [
  | none ↦ fs
  | some v ↦ if target == "" then fs else set_field (codes target) (swap_type v) fs
]

abbrev pub is_mode : String → Option String → Bool
is_mode name none = false
is_mode name (some mode) = mode == name

abbrev pub invalid_json : List ℕ
invalid_json = codes "}{ {{ not valid json"

-- The corruption of the bytes, after the body was written.
unfoldable pub finish : ℕ → Option String → List ℕ → ℕ × List ℕ × Bool
finish status mode raw =
    if is_mode "truncated" mode && ltb 10 (length raw)
    then (status, take (length raw - 10) raw, true)
    else if is_mode "invalid_json" mode
    then (status, invalid_json, true)
    else (status, raw, true)

-- A field that is not named is the empty text.
unfoldable pub body_reply : Encoder → ℕ → Json → Option String → String → Bool → ℕ × List ℕ × Bool
body_reply lib status (obj fs) mode missing dotted =
    if is_mode "missing_field" mode && not (missing == "")
    then finish status mode (
        lib.dumps
          (obj (if dotted then remove_at (codes missing) fs else remove_field (codes missing) fs)))
    else if is_mode "empty_response" mode
    then (status, [], false)
    else if is_mode "wrong_type" mode
    then finish status mode (lib.dumps (obj (wrong_type (target_of dotted missing fs) fs)))
    else finish status mode (lib.dumps (obj fs))
body_reply lib status (text s) mode missing dotted =
    if is_mode "empty_response" mode then (status, [], false) else finish status mode (lib.encode s)
body_reply lib status body mode missing dotted = finish status mode (lib.dumps body)

unfoldable pub serialize : Encoder → ℕ → Json → Option String → String → Bool → ℕ × List ℕ × Bool
serialize lib status body mode missing dotted =
    if is_mode "null_body" mode
    then (status, codes "null", true)
    else body_reply lib status body mode missing dotted
