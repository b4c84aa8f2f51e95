-- ===== src/ControlApi.antt =====
-- provider_simulator/control_api.py: POST /scenario. The HTTP reply is its status and what it says was
-- applied; the texts of the refusals are left out. The gate of a port belongs to the provider and the
-- endpoint of that port. Whether a port settles within the time allowed is an argument.
pub mod Fields
pub mod Responses
pub mod Rules
pub mod Ports
pub mod Apply
pub mod Places
pub mod Atomic
pub mod Staging
pub mod Overlay
pub mod Writes
pub mod Outcomes
pub mod Scopes
pub mod Resets
pub mod Sound
pub mod Wiped
pub mod WipedReads
pub mod Replay
pub mod Advance
pub mod Heads
pub mod AdvanceForward
pub mod Raises
pub mod Reads
pub mod Clean
pub mod History
pub mod HistoryRows
pub mod HistoryWhole
pub mod HistoryOrder
mod Tests
use provider_simulator.Base.{
  ℕ, String, Bool, true, false, not, ◌&&◌, ◌||◌, Option, none, some, List, [], ◌∷◌, ◌++◌, any,
  nat_eq, ◌==◌, if◌then◌else◌,
}
use Prim.Native.Char.{code}
use provider_simulator.Base.Dict
use provider_simulator.Base.Dict.{Dict, string_key, nat_key}
use provider_simulator.Base.Json.{Json, null, bool, num, real, text, arr, obj, fields, is_text}
use provider_simulator.Base.Results.{Error, Result, ok, err, value_error, key_error}
use provider_simulator.ControlApi.Fields.{Floats, bad_enum, bad_number}
use provider_simulator.ControlApi.Responses.{normalise_responses}
use provider_simulator.ControlApi.Rules.{targets_block, breaks_rule, refused_close, is_empty}
use provider_simulator.Domain.Config.{ConfigClass, Config, is_field, check, update, snapshot}
use provider_simulator.Domain.Endpoint.{Endpoint}
use provider_simulator.Domain.Provider.{Provider, Pool, reset_fail}
use provider_simulator.Domain.Registry.{Registry, provider}
use provider_simulator.Domain.Scenario.{scenario_config, value_of}
use provider_simulator.PortGate.{PortGate, last_report, ask, bool_eq}

-- What a part of a handler gives: a value, a refusal with its HTTP status, or an exception that
-- leaves the handler.
pub data Outcome {ℓ} (A : Type ℓ) : Type ℓ where
  done : A → Outcome A
  refused : ℕ → Outcome A
  raised : Error → Outcome A

infixl 5 ◌>>=◌ ◌>>◌
abbrev pub ◌>>=◌ {ℓ κ} : {A : Type ℓ} {B : Type κ} → Outcome A → (A → Outcome B) → Outcome B
done a >>= go_on = go_on a
refused status >>= go_on = refused status
raised e >>= go_on = raised e

abbrev pub ◌>>◌ {ℓ} : {B : Type ℓ} → Outcome (Unit {0}) → Outcome B → Outcome B
first >> rest = first >>= λ _. rest

-- except ValueError: 400
abbrev pub guarded {ℓ} : {A : Type ℓ} → Result A → Outcome A
guarded (ok a) = done a
guarded (err value_error) = refused 400
guarded (err e) = raised e

-- except KeyError: 400
abbrev pub found_or_400 {ℓ} : {A : Type ℓ} → Result A → Outcome A
found_or_400 (ok a) = done a
found_or_400 (err key_error) = refused 400
found_or_400 (err e) = raised e

abbrev pub refuse_if : Bool → ℕ → Outcome (Unit {0})
refuse_if true status = refused status
refuse_if false status = done tt

-- A rule that can itself raise.
abbrev pub refuse_enum : Result Bool → Outcome (Unit {0})
refuse_enum (ok bad) = refuse_if bad 400
refuse_enum (err e) = raised e

abbrev pub refuse_with : Option ℕ → Outcome (Unit {0})
refuse_with none = done tt
refuse_with (some status) = refused status

-- One block of the request that passed every check: the provider it is for, the class of the quirks
-- of that provider, and the two updates.
pub record Staged : Type 0 where
  pub pool : String
  pub pid : String
  pub quirks_class : ConfigClass
  pub updates : Dict String Json
  pub quirks : Dict String Json

-- str.partition(":"), none without a colon
unfoldable pub split_key : String → Option (String × String)
split_key String.[] = none
split_key (String.◌∷◌ c s) =
    let rest = split_key s in
    if nat_eq (code c) b':'
    then some (String.[], s)
    else elim rest [ none ↦ none | some (pool, pid) ↦ some (String.◌∷◌ c pool, pid) ]

abbrev pub address_of : Option (String × String) → Outcome (String × String)
address_of none = refused 400
address_of (some address) = done address

abbrev pub object_of : Json → Outcome (List (String × Json))
object_of (obj block) = done (fields block)
object_of _ = refused 400

module _ (floats : Floats) where
  -- One field of a block.
  unfoldable pub stage_field :
      ConfigClass
      → String
      → Json
      → Dict String Json × Dict String Json
      → Outcome (Dict String Json × Dict String Json)
  stage_field cls name value (updates, quirks) =
      if name == "responses"
      then (guarded (normalise_responses value) >>= λ stored.
          done (Dict.put name stored updates, quirks))
      else if is_field scenario_config name
      then (refuse_enum (bad_enum name value)
          >> (refuse_if (bad_number floats name value) 400
              >> done (Dict.put name value updates, quirks)))
      else if is_field cls name
      then (refuse_enum (bad_enum name value) >> done (updates, Dict.put name value quirks))
      else refused 400

  unfoldable pub stage_fields :
      ConfigClass
      → List (String × Json)
      → Dict String Json × Dict String Json
      → Outcome (Dict String Json × Dict String Json)
  stage_fields cls [] staged = done staged
  stage_fields cls ((name, value) ∷ rest) staged =
      stage_field cls name value staged >>= λ staged'. stage_fields cls rest staged'

  -- The checks of a block whose fields were read, with nothing written.
  unfoldable pub check_block :
      (ℕ → Bool) → Provider → String → String → Dict String Json × Dict String Json → Outcome Staged
  check_block has_gate p pool pid (updates, quirks) =
      refuse_if (breaks_rule floats p.endpoints (snapshot scenario_config p.scenario) updates) 400
      >> refuse_with
          (refused_close floats has_gate p.endpoints (snapshot scenario_config p.scenario) updates)
      >> guarded (check scenario_config updates)
      >> guarded (check p.quirks_class quirks)
      >> done (record {
        pool = pool;
        pid = pid;
        quirks_class = p.quirks_class;
        updates = updates;
        quirks = quirks;
      })

  unfoldable pub stage_block : (ℕ → Bool) → Registry → String → Json → Outcome Staged
  unfolding stage_fields check_block
  stage_block has_gate reg key value = object_of value >>= λ block.
      address_of (split_key key) >>= λ (pool, pid). found_or_400 (provider reg pool pid) >>= λ p.
      stage_fields p.quirks_class block ([], []) >>= λ staged.
      check_block has_gate p pool pid staged

  -- Every block is checked before any block is written.
  unfoldable pub stage_blocks : (ℕ → Bool) → Registry → List (String × Json) → Outcome (List Staged)
  unfolding stage_block
  stage_blocks has_gate reg [] = done []
  stage_blocks has_gate reg ((key, value) ∷ rest) = stage_block has_gate reg key value >>= λ staged.
      stage_blocks has_gate reg rest >>= λ others. done (staged ∷ others)
