-- ===== src/ControlApi/Staging.antt =====
-- provider_simulator/control_api.py: what the fields of a block become, and that the provider of a
-- block is there.
use provider_simulator.Base.{
  ℕ, String, ◌≡◌, ◌≢◌, refl, sym, Bool, true, false, Bool-cases, List, [], ◌∷◌, inl, inr, ◌==◌,
  eq_iff, if◌then◌else◌,
}
use provider_simulator.Base.Dict
use provider_simulator.Base.Dict.{Dict, string_key, HasDistinctKeys, has-put, put-HasDistinctKeys}
use provider_simulator.Base.Json.{Json}
use provider_simulator.Base.Results.{
  Result, ok, err, value_error, key_error, type_error, runtime_error, frame_parse_error,
}
use provider_simulator.ControlApi.{
  done, refused, Staged, guarded, refuse_enum, object_of, address_of, found_or_400, split_key,
  stage_field, stage_fields, stage_block, stage_blocks,
}
use provider_simulator.ControlApi.Atomic.{
  >>=-eq-done, >>-eq-done, done-injective, IsChecked, check_block-made,
}
use provider_simulator.ControlApi.Fields.{Floats, bad_enum}
use provider_simulator.ControlApi.Responses.{normalise_responses}
use provider_simulator.Domain.Config.{ConfigClass, is_field}
use provider_simulator.Domain.Provider.{Provider}
use provider_simulator.Domain.Registry.{Registry, provider}
use provider_simulator.Domain.Scenario.{scenario_config}

-- The scenario's fields go to the one update, each once, and none of them to the other.
abbrev pub IsSorted : Dict String Json × Dict String Json → Type 0
IsSorted (updates, quirks) =
    HasDistinctKeys updates
    × ((name : String) → is_field scenario_config name ≡ true → Dict.has name quirks ≡ false)

abbrev pub IsFound : Registry → Staged → Type 0
IsFound reg st = (p : Provider) × (provider reg st.pool st.pid ≡ ok p)

abbrev pub IsReady : Registry → Staged → Type 0
IsReady reg st = IsChecked st × IsSorted (st.updates, st.quirks) × IsFound reg st

abbrev pub AreReady : Registry → List Staged → Type 0
AreReady reg [] = Unit
AreReady reg (st ∷ rest) = IsReady reg st × AreReady reg rest

found_or_400-eq-done : (r : Result Provider) {p : Provider} → found_or_400 r ≡ done p → r ≡ ok p
found_or_400-eq-done (ok b) h = cc
found_or_400-eq-done (err value_error) h = cc
found_or_400-eq-done (err key_error) h = cc
found_or_400-eq-done (err type_error) h = cc
found_or_400-eq-done (err runtime_error) h = cc
found_or_400-eq-done (err frame_parse_error) h = cc

put_other :
    (name : String) (value : Json) (quirks : Dict String Json)
    → is_field scenario_config name ≡ false
    → ((key : String) → is_field scenario_config key ≡ true → Dict.has key quirks ≡ false)
    → (key : String) → is_field scenario_config key ≡ true
    → Dict.has key (Dict.put name value quirks) ≡ false
put_other name value quirks is_none others key is_one = elim (Bool-cases (name == key)) [
  | inl same ↦ cc (is_none, is_one, (eq_iff name key).0 same)
  | inr differs ↦ rw (has-put name key value quirks, differs) (others key is_one)
]

-- The branch that was taken.
taken {ℓ} : {A : Type ℓ} {b : Bool} {x z : A} (y : A) → b ≡ true → (if b then x else y) ≡ z → x ≡ z
taken {b = true} _ e h = h
taken {b = false} _ e h = absurd (cc e)

not_taken {ℓ} :
    {A : Type ℓ} {b : Bool} {y z : A} (x : A) → b ≡ false → (if b then x else y) ≡ z → y ≡ z
not_taken {b = true} _ e h = absurd (cc e)
not_taken {b = false} _ e h = h

refused-ne-done {ℓ} : {A : Type ℓ} {status : ℕ} {a : A} → refused status ≢ done a
refused-ne-done h = cc

module _ (floats : Floats) where
  stage_field-IsSorted :
      (cls : ConfigClass) (name : String) (value : Json) (updates quirks : Dict String Json)
      {next : Dict String Json × Dict String Json}
      → IsSorted (updates, quirks)
      → stage_field floats cls name value (updates, quirks) ≡ done next
      → IsSorted next
  unfolding stage_field
  stage_field-IsSorted cls name value updates quirks (distinct, others) h =
      elim (Bool-cases (name == "responses")) [
        | inl responses ↦
            let (stored, _, made) =
              >>=-eq-done (guarded (normalise_responses value)) _ (taken _ responses h) in
            rw (sym (done-injective _ _ made))
              (put-HasDistinctKeys name stored updates distinct, others)
        | inr n1 ↦
            let h1 = not_taken _ n1 h in
            elim (Bool-cases (is_field scenario_config name)) [
              | inl s ↦
                  let (_, made) =
                    >>-eq-done _ _
                      (>>-eq-done (refuse_enum (bad_enum name value)) _ (taken _ s h1)).1 in
                  rw (sym (done-injective (Dict.put name value updates, quirks) _ made))
                    (put-HasDistinctKeys name value updates distinct, others)
              | inr n2 ↦
                  let h2 = not_taken _ n2 h1 in
                  elim (Bool-cases (is_field cls name)) [
                    | inl q ↦
                        let (_, made) =
                          >>-eq-done (refuse_enum (bad_enum name value)) _ (taken _ q h2) in
                        rw (sym (done-injective (updates, Dict.put name value quirks) _ made))
                          (distinct, put_other name value quirks n2 others)
                    | inr n3 ↦ absurd (refused-ne-done (not_taken _ n3 h2))
                  ]
            ]
      ]

  stage_fields-IsSorted :
      (cls : ConfigClass) (block : List (String × Json))
      (staged : Dict String Json × Dict String Json) {next : Dict String Json × Dict String Json}
      → IsSorted staged
      → stage_fields floats cls block staged ≡ done next
      → IsSorted next
  unfolding stage_fields
  stage_fields-IsSorted cls [] staged sorted h = rw (sym (done-injective _ _ h)) sorted
  stage_fields-IsSorted cls ((name, value) ∷ rest) (updates, quirks) sorted h =
      let (staged, h1, h2) =
        >>=-eq-done (stage_field floats cls name value (updates, quirks)) _ h in
      stage_fields-IsSorted cls rest staged
        (stage_field-IsSorted cls name value updates quirks sorted h1) h2

module _ (floats : Floats) (has_gate : ℕ → Bool) where
  stage_block-IsReady :
      (reg : Registry) (key : String) (value : Json) (st : Staged)
      → stage_block floats has_gate reg key value ≡ done st
      → IsReady reg st
  unfolding stage_block
  stage_block-IsReady reg key value st h =
      let (block, _, h1) = >>=-eq-done (object_of value) _ h in
      let ((pool, pid), _, h2) = >>=-eq-done (address_of (split_key key)) _ h1 in
      let (p, found, h3) = >>=-eq-done (found_or_400 (provider reg pool pid)) _ h2 in
      let ((updates, quirks), h4, h5) =
        >>=-eq-done (stage_fields floats p.quirks_class block ([], [])) _ h3 in
      let (scenario_ok, quirks_ok, made) =
        check_block-made floats has_gate p pool pid updates quirks st h5 in
      rw (sym made) (
        (scenario_ok, quirks_ok),
        stage_fields-IsSorted floats p.quirks_class block ([], []) (tt, λ _ _. refl) h4,
        (p, found_or_400-eq-done _ found),
      )

  pub stage_blocks-AreReady :
      (reg : Registry) (blocks : List (String × Json)) (staged : List Staged)
      → stage_blocks floats has_gate reg blocks ≡ done staged
      → AreReady reg staged
  unfolding stage_blocks
  stage_blocks-AreReady reg [] staged h = rw (sym (done-injective _ _ h)) tt
  stage_blocks-AreReady reg ((key, value) ∷ rest) staged h =
      let (st, h1, h2) = >>=-eq-done (stage_block floats has_gate reg key value) _ h in
      let (others, h3, h4) = >>=-eq-done (stage_blocks floats has_gate reg rest) _ h2 in
      rw (sym (done-injective _ _ h4))
        (stage_block-IsReady reg key value st h1, stage_blocks-AreReady reg rest others h3)
