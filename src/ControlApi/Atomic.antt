-- ===== src/ControlApi/Atomic.antt =====
-- provider_simulator/control_api.py: every block of a request is checked before any block is written.
-- What the checks let through, and the writes that follow.
use provider_simulator.Base.{
  ℕ, String, ◌≡◌, refl, Bool, Bool-cases, List, [], ◌∷◌, some, inl, inr, if◌then◌else◌,
}
use provider_simulator.Base.Dict
use provider_simulator.Base.Dict.{Dict, string_key, nat_key}
use provider_simulator.Base.Json.{Json}
use provider_simulator.Base.Results.{
  Result, ok, err, value_error, key_error, type_error, runtime_error, frame_parse_error,
}
use provider_simulator.ControlApi.{
  Outcome, done, refused, raised, ◌>>=◌, ◌>>◌, Staged, guarded, check_block,
}
use provider_simulator.ControlApi.Apply.{write_quirks, write_provider}
use provider_simulator.ControlApi.Fields.{Floats}
use provider_simulator.Domain.Config.{ConfigClass, Config, check, update, write_all}
use provider_simulator.Domain.Provider.{Provider, reset_fail}
use provider_simulator.Domain.Scenario.{scenario_config}

pub >>=-eq-done {ℓ κ} :
    {A : Type ℓ} {B : Type κ} (first : Outcome A) (next : A → Outcome B) {b : B}
    → (first >>= next) ≡ done b
    → (a : A) × (first ≡ done a) × (next a ≡ done b)
>>=-eq-done (done a) next h = (a, refl, h)
>>=-eq-done (refused status) next h = cc
>>=-eq-done (raised e) next h = cc

pub >>-eq-done {ℓ} :
    {B : Type ℓ} (first : Outcome (Unit {0})) (rest : Outcome B) {b : B}
    → (first >> rest) ≡ done b
    → (first ≡ done tt) × (rest ≡ done b)
>>-eq-done (done a) rest h = (refl, h)
>>-eq-done (refused status) rest h = cc
>>-eq-done (raised e) rest h = cc

pub guarded-eq-done {ℓ} : {A : Type ℓ} (r : Result A) {a : A} → guarded r ≡ done a → r ≡ ok a
guarded-eq-done (ok b) h = cc
guarded-eq-done (err value_error) h = cc
guarded-eq-done (err key_error) h = cc
guarded-eq-done (err type_error) h = cc
guarded-eq-done (err runtime_error) h = cc
guarded-eq-done (err frame_parse_error) h = cc

pub done-injective {ℓ} : {A : Type ℓ} (a b : A) → done a ≡ done b → a ≡ b
done-injective a b h = cc

-- Both classes accept what is staged.
abbrev pub IsChecked : Staged → Type 0
IsChecked st =
    (check scenario_config st.updates ≡ ok tt) × (check st.quirks_class st.quirks ≡ ok tt)

abbrev pub AreChecked : List Staged → Type 0
AreChecked [] = Unit
AreChecked (st ∷ rest) = IsChecked st × AreChecked rest

module _ (floats : Floats) (has_gate : ℕ → Bool) where
  pub check_block-made :
      (p : Provider) (pool pid : String) (updates quirks : Dict String Json) (st : Staged)
      → check_block floats has_gate p pool pid (updates, quirks) ≡ done st
      → (check scenario_config updates ≡ ok tt)
        × (check p.quirks_class quirks ≡ ok tt)
        × (record {
          pool = pool;
          pid = pid;
          quirks_class = p.quirks_class;
          updates = updates;
          quirks = quirks;
        }
            ≡ st)
  unfolding check_block
  check_block-made p pool pid updates quirks st h =
      let (h1, made) = >>-eq-done _ _ h in
      let (h2, c2) = >>-eq-done _ (guarded (check p.quirks_class quirks)) h1 in
      let (h3, c1) = >>-eq-done _ (guarded (check scenario_config updates)) h2 in
      (guarded-eq-done _ c1, guarded-eq-done _ c2, done-injective _ _ made)

-- A provider after its block, with both updates made.
abbrev pub restarted : Staged → Provider → Provider
restarted st p = if Dict.has "fail_first_n" st.updates then reset_fail p else p

pub restarted_keeps :
    (st : Staged) (p : Provider)
    → ((restarted st p).scenario ≡ p.scenario) × ((restarted st p).quirks_class ≡ p.quirks_class)
unfolding reset_fail
restarted_keeps st p = elim (Bool-cases (Dict.has "fail_first_n" st.updates)) [
  | inl there ↦ rw there (refl, refl)
  | inr missing ↦ rw missing (refl, refl)
]

abbrev pub stamped : ℕ → Dict String Json → Config → Config
stamped now cfg c = record { values = write_all cfg c.values; last_write_at = some now }

abbrev pub stamped_unless_empty : ℕ → Dict String Json → Config → Config
stamped_unless_empty now [] c = c
stamped_unless_empty now (entry ∷ cfg) c = stamped now (entry ∷ cfg) c

abbrev pub written : ℕ → Staged → Provider → Provider
written now st p = record (restarted st p) {
  scenario = stamped now st.updates (restarted st p).scenario;
  quirks = stamped_unless_empty now st.quirks (restarted st p).quirks;
}

-- A block that was checked is written whole.
update-checked :
    (cls : ConfigClass) (now : ℕ) (cfg : Dict String Json) (c : Config)
    → check cls cfg ≡ ok tt
    → update cls now cfg c ≡ ok (stamped now cfg c)
unfolding update
update-checked cls now cfg c h = rw h

write_quirks-checked :
    (now : ℕ) (cls : ConfigClass) (quirks : Dict String Json) (p : Provider)
    → check cls quirks ≡ ok tt
    → write_quirks now cls quirks p
      ≡ (done tt, record p { quirks = stamped_unless_empty now quirks p.quirks })
unfolding write_quirks
write_quirks-checked now cls [] p h = refl
write_quirks-checked now cls (entry ∷ quirks) p h =
    rw (write_quirks, update-checked cls now (entry ∷ quirks) p.quirks h)

pub write_provider-checked :
    (now : ℕ) (st : Staged) (p : Provider)
    → IsChecked st
    → write_provider now st p ≡ (done tt, written now st p)
unfolding write_provider
write_provider-checked now st p (scenario_ok, quirks_ok) =
    rw
      (
        write_provider,
        update-checked scenario_config now st.updates (restarted st p).scenario scenario_ok,
        write_quirks-checked now st.quirks_class st.quirks _ quirks_ok,
      )
      refl
