-- ===== src/Domain/Scenario/Chosen.antt =====
-- provider_simulator/domain/scenario.py, _validate_chosen: what an accepted set of chosen headers
-- or trailers is sure to be.
use provider_simulator.Base.{
  ℕ, ◌≡◌, ◌≢◌, ◌≤◌, refl, String, Bool, true, false, not, List, [], ◌∷◌, any, arith, All, codes,
  All-imp,
}
use provider_simulator.Base.Json.{Json, text, obj, Fields, fields}
use provider_simulator.Base.Results.{ok, >>=-eq-ok}
use provider_simulator.Domain.Scenario.{validate_entries, validate_chosen_value}
use provider_simulator.Domain.Scenario.Names.{
  is_name_char, is_visible, lower, codes_eq, is_member, is_refused, is_bad_name, is_bad_value,
  is_reserved,
}

-- A character that cannot end or split a header line.
abbrev pub IsVisible : ℕ → Type 0
IsVisible c = (b' ' ≤ c) × (c ≤ b'~')

-- The value is a text of visible characters.
abbrev pub HasVisibleText : Json → Type 0
HasVisibleText value = (t : String) × (value ≡ text t) × All IsVisible (codes t)

-- A character that is neither a separator of a header line nor a line break.
abbrev pub IsPlain : ℕ → Type 0
IsPlain c = (c ≢ b':') × (c ≢ b' ') × IsVisible c

-- No name of the list is the given one.
abbrev pub IsApart : List ℕ → List (String × Json) → Type 0
IsApart name = All (λ entry. codes_eq (lower (codes entry.0)) name ≡ false)

-- No two names are the same but for letter case.
abbrev pub AreApart : List (String × Json) → Type 0
AreApart [] = Unit
AreApart ((name, value) ∷ rest) = IsApart (lower (codes name)) rest × AreApart rest

All-pass :
    (p : ℕ → Bool) (P : ℕ → Type 0)
    → ((c : ℕ) → p c ≡ true → P c)
    → (cs : List ℕ) → any (λ c. not (p c)) cs ≡ false
    → All P cs
All-pass p P f [] h = tt
All-pass p P f (c ∷ cs) h = (f c (ground arith), All-pass p P f cs (ground arith))

IsVisible-pass : (c : ℕ) → is_visible c ≡ true → IsVisible c
IsVisible-pass c h = ground arith

name_char_pass : (c : ℕ) → is_name_char c ≡ true → IsPlain c
name_char_pass c h = ground arith

-- What is sure of an accepted entry.
pub record IsSafe (owned : Bool) (name : String) (value : Json) : Type 0 where
  pub named : codes name ≢ []
  pub plain : All IsPlain (codes name)
  pub visible : HasVisibleText value
  pub unreserved : is_reserved owned (lower (codes name)) ≡ false

name_pass : (name : List ℕ) → is_bad_name name ≡ false → (name ≢ []) × All IsPlain name
unfolding is_bad_name
name_pass [] h = absurd (ground arith)
name_pass (c ∷ cs) h = (λ e. ground arith, All-pass is_name_char IsPlain name_char_pass (c ∷ cs) h)

value_pass : (value : List ℕ) → is_bad_value value ≡ false → All IsVisible value
unfolding is_bad_value
value_pass value h = All-pass is_visible IsVisible IsVisible-pass value h

refused_pass :
    (owned : Bool) (name : String) (value : Json)
    → is_refused owned name value ≡ false
    → IsSafe owned name value
unfolding is_refused
refused_pass owned name (text t) h =
    let (named, plain) = name_pass (codes name) (ground arith) in
    record {
      named = named;
      plain = plain;
      visible = (t, refl, value_pass (codes t) (ground arith));
      unreserved = ground arith;
    }
refused_pass owned name value h = absurd (ground arith)

-- The loop accepts no name that it saw before, and no name twice.
entries_apart :
    (owned : Bool) (seen : List (List ℕ)) (entries : List (String × Json))
    → validate_entries owned seen entries ≡ ok tt
    → All (λ entry. is_member (lower (codes entry.0)) seen ≡ false) entries × AreApart entries
unfolding validate_entries
entries_apart owned seen [] h = (tt, tt)
entries_apart owned seen ((name, value) ∷ rest) h =
    let lowered = lower (codes name) in
    let (fresh, apart) = entries_apart owned (lowered ∷ seen) rest (ground arith) in
    (
      (
        ground arith,
        All-imp (λ entry. is_member (lower (codes entry.0)) (lowered ∷ seen) ≡ false)
            (λ entry. is_member (lower (codes entry.0)) seen ≡ false) (λ entry new. ground arith)
            rest fresh,
      ),
      (
        All-imp (λ entry. is_member (lower (codes entry.0)) (lowered ∷ seen) ≡ false)
            (λ entry. codes_eq (lower (codes entry.0)) lowered ≡ false) (λ entry new. ground arith)
            rest fresh,
        apart,
      ),
    )

entries-IsSafe :
    (owned : Bool) (seen : List (List ℕ)) (entries : List (String × Json))
    → validate_entries owned seen entries ≡ ok tt
    → All (λ entry. IsSafe owned entry.0 entry.1) entries
unfolding validate_entries
entries-IsSafe owned seen [] h = tt
entries-IsSafe owned seen ((name, value) ∷ rest) h = (
  refused_pass owned name value (ground arith),
  entries-IsSafe owned (lower (codes name) ∷ seen) rest (ground arith),
)

-- Chosen headers or trailers that are accepted can be written on a reply as they are: each name is
-- not empty and has no space, colon, line break or other control character, each value is a text
-- of visible characters, no name is reserved for another writer of the reply, and no two names
-- differ in letter case alone.
pub validate_chosen-IsSafe :
    (owned : Bool) (fs : Fields) (wires : Json)
    → validate_chosen_value owned (obj fs) wires ≡ ok tt
    → All (λ entry. IsSafe owned entry.0 entry.1) (fields fs) × AreApart (fields fs)
unfolding validate_chosen_value
validate_chosen-IsSafe owned fs wires h =
    let (_, entries, _) = >>=-eq-ok (validate_entries owned [] (fields fs)) _ h in
    (entries-IsSafe owned [] (fields fs) entries, (entries_apart owned [] (fields fs) entries).1)
