-- ===== src/GraphqlDocument/Directives.antt =====
-- provider_simulator/graphql_document.py: which directives remove a selection.
use provider_simulator.Base.{
  ◌≡◌, ◌⊎◌, refl, String, Bool, true, false, Option, none, some, List, [], ◌∷◌, Bool-cases,
  Option-cases, eq_iff, inl, inr, ◌==◌, ◌&&◌, ◌||◌, not, is_one_of, arith,
}
use provider_simulator.Base.Dict
use provider_simulator.Base.Dict.{Dict, string_key}
use provider_simulator.Base.Json.{Json, null, bool, num, real, text, arr, obj}
use provider_simulator.GraphqlDocument.{Directive}
use provider_simulator.GraphqlDocument.Roots.{as_bool, condition, removes, is_included}

module _ {V : Type 0} (value_of : V → Option Json) where
  -- The condition of a directive, the first argument `if`, is a Boolean, this one.
  abbrev pub HasCondition : Directive V → Bool → Type 0
  HasCondition directive b =
      (v : V) × (Dict.get "if" directive.arguments ≡ some v) × (value_of v ≡ some (bool b))

  -- One of the directives is a @skip whose condition is true, or an @include whose condition is false.
  pub data Removed : List (Directive V) → Type 0 where
    skips :
        {directive : Directive V} {rest : List (Directive V)}
        → directive.name ≡ "skip"
        → HasCondition directive true
        → Removed (directive ∷ rest)
    excludes :
        {directive : Directive V} {rest : List (Directive V)}
        → directive.name ≡ "include"
        → HasCondition directive false
        → Removed (directive ∷ rest)
    later :
        {directive : Directive V} {rest : List (Directive V)}
        → Removed rest
        → Removed (directive ∷ rest)

  as_bool-some : (o : Option Json) {b : Bool} → as_bool o ≡ some b → o ≡ some (bool b)
  as_bool-some none h = cc
  as_bool-some (some (bool b)) h = cc
  as_bool-some (some null) h = cc
  as_bool-some (some (num n)) h = cc
  as_bool-some (some (real nonzero s)) h = cc
  as_bool-some (some (text s)) h = cc
  as_bool-some (some (arr values)) h = cc
  as_bool-some (some (obj fs)) h = cc

  condition-some :
      (arguments : Dict String V) {b : Bool}
      → condition value_of arguments ≡ some b
      → (v : V) × (Dict.get "if" arguments ≡ some v) × (value_of v ≡ some (bool b))
  condition-some [] h = absurd (cc h)
  condition-some ((name, v) ∷ rest) {b = b} h = elim (Bool-cases (name == "if")) [
    | inl here ↦
        let read : as_bool (value_of v) ≡ some b = rw here at h in
        (v, rw here refl, as_bool-some (value_of v) read)
    | inr other ↦
        let (w, there, read) = condition-some rest {b = b} (rw other at h) in
        (w, rw other there, read)
  ]

  HasCondition-condition :
      (directive : Directive V) (b : Bool)
      → HasCondition directive b
      → condition value_of directive.arguments ≡ some b
  HasCondition-condition directive b (v, there, read) = go directive.arguments there
    where
      go :
          (arguments : Dict String V)
          → Dict.get "if" arguments ≡ some v
          → condition value_of arguments ≡ some b
      go [] h = absurd (cc h)
      go ((name, w) ∷ rest) h = elim (Bool-cases (name == "if")) [
        | inl here ↦
            let same : some w ≡ some v = rw here at h in
            let same' : w ≡ v = cc in rw (here, same', read) refl
        | inr other ↦ rw other (go rest (rw other at h))
      ]

  -- The test of one directive.
  abbrev removes_here : Directive V → Bool
  removes_here directive =
      is_one_of directive.name ("skip" ∷ "include" ∷ [])
      && removes directive.name (condition value_of directive.arguments)

  -- One directive removes its selection.
  abbrev IsRemover : Directive V → Type 0
  IsRemover directive =
      ((directive.name ≡ "skip") × HasCondition directive true)
      ⊎ ((directive.name ≡ "include") × HasCondition directive false)

  condition-IsRemover :
      (directive : Directive V) (value : Bool)
      → condition value_of directive.arguments ≡ some value
      → (directive.name == "skip" && value) || (directive.name == "include" && not value) ≡ true
      → IsRemover directive
  condition-IsRemover directive true read h = inl (
    (eq_iff directive.name "skip").0 (ground (arith, h)),
    condition-some directive.arguments read,
  )
  condition-IsRemover directive false read h = inr (
    (eq_iff directive.name "include").0 (ground (arith, h)),
    condition-some directive.arguments read,
  )

  removes_here-IsRemover :
      (directive : Directive V) → removes_here directive ≡ true → IsRemover directive
  removes_here-IsRemover directive h =
      elim (Option-cases (condition value_of directive.arguments)) [
        | inl unread ↦
            absurd (let no : removes_here directive ≡ false = rw unread (ground arith) in cc)
        | inr (value, read) ↦ condition-IsRemover directive value read (
            let said : removes_here directive ≡ true = h in
            let there : removes directive.name (condition value_of directive.arguments) ≡ true =
              ground (arith, said) in
            rw read at there)
      ]

  IsRemover-removes_here :
      (directive : Directive V) → IsRemover directive → removes_here directive ≡ true
  IsRemover-removes_here directive (inl (named, holds)) =
      rw (named, HasCondition-condition directive true holds) refl
  IsRemover-removes_here directive (inr (named, holds)) =
      rw (named, HasCondition-condition directive false holds) refl

  is_included-Removed :
      (directives : List (Directive V))
      → is_included value_of directives ≡ false
      → Removed directives
  unfolding is_included
  is_included-Removed [] h = absurd (cc h)
  is_included-Removed (d ∷ rest) h = elim (Bool-cases (removes_here d)) [
    | inl here ↦ elim (removes_here-IsRemover d here) [
      | inl (named, holds) ↦ skips named holds
      | inr (named, holds) ↦ excludes named holds
    ]
    | inr elsewhere ↦ later (is_included-Removed rest (rw elsewhere at h))
  ]

  Removed-is_included :
      {directives : List (Directive V)}
      → Removed directives
      → is_included value_of directives ≡ false
  unfolding is_included
  Removed-is_included (skips {directive = d} named holds) =
      let here = IsRemover-removes_here d (inl (named, holds)) in rw here refl
  Removed-is_included (excludes {directive = d} named holds) =
      let here = IsRemover-removes_here d (inr (named, holds)) in rw here refl
  Removed-is_included (later {directive = d} h) = elim (Bool-cases (removes_here d)) [
    | inl here ↦ rw here refl
    | inr elsewhere ↦ rw elsewhere (Removed-is_included h)
  ]

  -- Whether a selection stays, decided.
  pub is_included-cases :
      (directives : List (Directive V))
      → ((is_included value_of directives ≡ false) × Removed directives)
        ⊎ ((is_included value_of directives ≡ true) × (Removed directives → ⊥))
  is_included-cases directives = elim (Bool-cases (is_included value_of directives)) [
    | inl stays ↦ inr (stays, λ gone. let no = Removed-is_included gone in cc)
    | inr gone ↦ inl (gone, is_included-Removed directives gone)
  ]
