-- ===== src/GraphqlDocument/RootsAnswered.antt =====
-- provider_simulator/graphql_document.py: which root fields a document has, read off its selections.
use provider_simulator.Base.{
  ℕ, suc, zero, ◌≡◌, ◌<◌, ◌≤◌, refl, ◌∙◌, String, Option, none, some, List, [], ◌∷◌, ◌++◌, arith,
  Bool-cases, Option-cases, inl, inr, ◌==◌, if◌then◌else◌,
}
use provider_simulator.Base.Dict
use provider_simulator.Base.Dict.{Dict, string_key, get-put}
use provider_simulator.Base.Json.{Json}
use provider_simulator.GraphqlDocument.{
  Directive, Head, leaf, field, spread, inline, Selections, nil, cons,
}
use provider_simulator.GraphqlDocument.Directives.{Removed, is_included-cases}
use provider_simulator.GraphqlDocument.Expansion.{
  Expands, nothing, leaves, fields, inlines, spreads, below, depth,
}
use provider_simulator.GraphqlDocument.Roots.{
  RootField, put_value, values_from, join, kept, root_of, collect, roots_of,
}

module _ {V : Type 0} (value_of : V → Option Json) where
  -- The value that the last argument of a name has, of those that have one.
  abbrev pub last_value : String → Dict String V → Option Json
  last_value k [] = none
  last_value k ((name, v) ∷ rest) = elim (last_value k rest) [
    | some value ↦ some value
    | none ↦ if name == k then value_of v else none
  ]

  -- The root of a field: its name, its alias or else its name, and under each name the value of the
  -- last argument of that name.
  pub record IsRootOf (head : Head V) (set : Option (Selections V)) (root : RootField V)
      : Type 0 where
    pub name : root.name ≡ head.name
    pub aliased : (alias : String) → head.alias ≡ some alias → root.response_key ≡ alias
    pub plain : head.alias ≡ none → root.response_key ≡ head.name
    pub arguments : (k : String) → Dict.get k root.arguments ≡ last_value k head.arguments
    pub selection : root.selection ≡ set

  -- The roots of a set of selections, in its order: of a selection that is not removed its own, or
  -- those of its set, or those of the fragment that it names.
  pub data Answers (fragments : Dict String (Selections V))
      : Selections V → List (RootField V) → Type 0 where
    nothing_left : Answers fragments nil []
    leaf_removed :
        {head : Head V} {rest : Selections V} {roots : List (RootField V)}
        → Removed value_of head.directives
        → Answers fragments rest roots
        → Answers fragments (cons (leaf head) rest) roots
    leaf_root :
        {head : Head V} {rest : Selections V} {root : RootField V} {roots : List (RootField V)}
        → (Removed value_of head.directives → ⊥)
        → IsRootOf head none root
        → Answers fragments rest roots
        → Answers fragments (cons (leaf head) rest) (root ∷ roots)
    field_removed :
        {head : Head V} {set rest : Selections V} {roots : List (RootField V)}
        → Removed value_of head.directives
        → Answers fragments rest roots
        → Answers fragments (cons (field head set) rest) roots
    field_root :
        {head : Head V} {set rest : Selections V} {root : RootField V} {roots : List (RootField V)}
        → (Removed value_of head.directives → ⊥)
        → IsRootOf head (some set) root
        → Answers fragments rest roots
        → Answers fragments (cons (field head set) rest) (root ∷ roots)
    inline_removed :
        {directives : List (Directive V)} {set rest : Selections V} {roots : List (RootField V)}
        → Removed value_of directives
        → Answers fragments rest roots
        → Answers fragments (cons (inline directives set) rest) roots
    inline_roots :
        {directives : List (Directive V)} {set rest : Selections V}
        {first roots : List (RootField V)}
        → (Removed value_of directives → ⊥)
        → Answers fragments set first
        → Answers fragments rest roots
        → Answers fragments (cons (inline directives set) rest) (first ++ roots)
    spread_removed :
        {name : String} {directives : List (Directive V)} {rest : Selections V}
        {roots : List (RootField V)}
        → Removed value_of directives
        → Answers fragments rest roots
        → Answers fragments (cons (spread name directives) rest) roots
    spread_roots :
        {name : String} {directives : List (Directive V)} {body rest : Selections V}
        {first roots : List (RootField V)}
        → (Removed value_of directives → ⊥)
        → Dict.get name fragments ≡ some body
        → Answers fragments body first
        → Answers fragments rest roots
        → Answers fragments (cons (spread name directives) rest) (first ++ roots)

  get-values_from :
      (k : String) (given : Dict String V) (arguments : Dict String Json)
      → Dict.get k (values_from value_of given arguments)
        ≡ elim (last_value k given) [ some value ↦ some value | none ↦ Dict.get k arguments ]
  get-values_from k [] arguments = refl
  get-values_from k ((name, v) ∷ rest) arguments =
      let ih = get-values_from k rest (put_value name (value_of v) arguments) in
      elim (Option-cases (last_value k rest)) [
        | inr (value, found) ↦ ih ∙ rw found refl
        | inl missing ↦ ih ∙ rw missing (put_of (value_of v))
      ]
    where
      put_of :
          (o : Option Json)
          → Dict.get k (put_value name o arguments) ≡ elim (if name == k then o else none) [
            | some value ↦ some value
            | none ↦ Dict.get k arguments
          ]
      put_of none = elim (Bool-cases (name == k)) [
        | inl same ↦ rw same refl
        | inr other ↦ rw other refl
      ]
      put_of (some value) =
          get-put name k value arguments
          ∙ elim (Bool-cases (name == k)) [ inl same ↦ rw same refl | inr other ↦ rw other refl ]

  root_of-IsRootOf :
      (head : Head V) (set : Option (Selections V)) → IsRootOf head set (root_of value_of head set)
  root_of-IsRootOf head set = record {
    name = refl;
    aliased = λ alias given. rw given refl;
    plain = λ unnamed. rw unnamed refl;
    arguments = λ k.
        get-values_from k head.arguments [] ∙ elim (Option-cases (last_value k head.arguments)) [
          | inl missing ↦ rw missing refl
          | inr (value, found) ↦ rw found refl
        ];
    selection = refl;
  }

  -- The roots are found, and are those of the set.
  abbrev pub IsAnswered :
      Dict String (Selections V) → Selections V → Option (List (RootField V)) → Type 0
  IsAnswered fragments set found =
      (roots : List (RootField V)) × (found ≡ some roots) × Answers fragments set roots

  kept_root :
      {fragments : Dict String (Selections V)} {rest : Selections V}
      {later_roots : Option (List (RootField V))} (head : Head V) (set : Option (Selections V))
      (selection : Selections V)
      → ((roots : List (RootField V))
          → Removed value_of head.directives
          → Answers fragments rest roots
          → Answers fragments selection roots)
      → ((root : RootField V) (roots : List (RootField V))
          → (Removed value_of head.directives → ⊥)
          → IsRootOf head set root
          → Answers fragments rest roots
          → Answers fragments selection (root ∷ roots))
      → IsAnswered fragments rest later_roots
      → IsAnswered fragments selection
          (join (kept value_of head.directives (some (root_of value_of head set ∷ []))) later_roots)
  kept_root head set selection without with_root (roots, found, answers) =
      elim (is_included-cases value_of head.directives) [
        | inl (gone, removed) ↦ (roots, rw (gone, found) refl, without roots removed answers)
        | inr (stays, included) ↦ (
          root_of value_of head set ∷ roots,
          rw (stays, found) refl,
          with_root (root_of value_of head set) roots included (root_of-IsRootOf head set) answers,
        )
      ]

  kept_roots :
      {fragments : Dict String (Selections V)} {inner rest : Selections V}
      {inner_roots later_roots : Option (List (RootField V))} (directives : List (Directive V))
      (selection : Selections V)
      → ((roots : List (RootField V))
          → Removed value_of directives
          → Answers fragments rest roots
          → Answers fragments selection roots)
      → ((first roots : List (RootField V))
          → (Removed value_of directives → ⊥)
          → Answers fragments inner first
          → Answers fragments rest roots
          → Answers fragments selection (first ++ roots))
      → IsAnswered fragments inner inner_roots
      → IsAnswered fragments rest later_roots
      → IsAnswered fragments selection (join (kept value_of directives inner_roots) later_roots)
  kept_roots directives selection without with_roots (first, found', inside)
        (roots, found, answers) =
      elim (is_included-cases value_of directives) [
        | inl (gone, removed) ↦ (roots, rw (gone, found) refl, without roots removed answers)
        | inr (stays, included) ↦ (
          first ++ roots,
          rw (stays, found', found) refl,
          with_roots first roots included inside answers,
        )
      ]

  module _ (fragments : Dict String (Selections V)) where
    collect-IsAnswered :
        (visit : String → Option (List (RootField V))) (bound : ℕ)
        → ((name : String) (body inner : Selections V)
            → Dict.get name fragments ≡ some body
            → Expands fragments body inner
            → below inner < bound
            → IsAnswered fragments body (visit name))
        → {set tree : Selections V} → Expands fragments set tree
        → below tree ≤ bound
        → IsAnswered fragments set (collect value_of visit set)
    unfolding collect
    collect-IsAnswered visit bound ok nothing small = ([], refl, nothing_left)
    collect-IsAnswered visit bound ok (leaves head {rest = rest} h) small =
        kept_root head none (cons (leaf head) rest)
          (λ roots gone answers. leaf_removed gone answers)
          (λ root roots included is_root answers. leaf_root included is_root answers)
          (collect-IsAnswered visit bound ok h (omega (arith, small)))
    collect-IsAnswered visit bound ok (fields head {set = set} {rest = rest} i h) small =
        kept_root head (some set) (cons (field head set) rest)
          (λ roots gone answers. field_removed gone answers)
          (λ root roots included is_root answers. field_root included is_root answers)
          (collect-IsAnswered visit bound ok h (omega (arith, small)))
    collect-IsAnswered visit bound ok (inlines directives {set = set} {rest = rest} i h) small =
        kept_roots directives (cons (inline directives set) rest)
          (λ roots gone answers. inline_removed gone answers)
          (λ first roots included inside answers. inline_roots included inside answers)
          (collect-IsAnswered visit bound ok i (omega (arith, small)))
          (collect-IsAnswered visit bound ok h (omega (arith, small)))
    collect-IsAnswered visit bound ok
          (spreads name directives {body = body} {inner = inner} {rest = rest} there i h) small =
        kept_roots directives (cons (spread name directives) rest)
          (λ roots gone answers. spread_removed gone answers)
          (λ first roots included inside answers. spread_roots included there inside answers)
          (ok name body inner there i (omega (arith, small)))
          (collect-IsAnswered visit bound ok h (omega (arith, small)))

    -- On a document that has an expansion, with its depth as the number of nested spreads, the roots
    -- are found, and are those of its selections, in their order: each field that no @skip and no
    -- @include removes, under its alias or else its name, with the last value of each argument, and
    -- those of each fragment and each inline set that is not removed.
    pub roots_of-IsAnswered :
        (fuel : ℕ) (set tree : Selections V)
        → Expands fragments set tree
        → depth tree ≤ fuel
        → IsAnswered fragments set (roots_of value_of fuel fragments set)
    unfolding roots_of
    roots_of-IsAnswered zero set tree e small = absurd (omega (arith, small))
    roots_of-IsAnswered (suc fuel) set tree e small =
        collect-IsAnswered _ (below tree)
          (λ name body inner found e' less.
            rw found (roots_of-IsAnswered fuel body inner e' (omega (arith, small, less))))
          e (omega arith)
