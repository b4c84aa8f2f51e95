-- ===== src/GraphqlDocument/Expansion.antt =====
-- provider_simulator/graphql_document.py: a selection set with every fragment in the place of its
-- spreads, and its depth and number of nodes, read off directly.
use Prim.Native.Nat.{max}
use provider_simulator.Base.{
  ℕ, suc, ◌+◌, ◌≡◌, refl, ap, sym, subst, ◌∙◌, String, some, List, [], Bool, Bool-cases, eq_iff,
  ◌==◌, inl, inr, if◌then◌else◌,
}
use mathlib.Core.Option.{some-injective}
use provider_simulator.Base.Dict
use provider_simulator.Base.Dict.{Dict, string_key}
use provider_simulator.GraphqlDocument.{
  Directive, Head, leaf, field, spread, inline, Selections, nil, cons, Measured, done, next,
}

pub done-injective :
    {n n' : ℕ} {memo memo' : Dict String ℕ}
    → done n memo ≡ done n' memo'
    → (n ≡ n') × (memo ≡ memo')
done-injective h = (cc, cc)

pub next-done :
    (m : Measured) (go_on : ℕ → Dict String ℕ → Measured) (n : ℕ) (memo : Dict String ℕ)
    → next m go_on ≡ done n memo
    → (n' : ℕ) × (memo' : Dict String ℕ) × (m ≡ done n' memo') × (go_on n' memo' ≡ done n memo)
next-done (done n' memo') go_on n memo h = (n', memo', refl, h)
next-done Measured.cycle go_on n memo h = cc
next-done (Measured.unknown name) go_on n memo h = cc
next-done Measured.out_of_fuel go_on n memo h = cc

module _ {V : Type 0} where
  -- A set and what it is with its fragments expanded: a spread becomes an inline fragment.
  pub data Expands (fragments : Dict String (Selections V))
      : Selections V → Selections V → Type 0 where
    nothing : Expands fragments nil nil
    leaves :
        (head : Head V) {rest tree : Selections V}
        → Expands fragments rest tree
        → Expands fragments (cons (leaf head) rest) (cons (leaf head) tree)
    fields :
        (head : Head V) {set inner rest tree : Selections V}
        → Expands fragments set inner
        → Expands fragments rest tree
        → Expands fragments (cons (field head set) rest) (cons (field head inner) tree)
    inlines :
        (directives : List (Directive V)) {set inner rest tree : Selections V}
        → Expands fragments set inner
        → Expands fragments rest tree
        → Expands fragments
            (cons (inline directives set) rest)
            (cons (inline directives inner) tree)
    spreads :
        (name : String) (directives : List (Directive V)) {body inner rest tree : Selections V}
        → Dict.get name fragments ≡ some body
        → Expands fragments body inner
        → Expands fragments rest tree
        → Expands fragments
            (cons (spread name directives) rest)
            (cons (inline directives inner) tree)

  -- How many sets lie below a set of an expanded document.
  abbrev pub below : Selections V → ℕ
  below nil = 0
  below (cons (leaf head) rest) = below rest
  below (cons (field head set) rest) = max (suc (below set)) (below rest)
  below (cons (inline directives set) rest) = max (suc (below set)) (below rest)
  below (cons (spread name directives) rest) = below rest

  abbrev pub depth : Selections V → ℕ
  depth set = suc (below set)

  abbrev pub nodes : Selections V → ℕ
  nodes nil = 0
  nodes (cons (leaf head) rest) = 1 + nodes rest
  nodes (cons (field head set) rest) = 1 + nodes set + nodes rest
  nodes (cons (inline directives set) rest) = 1 + nodes set + nodes rest
  nodes (cons (spread name directives) rest) = 1 + nodes rest

  -- A set has one expansion.
  pub Expands_unique :
      {fragments : Dict String (Selections V)} {set tree tree' : Selections V}
      → Expands fragments set tree
      → Expands fragments set tree'
      → tree ≡ tree'
  Expands_unique nothing nothing = refl
  Expands_unique (leaves head h) (leaves _ h') = ap (cons (leaf head)) (Expands_unique h h')
  Expands_unique (fields head i h) (fields _ i' h') =
      let inner = Expands_unique i i' in let outer = Expands_unique h h' in cc
  Expands_unique (inlines directives i h) (inlines _ i' h') =
      let inner = Expands_unique i i' in let outer = Expands_unique h h' in cc
  Expands_unique {fragments} (spreads name directives {body = body} {inner = inner} e i h)
        (spreads _ _ {body = body'} {inner = inner'} e' i' h') =
      let same : body' ≡ body = cc in
      let inner =
        Expands_unique i (subst (λ (b : Selections V). Expands fragments b inner') same i') in
      let outer = Expands_unique h h' in cc

  -- The number that a walk has for a fragment is that of its expansion.
  abbrev pub IsMeasured : Dict String (Selections V) → (Selections V → ℕ) → String → ℕ → Type 0
  IsMeasured fragments measure name n =
      (body : Selections V) × (inner : Selections V) × (Dict.get name fragments ≡ some body)
      × Expands fragments body inner
      × (n ≡ measure inner)

  -- And the numbers of a memo are.
  abbrev pub IsRight : Dict String (Selections V) → (Selections V → ℕ) → Dict String ℕ → Type 0
  IsRight fragments measure memo =
      (name : String) (n : ℕ) → Dict.get name memo ≡ some n → IsMeasured fragments measure name n

  pub IsRight-put :
      (fragments : Dict String (Selections V)) (measure : Selections V → ℕ) (name : String) (n : ℕ)
      (memo : Dict String ℕ)
      → IsRight fragments measure memo
      → IsMeasured fragments measure name n
      → IsRight fragments measure (Dict.put name n memo)
  IsRight-put fragments measure name n memo h here other m found =
      elim (Bool-cases (name == other)) [
        | inl same ↦
            let names : name ≡ other = (eq_iff name other).0 same in
            let numbers : n ≡ m = some-injective n m (
              sym (Dict.get-put_self name n memo)
              ∙ ap (λ (k : String). Dict.get k (Dict.put name n memo)) names
              ∙ found) in
            subst (λ (k : String). IsMeasured fragments measure k m) names
              (subst (λ (k : ℕ). IsMeasured fragments measure name k) numbers here)
        | inr apart ↦ h other m (
            sym (
              Dict.get-put name other n memo
              ∙ ap (λ (b : Bool). if b then some n else Dict.get other memo) apart)
            ∙ found)
      ]

  pub IsRight-empty :
      (fragments : Dict String (Selections V)) (measure : Selections V → ℕ)
      → IsRight fragments measure []
  IsRight-empty fragments measure name n found = cc
