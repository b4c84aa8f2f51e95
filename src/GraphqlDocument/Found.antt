-- ===== src/GraphqlDocument/Found.antt =====
-- provider_simulator/graphql_document.py: _depth_of finds the depth of a document that expands.
use Prim.Native.Nat.{max}
use mathlib.Core.Option.{some-injective}
use provider_simulator.Base.{
  ℕ, suc, zero, ◌+◌, ◌≡◌, ◌<◌, ◌≤◌, refl, ap, sym, subst, ◌∙◌, String, Bool, true, false, ◌||◌,
  some, List, [], ◌∷◌, is_one_of, Option-cases, Bool-cases, ◌==◌, eq_iff, inl, inr, arith, length,
}
use provider_simulator.Base.Dict
use provider_simulator.Base.Dict.{Dict, string_key}
use provider_simulator.GraphqlDocument.{
  Selections, Measured, done, next, note, scan, visit_depth, depth_of,
}
use provider_simulator.GraphqlDocument.Expansion.{
  Expands, nothing, leaves, fields, inlines, spreads, below, depth, Expands_unique, IsRight,
  IsRight-put, IsRight-empty,
}
use provider_simulator.GraphqlDocument.Ends.{unstacked, unstacked_less, unstacked-length}

module _ {V : Type 0} (fragments : Dict String (Selections V)) where
  -- A walk that gives this depth, with a memo that is right.
  abbrev IsDepth : ℕ → Measured → Type 0
  IsDepth n m = (memo : Dict String ℕ) × (m ≡ done n memo) × IsRight fragments depth memo

  -- A visit measures each fragment whose expansion is below a bound in depth.
  abbrev IsComplete : (String → Dict String ℕ → Measured) → ℕ → Type 0
  IsComplete visit bound =
      (name : String) (body inner : Selections V) (memo : Dict String ℕ)
      → Dict.get name fragments ≡ some body
      → Expands fragments body inner
      → below inner < bound
      → IsRight fragments depth memo
      → IsDepth (depth inner) (visit name memo)

  next-IsDepth :
      (n total : ℕ) (m : Measured) (go_on : ℕ → Dict String ℕ → Measured)
      → IsDepth n m
      → ((memo : Dict String ℕ) → IsRight fragments depth memo → IsDepth total (go_on n memo))
      → IsDepth total (next m go_on)
  next-IsDepth n total m go_on (memo, e, right) rest =
      let (memo', e', right') = rest memo right in
      (memo', ap (λ (x : Measured). next x go_on) e ∙ e', right')

  scan-IsDepth :
      (visit : String → Dict String ℕ → Measured) (bound deepest n : ℕ) {set tree : Selections V}
      (memo : Dict String ℕ)
      → IsComplete visit bound
      → Expands fragments set tree
      → below tree ≤ bound
      → suc (max deepest (below tree)) ≡ n
      → IsRight fragments depth memo
      → IsDepth n (scan visit set deepest memo)
  unfolding scan
  scan-IsDepth visit bound deepest n memo ok nothing small size right =
      (memo, ap (λ (k : ℕ). done k memo) (omega (arith, size)), right)
  scan-IsDepth visit bound deepest n memo ok (leaves head h) small size right =
      scan-IsDepth visit bound deepest n memo ok h (omega (arith, small)) (omega (arith, size))
        right
  scan-IsDepth visit bound deepest n memo ok (fields head {inner = inner} i h) small size right =
      next-IsDepth (depth inner) n _ _
        (scan-IsDepth visit bound 0 (depth inner) memo ok i (omega (arith, small)) (omega arith)
          right)
        (λ memo1 right1.
          scan-IsDepth visit bound (max deepest (depth inner)) n memo1 ok h (omega (arith, small))
            (omega (arith, size)) right1)
  scan-IsDepth visit bound deepest n memo ok (inlines directives {inner = inner} i h) small size
        right =
      next-IsDepth (depth inner) n _ _
        (scan-IsDepth visit bound 0 (depth inner) memo ok i (omega (arith, small)) (omega arith)
          right)
        (λ memo1 right1.
          scan-IsDepth visit bound (max deepest (depth inner)) n memo1 ok h (omega (arith, small))
            (omega (arith, size)) right1)
  scan-IsDepth visit bound deepest n memo ok
        (spreads name directives {body = body} {inner = inner} found i h) small size right =
      next-IsDepth (depth inner) n _ _
        (ok name body inner memo found i (omega (arith, small)) right)
        (λ memo1 right1.
          scan-IsDepth visit bound (max deepest (depth inner)) n memo1 ok h (omega (arith, small))
            (omega (arith, size)) right1)

  same_inner :
      (body inner body' inner' : Selections V) (name : String)
      → Dict.get name fragments ≡ some body
      → Dict.get name fragments ≡ some body'
      → Expands fragments body inner
      → Expands fragments body' inner'
      → inner' ≡ inner
  same_inner body inner body' inner' name found found' e e' =
      let same : body' ≡ body = some-injective _ _ (sym found' ∙ found) in
      Expands_unique (subst (λ (b : Selections V). Expands fragments b inner') same e') e

  -- Each fragment on the stack expands no less deep than a bound.
  abbrev IsAbove : List String → ℕ → Type 0
  IsAbove stack bound =
      (name : String) (body inner : Selections V)
      → is_one_of name stack ≡ true
      → Dict.get name fragments ≡ some body
      → Expands fragments body inner
      → bound ≤ below inner

  push-IsAbove :
      (stack : List String) (bound : ℕ) (name : String) (body inner : Selections V)
      → IsAbove stack bound
      → Dict.get name fragments ≡ some body
      → Expands fragments body inner
      → below inner < bound
      → IsAbove (name ∷ stack) (below inner)
  push-IsAbove stack bound name body inner above found e small other body' inner' stacked found'
        e' =
      elim (Bool-cases (other == name)) [
        | inl same ↦
            let names : other ≡ name = (eq_iff other name).0 same in
            let inners : inner' ≡ inner =
              same_inner body inner body' inner' name found
                (sym (ap (λ (k : String). Dict.get k fragments) names) ∙ found') e e' in
            let sizes : below inner' ≡ below inner = ap below inners in omega (arith, sizes)
        | inr apart ↦
            let under : is_one_of other stack ≡ true =
              sym (ap (λ (b : Bool). b || is_one_of other stack) apart) ∙ stacked in
            let high = above other body' inner' under found' e' in omega (arith, high, small)
      ]

  visit_depth-IsComplete :
      (stack : List String) (measure : String → Selections V → Dict String ℕ → Measured) (bound : ℕ)
      → IsAbove stack bound
      → ((name : String) (body inner : Selections V) (memo : Dict String ℕ)
          → is_one_of name stack ≡ false
          → Dict.get name fragments ≡ some body
          → Expands fragments body inner
          → below inner < bound
          → IsRight fragments depth memo
          → IsDepth (depth inner) (measure name body memo))
      → IsComplete (visit_depth fragments stack measure) bound
  unfolding visit_depth
  visit_depth-IsComplete stack measure bound above ok name body inner memo found e small right =
      elim (Bool-cases (is_one_of name stack)) [
        | inl twice ↦
            absurd (let high = above name body inner twice found e in omega (arith, high, small))
        | inr once ↦ elim (Option-cases (Dict.get name memo)) [
          | inr (known, kept) ↦
              let (body', inner', found', e', size) = right name known kept in
              rw (once, found, kept, visit_depth)
                (
                  memo,
                  ap (λ (k : ℕ). done k memo)
                      (size ∙ ap depth (same_inner body inner body' inner' name found found' e e')),
                  right,
                )
          | inl fresh ↦
              let (memo', measured, right') = ok name body inner memo once found e small right in
              rw (once, found, fresh, visit_depth)
                (
                  Dict.put name (depth inner) memo',
                  ap (note name) measured,
                  IsRight-put fragments depth name (depth inner) memo' right'
                      (body, inner, found, e, refl),
                )
        ]
      ]

  depth_of-IsDepth :
      (fuel : ℕ) (stack : List String) (set tree : Selections V) (memo : Dict String ℕ)
      → Expands fragments set tree
      → unstacked stack fragments < fuel
      → IsAbove stack (below tree)
      → IsRight fragments depth memo
      → IsDepth (depth tree) (depth_of fuel fragments stack set memo)
  unfolding depth_of
  depth_of-IsDepth zero stack set tree memo e small above right = absurd (omega (arith, small))
  depth_of-IsDepth (suc fuel) stack set tree memo e small above right =
      scan-IsDepth _ (below tree) 0 (depth tree) memo
        (visit_depth-IsComplete stack _ (below tree) above
          (λ name body inner memo' fresh found e' small' right'.
            depth_of-IsDepth fuel (name ∷ stack) body inner memo' e'
              (let less = unstacked_less name stack fragments body fresh found in
                omega (arith, small, less))
              (push-IsAbove stack (below tree) name body inner above found e' small') right'))
        e (omega arith) (omega arith) right

-- On a document that has an expansion, the walk that measures depth, with its memo and its stack,
-- gives the depth of the expansion.
pub depth_of-depth :
    {V : Type 0} (fragments : Dict String (Selections V)) (set tree : Selections V)
    → Expands fragments set tree
    → (memo : Dict String ℕ) × (depth_of (length fragments + 1) fragments [] set []
        ≡ done (depth tree) memo)
depth_of-depth fragments set tree e =
    let size = unstacked-length fragments in
    let (memo, measured, right) =
      depth_of-IsDepth fragments (length fragments + 1) [] set tree [] e (omega (arith, size))
        (λ name body inner stacked found e'. cc) (IsRight-empty fragments depth) in
    (memo, measured)
