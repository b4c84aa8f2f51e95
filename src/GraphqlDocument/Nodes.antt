-- ===== src/GraphqlDocument/Nodes.antt =====
-- provider_simulator/graphql_document.py: _nodes_of counts the nodes of the expanded document.
use provider_simulator.Base.{
  ℕ, suc, zero, ◌+◌, ◌≡◌, ◌<◌, ◌≤◌, refl, ap, sym, subst, ◌∙◌, String, some, [], Option-cases, inl,
  inr, arith,
}
use mathlib.Core.Option.{some-injective}
use provider_simulator.Base.Dict
use provider_simulator.Base.Dict.{Dict, string_key}
use provider_simulator.GraphqlDocument.{
  Selections, Measured, done, next, note, count, visit_nodes, nodes_of,
}
use provider_simulator.GraphqlDocument.Expansion.{
  Expands, nothing, leaves, fields, inlines, spreads, below, depth, nodes, Expands_unique,
  IsMeasured, IsRight, IsRight-put, IsRight-empty,
}

module _ {V : Type 0} (fragments : Dict String (Selections V)) where
  -- A walk that gives this number, with a memo that is right.
  abbrev IsCount : ℕ → Measured → Type 0
  IsCount n m = (memo : Dict String ℕ) × (m ≡ done n memo) × IsRight fragments nodes memo

  -- A visit counts each fragment whose expansion is below a bound in depth.
  abbrev IsComplete : (String → Dict String ℕ → Measured) → ℕ → Type 0
  IsComplete visit bound =
      (name : String) (body inner : Selections V) (memo : Dict String ℕ)
      → Dict.get name fragments ≡ some body
      → Expands fragments body inner
      → below inner < bound
      → IsRight fragments nodes memo
      → IsCount (nodes inner) (visit name memo)

  -- From a first walk that gives a number to what follows it.
  next-IsCount :
      (n total : ℕ) (m : Measured) (go_on : ℕ → Dict String ℕ → Measured)
      → IsCount n m
      → ((memo : Dict String ℕ) → IsRight fragments nodes memo → IsCount total (go_on n memo))
      → IsCount total (next m go_on)
  next-IsCount n total m go_on (memo, e, right) rest =
      let (memo', e', right') = rest memo right in
      (memo', ap (λ (x : Measured). next x go_on) e ∙ e', right')

  count-IsCount :
      (visit : String → Dict String ℕ → Measured) (bound total n : ℕ) {set tree : Selections V}
      (memo : Dict String ℕ)
      → IsComplete visit bound
      → Expands fragments set tree
      → below tree ≤ bound
      → total + nodes tree ≡ n
      → IsRight fragments nodes memo
      → IsCount n (count visit set total memo)
  unfolding count
  count-IsCount visit bound total n memo ok nothing small size right =
      (memo, ap (λ (k : ℕ). done k memo) (omega (arith, size)), right)
  count-IsCount visit bound total n memo ok (leaves head h) small size right =
      count-IsCount visit bound (total + 1) n memo ok h (omega (arith, small)) (omega (arith, size))
        right
  count-IsCount visit bound total n memo ok (fields head {inner = inner} i h) small size right =
      next-IsCount (nodes inner) n _ _
        (count-IsCount visit bound 0 (nodes inner) memo ok i (omega (arith, small)) (omega arith)
          right)
        (λ memo1 right1.
          count-IsCount visit bound (total + 1 + nodes inner) n memo1 ok h (omega (arith, small))
            (omega (arith, size)) right1)
  count-IsCount visit bound total n memo ok (inlines directives {inner = inner} i h) small size
        right =
      next-IsCount (nodes inner) n _ _
        (count-IsCount visit bound 0 (nodes inner) memo ok i (omega (arith, small)) (omega arith)
          right)
        (λ memo1 right1.
          count-IsCount visit bound (total + 1 + nodes inner) n memo1 ok h (omega (arith, small))
            (omega (arith, size)) right1)
  count-IsCount visit bound total n memo ok
        (spreads name directives {body = body} {inner = inner} found i h) small size right =
      next-IsCount (nodes inner) n _ _
        (ok name body inner memo found i (omega (arith, small)) right)
        (λ memo1 right1.
          count-IsCount visit bound (total + 1 + nodes inner) n memo1 ok h (omega (arith, small))
            (omega (arith, size)) right1)

  -- What a memo has for a fragment is the number of its expansion.
  known_nodes :
      (name : String) (body inner : Selections V) (known : ℕ)
      → Dict.get name fragments ≡ some body
      → Expands fragments body inner
      → IsMeasured fragments nodes name known
      → known ≡ nodes inner
  known_nodes name body inner known found e (body', inner', found', e', size) =
      let same : body' ≡ body = some-injective _ _ (sym found' ∙ found) in
      size
      ∙ ap nodes
          (Expands_unique (subst (λ (b : Selections V). Expands fragments b inner') same e') e)

  visit_nodes-IsComplete :
      (measure : Selections V → Dict String ℕ → Measured) (bound : ℕ)
      → ((body inner : Selections V) (memo : Dict String ℕ)
          → Expands fragments body inner
          → below inner < bound
          → IsRight fragments nodes memo
          → IsCount (nodes inner) (measure body memo))
      → IsComplete (visit_nodes fragments measure) bound
  unfolding visit_nodes
  visit_nodes-IsComplete measure bound ok name body inner memo found e small right =
      elim (Option-cases (Dict.get name memo)) [
        | inr (known, kept) ↦
            let size = known_nodes name body inner known found e (right name known kept) in
            rw (kept, visit_nodes) (memo, ap (λ (k : ℕ). done k memo) size, right)
        | inl fresh ↦
            let (memo', counted, right') = ok body inner memo e small right in
            rw (fresh, found, visit_nodes)
              (
                Dict.put name (nodes inner) memo',
                ap (note name) counted,
                IsRight-put fragments nodes name (nodes inner) memo' right'
                    (body, inner, found, e, refl),
              )
      ]

  nodes_of-IsCount :
      (fuel : ℕ) (set tree : Selections V) (memo : Dict String ℕ)
      → Expands fragments set tree
      → below tree < fuel
      → IsRight fragments nodes memo
      → IsCount (nodes tree) (nodes_of fuel fragments set memo)
  unfolding nodes_of
  nodes_of-IsCount zero set tree memo e small right = absurd (omega (arith, small))
  nodes_of-IsCount (suc fuel) set tree memo e small right =
      count-IsCount _ (below tree) 0 (nodes tree) memo
        (visit_nodes-IsComplete _ (below tree) (λ body inner memo' e' small' right'.
          nodes_of-IsCount fuel body inner memo' e' (omega (arith, small, small')) right'))
        e (omega arith) (omega arith) right

-- On a document that has an expansion, the walk that counts nodes, with its memo, ends with the
-- number of the nodes of the expansion; as many nested spreads as the expansion is deep are enough.
pub nodes_of-nodes :
    {V : Type 0} (fragments : Dict String (Selections V)) (fuel : ℕ) (set tree : Selections V)
    → Expands fragments set tree
    → depth tree ≤ fuel
    → (memo : Dict String ℕ) × (nodes_of fuel fragments set [] ≡ done (nodes tree) memo)
nodes_of-nodes fragments fuel set tree e small =
    let (memo, counted, right) =
      nodes_of-IsCount fragments fuel set tree [] e (omega (arith, small))
        (IsRight-empty fragments nodes) in
    (memo, counted)
