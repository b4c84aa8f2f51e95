-- ===== src/GraphqlDocument/Depths.antt =====
-- provider_simulator/graphql_document.py: _depth_of measures the expanded document, and ends.
use Prim.Native.Nat.{max}
use provider_simulator.Base.{
  ℕ, suc, zero, ◌≡◌, refl, sym, subst, String, some, List, ◌∷◌, Bool-cases, Option-cases, is_one_of,
  inl, inr, arith,
}
use provider_simulator.Base.Dict
use provider_simulator.Base.Dict.{Dict, string_key}
use provider_simulator.GraphqlDocument.{
  leaf, field, spread, inline, Selections, nil, cons, Measured, done, cycle, unknown, out_of_fuel,
  note, scan, visit_depth, depth_of,
}
use provider_simulator.GraphqlDocument.Expansion.{
  Expands, nothing, leaves, fields, inlines, spreads, below, depth, next-done, done-injective,
  IsMeasured, IsRight, IsRight-put,
}

module _ {V : Type 0} (fragments : Dict String (Selections V)) where
  -- What a finished walk over a set has measured: its expansion.
  abbrev IsWalked : Selections V → ℕ → ℕ → Dict String ℕ → Type 0
  IsWalked set deepest n memo =
      (tree : Selections V) × Expands fragments set tree
      × (n ≡ suc (max deepest (below tree)))
      × IsRight fragments depth memo

  -- What a visit that finished has done.
  abbrev IsSound : (String → Dict String ℕ → Measured) → Type 0
  IsSound visit =
      (name : String) (memo : Dict String ℕ) (n : ℕ) (memo' : Dict String ℕ)
      → IsRight fragments depth memo
      → visit name memo ≡ done n memo'
      → IsMeasured fragments depth name n × IsRight fragments depth memo'

  scan-IsWalked :
      (visit : String → Dict String ℕ → Measured)
      → IsSound visit
      → (set : Selections V) (deepest : ℕ) (memo : Dict String ℕ) (n : ℕ) (memo' : Dict String ℕ)
      → IsRight fragments depth memo
      → scan visit set deepest memo ≡ done n memo'
      → IsWalked set deepest n memo'
  unfolding scan
  scan-IsWalked visit sound nil deepest memo n memo' right h =
      let (size, same) = done-injective h in
      (nil, nothing, omega (arith, size), subst (IsRight fragments depth) same right)
  scan-IsWalked visit sound (cons (leaf head) rest) deepest memo n memo' right h =
      let (tree, e, size, right') = scan-IsWalked visit sound rest deepest memo n memo' right h in
      (cons (leaf head) tree, leaves head e, size, right')
  scan-IsWalked visit sound (cons (field head set) rest) deepest memo n memo' right h =
      let (n1, memo1, h1, h2) = next-done (scan visit set 0 memo) _ n memo' h in
      let (inner, i, size1, right1) = scan-IsWalked visit sound set 0 memo n1 memo1 right h1 in
      let (tree, e, size2, right2) =
        scan-IsWalked visit sound rest (max deepest n1) memo1 n memo' right1 h2 in
      (cons (field head inner) tree, fields head i e, omega (arith, size1, size2), right2)
  scan-IsWalked visit sound (cons (inline directives set) rest) deepest memo n memo' right h =
      let (n1, memo1, h1, h2) = next-done (scan visit set 0 memo) _ n memo' h in
      let (inner, i, size1, right1) = scan-IsWalked visit sound set 0 memo n1 memo1 right h1 in
      let (tree, e, size2, right2) =
        scan-IsWalked visit sound rest (max deepest n1) memo1 n memo' right1 h2 in
      (
        cons (inline directives inner) tree,
        inlines directives i e,
        omega (arith, size1, size2),
        right2,
      )
  scan-IsWalked visit sound (cons (spread name directives) rest) deepest memo n memo' right h =
      let (n1, memo1, h1, h2) = next-done (visit name memo) _ n memo' h in
      let ((body, inner, found, i, size1), right1) = sound name memo n1 memo1 right h1 in
      let (tree, e, size2, right2) =
        scan-IsWalked visit sound rest (max deepest n1) memo1 n memo' right1 h2 in
      (
        cons (inline directives inner) tree,
        spreads name directives found i e,
        omega (arith, size1, size2),
        right2,
      )

  note_measured :
      (name : String) (body : Selections V) (memo : Dict String ℕ) (n : ℕ) (memo' : Dict String ℕ)
      (measured : Measured)
      → ((m : ℕ) (memo1 : Dict String ℕ) → measured ≡ done m memo1 → IsWalked body 0 m memo1)
      → Dict.get name fragments ≡ some body
      → note name measured ≡ done n memo'
      → IsMeasured fragments depth name n × IsRight fragments depth memo'
  note_measured name body memo n memo' (done m memo1) good defined h =
      let (tree, e, size, right) = good m memo1 refl in
      let (same, memos) = done-injective h in
      let here : IsMeasured fragments depth name m =
        (body, tree, defined, e, omega (arith, size)) in
      (
        subst (IsMeasured fragments depth name) same here,
        subst (IsRight fragments depth) memos (IsRight-put fragments depth name m memo1 right here),
      )
  note_measured name body memo n memo' cycle good defined h = cc
  note_measured name body memo n memo' (unknown missing) good defined h = cc
  note_measured name body memo n memo' out_of_fuel good defined h = cc

  visit_depth-IsSound :
      (stack : List String) (measure : String → Selections V → Dict String ℕ → Measured)
      → ((name : String) (body : Selections V) (memo : Dict String ℕ) (n : ℕ)
            (memo' : Dict String ℕ)
          → IsRight fragments depth memo
          → measure name body memo ≡ done n memo'
          → IsWalked body 0 n memo')
      → IsSound (visit_depth fragments stack measure)
  unfolding visit_depth
  visit_depth-IsSound stack measure good name memo n memo' right h =
      elim (Bool-cases (is_one_of name stack)) [
        | inl twice ↦ absurd (let no : cycle ≡ done n memo' = rw (sym h, twice) refl in cc)
        | inr once ↦ elim (Option-cases (Dict.get name fragments)) [
          | inl missing ↦
              absurd (let no : unknown name ≡ done n memo' = rw (sym h, once, missing) refl in cc)
          | inr (body, defined) ↦ elim (Option-cases (Dict.get name memo)) [
            | inl fresh ↦
                note_measured name body memo n memo' (measure name body memo)
                  (λ m memo1 e. good name body memo m memo1 right e) defined
                  (rw (sym h, once, defined, fresh) refl)
            | inr (known, kept) ↦
                let same : done known memo ≡ done n memo' = rw (sym h, once, defined, kept) refl in
                let (size, memos) = done-injective same in
                (
                  subst (IsMeasured fragments depth name) size (right name known kept),
                  subst (IsRight fragments depth) memos right,
                )
          ]
        ]
      ]

  pub depth_of-IsWalked :
      (fuel : ℕ) (stack : List String) (set : Selections V) (memo : Dict String ℕ) (n : ℕ)
      (memo' : Dict String ℕ)
      → IsRight fragments depth memo
      → depth_of fuel fragments stack set memo ≡ done n memo'
      → IsWalked set 0 n memo'
  unfolding depth_of
  depth_of-IsWalked zero stack set memo n memo' right h = cc
  depth_of-IsWalked (suc fuel) stack set memo n memo' right h =
      scan-IsWalked _
        (visit_depth-IsSound stack _ (λ name body memo1 m memo2 right1 h1.
          depth_of-IsWalked fuel (name ∷ stack) body memo1 m memo2 right1 h1))
        set 0 memo n memo' right h
