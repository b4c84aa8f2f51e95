-- ===== src/GraphqlDocument/Ends.antt =====
-- provider_simulator/graphql_document.py: _depth_of ends on every document, cyclic or not.
use Prim.Native.Nat.{max}
use provider_simulator.Base.{
  ℕ, suc, zero, ◌+◌, ◌≡◌, ◌≢◌, ◌<◌, ◌≤◌, refl, ap, sym, ◌∙◌, String, some, List, [], ◌∷◌, Bool,
  false, not, Bool-cases, Option-cases, eq_iff, ◌==◌, is_one_of, inl, inr, if◌then◌else◌, arith,
  count_if, length,
}
use provider_simulator.Base.Dict
use provider_simulator.Base.Dict.{Dict, string_key}
use provider_simulator.GraphqlDocument.{
  leaf, field, spread, inline, Selections, nil, cons, Measured, done, cycle, unknown, out_of_fuel,
  next, note, scan, visit_depth, depth_of,
}

next_ends :
    (m : Measured) (go_on : ℕ → Dict String ℕ → Measured)
    → m ≢ out_of_fuel
    → ((n : ℕ) (memo : Dict String ℕ) → go_on n memo ≢ out_of_fuel)
    → next m go_on ≢ out_of_fuel
next_ends (done n memo) go_on h k = k n memo
next_ends cycle go_on h k = λ same. cc
next_ends (unknown name) go_on h k = λ same. cc
next_ends out_of_fuel go_on h k = h

note_ends : (name : String) (m : Measured) → m ≢ out_of_fuel → note name m ≢ out_of_fuel
note_ends name (done n memo) h = λ same. cc
note_ends name cycle h = λ same. cc
note_ends name (unknown missing) h = λ same. cc
note_ends name out_of_fuel h = h

module _ {V : Type 0} where
  scan_ends :
      (visit : String → Dict String ℕ → Measured)
      → ((name : String) (memo : Dict String ℕ) → visit name memo ≢ out_of_fuel)
      → (set : Selections V) (deepest : ℕ) (memo : Dict String ℕ)
      → scan visit set deepest memo ≢ out_of_fuel
  unfolding scan
  scan_ends visit ends nil deepest memo = λ same. cc
  scan_ends visit ends (cons (leaf head) rest) deepest memo = scan_ends visit ends rest deepest memo
  scan_ends visit ends (cons (field head set) rest) deepest memo =
      next_ends _ _ (scan_ends visit ends set 0 memo)
        (λ n memo'. scan_ends visit ends rest (max deepest n) memo')
  scan_ends visit ends (cons (inline directives set) rest) deepest memo =
      next_ends _ _ (scan_ends visit ends set 0 memo)
        (λ n memo'. scan_ends visit ends rest (max deepest n) memo')
  scan_ends visit ends (cons (spread name directives) rest) deepest memo =
      next_ends _ _ (ends name memo) (λ n memo'. scan_ends visit ends rest (max deepest n) memo')

  -- The fragments that are not on the stack.
  abbrev pub unstacked : List String → Dict String (Selections V) → ℕ
  unstacked stack fragments = count_if (λ (name, body). not (is_one_of name stack)) fragments

  unstacked_shrinks :
      (name : String) (stack : List String) (fragments : Dict String (Selections V))
      → unstacked (name ∷ stack) fragments ≤ unstacked stack fragments
  unstacked_shrinks name stack [] = omega arith
  unstacked_shrinks name stack ((k, v) ∷ fragments) =
      ground (arith, unstacked_shrinks name stack fragments)

  pub unstacked_less :
      (name : String) (stack : List String) (fragments : Dict String (Selections V))
      (body : Selections V)
      → is_one_of name stack ≡ false
      → Dict.get name fragments ≡ some body
      → unstacked (name ∷ stack) fragments < unstacked stack fragments
  unstacked_less name stack [] body fresh found = absurd (cc)
  unstacked_less name stack ((k, v) ∷ fragments) body fresh found = elim (Bool-cases (k == name)) [
    | inl same ↦
        let names : k ≡ name = (eq_iff k name).0 same in
        let off : is_one_of k stack ≡ false = ap (λ s. is_one_of s stack) names ∙ fresh in
        ground (arith, same, off, unstacked_shrinks name stack fragments)
    | inr apart ↦
        let rest : Dict.get name fragments ≡ some body =
          sym (ap (λ (b : Bool). if b then some v else Dict.get name fragments) apart) ∙ found in
        ground (arith, apart, unstacked_less name stack fragments body fresh rest)
  ]

  visit_ends :
      (fragments : Dict String (Selections V)) (stack : List String)
      (measure : String → Selections V → Dict String ℕ → Measured)
      → ((name : String) (body : Selections V) (memo : Dict String ℕ)
          → is_one_of name stack ≡ false
          → Dict.get name fragments ≡ some body
          → measure name body memo ≢ out_of_fuel)
      → (name : String) (memo : Dict String ℕ)
      → visit_depth fragments stack measure name memo ≢ out_of_fuel
  unfolding visit_depth
  visit_ends fragments stack measure ends name memo = elim (Bool-cases (is_one_of name stack)) [
    | inl twice ↦ rw (twice, visit_depth) (λ same. cc)
    | inr once ↦ elim (Option-cases (Dict.get name fragments)) [
      | inl missing ↦ rw (once, missing, visit_depth) (λ same. cc)
      | inr (body, defined) ↦ elim (Option-cases (Dict.get name memo)) [
        | inl fresh ↦
            rw (once, defined, fresh, visit_depth)
              (note_ends name (measure name body memo) (ends name body memo once defined))
        | inr (known, kept) ↦ rw (once, defined, kept, visit_depth) (λ same. cc)
      ]
    ]
  ]

  depth_of_ends :
      (fragments : Dict String (Selections V)) (fuel : ℕ) (stack : List String) (set : Selections V)
      (memo : Dict String ℕ)
      → unstacked stack fragments < fuel
      → depth_of fuel fragments stack set memo ≢ out_of_fuel
  unfolding depth_of
  depth_of_ends fragments zero stack set memo h = absurd (omega (arith, h))
  depth_of_ends fragments (suc fuel) stack set memo h =
      scan_ends _
        (visit_ends fragments stack _ (λ name body memo' fresh found.
          let less = unstacked_less name stack fragments body fresh found in
          depth_of_ends fragments fuel (name ∷ stack) body memo' (omega (arith, less, h))))
        set 0 memo

  pub unstacked-length :
      (fragments : Dict String (Selections V)) → unstacked [] fragments ≡ length fragments
  unstacked-length [] = refl
  unstacked-length ((k, v) ∷ fragments) = omega (arith, unstacked-length fragments)

  -- The walk that measures the depth of a document ends, a document whose fragments spread
  -- themselves included: one level of spreads for each fragment and one more are enough.
  pub depth_of-out_of_fuel :
      (fragments : Dict String (Selections V)) (set : Selections V)
      → depth_of (length fragments + 1) fragments [] set [] ≢ out_of_fuel
  depth_of-out_of_fuel fragments set =
      let size = unstacked-length fragments in
      depth_of_ends fragments (length fragments + 1) [] set [] (omega (arith, size))
