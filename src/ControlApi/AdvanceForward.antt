-- ===== src/ControlApi/AdvanceForward.antt =====
-- provider_simulator/control_api.py: POST /advance and the heads of the chains.
use provider_simulator.Base.{
  ℕ, ◌≤◌, ◌≡◌, refl, sym, subst, ◌∙◌, String, Bool, true, false, Bool-cases, [], ◌∷◌, Option, none,
  some, Option-cases, inl, inr, ◌==◌, eq_iff, arith,
}
use mathlib.Core.Option.{some-injective}
use provider_simulator.Base.Dict
use provider_simulator.Base.Dict.{Dict, string_key, get-put, get-has}
use provider_simulator.Base.Int.{pos, negsuc, neg_part}
use provider_simulator.Base.Json.{Json, null, bool, num, real, text, arr, obj, fields}
use provider_simulator.Chains.{Rates, Chain, AdvancingHead, current, head_named, heads_dict}
use provider_simulator.Chains.Blocks.{◌≤ℤ◌}
use provider_simulator.Chains.Forward.{IsMonotone, rated, bumped, current-run}
use provider_simulator.ControlApi.{Outcome, done, refused, raised, refuse_if}
use provider_simulator.ControlApi.Advance.{
  blocks_of, move_head, move_named, check_advance, chain_name, found_chain, is_no_head,
  breaks_number, head_of, is_moving, after_check, advance,
}
use provider_simulator.ControlApi.Atomic.{>>=-eq-done, done-injective}
use provider_simulator.ControlApi.Fields.{Floats, bad_number}
use provider_simulator.Domain.Scenario.{value_of}
use provider_simulator.ControlApi.Heads.{head_in, head_at, head_named-set_head}

-- The blocks that a body asks for, if it asks for any, are not fewer than none.
abbrev pub IsNonnegative : Dict String Json → Type 0
IsNonnegative body =
    Dict.has "blocks" body ≡ true → neg_part (blocks_of (value_of "blocks" body)) ≡ 0

is_count-neg_part :
    (floats : Floats) (value : Json)
    → bad_number floats "blocks" value ≡ false
    → neg_part (blocks_of value) ≡ 0
unfolding bad_number
is_count-neg_part floats (num (pos n)) h = refl
is_count-neg_part floats (num (negsuc n)) h = absurd (ground arith)
is_count-neg_part floats (bool true) h = refl
is_count-neg_part floats (bool false) h = refl
is_count-neg_part floats null h = refl
is_count-neg_part floats (real nonzero s) h = refl
is_count-neg_part floats (text s) h = refl
is_count-neg_part floats (arr values) h = refl
is_count-neg_part floats (obj fs) h = refl

breaks_blocks :
    (floats : Floats) (body : Dict String Json)
    → breaks_number floats body ≡ false
    → Dict.has "blocks" body ≡ true
    → bad_number floats "blocks" (value_of "blocks" body) ≡ false
breaks_blocks floats body h there =
    elim (Bool-cases (bad_number floats "blocks" (value_of "blocks" body))) [
      | inl bad ↦ absurd (let no : true ≡ false = rw (sym h, there, bad) refl in cc)
      | inr kept ↦ kept
    ]

breaks_number-IsNonnegative :
    (floats : Floats) (body : Dict String Json)
    → breaks_number floats body ≡ false
    → IsNonnegative body
breaks_number-IsNonnegative floats body h there =
    is_count-neg_part floats (value_of "blocks" body) (breaks_blocks floats body h there)

-- One request moves a head by its rate and then by its blocks.
move_head-forward :
    (rates : Rates) (floats : Floats) (t now later end : ℕ) (body : Dict String Json)
    (h : AdvancingHead)
    → IsMonotone rates
    → IsNonnegative body
    → t ≤ now
    → now ≤ later
    → later ≤ end
    → current rates t h ≤ℤ current rates end (move_head rates floats now later body h)
move_head-forward rates floats t now later end body h monotone nonnegative h1 h2 h3 =
    elim (Bool-cases (Dict.has "per_second" body)) [
      | inl sets ↦ elim (Bool-cases (Dict.has "blocks" body)) [
        | inl bumps ↦
            rw (sets, bumps)
              (current-run rates monotone t end h
                (rated now later (value_of "per_second" body)
                  ∷ bumped (blocks_of (value_of "blocks" body))
                  ∷ [])
                (h1, h2, (nonnegative bumps, h3)))
        | inr stays ↦
            rw (sets, stays)
              (current-run rates monotone t end h
                (rated now later (value_of "per_second" body) ∷ []) (h1, h2, h3))
      ]
      | inr keeps ↦ elim (Bool-cases (Dict.has "blocks" body)) [
        | inl bumps ↦
            rw (keeps, bumps)
              (current-run rates monotone t end h (bumped (blocks_of (value_of "blocks" body)) ∷ [])
                (nonnegative bumps, omega arith))
        | inr stays ↦ rw (keeps, stays) (current-run rates monotone t end h [] (omega arith))
      ]
    ]

-- A head of the chains, before and after.
abbrev pub IsForward : Rates → ℕ → ℕ → Dict String Chain → Dict String Chain → Type 0
IsForward rates t end before after =
    (chain name : String) (h : AdvancingHead)
    → head_at before chain name ≡ some h
    → (h' : AdvancingHead) × (head_at after chain name ≡ some h')
      × (current rates t h ≤ℤ current rates end h')

module _ (rates : Rates) (floats : Floats) (monotone : IsMonotone rates) (t now later end : ℕ)
    (body : Dict String Json) (nonnegative : IsNonnegative body) (h1 : t ≤ now) (h2 : now ≤ later)
    (h3 : later ≤ end) where
  move_named-forward :
      (head : Option String) (c : Chain) (name : String) (h : AdvancingHead)
      → head_named name c ≡ some h
      → (h' : AdvancingHead) × (head_named name (move_named rates floats now later body head c)
          ≡ some h')
        × (current rates t h ≤ℤ current rates end h')
  move_named-forward none c name h there =
      (h, there, current-run rates monotone t end h [] (omega arith))
  move_named-forward (some key) c name h there = elim (Option-cases (head_named key c)) [
    | inl missing ↦ rw missing (h, there, current-run rates monotone t end h [] (omega arith))
    | inr (old, found) ↦
        let moved = move_head rates floats now later body old in
        rw (found, head_named-set_head key name moved old c found)
          (elim (Bool-cases (key == name)) [
            | inl same ↦
                let this : old ≡ h =
                  some-injective _ _ (sym found ∙ rw ((eq_iff key name).0 same) there) in
                (
                  moved,
                  rw same refl,
                  rw (sym this) (
                      move_head-forward rates floats t now later end body old monotone nonnegative
                        h1 h2 h3),
                )
            | inr other ↦ (h, rw other there, current-run rates monotone t end h [] (omega arith))
          ])
  ]

  put-IsForward :
      (chains : Dict String Chain) (name : String) (head : Option String) (c : Chain)
      → Dict.get name chains ≡ some c
      → IsForward rates t end chains
          (Dict.put name (move_named rates floats now later body head c) chains)
  put-IsForward chains name head c there chain key h found =
      rw (get-put name chain (move_named rates floats now later body head c) chains)
        (elim (Bool-cases (name == chain)) [
          | inl same ↦
              let this : Dict.get chain chains ≡ some c =
                rw (sym ((eq_iff name chain).0 same)) there in
              rw same
                (move_named-forward head c key h (subst (λ o. head_in o key ≡ some h) this found))
          | inr other ↦ rw other (h, found, current-run rates monotone t end h [] (omega arith))
        ])

found_chain-eq-done : (o : Option Chain) {c : Chain} → found_chain o ≡ done c → o ≡ some c
found_chain-eq-done none h = absurd (cc h)
found_chain-eq-done (some c) h = cc

refuse_if-eq-done :
    (bad : Bool) (status : ℕ) {u : Unit {0}} → refuse_if bad status ≡ done u → bad ≡ false
refuse_if-eq-done true status h = absurd (cc h)
refuse_if-eq-done false status h = refl

check_advance-found :
    (floats : Floats) (chains : Dict String Chain) (body : Dict String Json) {name : String}
    {c : Chain} {head' : Option String}
    → check_advance floats chains body ≡ done (name, c, head')
    → (Dict.get name chains ≡ some c) × IsNonnegative body
unfolding check_advance
check_advance-found floats chains body {name = name} {c = c} {head' = head'} h =
    let (n, _, h1) = >>=-eq-done (chain_name (Dict.get_or "chain" (text "eth") body)) _ h in
    let (chain, found, h2) = >>=-eq-done (found_chain (Dict.get n chains)) _ h1 in
    let (_, _, h3) = >>=-eq-done (refuse_if (is_no_head (heads_dict chain)) 400) _ h2 in
    let (_, kept, h4) = >>=-eq-done (refuse_if (breaks_number floats body) 400) _ h3 in
    let (head, _, h5) =
      >>=-eq-done (head_of (is_moving body) (heads_dict chain) (value_of "head" body)) _ h4 in
    let same : (n, chain, head) ≡ (name, c, head') = done-injective _ _ h5 in
    (
      subst (λ x. Dict.get x.0 chains ≡ some x.1) same
          (found_chain-eq-done (Dict.get n chains) found),
      breaks_number-IsNonnegative floats body
          (refuse_if-eq-done (breaks_number floats body) 400 kept),
    )

module _ (rates : Rates) (floats : Floats) (monotone : IsMonotone rates) (t now later end : ℕ)
    (h1 : t ≤ now) (h2 : now ≤ later) (h3 : later ≤ end) where
  same-IsForward : (chains : Dict String Chain) → IsForward rates t end chains chains
  same-IsForward chains chain name h found =
      (h, found, current-run rates monotone t end h [] (omega arith))

  after_check-IsForward :
      (at : ℕ) (body : Dict String Json) (chains : Dict String Chain)
      (checked : Outcome (String × Chain × Option String))
      → ((name : String) (c : Chain) (head : Option String)
          → checked ≡ done (name, c, head)
          → (Dict.get name chains ≡ some c) × IsNonnegative body)
      → IsForward rates t end chains (after_check rates floats now later at body chains checked).1
  after_check-IsForward at body chains (refused status) found = same-IsForward chains
  after_check-IsForward at body chains (raised e) found = same-IsForward chains
  after_check-IsForward at body chains (done (name, c, head)) found =
      let (there, nonnegative) = found name c head refl in
      put-IsForward rates floats monotone t now later end body nonnegative h1 h2 h3 chains name head
        c there

  -- Whatever the body asks, and whether it is refused or not: every head of every chain is still there
  -- and shows no lower block after the call than before it, for a rate that makes no fewer blocks of a
  -- longer time and a clock that does not go back.
  pub advance-IsForward :
      (at : ℕ) (body : Json) (chains : Dict String Chain)
      → IsForward rates t end chains (advance rates floats now later at body chains).1
  unfolding advance
  advance-IsForward at (obj body) chains =
      after_check-IsForward at (fields body) chains (check_advance floats chains (fields body))
        (λ name c head h. check_advance-found floats chains (fields body) h)
  advance-IsForward at null chains = same-IsForward chains
  advance-IsForward at (bool b) chains = same-IsForward chains
  advance-IsForward at (num n) chains = same-IsForward chains
  advance-IsForward at (real nonzero s) chains = same-IsForward chains
  advance-IsForward at (text s) chains = same-IsForward chains
  advance-IsForward at (arr values) chains = same-IsForward chains
