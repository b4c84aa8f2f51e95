-- ===== src/Chains/Forward.antt =====
-- provider_simulator/chains/base.py: a head never moves backward.
use provider_simulator.Base.{ℕ, ◌+◌, ◌-◌, ◌≤◌, ◌≡◌, Option, none, some, List, [], ◌∷◌, arith}
use provider_simulator.Base.Int.{ℤ, pos, pos_part, neg_part}
use provider_simulator.Base.Json.{Json}
use provider_simulator.Chains.{Rates, AdvancingHead, current, set_rate, bump, made_since}
use provider_simulator.Chains.Blocks.{◌+ℤ◌, ◌≤ℤ◌, +ℤ-parts, ≤ℤ-trans}

-- What happens to a head without a reset, with the times that it reads.
pub data HeadMove : Type 0 where
  rated : ℕ → ℕ → Json → HeadMove
  bumped : ℤ → HeadMove

module _ (rates : Rates) where
  abbrev pub moved : HeadMove → AdvancingHead → AdvancingHead
  moved (rated now later rate) h = set_rate rates now later rate h
  moved (bumped blocks) h = bump blocks h

  abbrev pub run : List HeadMove → AdvancingHead → AdvancingHead
  run [] h = h
  run (m ∷ ms) h = run ms (moved m h)

-- The clock never goes back: each move reads it at or after the one before, and so does the end. No
-- bump is of fewer than no blocks.
abbrev pub IsAfter : ℕ → List HeadMove → ℕ → Type 0
IsAfter t [] end = t ≤ end
IsAfter t (rated now later rate ∷ ms) end = (t ≤ now) × (now ≤ later) × IsAfter later ms end
IsAfter t (bumped blocks ∷ ms) end = (neg_part blocks ≡ 0) × IsAfter t ms end

-- A rate makes no fewer blocks of a longer time.
abbrev pub IsMonotone : Rates → Type 0
IsMonotone rates = (rate : Json) (a b : ℕ) → a ≤ b → rates.made rate a ≤ rates.made rate b

module _ (rates : Rates) (monotone : IsMonotone rates) where
  made_since_monotone :
      (rate : Option Json) (anchor a b : ℕ)
      → a ≤ b
      → made_since rates rate anchor a ≤ made_since rates rate anchor b
  made_since_monotone none anchor a b h = ground arith
  made_since_monotone (some rate) anchor a b h =
      monotone rate (a - anchor) (b - anchor) (ground arith)

  current-parts :
      (t : ℕ) (h : AdvancingHead)
      → (pos_part (current rates t h) + (neg_part h.base + neg_part h.extra)
          ≡ pos_part h.base
            + pos_part h.extra
            + made_since rates h.rate h.anchor t
            + neg_part (current rates t h))
  unfolding current
  current-parts t h =
      let made : ℤ = pos (made_since rates h.rate h.anchor t) in
      ground (arith, +ℤ-parts h.extra made, +ℤ-parts h.base (h.extra +ℤ made))

  current-later : (a b : ℕ) (h : AdvancingHead) → a ≤ b → current rates a h ≤ℤ current rates b h
  current-later a b h after =
      ground
        (arith, current-parts a h, current-parts b h, made_since_monotone h.rate h.anchor a b after)

  current-set_rate :
      (t now later : ℕ) (rate : Json) (h : AdvancingHead)
      → t ≤ now
      → current rates t h ≤ℤ current rates later (set_rate rates now later rate h)
  unfolding set_rate
  current-set_rate t now later rate h after = ground (
    arith,
    current-parts t h,
    current-parts later (set_rate rates now later rate h),
    +ℤ-parts h.extra (pos (made_since rates h.rate h.anchor now)),
    made_since_monotone h.rate h.anchor t now after,
  )

  current-bump :
      (t : ℕ) (blocks : ℤ) (h : AdvancingHead)
      → neg_part blocks ≡ 0
      → current rates t h ≤ℤ current rates t (bump blocks h)
  unfolding bump
  current-bump t blocks h nonnegative = ground (
    arith,
    current-parts t h,
    current-parts t (bump blocks h),
    +ℤ-parts h.extra blocks,
    nonnegative,
  )

  -- Whatever the rates are set to and however often the head is bumped, it does not move backward.
  pub current-run :
      (t end : ℕ) (h : AdvancingHead) (ms : List HeadMove)
      → IsAfter t ms end
      → current rates t h ≤ℤ current rates end (run rates ms h)
  current-run t end h [] after = current-later t end h after
  current-run t end h (rated now later rate ∷ ms) (h1, h2, after) =
      let h' = set_rate rates now later rate h in
      ≤ℤ-trans (current rates t h) (current rates later h') (current rates end (run rates ms h'))
        (current-set_rate t now later rate h h1) (current-run later end h' ms after)
  current-run t end h (bumped blocks ∷ ms) (h1, after) =
      let h' = bump blocks h in
      ≤ℤ-trans (current rates t h) (current rates t h') (current rates end (run rates ms h'))
        (current-bump t blocks h h1) (current-run t end h' ms after)
