-- ===== src/Chains/Blocks.antt =====
-- The block numbers of provider_simulator/chains/base.py: whole numbers, which a bump may take below
-- zero.
use provider_simulator.Base.{
  ℕ, suc, ◌+◌, ◌-◌, ◌≤◌, ◌≡◌, Bool-cases, inl, inr, ltb, if◌then◌else◌, arith,
}
use provider_simulator.Base.Int.{ℤ, pos, negsuc, pos_part, neg_part}

-- pos a +ℤ negsuc b
abbrev pub difference : ℕ → ℕ → ℤ
difference a b = if ltb b a then pos (a - suc b) else negsuc (b - a)

infixl 60 ◌+ℤ◌
unfoldable pub ◌+ℤ◌ : ℤ → ℤ → ℤ
pos a +ℤ pos b = pos (a + b)
pos a +ℤ negsuc b = difference a b
negsuc a +ℤ pos b = difference b a
negsuc a +ℤ negsuc b = negsuc (suc (a + b))

infix 40 ◌≤ℤ◌
-- a ≤ b, where a number is its positive part less its negative part.
abbrev pub ◌≤ℤ◌ : ℤ → ℤ → Type 0
a ≤ℤ b = pos_part a + neg_part b ≤ pos_part b + neg_part a

difference-parts : (a b : ℕ) → pos_part (difference a b) + suc b ≡ a + neg_part (difference a b)
difference-parts a b = elim (Bool-cases (ltb b a)) [
  | inl below ↦ rw below (ground arith)
  | inr above ↦ rw above (ground arith)
]

pub +ℤ-parts :
    (a b : ℤ)
    → pos_part (a +ℤ b) + (neg_part a + neg_part b) ≡ pos_part a + pos_part b + neg_part (a +ℤ b)
unfolding ◌+ℤ◌
+ℤ-parts (pos a) (pos b) = ground arith
+ℤ-parts (pos a) (negsuc b) = ground (arith, difference-parts a b)
+ℤ-parts (negsuc a) (pos b) = ground (arith, difference-parts b a)
+ℤ-parts (negsuc a) (negsuc b) = ground arith

pub ≤ℤ-trans : (a b c : ℤ) → a ≤ℤ b → b ≤ℤ c → a ≤ℤ c
≤ℤ-trans a b c h1 h2 = omega arith
