-- ===== src/Base/Deque.antt =====
-- `collections.deque(maxlen=n)`: an append to a full deque drops the oldest item.
use Prim.Native.Nat.{ℕ, zero, suc, ◌+◌, ◌-◌, ◌≤◌}
use mathlib.Core.Path.{◌≡◌, refl, ap, sym, ◌∙◌}
use mathlib.Core.List.{append-nil, append_assoc, List, [], ◌∷◌, ◌++◌}
use native.Mathlib.Omega.{arith}
use mathlib.Core.Logic.{inl, inr}
use provider_simulator.Base.Tests.{if◌then◌else◌, ltb, Bool-cases}
use provider_simulator.Base.Lists.{
  length, drop, length-append, length-drop, All, All-append, All-drop,
}

module _ {ℓ} {A : Type ℓ} where
  unfoldable pub append : ℕ → List A → A → List A
  append maxlen xs x = if ltb (length xs) maxlen then xs ++ x ∷ [] else drop 1 (xs ++ x ∷ [])

  pub length-append_bounded :
      (maxlen : ℕ) (xs : List A) (x : A) → length xs ≤ maxlen → length (append maxlen xs x) ≤ maxlen
  unfolding append
  length-append_bounded maxlen xs x h =
      ground (arith, length-append xs (x ∷ []), length-drop 1 (xs ++ x ∷ []))

  pub append-All {κ} :
      (P : A → Type κ) (maxlen : ℕ) (xs : List A) (x : A)
      → All P xs
      → P x
      → All P (append maxlen xs x)
  unfolding append
  append-All P maxlen xs x h hx =
      let grown = All-append P xs (x ∷ []) h (hx, tt) in
      elim (Bool-cases (ltb (length xs) maxlen)) [
        | inl room ↦ rw room grown
        | inr full ↦ rw full (All-drop P 1 (xs ++ x ∷ []) grown)
      ]

  -- A deque that received the items of a list, one by one.
  unfoldable pub extend : ℕ → List A → List A → List A
  extend maxlen xs [] = xs
  extend maxlen xs (y ∷ ys) = extend maxlen (append maxlen xs y) ys

  -- The newest `n` items of a list.
  abbrev pub newest : ℕ → List A → List A
  newest n xs = drop (length xs - n) xs

  drop-append : (n : ℕ) (xs ys : List A) → n ≤ length xs → drop n (xs ++ ys) ≡ drop n xs ++ ys
  drop-append zero xs ys h = refl
  drop-append (suc n) [] ys h = absurd (omega arith)
  drop-append (suc n) (x ∷ xs) ys h = drop-append n xs ys (omega arith)

  pub drop-nil : (n : ℕ) → drop {A = A} n [] ≡ []
  drop-nil zero = refl
  drop-nil (suc n) = refl

  drop-drop_one : (n : ℕ) (xs : List A) → drop 1 (drop n xs) ≡ drop (suc n) xs
  drop-drop_one zero [] = refl
  drop-drop_one zero (x ∷ xs) = refl
  drop-drop_one (suc n) [] = refl
  drop-drop_one (suc n) (x ∷ xs) = drop-drop_one n xs

  -- Appending to the newest `n` items of a list gives the newest `n` of the longer list.
  pub append-newest :
      (n : ℕ) (xs : List A) (x : A) → append n (newest n xs) x ≡ newest n (xs ++ x ∷ [])
  unfolding append
  append-newest n xs x =
      let whole : length (xs ++ x ∷ []) ≡ length xs + 1 = length-append xs (x ∷ []) in
      let kept : length (newest n xs) ≡ length xs - (length xs - n) =
        length-drop (length xs - n) xs in
      let k = length xs - n in
      elim (Bool-cases (ltb (length (newest n xs)) n)) [
        | inl room ↦
            let none_dropped : length xs - n ≡ 0 = ground arith in
            let none_dropped' : length (xs ++ x ∷ []) - n ≡ 0 = ground arith in
            rw (room, none_dropped, none_dropped')
        | inr full ↦
            let one_more : length (xs ++ x ∷ []) - n ≡ suc (length xs - n) = ground arith in
            rw (full, one_more)
              (ap (drop 1) (sym (drop-append k xs (x ∷ []) (omega arith)))
                ∙ drop-drop_one k (xs ++ x ∷ []))
      ]

  extend-newest : (n : ℕ) (xs ys : List A) → extend n (newest n xs) ys ≡ newest n (xs ++ ys)
  unfolding extend
  extend-newest n xs [] = rw (append-nil xs)
  extend-newest n xs (y ∷ ys) =
      rw (append-newest n xs y)
        (extend-newest n (xs ++ y ∷ []) ys ∙ ap (newest n) (append_assoc xs (y ∷ []) ys))

  -- From an empty deque, what is left is the newest `n` of all that came.
  pub extend_empty : (n : ℕ) (ys : List A) → extend n [] ys ≡ newest n ys
  extend_empty n ys = rw (drop-nil (0 - n)) at (extend-newest n [] ys)
