-- ===== src/Base/Sort.antt =====
-- Python's `sorted` on texts, in the order of the code points.
use Prim.Native.String.{String, compare}
use Prim.Native.Nat.{Ordering}
use mathlib.Core.Bool.{Bool, true, false}
use mathlib.Core.List.{List, [], ◌∷◌}
use provider_simulator.Base.Tests.{if◌then◌else◌}

abbrev pub is_after : String → String → Bool
is_after a b = elim (compare a b) [ Ordering.gt ↦ true | _ ↦ false ]

-- Behind the texts that it is not before.
abbrev pub insert : String → List String → List String
insert s [] = s ∷ []
insert s (t ∷ ts) = let later = insert s ts in if is_after s t then t ∷ later else s ∷ t ∷ ts

abbrev pub sorted : List String → List String
sorted [] = []
sorted (s ∷ ts) = insert s (sorted ts)
