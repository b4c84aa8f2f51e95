-- ===== src/Chains.antt =====
-- provider_simulator/chains/base.py: the head of a chain, which stands still or advances. The time is
-- an argument; `set_rate` takes two readings of it. What a rate makes of a time is a parameter, since
-- the program computes it in floating point.
pub mod Blocks
pub mod Forward
mod Tests
use provider_simulator.Base.{
  ℕ, ◌-◌, String, Bool, true, false, Option, none, some, List, [], ◌∷◌, ◌++◌, ◌==◌, if◌then◌else◌,
}
use provider_simulator.Base.Dict
use provider_simulator.Base.Dict.{Dict, string_key}
use provider_simulator.Base.Int.{ℤ, pos}
use provider_simulator.Base.Json.{Json}
use provider_simulator.Chains.Blocks.{◌+ℤ◌}

-- A number of a request as a rate: whether it is above zero, and how many blocks it makes of a time,
-- with the part of a block left out.
pub record Rates : Type 0 where
  pub is_positive : Json → Bool
  pub made : Json → ℕ → ℕ

-- A rate of zero is `none`.
pub record AdvancingHead : Type 0 where
  pub base : ℤ
  pub extra : ℤ
  pub rate : Option Json
  pub anchor : ℕ

unfoldable pub new_head : ℤ → AdvancingHead
new_head base = record { base = base; extra = pos 0; rate = none; anchor = 0 }

module _ (rates : Rates) where
  -- What the rate made since the anchor.
  abbrev pub made_since : Option Json → ℕ → ℕ → ℕ
  made_since none anchor now = 0
  made_since (some rate) anchor now = rates.made rate (now - anchor)

  unfoldable pub current : ℕ → AdvancingHead → ℤ
  current now h = h.base +ℤ (h.extra +ℤ pos (made_since h.rate h.anchor now))

  abbrev pub positive_rate : Json → Option Json
  positive_rate rate = positive (rates.is_positive rate)
    where
      positive : Bool → Option Json
      positive true = some rate
      positive false = none

  unfoldable pub set_rate : ℕ → ℕ → Json → AdvancingHead → AdvancingHead
  set_rate now later rate h = record h {
    extra = h.extra +ℤ pos (made_since h.rate h.anchor now);
    rate = positive_rate rate;
    anchor = later;
  }

unfoldable pub bump : ℤ → AdvancingHead → AdvancingHead
bump blocks h = record h { extra = h.extra +ℤ blocks }

unfoldable pub reset : AdvancingHead → AdvancingHead
reset h = record h { extra = pos 0; rate = none }

-- A chain that speaks one protocol has `head`, one that speaks several has `heads`, sorted by name.
pub record Chain : Type 0 where
  pub head : Option AdvancingHead
  pub heads : List (String × AdvancingHead)

unfoldable pub iter_heads : Chain → List (String × AdvancingHead)
iter_heads c = elim c.head [ none ↦ c.heads | some single ↦ ("default", single) ∷ c.heads ]

-- dict(chain.iter_heads()): a later pair of a name takes the place of an earlier one.
abbrev pub dict_of {ℓ} : {V : Type ℓ} → Dict String V → Dict String V → Dict String V
dict_of [] d = d
dict_of ((k, v) ∷ pairs) d = dict_of pairs (Dict.put k v d)

unfoldable pub heads_dict : Chain → Dict String AdvancingHead
unfolding iter_heads
heads_dict c = dict_of (iter_heads c) []

-- The head of a name: one of `heads` comes before the single head.
abbrev pub or_single : Option AdvancingHead → Bool → Option AdvancingHead → Option AdvancingHead
or_single (some h) is_default single = some h
or_single none true single = single
or_single none false single = none

unfoldable pub head_named : String → Chain → Option AdvancingHead
head_named name c = or_single (Dict.get name c.heads) (name == "default") c.head

-- A head is an object of its chain: a change of it is a change of the chain.
unfoldable pub set_head : String → AdvancingHead → Chain → Chain
set_head name h c =
    if Dict.has name c.heads
    then record c { heads = Dict.put name h c.heads }
    else record c { head = some h }
