-- ===== src/ControlApi/Heads.antt =====
-- provider_simulator/chains/base.py: a head of a chain by its name.
use provider_simulator.Base.{
  ◌≡◌, refl, sym, ◌∙◌, String, Bool, true, false, Bool-cases, Option, none, some, inl, inr, ◌==◌,
  eq_iff, if◌then◌else◌, arith,
}
use provider_simulator.Base.Dict
use provider_simulator.Base.Dict.{Dict, string_key, get-put, get-has}
use provider_simulator.Chains.{Chain, AdvancingHead, head_named, or_single, set_head}

abbrev pub head_in : Option Chain → String → Option AdvancingHead
head_in none name = none
head_in (some c) name = head_named name c

abbrev pub head_at : Dict String Chain → String → String → Option AdvancingHead
head_at chains chain name = head_in (Dict.get chain chains) name

single_is_default :
    (is_default : Bool) (single : Option AdvancingHead) {old : AdvancingHead}
    → or_single none is_default single ≡ some old
    → is_default ≡ true
single_is_default true single h = refl
single_is_default false single h = absurd (cc h)

or_single-not_default :
    (o single other : Option AdvancingHead) → or_single o false single ≡ or_single o false other
or_single-not_default none single other = refl
or_single-not_default (some h) single other = refl

not_default :
    (name other : String)
    → (name == "default") ≡ true
    → (name == other) ≡ false
    → (other == "default") ≡ false
not_default name other is_default differs = elim (Bool-cases (other == "default")) [
  | inl also ↦
      let same : (name == other) ≡ true =
        (eq_iff name other).1
          ((eq_iff name "default").0 is_default ∙ sym ((eq_iff other "default").0 also)) in
      absurd (ground arith)
  | inr no_default ↦ no_default
]

head_named-set_single :
    (name other : String) (h : AdvancingHead) (c : Chain)
    → Dict.get name c.heads ≡ none
    → (name == "default") ≡ true
    → or_single (Dict.get other c.heads) (other == "default") (some h) ≡ (
        if name == other
        then some h
        else or_single (Dict.get other c.heads) (other == "default") c.head)
head_named-set_single name other h c missing is_default = elim (Bool-cases (name == other)) [
  | inl same ↦ rw (same, sym ((eq_iff name other).0 same), missing, is_default) refl
  | inr differs ↦
      rw (differs, not_default name other is_default differs)
        (or_single-not_default (Dict.get other c.heads) (some h) c.head)
]

pub head_named-set_head :
    (name other : String) (h old : AdvancingHead) (c : Chain)
    → head_named name c ≡ some old
    → head_named other (set_head name h c) ≡ (if name == other then some h else head_named other c)
unfolding head_named set_head
head_named-set_head name other h old c there = elim (Bool-cases (Dict.has name c.heads)) [
  | inl listed ↦
      rw (listed, get-put name other h c.heads)
        (elim (Bool-cases (name == other)) [
          | inl same ↦ rw same refl
          | inr differs ↦ rw differs refl
        ])
  | inr missing ↦
      let none_there = get-has name c.heads missing in
      rw missing (
        head_named-set_single name other h c none_there
          (single_is_default (name == "default") c.head {old = old} (rw (sym none_there) there)))
]
