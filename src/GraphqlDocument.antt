-- ===== src/GraphqlDocument.antt =====
-- provider_simulator/graphql_document.py: the checks of a document. The nodes of graphql-core are
-- data, and the values of its arguments a parameter. A fragment is the selection set under its name.
-- The functions that follow a spread run on a number of nested spreads as fuel.
pub mod Expansion
pub mod Depths
pub mod Ends
pub mod Found
pub mod Limits
pub mod Nodes
pub mod Checks
pub mod Roots
pub mod Directives
pub mod RootsAnswered
mod Tests
use Prim.Native.Nat.{max}
use provider_simulator.Base.{
  ℕ, suc, zero, ◌+◌, String, Bool, true, false, Option, none, some, List, [], ◌∷◌, length,
  is_one_of, ltb, if◌then◌else◌,
}
use provider_simulator.Base.Dict
use provider_simulator.Base.Dict.{Dict, string_key}

pub record Directive (V : Type 0) : Type 0 where
  pub name : String
  pub arguments : Dict String V

-- What a FieldNode has beside its selection set.
pub record Head (V : Type 0) : Type 0 where
  pub name : String
  pub alias : Option String
  pub arguments : Dict String V
  pub directives : List (Directive V)

mutual
  -- A FieldNode without and with a selection set, a FragmentSpreadNode, an InlineFragmentNode.
  pub data Selection (V : Type 0) : Type 0 where
    leaf : Head V → Selection V
    field : Head V → Selections V → Selection V
    spread : String → List (Directive V) → Selection V
    inline : List (Directive V) → Selections V → Selection V

  pub data Selections (V : Type 0) : Type 0 where
    nil : Selections V
    cons : Selection V → Selections V → Selections V

-- What a walk over a document gives: a number with the memo, or a fault.
pub data Measured : Type 0 where
  done : ℕ → Dict String ℕ → Measured
  cycle : Measured
  unknown : String → Measured
  out_of_fuel : Measured

abbrev pub next : Measured → (ℕ → Dict String ℕ → Measured) → Measured
next (done n memo) go_on = go_on n memo
next cycle go_on = cycle
next (unknown name) go_on = unknown name
next out_of_fuel go_on = out_of_fuel

-- memo[name] = …
abbrev pub note : String → Measured → Measured
note name (done n memo) = done n (Dict.put name n memo)
note name cycle = cycle
note name (unknown missing) = unknown missing
note name out_of_fuel = out_of_fuel

module _ {V : Type 0} where
  -- The loop of _depth_of, with what a spread does.
  unfoldable pub scan :
      (String → Dict String ℕ → Measured) → Selections V → ℕ → Dict String ℕ → Measured
  scan visit nil deepest memo = done (suc deepest) memo
  scan visit (cons (leaf head) rest) deepest memo = scan visit rest deepest memo
  scan visit (cons (field head set) rest) deepest memo =
      next (scan visit set 0 memo) (λ below memo'. scan visit rest (max deepest below) memo')
  scan visit (cons (inline directives set) rest) deepest memo =
      next (scan visit set 0 memo) (λ below memo'. scan visit rest (max deepest below) memo')
  scan visit (cons (spread name directives) rest) deepest memo =
      next (visit name memo) (λ below memo'. scan visit rest (max deepest below) memo')

  -- A spread in _depth_of: a name on the stack is a cycle, one that is not defined a fault, and a
  -- fragment is measured once.
  unfoldable pub visit_depth :
      Dict String (Selections V)
      → List String
      → (String → Selections V → Dict String ℕ → Measured)
      → String
      → Dict String ℕ
      → Measured
  visit_depth fragments stack measure name memo =
      if is_one_of name stack then cycle else elim (Dict.get name fragments) [
        | none ↦ unknown name
        | some body ↦ elim (Dict.get name memo) [
          | some known ↦ done known memo
          | none ↦ note name (measure name body memo)
        ]
      ]

  -- _depth_of
  unfoldable pub depth_of :
      ℕ → Dict String (Selections V) → List String → Selections V → Dict String ℕ → Measured
  unfolding scan visit_depth
  depth_of zero fragments stack set memo = out_of_fuel
  depth_of (suc fuel) fragments stack set memo =
      scan
        (visit_depth fragments stack
          (λ name body memo'. depth_of fuel fragments (name ∷ stack) body memo'))
        set 0 memo

  -- The loop of _nodes_of.
  unfoldable pub count :
      (String → Dict String ℕ → Measured) → Selections V → ℕ → Dict String ℕ → Measured
  count visit nil total memo = done total memo
  count visit (cons (leaf head) rest) total memo = count visit rest (total + 1) memo
  count visit (cons (field head set) rest) total memo =
      next (count visit set 0 memo) (λ below memo'. count visit rest (total + 1 + below) memo')
  count visit (cons (inline directives set) rest) total memo =
      next (count visit set 0 memo) (λ below memo'. count visit rest (total + 1 + below) memo')
  count visit (cons (spread name directives) rest) total memo =
      next (visit name memo) (λ below memo'. count visit rest (total + 1 + below) memo')

  -- A spread in _nodes_of.
  unfoldable pub visit_nodes :
      Dict String (Selections V)
      → (Selections V → Dict String ℕ → Measured)
      → String
      → Dict String ℕ
      → Measured
  visit_nodes fragments measure name memo = elim (Dict.get name memo) [
    | some known ↦ done known memo
    | none ↦ elim (Dict.get name fragments) [
      | none ↦ unknown name
      | some body ↦ note name (measure body memo)
    ]
  ]

  -- _nodes_of
  unfoldable pub nodes_of : ℕ → Dict String (Selections V) → Selections V → Dict String ℕ → Measured
  unfolding count visit_nodes
  nodes_of zero fragments set memo = out_of_fuel
  nodes_of (suc fuel) fragments set memo =
      count (visit_nodes fragments (λ body memo'. nodes_of fuel fragments body memo')) set 0 memo
