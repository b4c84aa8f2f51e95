-- ===== src/GraphqlDocument/Limits.antt =====
-- provider_simulator/graphql_document.py: the operation that a request names, and the limits of its
-- document.
use provider_simulator.Base.{
  ℕ, ◌+◌, String, Bool, false, Option, none, some, List, [], ◌∷◌, length, ltb, ◌==◌, if◌then◌else◌,
}
use provider_simulator.Base.Dict.{Dict}
use provider_simulator.GraphqlDocument.{
  Selections, Measured, done, cycle, unknown, out_of_fuel, depth_of, nodes_of,
}

-- GraphQLRequestError, with what its message says.
pub data Fault : Type 0 where
  recursion node_limit no_operation name_required : Fault
  unknown_fragment unknown_operation : String → Fault

-- The `kind` of a fault.
abbrev pub kind_of : Fault → String
kind_of recursion = "parse"
kind_of node_limit = "validation"
kind_of no_operation = "parse"
kind_of name_required = "operation"
kind_of (unknown_fragment name) = "validation"
kind_of (unknown_operation name) = "operation"

pub data Checked {ℓ} (A : Type ℓ) : Type ℓ where
  accepted : A → Checked A
  refused : Fault → Checked A

abbrev pub max_depth : ℕ
max_depth = 32

abbrev pub max_nodes : ℕ
max_nodes = 300

-- What _choose_operation reads of an OperationDefinitionNode.
pub record Operation (V : Type 0) : Type 0 where
  pub operation : String
  pub name : Option String
  pub selection_set : Selections V

abbrev pub is_named : String → Option String → Bool
is_named wanted none = false
is_named wanted (some name) = name == wanted

abbrev pub within_depth : Measured → Checked (Unit {0})
within_depth (done depth memo) = if ltb max_depth depth then refused recursion else accepted tt
within_depth cycle = refused recursion
within_depth (unknown name) = refused (unknown_fragment name)
within_depth out_of_fuel = refused recursion

abbrev pub within_nodes : Measured → Checked (Unit {0})
within_nodes (done nodes memo) = if ltb max_nodes nodes then refused node_limit else accepted tt
within_nodes _ = refused node_limit

abbrev pub after_check : Checked (Unit {0}) → Checked (Unit {0}) → Checked (Unit {0})
after_check (refused fault) rest = refused fault
after_check (accepted u) rest = rest

module _ {V : Type 0} where
  -- The first operation of that name.
  unfoldable pub find_operation : String → List (Operation V) → Checked (Operation V)
  find_operation wanted [] = refused (unknown_operation wanted)
  find_operation wanted (operation ∷ rest) =
      if is_named wanted operation.name then accepted operation else find_operation wanted rest

  unfoldable pub choose_operation : List (Operation V) → Option String → Checked (Operation V)
  unfolding find_operation
  choose_operation [] wanted = refused no_operation
  choose_operation operations (some wanted) = find_operation wanted operations
  choose_operation (operation ∷ []) none = accepted operation
  choose_operation operations none = refused name_required

  -- _check_depth
  unfoldable pub check_depth : Selections V → Dict String (Selections V) → Checked (Unit {0})
  check_depth set fragments = within_depth (depth_of (length fragments + 1) fragments [] set [])

  -- _check_nodes, which runs on a set that _check_depth accepted
  unfoldable pub check_nodes : Selections V → Dict String (Selections V) → Checked (Unit {0})
  check_nodes set fragments = within_nodes (nodes_of max_depth fragments set [])

  -- The two checks, in the order of parse_graphql_request.
  unfoldable pub check_limits : Selections V → Dict String (Selections V) → Checked (Unit {0})
  unfolding check_depth check_nodes
  check_limits set fragments = after_check (check_depth set fragments) (check_nodes set fragments)
