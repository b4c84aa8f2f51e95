-- ===== src/GraphqlDocument/Checks.antt =====
-- provider_simulator/graphql_document.py: the limits of a document are those of its expansion.
use provider_simulator.Base.{
  ℕ, ◌+◌, ◌≡◌, ◌≤◌, ◌↔◌, refl, sym, ◌∙◌, String, Bool, true, false, [], length, ltb, inl, inr,
  Bool-cases, arith, if◌then◌else◌,
}
use provider_simulator.Base.Dict.{Dict}
use provider_simulator.GraphqlDocument.{
  Selections, Measured, done, cycle, unknown, out_of_fuel, nodes_of,
}
use provider_simulator.GraphqlDocument.Expansion.{
  Expands, depth, nodes, IsRight-empty, done-injective,
}
use provider_simulator.GraphqlDocument.Depths.{depth_of-IsWalked}
use provider_simulator.GraphqlDocument.Found.{depth_of-depth}
use provider_simulator.GraphqlDocument.Nodes.{nodes_of-nodes}
use provider_simulator.GraphqlDocument.Limits.{
  Fault, recursion, node_limit, Checked, accepted, refused, max_depth, max_nodes, within_depth,
  check_depth, within_nodes, check_nodes, after_check, check_limits,
}

ltb_le : (a b : ℕ) → ltb a b ≡ false → b ≤ a
ltb_le a b h = ground (arith, h)

le_ltb : (a b : ℕ) → b ≤ a → ltb a b ≡ false
le_ltb a b h = ground (arith, h)

-- What a limit lets through.
limit-accepted :
    (over : Bool) (fault : Fault)
    (h : (if over then refused fault else accepted (tt {0})) ≡ accepted tt)
    → over ≡ false
limit-accepted true fault h = cc
limit-accepted false fault h = refl

within_depth-accepted :
    (m : Measured)
    → within_depth m ≡ accepted tt
    → (n : ℕ) × (memo : Dict String ℕ) × (m ≡ done n memo) × (n ≤ max_depth)
within_depth-accepted (done n memo) h =
    (n, memo, refl, ltb_le max_depth n (limit-accepted (ltb max_depth n) recursion h))
within_depth-accepted cycle h = cc
within_depth-accepted (unknown name) h = cc
within_depth-accepted out_of_fuel h = cc

within_nodes-accepted :
    (m : Measured)
    → within_nodes m ≡ accepted tt
    → (n : ℕ) × (memo : Dict String ℕ) × (m ≡ done n memo) × (n ≤ max_nodes)
within_nodes-accepted (done n memo) h =
    (n, memo, refl, ltb_le max_nodes n (limit-accepted (ltb max_nodes n) node_limit h))
within_nodes-accepted cycle h = cc
within_nodes-accepted (unknown name) h = cc
within_nodes-accepted out_of_fuel h = cc

after_check-accepted :
    (first rest : Checked (Unit {0}))
    → after_check first rest ≡ accepted tt
    → (first ≡ accepted tt) × (rest ≡ accepted tt)
after_check-accepted (accepted tt) rest h = (refl, h)
after_check-accepted (refused fault) rest h = cc

module _ {V : Type 0} (fragments : Dict String (Selections V)) (set : Selections V) where
  -- The set has an expansion within both limits.
  pub record IsWithin : Type 0 where
    pub tree : Selections V
    pub expands : Expands fragments set tree
    pub deep : depth tree ≤ max_depth
    pub big : nodes tree ≤ max_nodes

  check_depth-accepted :
      check_depth set fragments ≡ accepted tt
      → (tree : Selections V) × Expands fragments set tree × (depth tree ≤ max_depth)
  unfolding check_depth
  check_depth-accepted h =
      let (n, memo, measured, small) = within_depth-accepted _ h in
      let (tree, e, size, right) =
        depth_of-IsWalked fragments (length fragments + 1) [] set [] n memo
          (IsRight-empty fragments depth) measured in
      (tree, e, omega (arith, small, size))

  -- A document that has an expansion is refused for its depth, then for its number of nodes, just
  -- when the expansion is past that limit.
  pub check_limits-nodes :
      (tree : Selections V)
      → Expands fragments set tree
      → check_limits set fragments ≡ (
          if ltb max_depth (depth tree)
          then refused recursion
          else if ltb max_nodes (nodes tree)
          then refused node_limit
          else accepted tt)
  unfolding check_limits check_depth check_nodes
  check_limits-nodes tree e =
      let (memo, measured) = depth_of-depth fragments set tree e in
      elim (Bool-cases (ltb max_depth (depth tree))) [
        | inl deep ↦ rw (measured, deep, check_limits, check_depth) refl
        | inr shallow ↦
            let (memo', counted) =
              nodes_of-nodes fragments max_depth set tree e
                (ltb_le max_depth (depth tree) shallow) in
            rw (measured, shallow, counted, check_limits, check_depth, check_nodes) refl
      ]

  -- A document is accepted just when it has an expansion within 32 levels and 300 nodes: neither
  -- the memo, nor the order of the checks, nor a cycle lets another one through.
  pub check_limits-IsWithin : (check_limits set fragments ≡ accepted tt) ↔ IsWithin
  unfolding check_limits check_nodes
  check_limits-IsWithin = (
    (λ h.
        let (first, second) =
          after_check-accepted (check_depth set fragments) (check_nodes set fragments) h in
        let (tree, e, deep) = check_depth-accepted first in
        let (memo, counted) = nodes_of-nodes fragments max_depth set tree e deep in
        let (n, memo', measured, small) =
          within_nodes-accepted (nodes_of max_depth fragments set []) second in
        let (size, memos) = done-injective (sym measured ∙ counted) in
        record { tree = tree; expands = e; deep = deep; big = omega (arith, small, size) }),
    (λ w.
        let shallow : ltb max_depth (depth w.tree) ≡ false =
          le_ltb max_depth (depth w.tree) w.deep in
        let few : ltb max_nodes (nodes w.tree) ≡ false = le_ltb max_nodes (nodes w.tree) w.big in
        check_limits-nodes w.tree w.expands ∙ rw (shallow, few) refl),
  )
