-- ===== src/GraphqlDocument/Tests.antt =====
-- Runs of provider_simulator/graphql_document.py.
use provider_simulator.Base.{
  ℕ, ◌+◌, ◌≡◌, ◌≢◌, ◌↔◌, refl, none, some, String, [], ◌∷◌, length, ltb, true, arith, if◌then◌else◌,
}
use provider_simulator.Base.Dict.{Dict}
use provider_simulator.Base.Json.{bool}
use provider_simulator.GraphqlDocument.{
  Head, leaf, field, spread, inline, Selections, nil, cons, out_of_fuel, scan, visit_depth,
  depth_of, nodes_of, count, visit_nodes,
}
use provider_simulator.GraphqlDocument.Expansion.{
  Expands, nothing, leaves, fields, spreads, depth, nodes,
}
use provider_simulator.GraphqlDocument.Roots.{roots_of, collect, is_included}
use provider_simulator.GraphqlDocument.RootsAnswered.{IsAnswered, roots_of-IsAnswered}
use provider_simulator.GraphqlDocument.Ends.{depth_of-out_of_fuel}
use provider_simulator.GraphqlDocument.Limits.{
  accepted, refused, recursion, node_limit, unknown_operation, name_required, Operation,
  choose_operation, find_operation, max_depth, max_nodes, check_depth, check_nodes, check_limits,
}
use provider_simulator.GraphqlDocument.Checks.{IsWithin, check_limits-nodes, check_limits-IsWithin}

abbrev head : String → Head ℕ
head name = record { name = name; alias = none; arguments = []; directives = [] }

-- fragment f on Object { owner }
abbrev owner : Selections ℕ
owner = cons (leaf (head "owner")) nil

abbrev fragments : Dict String (Selections ℕ)
fragments = ("f", owner) ∷ []

-- { object { ...f ...f } }
abbrev document : Selections ℕ
document = cons (field (head "object") (cons (spread "f" []) (cons (spread "f" []) nil))) nil

abbrev expanded : Selections ℕ
expanded = cons (field (head "object") (cons (inline [] owner) (cons (inline [] owner) nil))) nil

document-expanded : Expands fragments document expanded
document-expanded =
    fields (head "object")
      (spreads "f" [] refl (leaves (head "owner") nothing)
        (spreads "f" [] refl (leaves (head "owner") nothing) nothing))
      nothing

-- fragment g on Object { ...g }
abbrev endless : Dict String (Selections ℕ)
endless = ("g", cons (spread "g" []) nil) ∷ []

sizes : (depth expanded ≡ 3) × (nodes expanded ≡ 5)
sizes = (refl, refl)

limits :
    (check_limits document fragments ≡ accepted tt)
    × (check_limits (cons (spread "g" []) nil) endless ≡ refused recursion)
unfolding check_limits check_depth check_nodes depth_of nodes_of scan visit_depth count visit_nodes
limits = (refl, refl)

abbrev operation : String → Operation ℕ
operation name = record { operation = "query"; name = some name; selection_set = document }

chosen :
    (choose_operation (operation "a" ∷ operation "b" ∷ []) none ≡ refused name_required)
    × (choose_operation (operation "a" ∷ operation "b" ∷ []) (some "b") ≡ accepted (operation "b"))
    × (choose_operation (operation "a" ∷ []) (some "c") ≡ refused (unknown_operation "c"))
unfolding choose_operation find_operation
chosen = (refl, refl, refl)

depth_of-out_of_fuel_example :
    depth_of (length endless + 1) endless [] (cons (spread "g" []) nil) [] ≢ out_of_fuel
depth_of-out_of_fuel_example = depth_of-out_of_fuel endless (cons (spread "g" []) nil)

check_limits-nodes_example : check_limits document fragments ≡ (
    if ltb max_depth (depth expanded)
    then refused recursion
    else if ltb max_nodes (nodes expanded)
    then refused node_limit
    else accepted tt)
check_limits-nodes_example = check_limits-nodes fragments document expanded document-expanded

check_limits-IsWithin_example :
    (check_limits document fragments ≡ accepted tt) ↔ IsWithin fragments document
check_limits-IsWithin_example = check_limits-IsWithin fragments document

-- query { ...f @skip(if: true) ...f }: a value that is 1 stands for true
abbrev skipping : Selections ℕ
skipping =
    cons (spread "f" (record { name = "skip"; arguments = ("if", 1) ∷ [] } ∷ []))
      (cons (spread "f" []) nil)

roots :
    roots_of (λ n. some (bool true)) 2 fragments skipping
    ≡ some
        (record { name = "owner"; response_key = "owner"; arguments = []; selection = none } ∷ [])
unfolding roots_of collect is_included
roots = refl

-- That document, expanded.
skipping-expanded : (tree : Selections ℕ) × Expands fragments skipping tree × (depth tree ≡ 2)
skipping-expanded = (
  _,
  spreads "f" (record { name = "skip"; arguments = ("if", 1) ∷ [] } ∷ []) refl
      (leaves (head "owner") nothing) (spreads "f" [] refl (leaves (head "owner") nothing) nothing),
  refl,
)

roots_of-IsAnswered_example :
    IsAnswered
      (λ n. some (bool true))
      fragments
      skipping
      (roots_of (λ n. some (bool true)) 2 fragments skipping)
roots_of-IsAnswered_example =
    roots_of-IsAnswered (λ n. some (bool true)) fragments 2 skipping skipping-expanded.0
      skipping-expanded.1 (omega (arith, skipping-expanded.2))
