-- ===== src/GraphqlDocument/Roots.antt =====
-- provider_simulator/graphql_document.py: the root fields of an operation. value_from_ast_untyped with
-- the variables of the request is a parameter, none where it gives Undefined.
use provider_simulator.Base.{
  ℕ, suc, zero, String, Bool, true, false, not, ◌&&◌, ◌||◌, Option, none, some, List, [], ◌∷◌, ◌++◌,
  ◌==◌, is_one_of, if◌then◌else◌,
}
use provider_simulator.Base.Dict
use provider_simulator.Base.Dict.{Dict, string_key}
use provider_simulator.Base.Json.{Json, bool}
use provider_simulator.GraphqlDocument.{
  Directive, Head, leaf, field, spread, inline, Selections, nil, cons,
}

pub record RootField (V : Type 0) : Type 0 where
  pub name : String
  pub response_key : String
  pub arguments : Dict String Json
  pub selection : Option (Selections V)

-- value if isinstance(value, bool) else None
abbrev pub as_bool : Option Json → Option Bool
as_bool (some (bool b)) = some b
as_bool _ = none

-- Whether a directive of this name and condition removes the selection.
abbrev pub removes : String → Option Bool → Bool
removes name none = false
removes name (some value) = (name == "skip" && value) || (name == "include" && not value)

abbrev pub or_name : String → Option String → String
or_name name none = name
or_name name (some alias) = alias

abbrev pub put_value : String → Option Json → Dict String Json → Dict String Json
put_value name none d = d
put_value name (some value) d = Dict.put name value d

-- roots.extend(…), or the exception
abbrev pub join {ℓ} : {A : Type ℓ} → Option (List A) → Option (List A) → Option (List A)
join none rest = none
join (some first) none = none
join (some first) (some rest) = some (first ++ rest)

module _ {V : Type 0} (value_of : V → Option Json) where
  -- _condition: the first argument `if`
  abbrev pub condition : Dict String V → Option Bool
  condition [] = none
  condition ((name, value) ∷ rest) =
      if name == "if" then as_bool (value_of value) else condition rest

  unfoldable pub is_included : List (Directive V) → Bool
  is_included [] = true
  is_included (directive ∷ rest) =
      if is_one_of directive.name ("skip" ∷ "include" ∷ [])
        && removes directive.name (condition directive.arguments)
      then false
      else is_included rest

  abbrev pub values_from : Dict String V → Dict String Json → Dict String Json
  values_from [] arguments = arguments
  values_from ((name, value) ∷ rest) arguments =
      values_from rest (put_value name (value_of value) arguments)

  abbrev pub root_of : Head V → Option (Selections V) → RootField V
  root_of head set = record {
    name = head.name;
    response_key = or_name head.name head.alias;
    arguments = values_from head.arguments [];
    selection = set;
  }

  abbrev pub kept : List (Directive V) → Option (List (RootField V)) → Option (List (RootField V))
  kept directives found = if is_included directives then found else some []

  -- The loop of _roots_of, with what a spread does.
  unfoldable pub collect :
      (String → Option (List (RootField V))) → Selections V → Option (List (RootField V))
  unfolding is_included
  collect visit nil = some []
  collect visit (cons (leaf head) rest) =
      join (kept head.directives (some (root_of head none ∷ []))) (collect visit rest)
  collect visit (cons (field head set) rest) =
      join (kept head.directives (some (root_of head (some set) ∷ []))) (collect visit rest)
  collect visit (cons (inline directives set) rest) =
      join (kept directives (collect visit set)) (collect visit rest)
  collect visit (cons (spread name directives) rest) =
      join (kept directives (visit name)) (collect visit rest)

  abbrev pub defined_body :
      (Selections V → Option (List (RootField V)))
      → Option (Selections V)
      → Option (List (RootField V))
  defined_body roots none = none
  defined_body roots (some body) = roots body

  -- _roots_of; none is KeyError, or the end of the fuel.
  unfoldable pub roots_of :
      ℕ → Dict String (Selections V) → Selections V → Option (List (RootField V))
  unfolding collect
  roots_of zero fragments set = none
  roots_of (suc fuel) fragments set =
      collect
        (λ name. defined_body (λ body. roots_of fuel fragments body) (Dict.get name fragments)) set
