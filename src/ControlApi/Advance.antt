-- ===== src/ControlApi/Advance.antt =====
-- provider_simulator/control_api.py: POST /advance. The readings of the clock are arguments: the two
-- of set_rate, and the one of the answer.
use provider_simulator.Base.{
  ℕ, String, Bool, true, false, not, ◌&&◌, ◌||◌, List, [], ◌∷◌, Option, none, some, map, any,
  if◌then◌else◌,
}
use provider_simulator.Base.Dict
use provider_simulator.Base.Dict.{Dict, string_key}
use provider_simulator.Base.Int.{ℤ, pos}
use provider_simulator.Base.Json.{Json, null, bool, num, text, arr, obj, fields}
use provider_simulator.Base.Results.{type_error}
use provider_simulator.Base.Sort.{sorted}
use provider_simulator.Chains.{
  Rates, Chain, AdvancingHead, current, set_rate, bump, heads_dict, head_named, set_head,
}
use provider_simulator.ControlApi.{Outcome, done, refused, raised, ◌>>=◌, refuse_if}
use provider_simulator.ControlApi.Fields.{Floats, bad_number}
use provider_simulator.ControlApi.Rules.{is_zero}
use provider_simulator.Domain.Scenario.{value_of}

-- What the answer says: the chain, the head that was named, and every head.
pub record Advanced : Type 0 where
  pub chain : String
  pub head_name : Option String
  pub heads : Dict String ℤ
  pub head : Option ℤ

-- body.get("chain", "eth"), which has to be a text
abbrev pub chain_name : Json → Outcome String
chain_name (text name) = done name
chain_name _ = refused 400

abbrev pub found_chain : Option Chain → Outcome Chain
found_chain none = refused 400
found_chain (some c) = done c

-- A number of the body that is refused.
abbrev pub breaks_number : Floats → Dict String Json → Bool
breaks_number floats body =
    any (λ name. Dict.has name body && bad_number floats name (value_of name body))
      ("blocks" ∷ "per_second" ∷ [])

unfoldable pub is_moving : Dict String Json → Bool
is_moving body =
    Dict.has "per_second" body || not (is_zero (Dict.get_or "blocks" (num (pos 0)) body))

-- The head that a request is about: the only one needs no name, and a read needs none either. A list
-- or an object has no hash.
unfoldable pub head_of : Bool → Dict String AdvancingHead → Json → Outcome (Option String)
head_of moving ((name, h) ∷ []) null = done (some name)
head_of moving heads null = if moving then refused 400 else done none
head_of moving heads (text name) = if Dict.has name heads then done (some name) else refused 400
head_of moving heads (arr values) = raised type_error
head_of moving heads (obj fs) = raised type_error
head_of moving heads value = refused 400

-- int(body["blocks"]); check_advance refuses every other value.
abbrev pub blocks_of : Json → ℤ
blocks_of (num n) = n
blocks_of (bool true) = pos 1
blocks_of _ = pos 0

abbrev pub is_no_head : List (String × AdvancingHead) → Bool
is_no_head [] = true
is_no_head _ = false

module _ (floats : Floats) where
  -- The checks: the name of the chain, the chain, and the head.
  unfoldable pub check_advance :
      Dict String Chain → Dict String Json → Outcome (String × Chain × Option String)
  check_advance chains body = chain_name (Dict.get_or "chain" (text "eth") body) >>= λ name.
      found_chain (Dict.get name chains) >>= λ c. refuse_if (is_no_head (heads_dict c)) 400 >>= λ _.
      refuse_if (breaks_number floats body) 400 >>= λ _.
      head_of (is_moving body) (heads_dict c) (value_of "head" body) >>= λ head.
      done (name, c, head)

module _ (rates : Rates) (floats : Floats) where
  -- The move of one head: its rate first, then the blocks.
  abbrev pub move_head : ℕ → ℕ → Dict String Json → AdvancingHead → AdvancingHead
  move_head now later body h =
      let rated =
        if Dict.has "per_second" body
        then set_rate rates now later (value_of "per_second" body) h
        else h in
      if Dict.has "blocks" body then bump (blocks_of (value_of "blocks" body)) rated else rated

  abbrev pub move_found : ℕ → ℕ → Dict String Json → String → Chain → Option AdvancingHead → Chain
  move_found now later body name c none = c
  move_found now later body name c (some h) = set_head name (move_head now later body h) c

  abbrev pub move_named : ℕ → ℕ → Dict String Json → Option String → Chain → Chain
  move_named now later body none c = c
  move_named now later body (some name) c = move_found now later body name c (head_named name c)

  abbrev pub readings : ℕ → Dict String AdvancingHead → List String → Dict String ℤ
  readings at heads [] = []
  readings at heads (name ∷ names) = elim (Dict.get name heads) [
    | none ↦ readings at heads names
    | some h ↦ (name, current rates at h) ∷ readings at heads names
  ]

  abbrev pub advanced : ℕ → String → Option String → Chain → Advanced
  advanced at name head c =
      let heads = readings at (heads_dict c) (sorted (map (λ (key, h). key) (heads_dict c))) in
      record { chain = name; head_name = head; heads = heads; head = read_of head heads }
    where
      read_of : Option String → Dict String ℤ → Option ℤ
      read_of none heads = none
      read_of (some key) heads = Dict.get key heads

  abbrev pub after_check :
      ℕ
      → ℕ
      → ℕ
      → Dict String Json
      → Dict String Chain
      → Outcome (String × Chain × Option String)
      → Outcome Advanced × Dict String Chain
  after_check now later at body chains (refused status) = (refused status, chains)
  after_check now later at body chains (raised e) = (raised e, chains)
  after_check now later at body chains (done (name, c, head)) =
      let moved = move_named now later body head c in
      (done (advanced at name head moved), Dict.put name moved chains)

  unfoldable pub advance :
      ℕ → ℕ → ℕ → Json → Dict String Chain → Outcome Advanced × Dict String Chain
  advance now later at (obj body) chains =
      after_check now later at (fields body) chains (check_advance floats chains (fields body))
  advance now later at body chains = (refused 400, chains)
