-- ===== src/ControlApi/History.antt =====
-- provider_simulator/control_api.py: GET /history. The query is the texts that the request gives. What
-- Python reads from a text, and how it compares the ids of requests, are parameters; so is the window
-- of a correlation, in the units of the time stamps. The decoding of the headers is left out.
use provider_simulator.Base.{
  ℕ, ◌+◌, ◌-◌, String, Bool, true, false, not, ◌&&◌, List, [], ◌∷◌, ◌++◌, Option, none, some, all,
  any, select, drop, length, ltb, leb, nat_eq, ◌==◌, if◌then◌else◌,
}
use provider_simulator.Base.Dict
use provider_simulator.Base.Dict.{Dict, string_key}
use provider_simulator.Base.Int.{ℤ, pos, negsuc}
use provider_simulator.ControlApi.{Outcome, done, refused}
use provider_simulator.Domain.CallLog.{Row, RequestId, get_history as log_history}
use provider_simulator.Domain.Provider.{Provider}
use provider_simulator.Domain.Registry.{Registry, all_providers}

-- int(), str.lower, str() of a request id, two ids as one key, the tests `ts >= from` and `ts <= to`,
-- and the names of the headers that a query asks for with their values.
pub record Reader : Type 0 where
  pub read_int : String → Option ℤ
  pub lower : String → String
  pub show_id : Option RequestId → String
  pub same_id : Option RequestId → Option RequestId → Bool
  pub is_from : String → ℕ → Bool
  pub is_to : String → ℕ → Bool
  pub asked_headers : Dict String String → List (String × String)
  pub window : ℕ

-- A filter that the query does not give lets every row pass.
abbrev pub passes : String → Dict String String → (String → Bool) → Bool
passes name query test = elim (Dict.get name query) [ none ↦ true | some wanted ↦ test wanted ]

abbrev pub text_or_none : Option String → String → Bool
text_or_none none wanted = false
text_or_none (some t) wanted = t == wanted

abbrev pub equals_int : Option ℕ → Option ℤ → Bool
equals_int (some n) (some (pos k)) = nat_eq n k
equals_int _ _ = false

-- One row of the answer.
pub record Entry : Type 0 where
  pub row : Row
  pub call_order : ℕ
  pub correlation_group : ℕ

-- The last group of an id and a method, and the time of its first call.
pub record Group : Type 0 where
  pub id : Option RequestId
  pub method : String
  pub number : ℕ
  pub since : ℕ

-- entries.sort(key=ts), which keeps the order of equal times
unfoldable pub insert_row : Row → List Row → List Row
insert_row r [] = r ∷ []
insert_row r (s ∷ rest) =
    let later = insert_row r rest in if ltb s.ts r.ts then s ∷ later else r ∷ s ∷ rest

unfoldable pub sort_rows : List Row → List Row
unfolding insert_row
sort_rows [] = []
sort_rows (r ∷ rest) = insert_row r (sort_rows rest)

-- entries[-n:], and nothing for n = 0
abbrev pub newest {ℓ} : {A : Type ℓ} → ℕ → List A → List A
newest n xs = drop (length xs - n) xs

module _ (reader : Reader) where
  -- _history_row_filter, as one test of a row
  unfoldable pub matches : Dict String String → Row → Bool
  matches query row =
      passes "transport" query (λ wanted. row.transport == wanted)
      && passes "method" query (λ wanted. row.method == wanted)
      && passes "status" query (λ wanted. row.status == wanted)
      && passes "interface" query (λ wanted. row.interface == wanted)
      && passes "request_id" query (λ wanted. reader.show_id row.request_id == wanted)
      && passes "body_sha256" query (λ wanted. text_or_none row.body_sha256 (reader.lower wanted))
      && passes "body_len" query (λ wanted. equals_int row.body_len (reader.read_int wanted))
      && passes "from" query (λ wanted. reader.is_from wanted row.ts)
      && passes "to" query (λ wanted. reader.is_to wanted row.ts)
      && all
          (λ (name, value).
            any (λ (header, header_value). reader.lower header == name && header_value == value)
              row.lava_headers)
          (reader.asked_headers query)

  -- A length that is no whole number is refused.
  unfoldable pub has_bad_length : Dict String String → Bool
  has_bad_length query = not (passes "body_len" query (λ wanted. is_read (reader.read_int wanted)))
    where
      is_read : Option ℤ → Bool
      is_read none = false
      is_read (some n) = true

  unfoldable pub chosen_providers : Registry → Dict String String → List Provider
  chosen_providers reg query =
      select
        (λ p.
          passes "pool" query (λ wanted. p.pool == wanted)
          && passes "pid" query (λ wanted. p.pid == wanted))
        (all_providers reg)

  unfoldable pub read_logs : Dict String String → List Provider → List Row
  unfolding matches
  read_logs query [] = []
  read_logs query (p ∷ rest) = log_history p.log (matches query) ++ read_logs query rest

  unfoldable pub find_group : Row → List Group → Option Group
  find_group row [] = none
  find_group row (g ∷ groups) =
      let later = find_group row groups in
      if reader.same_id g.id row.request_id && g.method == row.method then some g else later

  -- The newest group of a key is the first one, so a new one goes to the front.
  abbrev pub in_window : Row → Option Group → Option ℕ
  in_window row none = none
  in_window row (some g) = if leb row.ts (g.since + reader.window) then some g.number else none

  -- Each row gets its place in the whole history, and its group: the one of its key when that began
  -- within the window, else a new one.
  unfoldable pub number : ℕ → ℕ → List Group → List Row → List Entry
  unfolding find_group
  number order last_group groups [] = []
  number order last_group groups (row ∷ rest) = elim (in_window row (find_group row groups)) [
    | some group ↦
        record { row = row; call_order = order; correlation_group = group }
        ∷ number (order + 1) last_group groups rest
    | none ↦
        record { row = row; call_order = order; correlation_group = last_group + 1 }
        ∷ number (order + 1) (last_group + 1)
            (record {
              id = row.request_id;
              method = row.method;
              number = last_group + 1;
              since = row.ts;
            }
              ∷ groups)
            rest
  ]

  -- The `last` of the query: a text that is no number keeps everything.
  abbrev pub keep_read : Option ℤ → List Entry → List Entry
  keep_read none entries = entries
  keep_read (some (pos n)) entries = newest n entries
  keep_read (some (negsuc n)) entries = []

  abbrev pub keep_last : Option String → List Entry → List Entry
  keep_last none entries = entries
  keep_last (some wanted) entries = keep_read (reader.read_int wanted) entries

  -- The `max` of the query: a text that is no number, or a number below zero, is refused.
  abbrev pub cap_read : Option ℤ → List Entry → Outcome (List Entry)
  cap_read (some (pos n)) entries = done (newest n entries)
  cap_read _ entries = refused 400

  abbrev pub cap_max : Option String → List Entry → Outcome (List Entry)
  cap_max none entries = done entries
  cap_max (some wanted) entries = cap_read (reader.read_int wanted) entries

  unfoldable pub get_history : Registry → Dict String String → Outcome (List Entry)
  unfolding sort_rows number read_logs
  get_history reg query =
      if has_bad_length query
      then refused 400
      else cap_max (Dict.get "max" query) (
          keep_last (Dict.get "last" query)
            (number 1 0 [] (sort_rows (read_logs query (chosen_providers reg query)))))
