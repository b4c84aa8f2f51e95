-- ===== src/ControlApi/HistoryRows.antt =====
-- provider_simulator/control_api.py: the rows that GET /history reads, and their sorting.
use provider_simulator.Base.{
  ℕ, suc, ◌+◌, ◌≤◌, ◌≡◌, refl, String, Bool, true, Bool-cases, List, [], ◌∷◌, Option, none, some,
  Option-cases, inl, inr, All, All-append, select, ltb, get_elem?, ◌==◌, eq_iff, arith,
}
use provider_simulator.Base.Dict
use provider_simulator.Base.Dict.{Dict, string_key}
use provider_simulator.ControlApi.History.{
  Reader, Entry, passes, insert_row, sort_rows, matches, chosen_providers, read_logs,
}
use provider_simulator.Domain.CallLog.{Row, read_rows, get_history as log_history}
use provider_simulator.Domain.Provider.{Provider}
use provider_simulator.Domain.Registry.{Registry, all_providers}

-- No row is older than the one before it.
abbrev pub IsSorted : List Row → Type 0
IsSorted [] = Unit
IsSorted (r ∷ []) = Unit
IsSorted (r ∷ s ∷ rest) = (r.ts ≤ s.ts) × IsSorted (s ∷ rest)

-- And the numbers of the rows follow each other.
abbrev pub IsOrdered : List Entry → Type 0
IsOrdered [] = Unit
IsOrdered (e ∷ []) = Unit
IsOrdered (e ∷ f ∷ rest) =
    (e.row.ts ≤ f.row.ts) × (f.call_order ≡ e.call_order + 1) × IsOrdered (f ∷ rest)

insert_row-IsSorted_after :
    (first r : Row) (rows : List Row)
    → first.ts ≤ r.ts
    → IsSorted (first ∷ rows)
    → IsSorted (first ∷ insert_row r rows)
unfolding insert_row
insert_row-IsSorted_after first r [] h sorted = (h, tt)
insert_row-IsSorted_after first r (s ∷ rest) h (h1, sorted) = elim (Bool-cases (ltb s.ts r.ts)) [
  | inl later ↦ rw later (h1, insert_row-IsSorted_after s r rest (ground arith) sorted)
  | inr sooner ↦ rw sooner (h, (ground arith, sorted))
]

insert_row-IsSorted : (r : Row) (rows : List Row) → IsSorted rows → IsSorted (insert_row r rows)
unfolding insert_row
insert_row-IsSorted r [] sorted = tt
insert_row-IsSorted r (s ∷ rest) sorted = elim (Bool-cases (ltb s.ts r.ts)) [
  | inl later ↦ rw later (insert_row-IsSorted_after s r rest (ground arith) sorted)
  | inr sooner ↦ rw sooner (ground arith, sorted)
]

pub sort_rows-IsSorted : (rows : List Row) → IsSorted (sort_rows rows)
unfolding sort_rows
sort_rows-IsSorted [] = tt
sort_rows-IsSorted (r ∷ rest) = insert_row-IsSorted r (sort_rows rest) (sort_rows-IsSorted rest)

insert_row-All :
    (P : Row → Type 0) (r : Row) (rows : List Row) → P r → All P rows → All P (insert_row r rows)
unfolding insert_row
insert_row-All P r [] h hs = (h, tt)
insert_row-All P r (s ∷ rest) h (h1, hs) = elim (Bool-cases (ltb s.ts r.ts)) [
  | inl later ↦ rw later (h1, insert_row-All P r rest h hs)
  | inr sooner ↦ rw sooner (h, (h1, hs))
]

pub sort_rows-All : (P : Row → Type 0) (rows : List Row) → All P rows → All P (sort_rows rows)
unfolding sort_rows
sort_rows-All P [] hs = tt
sort_rows-All P (r ∷ rest) (h, hs) = insert_row-All P r (sort_rows rest) h (sort_rows-All P rest hs)

-- What holds of every item that passes a test holds of all that are selected.
pub select-All :
    {A : Type 0} (P : A → Type 0) (test : A → Bool) (xs : List A)
    → ((i : ℕ) (x : A) → get_elem? xs i ≡ some x → test x ≡ true → P x)
    → All P (select test xs)
select-All P test [] h = tt
select-All P test (x ∷ xs) h =
    let rest = select-All P test xs (λ i y there passes. h (suc i) y there passes) in
    elim (Bool-cases (test x)) [
      | inl passes ↦ rw passes (h 0 x refl passes, rest)
      | inr fails ↦ rw fails rest
    ]

pub read_rows-All :
    (P : Row → Type 0) (test : Row → Bool) (rows : List Row) (handles : List ℕ)
    → ((handle : ℕ) (row : Row) → get_elem? rows handle ≡ some row → test row ≡ true → P row)
    → All P (read_rows test rows handles)
unfolding read_rows
read_rows-All P test rows [] h = tt
read_rows-All P test rows (handle ∷ rest) h =
    let later = read_rows-All P test rows rest h in
    elim (Option-cases (get_elem? rows handle)) [
      | inl missing ↦ rw (read_rows, missing) later
      | inr (row, there) ↦
          rw (read_rows, there)
            (elim (Bool-cases (test row)) [
              | inl passes ↦ rw passes (h handle row there passes, later)
              | inr fails ↦ rw fails later
            ])
    ]

-- What a query asks for under a name, if anything, is the value.
abbrev pub Agrees : Option String → String → Type 0
Agrees none value = Unit
Agrees (some wanted) value = value ≡ wanted

-- A row of the log of a provider of the registry, the provider of the pool and of the id that the
-- query names, if it names one.
abbrev pub IsRowOf : Registry → Dict String String → Row → Type 0
IsRowOf reg query row =
    (i : ℕ) × (p : Provider) × (get_elem? (all_providers reg) i ≡ some p)
    × Agrees (Dict.get "pool" query) p.pool
    × Agrees (Dict.get "pid" query) p.pid
    × ((handle : ℕ) × (get_elem? p.log.rows handle ≡ some row))

-- What a query asks of a row: its transport, method, status and interface, if the query names one, and
-- the other tests.
abbrev pub IsAsked : Reader → Dict String String → Row → Type 0
IsAsked reader query row =
    Agrees (Dict.get "transport" query) row.transport
    × Agrees (Dict.get "method" query) row.method
    × Agrees (Dict.get "status" query) row.status
    × Agrees (Dict.get "interface" query) row.interface
    × (matches reader query row ≡ true)

passes_text :
    (o : Option String) (value : String)
    → (elim o [ none ↦ true | some wanted ↦ value == wanted ]) ≡ true
    → Agrees o value
passes_text none value h = tt
passes_text (some wanted) value h = (eq_iff value wanted).0 h

passes-Agrees :
    (name value : String) (query : Dict String String)
    → passes name query (λ wanted. value == wanted) ≡ true
    → Agrees (Dict.get name query) value
passes-Agrees name value query h = passes_text (Dict.get name query) value h

matches-IsAsked :
    (reader : Reader) (query : Dict String String) (row : Row)
    → matches reader query row ≡ true
    → IsAsked reader query row
unfolding matches
matches-IsAsked reader query row h = (
  passes-Agrees "transport" row.transport query (ground (arith, h)),
  passes-Agrees "method" row.method query (ground (arith, h)),
  passes-Agrees "status" row.status query (ground (arith, h)),
  passes-Agrees "interface" row.interface query (ground (arith, h)),
  h,
)

module _ (reader : Reader) (query : Dict String String) (reg : Registry) where
  -- What a row of the answer is.
  abbrev pub IsAnswerRow : Row → Type 0
  IsAnswerRow row = IsRowOf reg query row × IsAsked reader query row

  read_logs-All :
      (P : Row → Type 0) (providers : List Provider)
      → All
          (λ p.
            (handle : ℕ) (row : Row)
            → get_elem? p.log.rows handle ≡ some row
            → matches reader query row ≡ true
            → P row)
          providers
      → All P (read_logs reader query providers)
  unfolding read_logs log_history
  read_logs-All P [] hs = tt
  read_logs-All P (p ∷ rest) (h, hs) =
      All-append P (log_history p.log (matches reader query)) (read_logs reader query rest)
        (read_rows-All P (matches reader query) p.log.rows p.log.history h)
        (read_logs-All P rest hs)

  pub read_logs-IsAnswerRow :
      All IsAnswerRow (read_logs reader query (chosen_providers reader reg query))
  unfolding chosen_providers
  read_logs-IsAnswerRow = read_logs-All IsAnswerRow (chosen_providers reader reg query) (
      select-All _ _ (all_providers reg) (λ i p there chosen handle row read matched. (
        (
          i,
          p,
          there,
          passes-Agrees "pool" p.pool query (ground (arith, chosen)),
          passes-Agrees "pid" p.pid query (ground (arith, chosen)),
          (handle, read),
        ),
        matches-IsAsked reader query row matched,
      )))
