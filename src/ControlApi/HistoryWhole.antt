-- ===== src/ControlApi/HistoryWhole.antt =====
-- provider_simulator/control_api.py: the rows that GET /history has to show.
use provider_simulator.Base.{
  ℕ, zero, suc, ◌+◌, ◌-◌, ◌≡◌, refl, sym, ap, ◌∙◌, ◌⊎◌, String, Bool, true, Bool-cases, List, [],
  ◌∷◌, ◌++◌, map, Option, none, some, Option-cases, inl, inr, select, drop, length, ltb, get_elem?,
  eq_iff, ◌==◌, arith,
}
use provider_simulator.Base.Dict
use provider_simulator.Base.Dict.{Dict, string_key}
use provider_simulator.Base.Int.{ℤ, pos, negsuc}
use provider_simulator.ControlApi.{Outcome, done, refused, raised}
use provider_simulator.ControlApi.History.{
  Reader, Entry, Group, passes, insert_row, sort_rows, matches, read_logs, chosen_providers,
  has_bad_length, in_window, find_group, number, keep_read, keep_last, cap_read, cap_max,
  get_history,
}
use provider_simulator.ControlApi.HistoryRows.{Agrees}
use provider_simulator.Domain.CallLog.{Row, read_rows, get_history as log_history}
use provider_simulator.Domain.Provider.{Provider}
use provider_simulator.Domain.Registry.{Registry, all_providers}

-- An item of a list.
abbrev pub Has : {A : Type 0} → A → List A → Type 0
Has x [] = ⊥
Has x (y ∷ ys) = (y ≡ x) ⊎ Has x ys

Has-left : {A : Type 0} (x : A) (xs ys : List A) → Has x xs → Has x (xs ++ ys)
Has-left x [] ys h = absurd h
Has-left x (y ∷ xs) ys (inl same) = inl same
Has-left x (y ∷ xs) ys (inr h) = inr (Has-left x xs ys h)

Has-right : {A : Type 0} (x : A) (xs ys : List A) → Has x ys → Has x (xs ++ ys)
Has-right x [] ys h = h
Has-right x (y ∷ xs) ys h = inr (Has-right x xs ys h)

select-Has :
    {A : Type 0} (test : A → Bool) (x : A) (xs : List A)
    → test x ≡ true
    → Has x xs
    → Has x (select test xs)
select-Has test x [] passing h = absurd h
select-Has test x (y ∷ ys) passing (inl same) =
    let kept : test y ≡ true = rw same passing in rw kept (inl same)
select-Has test x (y ∷ ys) passing (inr h) = elim (Bool-cases (test y)) [
  | inl kept ↦ rw kept (inr (select-Has test x ys passing h))
  | inr gone ↦ rw gone (select-Has test x ys passing h)
]

insert_row-Has_self : (r : Row) (rows : List Row) → Has r (insert_row r rows)
unfolding insert_row
insert_row-Has_self r [] = inl refl
insert_row-Has_self r (s ∷ rest) = elim (Bool-cases (ltb s.ts r.ts)) [
  | inl later ↦ rw later (inr (insert_row-Has_self r rest))
  | inr sooner ↦ rw sooner (inl refl)
]

insert_row-Has : (x r : Row) (rows : List Row) → Has x rows → Has x (insert_row r rows)
unfolding insert_row
insert_row-Has x r [] h = absurd h
insert_row-Has x r (s ∷ rest) h = elim (Bool-cases (ltb s.ts r.ts)) [
  | inl later ↦
      rw later (elim h [ inl same ↦ inl same | inr h' ↦ inr (insert_row-Has x r rest h') ])
  | inr sooner ↦ rw sooner (inr h)
]

sort_rows-Has : (x : Row) (rows : List Row) → Has x rows → Has x (sort_rows rows)
unfolding sort_rows
sort_rows-Has x [] h = absurd h
sort_rows-Has x (r ∷ rest) (inl same) = rw same (insert_row-Has_self x (sort_rows rest))
sort_rows-Has x (r ∷ rest) (inr h) = insert_row-Has x r (sort_rows rest) (sort_rows-Has x rest h)

read_rows-Has :
    (test : Row → Bool) (rows : List Row) (handles : List ℕ) (handle : ℕ) (row : Row)
    → get_elem? rows handle ≡ some row
    → test row ≡ true
    → Has handle handles
    → Has row (read_rows test rows handles)
unfolding read_rows
read_rows-Has test rows [] handle row there passing h = absurd h
read_rows-Has test rows (first ∷ rest) handle row there passing (inl same) =
    let here : get_elem? rows first ≡ some row = rw same there in
    rw (read_rows, here, passing) (inl refl)
read_rows-Has test rows (first ∷ rest) handle row there passing (inr h) =
    let later = read_rows-Has test rows rest handle row there passing h in
    elim (Option-cases (get_elem? rows first)) [
      | inl missing ↦ rw (read_rows, missing) later
      | inr (other, found) ↦
          rw (read_rows, found)
            (elim (Bool-cases (test other)) [
              | inl kept ↦ rw kept (inr later)
              | inr gone ↦ rw gone later
            ])
    ]

Agrees-text :
    (o : Option String) (value : String)
    → Agrees o value
    → (elim o [ none ↦ true | some wanted ↦ value == wanted ]) ≡ true
Agrees-text none value h = refl
Agrees-text (some wanted) value h = (eq_iff value wanted).1 h

Agrees-passes :
    (name value : String) (query : Dict String String)
    → Agrees (Dict.get name query) value
    → passes name query (λ wanted. value == wanted) ≡ true
Agrees-passes name value query h = Agrees-text (Dict.get name query) value h

-- A list is the end of another.
pub data IsEnd {A : Type 0} (xs : List A) : List A → Type 0 where
  whole : IsEnd xs xs
  older : {y : A} {ys : List A} → IsEnd xs ys → IsEnd xs (y ∷ ys)

drop-IsEnd : {A : Type 0} (n : ℕ) (xs : List A) → IsEnd (drop n xs) xs
drop-IsEnd zero xs = whole
drop-IsEnd (suc n) [] = whole
drop-IsEnd (suc n) (x ∷ xs) = older (drop-IsEnd n xs)

nil-IsEnd : {A : Type 0} (xs : List A) → IsEnd [] xs
nil-IsEnd [] = whole
nil-IsEnd (x ∷ xs) = older (nil-IsEnd xs)

IsEnd-trans : {A : Type 0} {xs ys zs : List A} → IsEnd xs ys → IsEnd ys zs → IsEnd xs zs
IsEnd-trans h whole = h
IsEnd-trans h (older k) = older (IsEnd-trans h k)

module _ (reader : Reader) where
  rows-number :
      (order last_group : ℕ) (groups : List Group) (rows : List Row)
      → map (λ e. e.row) (number reader order last_group groups rows) ≡ rows
  unfolding number
  rows-number order last_group groups [] = refl
  rows-number order last_group groups (r ∷ rest) =
      let new_group : Group = record {
        id = r.request_id;
        method = r.method;
        number = last_group + 1;
        since = r.ts;
      } in
      elim (Option-cases (in_window reader r (find_group reader r groups))) [
        | inl new ↦
            rw (number, new)
              (ap (λ rs. r ∷ rs)
                (rows-number (order + 1) (last_group + 1) (new_group ∷ groups) rest))
        | inr (group, old) ↦
            rw (number, old) (ap (λ rs. r ∷ rs) (rows-number (order + 1) last_group groups rest))
      ]

  read_logs-Has :
      (query : Dict String String) (providers : List Provider) (p : Provider) (row : Row)
      → Has row (log_history p.log (matches reader query))
      → Has p providers
      → Has row (read_logs reader query providers)
  unfolding read_logs
  read_logs-Has query [] p row shown h = absurd h
  read_logs-Has query (q ∷ rest) p row shown (inl same) =
      Has-left row (log_history q.log (matches reader query)) (read_logs reader query rest)
        (rw same shown)
  read_logs-Has query (q ∷ rest) p row shown (inr h) =
      Has-right row (log_history q.log (matches reader query)) (read_logs reader query rest)
        (read_logs-Has query rest p row shown h)

  module _ (query : Dict String String) (reg : Registry) where
    -- A row that the history of a provider holds, of the pool and the id that the query names, if it
    -- names one, and that passes the tests of the query.
    abbrev pub IsShown : Row → Type 0
    IsShown row =
        (p : Provider) × Has p (all_providers reg)
        × Agrees (Dict.get "pool" query) p.pool
        × Agrees (Dict.get "pid" query) p.pid
        × ((handle : ℕ) × Has handle p.log.history × (get_elem? p.log.rows handle ≡ some row))
        × (matches reader query row ≡ true)

    abbrev rows_shown : List Row
    rows_shown = read_logs reader query (chosen_providers reader reg query)

    rows_shown-Has : (row : Row) → IsShown row → Has row rows_shown
    unfolding chosen_providers log_history
    rows_shown-Has row (p, there, pool, pid, (handle, held, read), matched) =
        read_logs-Has query (chosen_providers reader reg query) p row
          (read_rows-Has (matches reader query) p.log.rows p.log.history handle row read matched
            held)
          (select-Has _ p (all_providers reg)
            (ground
              (arith, Agrees-passes "pool" p.pool query pool, Agrees-passes "pid" p.pid query pid))
            there)

    -- Every row that is to be shown is there.
    abbrev pub IsWhole : List Entry → Type 0
    IsWhole entries = (row : Row) → IsShown row → Has row (map (λ e. e.row) entries)

    abbrev all_entries : List Entry
    all_entries = number reader 1 0 [] (sort_rows rows_shown)

    all_entries-IsWhole : IsWhole all_entries
    all_entries-IsWhole row shown =
        rw (rows-number 1 0 [] (sort_rows rows_shown))
          (sort_rows-Has row rows_shown (rows_shown-Has row shown))

    -- The newest entries of a whole history, and all of them where the query gives neither `last` nor
    -- `max`.
    abbrev pub IsPart : List Entry → Type 0
    IsPart entries =
        (all : List Entry) × IsWhole all
        × IsEnd entries all
        × (Dict.get "last" query ≡ none → Dict.get "max" query ≡ none → entries ≡ all)

    abbrev pub IsPartAnswer : Outcome (List Entry) → Type 0
    IsPartAnswer (done entries) = IsPart entries
    IsPartAnswer (refused status) = Unit
    IsPartAnswer (raised e) = Unit

    keep_last-IsEnd :
        (o : Option String) (entries : List Entry) → IsEnd (keep_last reader o entries) entries
    keep_last-IsEnd none entries = whole
    keep_last-IsEnd (some wanted) entries = kept (reader.read_int wanted)
      where
        kept : (n : Option ℤ) → IsEnd (keep_read reader n entries) entries
        kept none = whole
        kept (some (pos n)) = drop-IsEnd (length entries - n) entries
        kept (some (negsuc n)) = nil-IsEnd entries

    cap_max-IsPartAnswer :
        (wanted last : Option String) (all : List Entry)
        → Dict.get "max" query ≡ wanted
        → Dict.get "last" query ≡ last
        → IsWhole all
        → IsPartAnswer (cap_max reader wanted (keep_last reader last all))
    cap_max-IsPartAnswer none none all no_max no_last is_whole = (all, is_whole, whole, λ a b. refl)
    cap_max-IsPartAnswer none (some text) all no_max has_last is_whole = (
      all,
      is_whole,
      keep_last-IsEnd (some text) all,
      λ a b. absurd (let no : none ≡ some text = sym a ∙ has_last in cc),
    )
    cap_max-IsPartAnswer (some wanted) last all has_max read is_whole =
        capped (reader.read_int wanted)
      where
        capped : (n : Option ℤ) → IsPartAnswer (cap_read reader n (keep_last reader last all))
        capped none = tt
        capped (some (negsuc n)) = tt
        capped (some (pos n)) =
            let kept = keep_last reader last all in
            (
              all,
              is_whole,
              IsEnd-trans (drop-IsEnd (length kept - n) kept) (keep_last-IsEnd last all),
              λ a b. absurd (let no : none ≡ some wanted = sym b ∙ has_max in cc),
            )

    pub get_history-IsPartAnswer : IsPartAnswer (get_history reader reg query)
    unfolding get_history
    get_history-IsPartAnswer = elim (Bool-cases (has_bad_length reader query)) [
      | inl bad ↦ rw bad tt
      | inr good ↦ rw good (
          cap_max-IsPartAnswer (Dict.get "max" query) (Dict.get "last" query) all_entries refl refl
            all_entries-IsWhole)
    ]
