-- ===== src/Domain/CallLog/Window.antt =====
-- provider_simulator/domain/call_log.py: what the ring buffer holds after a run of arrivals.
use mathlib.Core.List.{append-nil, append_assoc, map-append}
use provider_simulator.Base.{
  String, ℕ, zero, suc, ◌+◌, ◌-◌, ◌≡◌, ◌<◌, refl, sym, ap, ◌∙◌, true, none, some, List, [], ◌∷◌,
  ◌++◌, map, arith, length, drop, get_elem?, length-append,
}
use provider_simulator.Base.Deque
use provider_simulator.Domain.CallLog.{
  Row, CallLog, Arrival, new_log, new_entry, append_row, record_arrival, read_rows, get_history,
}

-- Requests that arrive one after the other, each at its time.
unfoldable pub arrivals : CallLog → List (ℕ × Arrival) → CallLog
arrivals log [] = log
arrivals log ((now, a) ∷ rest) = arrivals (record_arrival log now a).0 rest

-- The row of one arrival, as it stands in the history.
unfoldable pub arrival_row : CallLog → ℕ × Arrival → Row
arrival_row log (now, a) = record (new_entry log now a "*" "in_flight" 0 none) {
  reset_gen = some log.reset_generation;
}

-- The numbers from `i`, `n` of them.
abbrev range_from : ℕ → ℕ → List ℕ
range_from i zero = []
range_from i (suc n) = i ∷ range_from (suc i) n

range_from_eq : (i j n m : ℕ) → i ≡ j → n ≡ m → range_from i n ≡ range_from j m
range_from_eq i j n m p q = cc

drop-range_from : (k i n : ℕ) → drop k (range_from i n) ≡ range_from (i + k) (n - k)
drop-range_from zero i n = range_from_eq i (i + 0) n (n - 0) (omega arith) (omega arith)
drop-range_from (suc k) i zero =
    range_from_eq (i + suc k) (i + suc k) 0 (0 - suc k) refl (omega arith)
drop-range_from (suc k) i (suc n) =
    drop-range_from k (suc i) n
    ∙ range_from_eq (suc i + k) (i + suc k) (n - k) (suc n - suc k) (omega arith) (omega arith)

length-range_from : (i n : ℕ) → length (range_from i n) ≡ n
length-range_from i zero = refl
length-range_from i (suc n) = ap suc (length-range_from (suc i) n)

range_from-suc : (i n : ℕ) → range_from i n ++ (i + n) ∷ [] ≡ range_from i (n + 1)
range_from-suc i zero =
    let same : i + 0 ≡ i = omega arith in rw same (range_from_eq i i 1 (0 + 1) refl (omega arith))
range_from-suc i (suc n) =
    let shift : i + suc n ≡ suc i + n = omega arith in
    rw shift (
      ap (λ (l : List ℕ). i ∷ l) (range_from-suc (suc i) n)
      ∙ range_from_eq i i (suc (n + 1)) (suc n + 1) refl (omega arith))

drop_all : (rows : List Row) (k : ℕ) → k ≡ length rows → drop k rows ≡ []
drop_all [] zero h = refl
drop_all [] (suc k) h = refl
drop_all (row ∷ rows) zero h = absurd (omega arith)
drop_all (row ∷ rows) (suc k) h = drop_all rows k (omega arith)

drop_at :
    (rows : List Row) (k : ℕ)
    → k < length rows
    → (row : Row) × (get_elem? rows k ≡ some row) × (drop k rows ≡ row ∷ drop (suc k) rows)
drop_at [] k h = elim h [ ]
drop_at (row ∷ rows) zero h = (row, refl, refl)
drop_at (row ∷ rows) (suc k) h = drop_at rows k (omega arith)

-- To read the handles from `k` on is to read the rows from `k` on.
read_rows-range :
    (rows : List Row) (k n : ℕ)
    → k + n ≡ length rows
    → read_rows (λ _. true) rows (range_from k n) ≡ drop k rows
unfolding read_rows
read_rows-range rows k zero h = sym (drop_all rows k (omega arith))
read_rows-range rows k (suc n) h =
    let (row, found, split) = drop_at rows k (omega arith) in
    rw (split, read_rows, found)
      (ap (λ (l : List Row). row ∷ l) (read_rows-range rows (suc k) n (omega arith)))

-- After arrivals the store holds their rows, and the history the newest handles.
record Arrived (start log : CallLog) (came : List (ℕ × Arrival)) : Type 0 where
  rows : log.rows ≡ map (arrival_row start) came
  history : log.history ≡ Deque.newest start.history_max (range_from 0 (length came))
  history_max : log.history_max ≡ start.history_max
  generation : log.reset_generation ≡ start.reset_generation
  pool : log.pool ≡ start.pool
  pid : log.pid ≡ start.pid
  name : log.name ≡ start.name

length-map_rows :
    (start : CallLog) (came : List (ℕ × Arrival))
    → length (map (arrival_row start) came) ≡ length came
length-map_rows start [] = refl
length-map_rows start (x ∷ came) = ap suc (length-map_rows start came)

arrival_row_eq :
    (start log : CallLog) (now : ℕ) (a : Arrival)
    → log.reset_generation ≡ start.reset_generation
    → log.pool ≡ start.pool
    → log.pid ≡ start.pid
    → log.name ≡ start.name
    → arrival_row log (now, a) ≡ arrival_row start (now, a)
unfolding arrival_row new_entry
arrival_row_eq start log now a g p i n = ground arith

Arrived-step :
    (start log : CallLog) (came : List (ℕ × Arrival)) (now : ℕ) (a : Arrival)
    → Arrived start log came
    → Arrived start (record_arrival log now a).0 (came ++ (now, a) ∷ [])
unfolding record_arrival append_row arrival_row new_entry
Arrived-step start log came now a h = record {
  rows =
      rw (map-append, h.rows)
        (ap (λ (row : Row). map (arrival_row start) came ++ row ∷ [])
          (arrival_row_eq start log now a h.generation h.pool h.pid h.name));
  history =
      let stored : length log.rows ≡ 0 + length came =
        ap length h.rows ∙ length-map_rows start came ∙ omega arith in
      rw (h.history_max, h.history, stored)
        (Deque.append-newest start.history_max (range_from 0 (length came)) (0 + length came)
          ∙ ap (Deque.newest start.history_max) (
              range_from-suc 0 (length came)
              ∙ range_from_eq 0 0 (length came + 1) (length (came ++ (now, a) ∷ [])) refl
                  (sym (length-append came ((now, a) ∷ [])))));
  history_max = h.history_max;
  generation = h.generation;
  pool = h.pool;
  pid = h.pid;
  name = h.name;
}

Arrived-arrivals :
    (start log : CallLog) (came rest : List (ℕ × Arrival))
    → Arrived start log came
    → Arrived start (arrivals log rest) (came ++ rest)
unfolding arrivals
Arrived-arrivals start log came [] h = rw (append-nil came) h
Arrived-arrivals start log came ((now, a) ∷ rest) h =
    rw (append_assoc came ((now, a) ∷ []) rest) at (
      Arrived-arrivals start (record_arrival log now a).0 (came ++ (now, a) ∷ []) rest
        (Arrived-step start log came now a h))

-- A new log that saw only arrivals answers a read of its history with their rows, oldest first:
-- all of them while they fit, and the newest `history_max` of them when there were more.
pub get_history-arrivals :
    (pool pid : String) (history_max : ℕ) (name : String) (came : List (ℕ × Arrival))
    → get_history (arrivals (new_log pool pid history_max name) came) (λ _. true)
      ≡ Deque.newest history_max (map (arrival_row (new_log pool pid history_max name)) came)
unfolding get_history new_log
get_history-arrivals pool pid history_max name came =
    let start = new_log pool pid history_max name in
    let nothing : Arrived start start [] = record {
      rows = refl;
      history = sym (Deque.drop-nil (0 - history_max));
      history_max = refl;
      generation = refl;
      pool = refl;
      pid = refl;
      name = refl;
    } in
    let h = Arrived-arrivals start start [] came nothing in
    let rows = map (arrival_row start) came in
    let n = length came in
    let all : length rows ≡ n = length-map_rows start came in
    let kept : Deque.newest history_max (range_from 0 n)
        ≡ range_from (n - history_max) (n - (n - history_max)) =
      ap (λ (k : ℕ). drop (k - history_max) (range_from 0 n)) (length-range_from 0 n)
      ∙ drop-range_from (n - history_max) 0 n
      ∙ range_from_eq (0 + (n - history_max)) (n - history_max) (n - (n - history_max))
          (n - (n - history_max)) (omega arith) refl in
    rw (h.rows, h.history, kept)
      (read_rows-range rows (n - history_max) (n - (n - history_max)) (omega arith)
        ∙ ap (λ (k : ℕ). drop (k - history_max) rows) (sym all))
