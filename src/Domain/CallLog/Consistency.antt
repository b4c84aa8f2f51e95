-- ===== src/Domain/CallLog/Consistency.antt =====
-- provider_simulator/domain/call_log.py: the counters agree with the rows, and each operation
-- but `finalize` keeps that.
use provider_simulator.Base.{
  ℕ, ◌+◌, ◌≤◌, ◌<◌, ◌≡◌, ◌≢◌, refl, sym, String, Bool, ◌&&◌, Option, none, some, List, [], ◌∷◌,
  ◌++◌, arith, ◌==◌, length, count_if, All, count_if-append, length-append, All-append, All-imp,
}
use native.Mathlib.Nat.{le_refl}
use provider_simulator.Base.Deque
use provider_simulator.Base.Dict
use provider_simulator.Base.Dict.{Dict, string_key, get-put, get-remove, get_or-put, get_or-remove}
use provider_simulator.Domain.CallLog.{
  Row, CallLog, RequestId, Arrival, new_log, new_entry, append_row, record_arrival, push,
  is_generation, clear,
}
use provider_simulator.Domain.CallLog.Counters.{get_or-count_up, get-count_up}

-- The row counts under a status, in a generation.
abbrev pub is_counted : ℕ → String → Row → Bool
is_counted generation status row = is_generation generation row && (row.status == status)

-- The row was stamped, and not by a generation to come.
abbrev pub IsPast : ℕ → Row → Type 0
IsPast generation row = elim row.reset_gen [ none ↦ ⊥ | some g ↦ g ≤ generation ]

pub record IsConsistent (log : CallLog) : Type 0 where
  pub counts :
      (s : String)
      → Dict.get_or s 0 log.calls_by_status ≡ count_if (is_counted log.reset_generation s) log.rows
  pub no_zero : (s : String) → Dict.get s log.calls_by_status ≢ some 0
  pub total : log.total_calls ≡ count_if (is_generation log.reset_generation) log.rows
  pub bounded : length log.history ≤ log.history_max
  pub pointed : All (λ handle. handle < length log.rows) log.history
  pub past : All (IsPast log.reset_generation) log.rows

pub IsConsistent-new_log :
    (pool pid : String) (history_max : ℕ) (name : String)
    → IsConsistent (new_log pool pid history_max name)
unfolding new_log
IsConsistent-new_log pool pid history_max name = record {
  counts = λ s. refl;
  no_zero = λ s h. ground arith;
  total = refl;
  bounded = omega arith;
  pointed = tt;
  past = tt;
}

-- A stamped row keeps the invariant, whatever else it holds.
append_row-IsConsistent :
    (log : CallLog) (entry : Row) → IsConsistent log → IsConsistent (append_row log entry).0
unfolding append_row
append_row-IsConsistent log entry h =
    let stamped : Row = record entry { reset_gen = some log.reset_generation } in
    record {
      counts = λ s. ground (
        arith,
        get_or-count_up entry.status s log.calls_by_status,
        h.counts s,
        count_if-append (is_counted log.reset_generation s) log.rows (stamped ∷ []),
      );
      no_zero = λ s. get-count_up entry.status s log.calls_by_status (h.no_zero s);
      total =
          ground
            (arith, count_if-append (is_generation log.reset_generation) log.rows (stamped ∷ []));
      bounded = Deque.length-append_bounded log.history_max log.history (length log.rows) h.bounded;
      pointed =
          let longer : length (log.rows ++ stamped ∷ []) ≡ length log.rows + 1 =
            length-append log.rows (stamped ∷ []) in
          Deque.append-All (λ i. i < length (log.rows ++ stamped ∷ [])) log.history_max log.history
            (length log.rows)
            (All-imp (λ i. i < length log.rows) (λ i. i < length (log.rows ++ stamped ∷ []))
              (λ i room. omega arith) log.history h.pointed)
            (omega arith);
      past =
          All-append (IsPast log.reset_generation) log.rows (stamped ∷ []) h.past (le_refl _, tt);
    }

pub record_arrival-IsConsistent :
    (log : CallLog) (now : ℕ) (a : Arrival)
    → IsConsistent log
    → IsConsistent (record_arrival log now a).0
unfolding record_arrival
record_arrival-IsConsistent log now a h =
    append_row-IsConsistent log (new_entry log now a "*" "in_flight" 0 none) h

pub push-IsConsistent :
    (log : CallLog) (now : ℕ) (a : Arrival) (method status : String) (latency_ms : ℕ)
    (request_id : Option RequestId)
    → IsConsistent log
    → IsConsistent (push log now a method status latency_ms request_id).0
unfolding push
push-IsConsistent log now a method status latency_ms request_id h =
    append_row-IsConsistent log
      (new_entry log now (record a { deadline_remaining_ms = none }) method status latency_ms
        request_id)
      h

-- No row is counted before its generation has come.
is_generation_ahead :
    (generation : ℕ) (rows : List Row)
    → All (IsPast generation) rows
    → count_if (is_generation (generation + 1)) rows ≡ 0
is_generation_ahead generation [] h = refl
is_generation_ahead generation (row ∷ rows) h =
    ground (arith, is_generation_ahead generation rows h.1)

is_counted_ahead :
    (generation : ℕ) (s : String) (rows : List Row)
    → All (IsPast generation) rows
    → count_if (is_counted (generation + 1) s) rows ≡ 0
is_counted_ahead generation s [] h = refl
is_counted_ahead generation s (row ∷ rows) h =
    ground (arith, is_counted_ahead generation s rows h.1)

pub clear-IsConsistent : (log : CallLog) → IsConsistent log → IsConsistent (clear log)
unfolding clear
clear-IsConsistent log h = record {
  counts = λ s. sym (is_counted_ahead log.reset_generation s log.rows h.past);
  no_zero = λ s e. ground arith;
  total = sym (is_generation_ahead log.reset_generation log.rows h.past);
  bounded = omega arith;
  pointed = tt;
  past =
      All-imp (IsPast log.reset_generation) (IsPast (log.reset_generation + 1))
        (λ row p. ground arith) log.rows h.past;
}
