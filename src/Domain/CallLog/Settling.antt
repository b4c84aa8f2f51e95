-- ===== src/Domain/CallLog/Settling.antt =====
-- provider_simulator/domain/call_log.py: `finalize` and the writes to one row keep the counters
-- in agreement with the rows.
use provider_simulator.Base.{
  ℕ, ◌<◌, ◌≡◌, refl, String, true, false, Option, some, arith, ◌==◌, eq_iff, length, set, get_elem?,
  All, inl, inr, Option-cases, Bool-cases, count_if-set, length-set, All-set, All-imp, All_at,
  get_elem?-lt,
}
use native.Mathlib.Nat.{le_refl}
use provider_simulator.Base.Deque
use provider_simulator.Base.Dict.{string_key}
use provider_simulator.Domain.CallLog.{
  Row, CallLog, RequestId, count_up, count_down, is_generation, or_kept, rejoin, settle,
  finalize_row, finalize, edit_row,
}
use provider_simulator.Domain.CallLog.Counters.{
  get_or-count_up, get-count_up, get_or-count_down, get-count_down,
}
use provider_simulator.Domain.CallLog.Consistency.{is_counted, IsPast, IsConsistent}

-- The row that a handle finds, and the row as `finalize` writes its other fields.
module _ (log : CallLog) (handle : ℕ) (old entry : Row) (status : String)
    (found : get_elem? log.rows handle ≡ some old) (same_status : entry.status ≡ old.status)
    (same_generation : entry.reset_gen ≡ old.reset_gen) (h : IsConsistent log) where
  write-pointed : (row : Row) → All (λ i. i < length (set log.rows handle row)) log.history
  write-pointed row =
      All-imp (λ i. i < length log.rows) (λ i. i < length (set log.rows handle row))
        (λ i room. omega (arith, length-set log.rows handle row)) log.history h.pointed

  settle_same-IsConsistent : IsConsistent (record log { rows = set log.rows handle entry })
  settle_same-IsConsistent = record {
    counts = λ s. ground (
      arith,
      h.counts s,
      count_if-set (is_counted log.reset_generation s) log.rows handle old entry found,
    );
    no_zero = h.no_zero;
    total =
        ground (
          arith,
          count_if-set (is_generation log.reset_generation) log.rows handle old entry found,
        );
    bounded = h.bounded;
    pointed = write-pointed entry;
    past = All-set (IsPast log.reset_generation) log.rows handle entry h.past (
        rw same_generation (All_at (IsPast log.reset_generation) log.rows handle old h.past found));
  }

  -- The row takes another status in its own generation.
  moved : Row
  moved = record entry { status = status }

  settle_moved-IsConsistent :
      is_generation log.reset_generation entry ≡ true
      → (entry.status == status) ≡ false
      → IsConsistent (record log {
        rows = set log.rows handle (record entry { status = status });
        calls_by_status = count_up status (count_down entry.status log.calls_by_status);
      })
  unfolding moved
  settle_moved-IsConsistent current other = record {
    counts = λ s. ground (
      arith,
      h.counts s,
      h.counts entry.status,
      get_or-count_up status s (count_down entry.status log.calls_by_status),
      get_or-count_down entry.status s log.calls_by_status,
      count_if-set (is_counted log.reset_generation s) log.rows handle old moved found,
      eq_iff entry.status status,
      eq_iff entry.status s,
      eq_iff status s,
    );
    no_zero = λ s.
        get-count_up status s (count_down entry.status log.calls_by_status)
          (get-count_down entry.status s log.calls_by_status (h.no_zero s));
    total =
        ground (
          arith,
          count_if-set (is_generation log.reset_generation) log.rows handle old moved found,
        );
    bounded = h.bounded;
    pointed = write-pointed moved;
    past = All-set (IsPast log.reset_generation) log.rows handle moved h.past (
        rw same_generation (All_at (IsPast log.reset_generation) log.rows handle old h.past found));
  }

  settle-IsConsistent :
      is_generation log.reset_generation entry ≡ true
      → IsConsistent (settle log handle entry status)
  unfolding settle
  settle-IsConsistent current = elim (Bool-cases (entry.status == status)) [
    | inl same ↦ rw same settle_same-IsConsistent
    | inr other ↦ rw other (settle_moved-IsConsistent current other)
  ]

  -- The row is stamped with the generation of now.
  restamped : ℕ → Row
  restamped now = record entry { ts = now; status = status; reset_gen = some log.reset_generation }

  rejoin-IsConsistent :
      (now : ℕ)
      → is_generation log.reset_generation entry ≡ false
      → IsConsistent (rejoin log now handle entry status)
  unfolding rejoin restamped
  rejoin-IsConsistent now stale = record {
    counts = λ s. ground (
      arith,
      h.counts s,
      get_or-count_up status s log.calls_by_status,
      count_if-set (is_counted log.reset_generation s) log.rows handle old (restamped now) found,
    );
    no_zero = λ s. get-count_up status s log.calls_by_status (h.no_zero s);
    total = ground (
      arith,
      count_if-set (is_generation log.reset_generation) log.rows handle old (restamped now) found,
    );
    bounded = Deque.length-append_bounded log.history_max log.history handle h.bounded;
    pointed =
        Deque.append-All (λ i. i < length (set log.rows handle (restamped now))) log.history_max
          log.history handle (write-pointed (restamped now))
          (rw (length-set log.rows handle (restamped now))
            (get_elem?-lt log.rows handle old found));
    past = All-set (IsPast log.reset_generation) log.rows handle (restamped now) h.past (le_refl _);
  }

pub finalize-IsConsistent :
    (log : CallLog) (now handle : ℕ) (method status : String) (latency_ms : ℕ)
    (request_id : Option RequestId)
    → IsConsistent log
    → IsConsistent (finalize log now handle method status latency_ms request_id)
unfolding finalize finalize_row
finalize-IsConsistent log now handle method status latency_ms request_id h =
    elim (Option-cases (get_elem? log.rows handle)) [
      | inl missing ↦ rw (missing, finalize) h
      | inr (old, found) ↦
          let entry : Row = record old {
            method = method;
            latency_ms = latency_ms;
            request_id = or_kept request_id old.request_id;
          } in
          rw (found, finalize)
            (elim (Bool-cases (is_generation log.reset_generation entry)) [
              | inl current ↦
                  rw (current, finalize_row)
                    (settle-IsConsistent log handle old entry status found refl refl h current)
              | inr stale ↦
                  rw (stale, finalize_row)
                    (rejoin-IsConsistent log handle old entry status found refl refl h now stale)
            ])
    ]

-- A write that leaves the status and the generation of a row alone.
pub edit_row-IsConsistent :
    (log : CallLog) (handle : ℕ) (f : Row → Row)
    → ((row : Row) → (f row).status ≡ row.status)
    → ((row : Row) → (f row).reset_gen ≡ row.reset_gen)
    → IsConsistent log
    → IsConsistent (edit_row log handle f)
unfolding edit_row
edit_row-IsConsistent log handle f same_status same_generation h =
    elim (Option-cases (get_elem? log.rows handle)) [
      | inl missing ↦ rw (missing, edit_row) h
      | inr (old, found) ↦
          rw (found, edit_row)
            (settle_same-IsConsistent log handle old (f old) (f old).status found (same_status old)
              (same_generation old) h)
    ]
