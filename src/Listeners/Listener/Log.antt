-- ===== src/Listeners/Listener/Log.antt =====
-- provider_simulator/listeners/base.py: the row of a request that is still in flight.
use provider_simulator.Base.{
  ℕ, ◌+◌, ◌≡◌, ◌≢◌, refl, ◌∙◌, String, true, false, Option, none, some, arith, get_elem?,
  get_elem?-set_self, get_elem?-append_end, get_elem?-lt, ◌==◌, eq_iff, if◌then◌else◌,
}
use provider_simulator.Base.Dict
use provider_simulator.Base.Dict.{Dict, string_key}
use provider_simulator.Domain.CallLog.{
  Row, CallLog, RequestId, Arrival, new_entry, append_row, record_arrival, edit_row, record_body,
  record_path, count_up, count_down, is_generation, settle, finalize_row, finalize,
}
use provider_simulator.Domain.CallLog.Counters.{get_or-count_up, get_or-count_down}
use provider_simulator.Listeners.Listener.{Listener, note_body, note_path, note_request}

-- The row of the handle was written by this generation, and is in flight.
pub record IsOpen (log : CallLog) (handle : ℕ) : Type 0 where
  pub row : Row
  pub found : get_elem? log.rows handle ≡ some row
  pub in_flight : row.status ≡ "in_flight"
  pub current : row.reset_gen ≡ some log.reset_generation

-- The counters of two logs are the same.
pub record IsSame (log log' : CallLog) : Type 0 where
  pub calls : log'.calls_by_status ≡ log.calls_by_status
  pub total : log'.total_calls ≡ log.total_calls
  pub generation : log'.reset_generation ≡ log.reset_generation

pub IsSame-refl : (log : CallLog) → IsSame log log
IsSame-refl log = record { calls = refl; total = refl; generation = refl }

pub record_arrival-IsOpen :
    (log : CallLog) (now : ℕ) (a : Arrival)
    → IsOpen (record_arrival log now a).0 (record_arrival log now a).1
unfolding record_arrival append_row new_entry
record_arrival-IsOpen log now a = record {
  row = record (new_entry log now a "*" "in_flight" 0 none) {
    reset_gen = some log.reset_generation;
  };
  found = get_elem?-append_end log.rows _;
  in_flight = refl;
  current = refl;
}

edit_row-IsOpen :
    (log : CallLog) (handle : ℕ) (f : Row → Row)
    → ((row : Row) → (f row).status ≡ row.status)
    → ((row : Row) → (f row).reset_gen ≡ row.reset_gen)
    → IsOpen log handle
    → IsOpen (edit_row log handle f) handle × IsSame log (edit_row log handle f)
unfolding edit_row
edit_row-IsOpen log handle f status gen h =
    rw (h.found, edit_row)
      (
        record {
          row = f h.row;
          found =
              get_elem?-set_self log.rows handle (f h.row)
                (get_elem?-lt log.rows handle h.row h.found);
          in_flight = status h.row ∙ h.in_flight;
          current = gen h.row ∙ h.current;
        },
        record { calls = refl; total = refl; generation = refl },
      )

IsSame-trans : (a b c : CallLog) → IsSame a b → IsSame b c → IsSame a c
IsSame-trans a b c h k = record {
  calls = k.calls ∙ h.calls;
  total = k.total ∙ h.total;
  generation = k.generation ∙ h.generation;
}

note_body-IsOpen :
    (o : Option (ℕ × String)) (handle : ℕ) (log : CallLog)
    → IsOpen log handle
    → IsOpen (note_body o handle log) handle × IsSame log (note_body o handle log)
unfolding note_body record_body
note_body-IsOpen none handle log h = (h, IsSame-refl log)
note_body-IsOpen (some (n, digest)) handle log h =
    edit_row-IsOpen log handle
      (λ entry. record entry { body_len = some n; body_sha256 = some digest }) (λ row. refl)
      (λ row. refl) h

note_path-IsOpen :
    (o : Option String) (handle : ℕ) (log : CallLog)
    → IsOpen log handle
    → IsOpen (note_path o handle log) handle × IsSame log (note_path o handle log)
unfolding note_path record_path
note_path-IsOpen none handle log h = (h, IsSame-refl log)
note_path-IsOpen (some path) handle log h =
    edit_row-IsOpen log handle (λ entry. record entry { path = some path }) (λ row. refl)
      (λ row. refl) h

-- What the flow notes of a request before it reads it leaves the row open and the counters alone.
pub note_request-IsOpen :
    (hooks : Listener) (request : hooks.Request) (handle : ℕ) (log : CallLog)
    → IsOpen log handle
    → IsOpen (note_request hooks request handle log) handle
      × IsSame log (note_request hooks request handle log)
unfolding note_request
note_request-IsOpen hooks request handle log h =
    let (h1, s1) = note_body-IsOpen (hooks.body_for_history request) handle log h in
    let (h2, s2) =
      note_path-IsOpen (hooks.path_for_history request) handle
        (note_body (hooks.body_for_history request) handle log) h1 in
    (h2, IsSame-trans _ _ _ s1 s2)

-- A label other than "in_flight" takes the row out of those in flight and counts it under itself.
pub finalize_open :
    (log : CallLog) (now handle : ℕ) (method status : String) (latency_ms : ℕ)
    (rid : Option RequestId)
    → IsOpen log handle
    → status ≢ "in_flight"
    → ((finalize log now handle method status latency_ms rid).calls_by_status
        ≡ count_up status (count_down "in_flight" log.calls_by_status))
      × ((finalize log now handle method status latency_ms rid).total_calls ≡ log.total_calls)
unfolding finalize finalize_row settle
finalize_open log now handle method status latency_ms rid h other =
    let current : is_generation log.reset_generation h.row ≡ true = ground (arith, h.current) in
    let moved : (h.row.status == status) ≡ false =
      ground (arith, h.in_flight, other, eq_iff h.row.status status) in
    rw (h.found, finalize, current, finalize_row, moved, h.in_flight) (refl, refl)

-- The count of a status after a request came and ended under a label.
pub get_or_counted :
    (label j : String) (d : Dict String ℕ)
    → Dict.get_or j 0 (count_up label (count_down "in_flight" (count_up "in_flight" d)))
      ≡ Dict.get_or j 0 d + (if label == j then 1 else 0)
get_or_counted label j d = ground (
  arith,
  get_or-count_up label j (count_down "in_flight" (count_up "in_flight" d)),
  get_or-count_down "in_flight" j (count_up "in_flight" d),
  get_or-count_up "in_flight" j d,
)
