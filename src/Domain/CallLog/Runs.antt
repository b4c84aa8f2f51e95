-- ===== src/Domain/CallLog/Runs.antt =====
-- provider_simulator/domain/call_log.py: what holds of a log after any sequence of calls.
use provider_simulator.Base.{
  ℕ, ◌≡◌, refl, String, false, Option, none, some, List, [], ◌∷◌, arith, count_if, All,
}
use provider_simulator.Base.Dict
use provider_simulator.Base.Dict.{Dict, string_key, get-put, get-remove, get_or-put, get_or-remove}
use provider_simulator.Domain.CallLog.{
  Row, CallLog, RequestId, Arrival, new_log, record_arrival, push, finalize, clear, set_grpc_status,
  record_body, record_path, stats,
}
use provider_simulator.Domain.CallLog.Consistency.{
  is_counted, IsConsistent, IsConsistent-new_log, record_arrival-IsConsistent, push-IsConsistent,
  clear-IsConsistent,
}
use provider_simulator.Domain.CallLog.Settling.{finalize-IsConsistent, edit_row-IsConsistent}

-- What the callers of a log can do to it. The handles are whatever the caller holds.
pub data Operation : Type 0 where
  arrive : ℕ → Arrival → Operation
  pushed : ℕ → Arrival → String → String → ℕ → Option RequestId → Operation
  finished : ℕ → ℕ → String → String → ℕ → Option RequestId → Operation
  grpc_status_set : ℕ → String → Operation
  body_recorded : ℕ → ℕ → String → Operation
  path_recorded : ℕ → String → Operation
  cleared : Operation

unfoldable pub apply : CallLog → Operation → CallLog
apply log (arrive now a) = (record_arrival log now a).0
apply log (pushed now a method status latency_ms request_id) =
    (push log now a method status latency_ms request_id).0
apply log (finished now handle method status latency_ms request_id) =
    finalize log now handle method status latency_ms request_id
apply log (grpc_status_set handle grpc_status) = set_grpc_status log handle grpc_status
apply log (body_recorded handle body_len body_sha256) = record_body log handle body_len body_sha256
apply log (path_recorded handle path) = record_path log handle path
apply log cleared = clear log

unfoldable pub run : CallLog → List Operation → CallLog
run log [] = log
run log (op ∷ ops) = run (apply log op) ops

apply-IsConsistent :
    (log : CallLog) (op : Operation) → IsConsistent log → IsConsistent (apply log op)
unfolding apply set_grpc_status record_body record_path
apply-IsConsistent log (arrive now a) h = record_arrival-IsConsistent log now a h
apply-IsConsistent log (pushed now a method status latency_ms request_id) h =
    push-IsConsistent log now a method status latency_ms request_id h
apply-IsConsistent log (finished now handle method status latency_ms request_id) h =
    finalize-IsConsistent log now handle method status latency_ms request_id h
apply-IsConsistent log (grpc_status_set handle grpc_status) h =
    edit_row-IsConsistent log handle (λ entry. record entry { grpc_status = some grpc_status })
      (λ row. refl) (λ row. refl) h
apply-IsConsistent log (body_recorded handle body_len body_sha256) h =
    edit_row-IsConsistent log handle
      (λ entry. record entry { body_len = some body_len; body_sha256 = some body_sha256 })
      (λ row. refl) (λ row. refl) h
apply-IsConsistent log (path_recorded handle path) h =
    edit_row-IsConsistent log handle (λ entry. record entry { path = some path }) (λ row. refl)
      (λ row. refl) h
apply-IsConsistent log cleared h = clear-IsConsistent log h

run_keeps : (log : CallLog) (ops : List Operation) → IsConsistent log → IsConsistent (run log ops)
unfolding run
run_keeps log [] h = h
run_keeps log (op ∷ ops) h = run_keeps (apply log op) ops (apply-IsConsistent log op h)

-- Whatever the callers of a new log do, in any order and with any handles: each count in
-- `calls_by_status` is the number of rows of the present generation with that status, no key
-- holds 0, `total_calls` is the number of rows of the generation, no row is of a generation to
-- come, and the history holds at most `history_max` rows, each of them there.
pub run-IsConsistent :
    (pool pid : String) (history_max : ℕ) (name : String) (ops : List Operation)
    → IsConsistent (run (new_log pool pid history_max name) ops)
run-IsConsistent pool pid history_max name ops =
    run_keeps (new_log pool pid history_max name) ops
      (IsConsistent-new_log pool pid history_max name)

-- No row of the generation has the status.
abbrev pub IsUnused : ℕ → String → Row → Type 0
IsUnused generation status row = is_counted generation status row ≡ false

count_if_unused :
    (generation : ℕ) (status : String) (rows : List Row)
    → All (IsUnused generation status) rows
    → count_if (is_counted generation status) rows ≡ 0
count_if_unused generation status [] h = refl
count_if_unused generation status (row ∷ rows) h =
    ground (arith, count_if_unused generation status rows h.1, h.0)

-- In a log that callers used in any way: when no row of the present generation has a status any
-- more, such as "in_flight" after each request was finalized, `stats` has no key for the status.
pub calls_by_status-unused :
    (pool pid : String) (history_max : ℕ) (name : String) (ops : List Operation) (status : String)
    → All
        (IsUnused (run (new_log pool pid history_max name) ops).reset_generation status)
        (run (new_log pool pid history_max name) ops).rows
    → Dict.get status (stats (run (new_log pool pid history_max name) ops)).calls_by_status ≡ none
unfolding stats
calls_by_status-unused pool pid history_max name ops status unused =
    let log = run (new_log pool pid history_max name) ops in
    let h = run-IsConsistent pool pid history_max name ops in
    ground (
      arith,
      h.counts status,
      h.no_zero status,
      count_if_unused log.reset_generation status log.rows unused,
      Dict.get_or-get status 0 log.calls_by_status,
    )
