-- ===== src/Listeners/Listener.antt =====
-- provider_simulator/listeners/base.py: the flow of one request, from its arrival to the row of the
-- log. Its hooks are those of an interface (Hooks). A scenario is the
-- typed snapshot of FaultPolicy beside the per-method block `responses`. The clock, the draw of the
-- fault policy and what the standard library makes of the headers and of a body are arguments.
mod Hooks
pub mod Log
pub mod Outcomes
pub mod Settled
pub mod Untargeted
pub mod Steps
unfoldable pub use Hooks.*
use provider_simulator.Base.{
  ℕ, ◌+◌, String, Bool, true, false, not, ◌&&◌, ◌||◌, Option, none, some, List, [], ◌∷◌, leb, ltb,
  ◌==◌, select, codes, if◌then◌else◌,
}
use provider_simulator.Base.Dict.{Dict}
use provider_simulator.Base.Json.{Json, null, num, text, is_truthy, is_prefix}
use provider_simulator.Base.Results.{Error, Result, ok, err}
use provider_simulator.Domain.CallLog.{
  CallLog, Arrival, RequestId, record_arrival, record_body, record_path, finalize,
}
use provider_simulator.Domain.Endpoint.{Endpoint}
use provider_simulator.Domain.Provider.{Provider}
use provider_simulator.Domain.Scenario.Names.{lower}
use provider_simulator.FaultPolicy.{
  ErrorCode, Scenario, Verdict, Kind, no_fault, down, hang, drop, rate_limit, error, verdict,
  resolve_mode, ladder,
}

module _ (hooks : Listener) where
  unfoldable pub note_request : hooks.Request → ℕ → CallLog → CallLog
  unfolding note_body note_path
  note_request request handle log =
      note_path (hooks.path_for_history request) handle
        (note_body (hooks.body_for_history request) handle log)

  unfoldable pub override_of :
      (hooks.Key → Option Override) → Bool → hooks.Parsed → Result (Option Override)
  override_of responses false q = ok none
  override_of responses true q = elim (hooks.method_key q) [
    | none ↦ ok none
    | some key ↦ elim (hooks.hashed key) [ err e ↦ err e | ok found ↦ ok (responses found) ]
  ]

  unfoldable pub canned : Option Override → Option ServeResult
  canned none = none
  canned (some o) = hooks.build_body_override o

  unfoldable pub content : Scenario → hooks.Request → hooks.Parsed → Decision
  content s request q = elim (hooks.build_content q s request) [
    | err e ↦ raise e
    | ok (status, body) ↦
        answer (hooks.build_success status body) (hooks.success_label status body q)
          (or_id (hooks.response_id body) (hooks.request_id q)) true
  ]

  unfoldable pub on_verdict : Kind → Verdict → Scenario → hooks.Request → hooks.Parsed → Decision
  unfolding content
  on_verdict no_fault v s request q = content s request q
  on_verdict down v s request q = refuse
  on_verdict hang v s request q =
      answer (hooks.build_fault v q) (status_label hang) (hooks.request_id q) false
  on_verdict kind v s request q =
      answer (hooks.build_fault v q) (status_label kind) (hooks.request_id q) true

  -- A canned body, or the fault ladder, or the success content.
  unfoldable pub decision :
      Option ServeResult
      → Bool
      → String
      → Scenario
      → Scenario
      → ℕ
      → hooks.Request
      → hooks.Parsed
      → Decision
  unfolding on_verdict
  decision (some result) targeted mode m s draw request q =
      answer result (if leb 200 result.status && ltb result.status 300 then "success" else "error")
        (hooks.request_id q) true
  decision none targeted mode m s draw request q =
      let v : Verdict = if targeted then ladder mode m draw else verdict no_fault in
      on_verdict v.kind v s request q

  -- The latency, the corruption and the pause of a reply, and the label of its row.
  unfoldable pub dress : Bool → ℕ → Scenario → ServeResult → String → ServeResult × String
  dress targeted latency s result label =
      let timed : ServeResult =
        if is_waiting result.action then record result { latency_ms = latency } else result in
      if is_respond result.action && targeted
      then (let (corrupted, label') = hooks.corrupt timed label s in
          (record corrupted { pause_at = s.pause_at; pause_ms = s.pause_ms }, label'))
      else (timed, label)

  -- The end of a request that was parsed: each way of it writes the row, but an exception.
  unfoldable pub close :
      Bool → ℕ → Scenario → hooks.Parsed → ℕ → ℕ → CallLog → Decision → Result ServeResult × CallLog
  unfolding dress
  close targeted latency s q now handle log (raise e) = (err e, log)
  close targeted latency s q now handle log refuse = (
    ok (record hooks.build_down { latency_ms = latency }),
    finalize log now handle (hooks.request_method q) "down" latency (hooks.request_id q),
  )
  close targeted latency s q now handle log (answer result label rid waited) =
      let (dressed, label') = dress targeted latency s result label in
      (
        ok dressed,
        finalize log now handle (hooks.request_method q) label' (if waited then latency else 0) rid,
      )

  unfoldable pub serve_overridden :
      Option Override
      → Scenario
      → Bool
      → String
      → ℕ
      → hooks.Request
      → hooks.Parsed
      → ℕ
      → ℕ
      → CallLog
      → Result ServeResult × CallLog
  unfolding canned decision close
  serve_overridden over s targeted mode draw request q now handle log =
      let (mode', latency, m) = effective over mode (if targeted then s.latency_ms else 0) s in
      close targeted latency s q now handle log
        (decision (canned over) targeted mode' m s draw request q)

  unfoldable pub serve_parsed :
      Scenario
      → (hooks.Key → Option Override)
      → Bool
      → String
      → ℕ
      → hooks.Request
      → hooks.Parsed
      → ℕ
      → ℕ
      → CallLog
      → Result ServeResult × CallLog
  unfolding override_of serve_overridden
  serve_parsed s responses targeted mode draw request q now handle log =
      elim (override_of responses targeted q) [
        | err e ↦ (err e, log)
        | ok over ↦ serve_overridden over s targeted mode draw request q now handle log
      ]

  unfoldable pub serve_request :
      Scenario
      → (hooks.Key → Option Override)
      → Bool
      → String
      → ℕ
      → hooks.Request
      → ℕ
      → ℕ
      → CallLog
      → Result ServeResult × CallLog
  unfolding serve_parsed
  serve_request s responses targeted mode draw request now handle log =
      if targeted && mode == "down"
      then (ok hooks.build_down, finalize log now handle "*" "down" 0 none)
      else elim (hooks.parse_request request) [
        | parsed q ↦ serve_parsed s responses targeted mode draw request q now handle log
        | direct result method label rid ↦ (ok result, finalize log now handle method label 0 rid)
        | parse_error message ↦
            (ok (hooks.build_parse_error message), finalize log now handle "*" "parse_error" 0 none)
      ]

  abbrev pub with_chosen : Bool → Scenario → Result ServeResult → Result ServeResult
  with_chosen targeted s (err e) = err e
  with_chosen targeted s (ok result) =
      ok (if targeted then with_reply_headers result s.reply_headers s.reply_trailers else result)

  -- The request goes on with the mode that was resolved.
  unfoldable pub serve_resolved :
      Scenario
      → (hooks.Key → Option Override)
      → ℕ
      → hooks.Request
      → ℕ
      → ℕ
      → (Bool × String) × Provider
      → Result ServeResult × Provider
  unfolding serve_request
  serve_resolved s responses draw request now handle ((targeted, mode), p) =
      let (reply, log) = serve_request s responses targeted mode draw request now handle p.log in
      (with_chosen targeted s reply, record p { log = log })

  -- serve(request, entry=…)
  unfoldable pub serve_entry :
      Scenario
      → (hooks.Key → Option Override)
      → Endpoint
      → ℕ
      → hooks.Request
      → ℕ
      → ℕ
      → Provider
      → Result ServeResult × Provider
  unfolding note_request serve_resolved
  serve_entry s responses ep draw request now handle p =
      serve_resolved s responses draw request now handle
        (resolve_mode s ep (record p { log = note_request request handle p.log }))

  -- serve(request), with what json.dumps makes of the headers
  unfoldable pub serve :
      Scenario
      → (hooks.Key → Option Override)
      → Endpoint
      → ℕ
      → hooks.Request
      → ℕ
      → String
      → ℕ
      → Provider
      → Result ServeResult × Provider
  unfolding serve_entry arrive
  serve s responses ep draw request came headers_json now p =
      let (log, handle) =
        record_arrival p.log came (arrive ep (hooks.headers request) headers_json none) in
      serve_entry s responses ep draw request now handle (record p { log = log })
