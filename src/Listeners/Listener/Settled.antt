-- ===== src/Listeners/Listener/Settled.antt =====
-- provider_simulator/listeners/base.py: what one request leaves in the counters of its provider, and
-- what its reply carries.
use provider_simulator.Base.{
  ℕ, ◌+◌, ◌≡◌, ◌≢◌, refl, ap, sym, ◌∙◌, subst, String, Bool, Option, none, ◌⊎◌, inl, inr, ◌==◌,
  if◌then◌else◌, arith,
}
use provider_simulator.Base.Dict
use provider_simulator.Base.Dict.{Dict, string_key}
use provider_simulator.Base.Results.{Error, Result, ok, err}
use provider_simulator.Domain.CallLog.{
  CallLog, Arrival, record_arrival, append_row, new_entry, count_up, count_down,
}
use provider_simulator.Domain.CallLog.Counters.{get_or-count_up}
use provider_simulator.Domain.Endpoint.{Endpoint}
use provider_simulator.Domain.Provider.{Provider, consume_fail}
use provider_simulator.FaultPolicy.{Scenario, resolve_mode}
use provider_simulator.Listeners.Listener.{
  ServeResult, Override, Listener, arrive, note_request, with_chosen, serve_resolved, serve_entry,
  serve,
}
use provider_simulator.Listeners.Listener.Log.{
  IsOpen, record_arrival-IsOpen, note_request-IsOpen, finalize_open, get_or_counted,
}
use provider_simulator.Listeners.Listener.Outcomes.{IsLabelling, IsOutcome, serve_request-IsOutcome}

resolve_mode_log :
    (s : Scenario) (ep : Endpoint) (p : Provider) → (resolve_mode s ep p).1.log ≡ p.log
unfolding resolve_mode consume_fail
resolve_mode_log s ep p = ground arith

-- What a log counts after one request more, under a label.
abbrev pub IsCounted : CallLog → CallLog → String → Type 0
IsCounted log log' label =
    ((j : String)
      → Dict.get_or j 0 log'.calls_by_status
        ≡ Dict.get_or j 0 log.calls_by_status + (if label == j then 1 else 0))
    × (log'.total_calls ≡ log.total_calls + 1)

-- What a request leaves: an answer, counted under a label of an end, or an exception, counted as
-- still in flight.
abbrev pub IsSettled : CallLog → Result ServeResult → CallLog → Type 0
IsSettled log reply log' =
    ((result : ServeResult) × (label : String) × (reply ≡ ok result)
      × (label ≢ "in_flight")
      × IsCounted log log' label)
    ⊎ ((e : Error) × (reply ≡ err e) × IsCounted log log' "in_flight")

-- From an open row to the end of its request.
outcome-IsSettled :
    (hooks : Listener) (targeted : Bool) (s : Scenario) (now handle : ℕ) (log opened : CallLog)
    (reply : Result ServeResult) (log' : CallLog)
    → IsOpen opened handle
    → opened.calls_by_status ≡ count_up "in_flight" log.calls_by_status
    → opened.total_calls ≡ log.total_calls + 1
    → IsOutcome now handle opened (reply, log')
    → IsSettled log (with_chosen hooks targeted s reply) log'
outcome-IsSettled hooks targeted s now handle log opened reply log' h calls total
      (inl (result, answered, f)) =
    let (counts, kept) =
      finalize_open opened now handle f.method f.label f.latency_ms f.request_id h f.ended in
    inl (
      _,
      f.label,
      ap (with_chosen hooks targeted s) answered,
      f.ended,
      (
        (λ j.
            ap (λ (l : CallLog). Dict.get_or j 0 l.calls_by_status) f.written
            ∙ ap (Dict.get_or j 0) counts
            ∙ ap
                (λ (d : Dict String ℕ).
                  Dict.get_or j 0 (count_up f.label (count_down "in_flight" d)))
                calls
            ∙ get_or_counted f.label j log.calls_by_status),
        ap (λ (l : CallLog). l.total_calls) f.written ∙ kept ∙ total,
      ),
    )
outcome-IsSettled hooks targeted s now handle log opened reply log' h calls total
      (inr (e, raised, same)) =
    inr (
      e,
      ap (with_chosen hooks targeted s) raised,
      (
        (λ j.
            ap (λ (l : CallLog). Dict.get_or j 0 l.calls_by_status) same
            ∙ ap (Dict.get_or j 0) calls
            ∙ get_or-count_up "in_flight" j log.calls_by_status),
        ap (λ (l : CallLog). l.total_calls) same ∙ total,
      ),
    )

resolved-IsOpen :
    (s : Scenario) (ep : Endpoint) (p : Provider) (handle : ℕ)
    → IsOpen p.log handle
    → IsOpen (resolve_mode s ep p).1.log handle
resolved-IsOpen s ep p handle h =
    subst (λ (l : CallLog). IsOpen l handle) (sym (resolve_mode_log s ep p)) h

entry-IsSettled :
    (hooks : Listener) (s : Scenario) (responses : hooks.Key → Option Override) (ep : Endpoint)
    (draw : ℕ) (request : hooks.Request) (now handle : ℕ) (p : Provider) (log : CallLog)
    → IsLabelling hooks
    → IsOpen p.log handle
    → p.log.calls_by_status ≡ count_up "in_flight" log.calls_by_status
    → p.log.total_calls ≡ log.total_calls + 1
    → IsSettled log
        (serve_entry hooks s responses ep draw request now handle p).0
        (serve_entry hooks s responses ep draw request now handle p).1.log
unfolding serve_entry serve_resolved
entry-IsSettled hooks s responses ep draw request now handle p log labels h calls total =
    let noted : Provider = record p { log = note_request hooks request handle p.log } in
    let (h1, same) = note_request-IsOpen hooks request handle p.log h in
    let kept = resolve_mode_log s ep noted in
    outcome-IsSettled hooks (resolve_mode s ep noted).0.0 s now handle log
      (resolve_mode s ep noted).1.log _ _ (resolved-IsOpen s ep noted handle h1)
      (ap (λ (l : CallLog). l.calls_by_status) kept ∙ same.calls ∙ calls)
      (ap (λ (l : CallLog). l.total_calls) kept ∙ same.total ∙ total)
      (serve_request-IsOutcome hooks labels s responses (resolve_mode s ep noted).0.0
        (resolve_mode s ep noted).0.1 draw request now handle (resolve_mode s ep noted).1.log)

-- Each request is counted once, whatever its scenario, its contents and its overrides: an answered
-- one under the label that its row ends with and no longer as in flight, one whose content raised
-- as in flight for good; no other count changes, and the total goes up by one.
pub serve-IsSettled :
    (hooks : Listener) (s : Scenario) (responses : hooks.Key → Option Override) (ep : Endpoint)
    (draw : ℕ) (request : hooks.Request) (came : ℕ) (headers_json : String) (now : ℕ) (p : Provider)
    → IsLabelling hooks
    → IsSettled p.log
        (serve hooks s responses ep draw request came headers_json now p).0
        (serve hooks s responses ep draw request came headers_json now p).1.log
unfolding serve record_arrival append_row new_entry
serve-IsSettled hooks s responses ep draw request came headers_json now p labels =
    let a : Arrival = arrive ep (hooks.headers request) headers_json none in
    let (log, handle) = record_arrival p.log came a in
    entry-IsSettled hooks s responses ep draw request now handle (record p { log = log }) p.log
      labels (record_arrival-IsOpen p.log came a) refl refl
