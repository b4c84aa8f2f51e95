-- ===== src/Listeners/Listener/Outcomes.antt =====
-- provider_simulator/listeners/base.py: the two ways in which a request ends.
use provider_simulator.Base.{
  ℕ, ◌≡◌, ◌≢◌, refl, String, Bool, true, false, ◌&&◌, Option, none, some, ◌⊎◌, inl, inr, leb, ltb,
  ◌==◌, eq_iff, if◌then◌else◌, Bool-cases, arith,
}
use provider_simulator.Base.Json.{Json}
use provider_simulator.Base.Results.{Error, Result, ok, err, Result-cases}
use provider_simulator.Domain.CallLog.{CallLog, RequestId, finalize}
use provider_simulator.FaultPolicy.{
  Scenario, Verdict, Kind, no_fault, down, hang, drop, rate_limit, error, verdict, ladder,
}
use provider_simulator.Listeners.Listener.{
  ServeResult, Override, Parse, parsed, direct, parse_error, Listener, Decision, answer, refuse,
  raise, is_respond, is_waiting, override_of, canned, content, on_verdict, decision, dress, close,
  serve_overridden, serve_parsed, serve_request,
}

-- No hook labels a row as one in flight.
pub record IsLabelling (hooks : Listener) : Type 0 where
  pub direct_label :
      (request : hooks.Request) (result : ServeResult) (method label : String)
      (rid : Option RequestId)
      → hooks.parse_request request ≡ direct result method label rid
      → label ≢ "in_flight"
  pub content_label :
      (status : ℕ) (body : Json) (q : hooks.Parsed)
      → hooks.success_label status body q ≢ "in_flight"
  pub corrupt_label :
      (result : ServeResult) (label : String) (s : Scenario)
      → label ≢ "in_flight"
      → (hooks.corrupt result label s).1 ≢ "in_flight"

-- The row was finalized, once, under a label of an end.
pub record Finalized (log log' : CallLog) (now handle : ℕ) : Type 0 where
  pub method : String
  pub label : String
  pub latency_ms : ℕ
  pub request_id : Option RequestId
  pub ended : label ≢ "in_flight"
  pub written : log' ≡ finalize log now handle method label latency_ms request_id

-- The request was answered and its row finalized, or it raised and its row stays as it was.
abbrev pub IsOutcome : ℕ → ℕ → CallLog → Result ServeResult × CallLog → Type 0
IsOutcome now handle log (reply, log') =
    ((result : ServeResult) × (reply ≡ ok result) × Finalized log log' now handle)
    ⊎ ((e : Error) × (reply ≡ err e) × (log' ≡ log))

pub apart : (a b : String) → (a == b) ≡ false → a ≢ b
apart a b h same = ground (arith, eq_iff a b, h, same)

pub if_apart : (test : Bool) (a b c : String) → a ≢ c → b ≢ c → (if test then a else b) ≢ c
if_apart true a b c h k = h
if_apart false a b c h k = k

module _ (hooks : Listener) (labels : IsLabelling hooks) where
  -- A decision with a label of an end.
  abbrev IsLabelled : Decision → Type 0
  IsLabelled (answer result label rid waited) = label ≢ "in_flight"
  IsLabelled _ = Unit

  content-IsLabelled :
      (s : Scenario) (request : hooks.Request) (q : hooks.Parsed)
      → IsLabelled (content hooks s request q)
  unfolding content
  content-IsLabelled s request q = elim (Result-cases (hooks.build_content q s request)) [
    | inl ((status, body), made) ↦ rw (made, content) (labels.content_label status body q)
    | inr (e, raised) ↦ rw (raised, content) tt
  ]

  on_verdict-IsLabelled :
      (kind : Kind) (v : Verdict) (s : Scenario) (request : hooks.Request) (q : hooks.Parsed)
      → IsLabelled (on_verdict hooks kind v s request q)
  unfolding on_verdict
  on_verdict-IsLabelled no_fault v s request q = content-IsLabelled s request q
  on_verdict-IsLabelled down v s request q = tt
  on_verdict-IsLabelled hang v s request q = apart "hang" "in_flight" refl
  on_verdict-IsLabelled drop v s request q = apart "drop_connection" "in_flight" refl
  on_verdict-IsLabelled rate_limit v s request q = apart "rate_limit" "in_flight" refl
  on_verdict-IsLabelled error v s request q = apart "error" "in_flight" refl

  decision-IsLabelled :
      (c : Option ServeResult) (targeted : Bool) (mode : String) (m s : Scenario) (draw : ℕ)
      (request : hooks.Request) (q : hooks.Parsed)
      → IsLabelled (decision hooks c targeted mode m s draw request q)
  unfolding decision
  decision-IsLabelled (some result) targeted mode m s draw request q =
      if_apart (leb 200 result.status && ltb result.status 300) "success" "error" "in_flight"
        (apart "success" "in_flight" refl) (apart "error" "in_flight" refl)
  decision-IsLabelled none targeted mode m s draw request q =
      on_verdict-IsLabelled (if targeted then ladder mode m draw else verdict no_fault).kind _ s
        request q

  dress_label :
      (targeted : Bool) (latency : ℕ) (s : Scenario) (result : ServeResult) (label : String)
      → label ≢ "in_flight"
      → (dress hooks targeted latency s result label).1 ≢ "in_flight"
  unfolding dress
  dress_label targeted latency s result label h =
      elim (Bool-cases (is_respond result.action && targeted)) [
        | inl dressed ↦
            rw (dressed, dress)
              (labels.corrupt_label
                (if is_waiting result.action
                  then record result { latency_ms = latency }
                  else result)
                label s h)
        | inr plain ↦ rw (plain, dress) h
      ]

  close-IsOutcome :
      (targeted : Bool) (latency : ℕ) (s : Scenario) (q : hooks.Parsed) (now handle : ℕ)
      (log : CallLog) (d : Decision)
      → IsLabelled d
      → IsOutcome now handle log (close hooks targeted latency s q now handle log d)
  unfolding close
  close-IsOutcome targeted latency s q now handle log (raise e) h = inr (e, refl, refl)
  close-IsOutcome targeted latency s q now handle log refuse h = inl (
    _,
    refl,
    record {
      method = hooks.request_method q;
      label = "down";
      latency_ms = latency;
      request_id = hooks.request_id q;
      ended = apart "down" "in_flight" refl;
      written = refl;
    },
  )
  close-IsOutcome targeted latency s q now handle log (answer result label rid waited) h = inl (
    _,
    refl,
    record {
      method = hooks.request_method q;
      label = (dress hooks targeted latency s result label).1;
      latency_ms = if waited then latency else 0;
      request_id = rid;
      ended = dress_label targeted latency s result label h;
      written = refl;
    },
  )

  overridden-IsOutcome :
      (s : Scenario) (responses : hooks.Key → Option Override) (targeted : Bool) (mode : String)
      (draw : ℕ) (request : hooks.Request) (q : hooks.Parsed) (now handle : ℕ) (log : CallLog)
      → IsOutcome now handle log
          (serve_parsed hooks s responses targeted mode draw request q now handle log)
  unfolding serve_parsed serve_overridden
  overridden-IsOutcome s responses targeted mode draw request q now handle log =
      elim (Result-cases (override_of hooks responses targeted q)) [
        | inr (e, raised) ↦ rw (raised, serve_parsed) (inr (e, refl, refl))
        | inl (over, known) ↦
            rw (known, serve_parsed)
              (close-IsOutcome targeted _ s q now handle log _
                (decision-IsLabelled (canned hooks over) targeted _ _ s draw request q))
      ]

  parsed-IsOutcome :
      (s : Scenario) (responses : hooks.Key → Option Override) (targeted : Bool) (mode : String)
      (draw : ℕ) (request : hooks.Request) (now handle : ℕ) (log : CallLog) (p : Parse hooks.Parsed)
      → hooks.parse_request request ≡ p
      → (targeted && (mode == "down")) ≡ false
      → IsOutcome now handle log
          (serve_request hooks s responses targeted mode draw request now handle log)
  unfolding serve_request
  parsed-IsOutcome s responses targeted mode draw request now handle log (parsed q) h up =
      rw (up, h, serve_request)
        (overridden-IsOutcome s responses targeted mode draw request q now handle log)
  parsed-IsOutcome s responses targeted mode draw request now handle log
        (direct result method label rid) h up =
      rw (up, h, serve_request)
        (inl (
          result,
          refl,
          record {
            method = method;
            label = label;
            latency_ms = 0;
            request_id = rid;
            ended = labels.direct_label request result method label rid h;
            written = refl;
          },
        ))
  parsed-IsOutcome s responses targeted mode draw request now handle log (parse_error message) h
        up =
      rw (up, h, serve_request)
        (inl (
          hooks.build_parse_error message,
          refl,
          record {
            method = "*";
            label = "parse_error";
            latency_ms = 0;
            request_id = none;
            ended = apart "parse_error" "in_flight" refl;
            written = refl;
          },
        ))

  pub serve_request-IsOutcome :
      (s : Scenario) (responses : hooks.Key → Option Override) (targeted : Bool) (mode : String)
      (draw : ℕ) (request : hooks.Request) (now handle : ℕ) (log : CallLog)
      → IsOutcome now handle log
          (serve_request hooks s responses targeted mode draw request now handle log)
  unfolding serve_request
  serve_request-IsOutcome s responses targeted mode draw request now handle log =
      elim (Bool-cases (targeted && (mode == "down"))) [
        | inl out ↦
            rw (out, serve_request)
              (inl (
                hooks.build_down,
                refl,
                record {
                  method = "*";
                  label = "down";
                  latency_ms = 0;
                  request_id = none;
                  ended = apart "down" "in_flight" refl;
                  written = refl;
                },
              ))
        | inr up ↦
            parsed-IsOutcome s responses targeted mode draw request now handle log
              (hooks.parse_request request) refl up
      ]
