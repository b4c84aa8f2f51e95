-- ===== src/Listeners/Listener/Steps.antt =====
-- provider_simulator/listeners/base.py: the flow of a request of a targeted endpoint, without a window.
use provider_simulator.Base.{
  ℕ, ◌≡◌, refl, ap, String, Bool, true, false, List, [], ◌∷◌, Option, none, some, ◌==◌,
}
use provider_simulator.Base.Results.{Error, ok, err}
use provider_simulator.Domain.CallLog.{CallLog, RequestId, record_arrival}
use provider_simulator.Domain.Endpoint.{Endpoint}
use provider_simulator.Domain.Provider.{Provider}
use provider_simulator.FaultPolicy.{Scenario, targets, resolve_mode}
use provider_simulator.Listeners.Listener.{
  Override, is_empty, parsed, direct, parse_error, ServeResult, Listener, arrive, note_request,
  override_of, serve_parsed, serve_overridden, serve_request, with_chosen, serve_resolved,
  serve_entry, serve,
}

pub is_empty-nil {ℓ} : {A : Type ℓ} (xs : List A) → is_empty xs ≡ true → xs ≡ []
is_empty-nil [] h = refl
is_empty-nil (x ∷ xs) h = absurd (cc h)

-- A request of a targeted endpoint, in a mode that is not windowed.
pub record IsReached (s : Scenario) (ep : Endpoint) : Type 0 where
  pub targeted : targets s ep ≡ true
  pub steady : s.fail_first_n ≡ 0
  pub up : (s.mode == "down") ≡ false

resolve_mode_steady :
    (s : Scenario) (ep : Endpoint) (p : Provider)
    → IsReached s ep
    → resolve_mode s ep p ≡ ((true, s.mode), p)
unfolding resolve_mode
resolve_mode_steady s ep p h = rw (h.targeted, h.steady) refl

module _ (hooks : Listener) where
  -- The log that the body of the flow starts on.
  abbrev pub noted_log : Endpoint → hooks.Request → ℕ → String → CallLog → CallLog
  noted_log ep request came headers_json log =
      let (log', handle) =
        record_arrival log came (arrive ep (hooks.headers request) headers_json none) in
      note_request hooks request handle log'

  abbrev pub handle_of : Endpoint → hooks.Request → ℕ → String → CallLog → ℕ
  handle_of ep request came headers_json log =
      (record_arrival log came (arrive ep (hooks.headers request) headers_json none)).1

  pub serve-serve_request :
      (s : Scenario) (responses : hooks.Key → Option Override) (ep : Endpoint) (draw : ℕ)
      (request : hooks.Request) (came : ℕ) (headers_json : String) (now : ℕ) (p : Provider)
      → IsReached s ep
      → (serve hooks s responses ep draw request came headers_json now p).0
        ≡ with_chosen hooks true s
            (serve_request hooks s responses true s.mode draw request now
              (handle_of ep request came headers_json p.log)
              (noted_log ep request came headers_json p.log)).0
  unfolding serve serve_entry serve_resolved
  serve-serve_request s responses ep draw request came headers_json now p h =
      ap
        (λ (r : (Bool × String) × Provider).
          (serve_resolved hooks s responses draw request now
            (handle_of ep request came headers_json p.log) r).0)
        (resolve_mode_steady s ep (record p { log = noted_log ep request came headers_json p.log })
          h)

  pub serve_request-serve_parsed :
      (s : Scenario) (responses : hooks.Key → Option Override) (ep : Endpoint) (draw : ℕ)
      (request : hooks.Request) (now handle : ℕ) (log : CallLog) (q : hooks.Parsed)
      → IsReached s ep
      → hooks.parse_request request ≡ parsed q
      → serve_request hooks s responses true s.mode draw request now handle log
        ≡ serve_parsed hooks s responses true s.mode draw request q now handle log
  unfolding serve_request
  serve_request-serve_parsed s responses ep draw request now handle log q h made =
      rw (h.up, made, serve_request) refl

  pub serve_request-direct :
      (s : Scenario) (responses : hooks.Key → Option Override) (ep : Endpoint) (draw : ℕ)
      (request : hooks.Request) (now handle : ℕ) (log : CallLog) (result : ServeResult)
      (method label : String) (rid : Option RequestId)
      → IsReached s ep
      → hooks.parse_request request ≡ direct result method label rid
      → (serve_request hooks s responses true s.mode draw request now handle log).0 ≡ ok result
  unfolding serve_request
  serve_request-direct s responses ep draw request now handle log result method label rid h made =
      rw (h.up, made, serve_request) refl

  pub serve_request-parse_error :
      (s : Scenario) (responses : hooks.Key → Option Override) (ep : Endpoint) (draw : ℕ)
      (request : hooks.Request) (now handle : ℕ) (log : CallLog) (message : String)
      → IsReached s ep
      → hooks.parse_request request ≡ parse_error message
      → (serve_request hooks s responses true s.mode draw request now handle log).0
        ≡ ok (hooks.build_parse_error message)
  unfolding serve_request
  serve_request-parse_error s responses ep draw request now handle log message h made =
      rw (h.up, made, serve_request) refl

  pub serve_parsed-raises :
      (s : Scenario) (responses : hooks.Key → Option Override) (mode : String) (draw : ℕ)
      (request : hooks.Request) (now handle : ℕ) (log : CallLog) (q : hooks.Parsed)
      (key : hooks.Key) (e : Error)
      → hooks.method_key q ≡ some key
      → hooks.hashed key ≡ err e
      → serve_parsed hooks s responses true mode draw request q now handle log ≡ (err e, log)
  unfolding serve_parsed override_of
  serve_parsed-raises s responses mode draw request now handle log q key e found raised =
      rw (found, raised, serve_parsed, override_of) refl

  pub serve_parsed-serve_overridden :
      (s : Scenario) (responses : hooks.Key → Option Override) (mode : String) (draw : ℕ)
      (request : hooks.Request) (now handle : ℕ) (log : CallLog) (q : hooks.Parsed)
      (key : hooks.Key)
      → hooks.method_key q ≡ some key
      → hooks.hashed key ≡ ok key
      → serve_parsed hooks s responses true mode draw request q now handle log
        ≡ serve_overridden hooks (responses key) s true mode draw request q now handle log
  unfolding serve_parsed override_of
  serve_parsed-serve_overridden s responses mode draw request now handle log q key found hashed =
      rw (found, hashed, serve_parsed, override_of) refl
