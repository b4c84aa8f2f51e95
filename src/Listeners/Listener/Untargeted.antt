-- ===== src/Listeners/Listener/Untargeted.antt =====
-- provider_simulator/listeners/base.py: a block does not reach an endpoint that it does not target.
use provider_simulator.Base.{
  ℕ, ◌≡◌, refl, ap, sym, ◌∙◌, String, false, ◌&&◌, if◌then◌else◌, Option, none, arith,
}
use provider_simulator.Base.Results.{Result, ok, err}
use provider_simulator.Domain.CallLog.{CallLog, record_arrival}
use provider_simulator.Domain.Endpoint.{Endpoint}
use provider_simulator.Domain.Provider.{Provider}
use provider_simulator.FaultPolicy.{Scenario, targets, resolve_mode}
use provider_simulator.Listeners.Listener.{
  ServeResult, Override, Parse, parsed, direct, parse_error, Listener, arrive, Decision, answer,
  refuse, raise, is_respond, is_waiting, effective, override_of, canned, content, on_verdict,
  decision, dress, close, serve_overridden, serve_parsed, serve_request, note_request, with_chosen,
  serve_resolved, serve_entry, serve,
}

dress_untargeted :
    (hooks : Listener) (s : Scenario) (result : ServeResult) (label : String)
    → dress hooks false 0 s result label
      ≡ ((if is_waiting result.action then record result { latency_ms = 0 } else result), label)
unfolding dress
dress_untargeted hooks s result label =
    let plain : (is_respond result.action && false) ≡ false = ground arith in rw (plain, dress) refl

close_untargeted :
    (hooks : Listener) (s t : Scenario) (q : hooks.Parsed) (now handle : ℕ) (log : CallLog)
    (d : Decision)
    → close hooks false 0 s q now handle log d ≡ close hooks false 0 t q now handle log d
unfolding close
close_untargeted hooks s t q now handle log (raise e) = refl
close_untargeted hooks s t q now handle log refuse = refl
close_untargeted hooks s t q now handle log (answer result label rid waited) =
    rw (close, dress_untargeted hooks s result label, dress_untargeted hooks t result label) refl

content_untargeted :
    (hooks : Listener) (s t : Scenario) (request : hooks.Request) (q : hooks.Parsed)
    → hooks.build_content q s request ≡ hooks.build_content q t request
    → content hooks s request q ≡ content hooks t request q
unfolding content
content_untargeted hooks s t request q same = rw (content, same) refl

parsed_untargeted :
    (hooks : Listener) (s t : Scenario) (rs rt : hooks.Key → Option Override) (mode : String)
    (draw other : ℕ) (request : hooks.Request) (now handle : ℕ) (log : CallLog) (q : hooks.Parsed)
    → hooks.build_content q s request ≡ hooks.build_content q t request
    → serve_parsed hooks s rs false mode draw request q now handle log
      ≡ serve_parsed hooks t rt false mode other request q now handle log
unfolding serve_parsed serve_overridden override_of canned effective decision on_verdict
parsed_untargeted hooks s t rs rt mode draw other request now handle log q same =
    close_untargeted hooks s t q now handle log (content hooks s request q)
    ∙ ap (close hooks false 0 t q now handle log) (content_untargeted hooks s t request q same)

request_untargeted :
    (hooks : Listener) (s t : Scenario) (rs rt : hooks.Key → Option Override) (mode : String)
    (draw other : ℕ) (request : hooks.Request) (now handle : ℕ) (log : CallLog)
    → ((q : hooks.Parsed) → hooks.build_content q s request ≡ hooks.build_content q t request)
    → (p : Parse hooks.Parsed) → hooks.parse_request request ≡ p
    → serve_request hooks s rs false mode draw request now handle log
      ≡ serve_request hooks t rt false mode other request now handle log
unfolding serve_request
request_untargeted hooks s t rs rt mode draw other request now handle log same (parsed q) h =
    rw (h, serve_request)
      (parsed_untargeted hooks s t rs rt mode draw other request now handle log q (same q))
request_untargeted hooks s t rs rt mode draw other request now handle log same
      (direct result method label rid) h =
    rw (h, serve_request) refl
request_untargeted hooks s t rs rt mode draw other request now handle log same (parse_error message)
      h =
    rw (h, serve_request) refl

resolve_mode_untargeted :
    (s : Scenario) (ep : Endpoint) (p : Provider)
    → targets s ep ≡ false
    → resolve_mode s ep p ≡ ((false, "success"), p)
unfolding resolve_mode
resolve_mode_untargeted s ep p out = rw out

with_chosen_untargeted :
    (hooks : Listener) (s t : Scenario) (reply : Result ServeResult)
    → with_chosen hooks false s reply ≡ with_chosen hooks false t reply
with_chosen_untargeted hooks s t (ok result) = refl
with_chosen_untargeted hooks s t (err e) = refl

resolved_untargeted :
    (hooks : Listener) (s t : Scenario) (rs rt : hooks.Key → Option Override) (draw other : ℕ)
    (request : hooks.Request) (now handle : ℕ) (p : Provider)
    → ((q : hooks.Parsed) → hooks.build_content q s request ≡ hooks.build_content q t request)
    → serve_resolved hooks s rs draw request now handle ((false, "success"), p)
      ≡ serve_resolved hooks t rt other request now handle ((false, "success"), p)
unfolding serve_resolved
resolved_untargeted hooks s t rs rt draw other request now handle p same =
    let out : Result ServeResult × CallLog =
      serve_request hooks t rt false "success" other request now handle p.log in
    ap
      (λ (o : Result ServeResult × CallLog).
        (with_chosen hooks false s o.0, record p { log = o.1 }))
      (request_untargeted hooks s t rs rt "success" draw other request now handle p.log same
        (hooks.parse_request request) refl)
    ∙ ap (λ (r : Result ServeResult). (r, record p { log = out.1 }))
        (with_chosen_untargeted hooks s t out.0)

entry_untargeted :
    (hooks : Listener) (s t : Scenario) (rs rt : hooks.Key → Option Override) (ep : Endpoint)
    (draw other : ℕ) (request : hooks.Request) (now handle : ℕ) (p : Provider)
    → targets s ep ≡ false
    → targets t ep ≡ false
    → ((q : hooks.Parsed) → hooks.build_content q s request ≡ hooks.build_content q t request)
    → serve_entry hooks s rs ep draw request now handle p
      ≡ serve_entry hooks t rt ep other request now handle p
unfolding serve_entry
entry_untargeted hooks s t rs rt ep draw other request now handle p out out' same =
    let noted : Provider = record p { log = note_request hooks request handle p.log } in
    ap (serve_resolved hooks s rs draw request now handle) (resolve_mode_untargeted s ep noted out)
    ∙ resolved_untargeted hooks s t rs rt draw other request now handle noted same
    ∙ sym (
        ap (serve_resolved hooks t rt other request now handle)
          (resolve_mode_untargeted t ep noted out'))

-- Two blocks that do not target the endpoint of a request give it the same reply, and leave the
-- same provider behind, whatever their modes, overrides, windows, headers, corruptions and draws:
-- only the success content may read the block.
pub serve-targets :
    (hooks : Listener) (s t : Scenario) (rs rt : hooks.Key → Option Override) (ep : Endpoint)
    (draw other : ℕ) (request : hooks.Request) (came : ℕ) (headers_json : String) (now : ℕ)
    (p : Provider)
    → targets s ep ≡ false
    → targets t ep ≡ false
    → ((q : hooks.Parsed) → hooks.build_content q s request ≡ hooks.build_content q t request)
    → serve hooks s rs ep draw request came headers_json now p
      ≡ serve hooks t rt ep other request came headers_json now p
unfolding serve
serve-targets hooks s t rs rt ep draw other request came headers_json now p out out' same =
    let (log, handle) =
      record_arrival p.log came (arrive ep (hooks.headers request) headers_json none) in
    entry_untargeted hooks s t rs rt ep draw other request now handle (record p { log = log }) out
      out' same
