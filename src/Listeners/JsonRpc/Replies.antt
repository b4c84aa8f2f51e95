-- ===== src/Listeners/JsonRpc/Replies.antt =====
-- provider_simulator/listeners/jsonrpc.py: what a JSON-RPC request of a targeted endpoint is answered.
use provider_simulator.Base.{
  ℕ, ◌≡◌, ◌≢◌, refl, sym, ap, arith, [], ◌∙◌, String, true, false, Option, none, some, inl, inr,
  ◌==◌, ◌&&◌, Bool-cases,
}
use provider_simulator.Base.Dict
use provider_simulator.Base.Int.{pos}
use provider_simulator.Base.Dict.{Dict, string_key}
use provider_simulator.Base.Json.{Json, arr, obj, Items, Fields, text, fields, field, end}
use provider_simulator.Base.Results.{Error, Result, ok, err, type_error}
use provider_simulator.Domain.CallLog.{RequestId, CallLog}
use provider_simulator.Domain.Endpoint.{Endpoint}
use provider_simulator.Domain.Provider.{Provider}
use provider_simulator.FaultPolicy.{ErrorCode, number, name, Scenario, targets, ladder}
use provider_simulator.Listeners.Defaults
use provider_simulator.Listeners.Defaults.{
  error_envelope, code_value, value_of, success_label, written,
}
use provider_simulator.Listeners.JsonRpc.{
  Request, Calls, parse_value, parse_request, batch_reply, or_one, envelope, build_fault, listener,
}
use provider_simulator.Listeners.Listener.{
  Override, parsed, direct, respond, ServeResult, Listener, with_reply_headers, is_empty,
  with_chosen, canned, decision, on_verdict, dress, close, effective, serve_overridden, serve,
}
use provider_simulator.Listeners.Listener.Outcomes.{IsLabelling, apart, if_apart}
use provider_simulator.Listeners.Listener.Settled.{IsCounted, IsSettled, serve-IsSettled}
use provider_simulator.Listeners.Listener.Steps.{
  IsReached, is_empty-nil, noted_log, handle_of, serve-serve_request, serve_request-serve_parsed,
  serve_request-direct, serve_parsed-raises, serve_parsed-serve_overridden,
}

parse_value_label :
    (v : Option Json) (result : ServeResult) (method label : String) (rid : Option RequestId)
    → parse_value v ≡ direct result method label rid
    → label ≢ "in_flight"
parse_value_label none result method label rid h = cc
parse_value_label (some (arr xs)) result method label rid h =
    let same : label ≡ "error" = cc in rw same (apart "error" "in_flight" refl)
parse_value_label (some (obj fs)) result method label rid h = cc
parse_value_label (some Json.null) result method label rid h = cc
parse_value_label (some (Json.bool b)) result method label rid h = cc
parse_value_label (some (Json.num n)) result method label rid h = cc
parse_value_label (some (Json.real b s)) result method label rid h = cc
parse_value_label (some (text s)) result method label rid h = cc

body_label :
    (loads : String → Option Json) (headers : Dict String String) (body : String)
    (result : ServeResult) (method label : String) (rid : Option RequestId)
    → parse_request loads (record { body = body; headers = headers })
      ≡ direct result method label rid
    → label ≢ "in_flight"
unfolding parse_request
body_label loads headers String.[] result method label rid h = cc
body_label loads headers (String.◌∷◌ c s) result method label rid h =
    parse_value_label (loads (String.◌∷◌ c s)) result method label rid h

batch_parse :
    (loads : String → Option Json) (headers : Dict String String) (body : String) (xs : Items)
    → (body == "") ≡ false
    → loads body ≡ some (arr xs)
    → parse_request loads (record { body = body; headers = headers })
      ≡ direct batch_reply "batch" "error" none
unfolding parse_request
batch_parse loads headers String.[] xs filled batch = cc
batch_parse loads headers (String.◌∷◌ c s) xs filled batch = ap parse_value batch

pub success_label_apart : (body : Json) → success_label body ≢ "in_flight"
success_label_apart (obj fs) =
    if_apart (Dict.has "error" (fields fs)) "error" "success" "in_flight"
      (apart "error" "in_flight" refl) (apart "success" "in_flight" refl)
success_label_apart Json.null = apart "success" "in_flight" refl
success_label_apart (Json.bool b) = apart "success" "in_flight" refl
success_label_apart (Json.num n) = apart "success" "in_flight" refl
success_label_apart (Json.real b s) = apart "success" "in_flight" refl
success_label_apart (text s) = apart "success" "in_flight" refl
success_label_apart (arr xs) = apart "success" "in_flight" refl

pub listener-IsLabelling : (calls : Calls) → IsLabelling (listener calls)
listener-IsLabelling calls = record {
  direct_label = λ request result method label rid h.
      body_label calls.loads request.headers request.body result method label rid h;
  content_label = λ status body q. success_label_apart body;
  corrupt_label = λ result label s h. h;
}

still_in_flight :
    (log log' : CallLog) (reply : Result ServeResult) (e : Error)
    → reply ≡ err e
    → IsSettled log reply log'
    → IsCounted log log' "in_flight"
still_in_flight log log' reply e raised (inl (result, label, answered, ended, counted)) = cc
still_in_flight log log' reply e raised (inr (e', raised', counted)) = counted

-- A list or an object.
abbrev pub IsListOrObject : Json → Type 0
IsListOrObject (arr xs) = Unit
IsListOrObject (obj fs) = Unit
IsListOrObject v = ⊥

unhashable_key :
    (v : Json)
    → IsListOrObject v
    → (Defaults.not_none v ≡ some v) × (Defaults.hashed v ≡ err type_error)
unhashable_key (arr xs) h = (refl, refl)
unhashable_key (obj fs) h = (refl, refl)
unhashable_key Json.null h = absurd h
unhashable_key (Json.bool b) h = absurd h
unhashable_key (Json.num n) h = absurd h
unhashable_key (Json.real b t) h = absurd h
unhashable_key (text t) h = absurd h

-- A request of a targeted endpoint that is not down, without a window, whose `method` is a list or an
-- object, is not answered: the look into `responses` raises TypeError, whatever the block holds, and the
-- request is counted as in flight for good.
pub serve-method_key :
    (calls : Calls) (s : Scenario) (responses : Json → Option Override) (ep : Endpoint) (draw : ℕ)
    (request : Request) (came : ℕ) (headers_json : String) (now : ℕ) (p : Provider) (q : Fields)
    → IsReached s ep
    → parse_request calls.loads request ≡ parsed q
    → IsListOrObject (Dict.get_or "method" Json.null (fields q))
    → ((serve (listener calls) s responses ep draw request came headers_json now p).0
        ≡ err type_error)
      × IsCounted p.log
          (serve (listener calls) s responses ep draw request came headers_json now p).1.log
          "in_flight"
serve-method_key calls s responses ep draw request came headers_json now p q h made unhashable =
    let hooks : Listener = listener calls in
    let handle : ℕ = handle_of hooks ep request came headers_json p.log in
    let log : CallLog = noted_log hooks ep request came headers_json p.log in
    let method : Json = Dict.get_or "method" Json.null (fields q) in
    let (key, raised) = unhashable_key method unhashable in
    let fails : (serve hooks s responses ep draw request came headers_json now p).0
        ≡ err type_error =
      serve-serve_request hooks s responses ep draw request came headers_json now p h
      ∙ ap (λ (r : Result ServeResult × CallLog). with_chosen hooks true s r.0)
          (serve_request-serve_parsed hooks s responses ep draw request now handle log q h made
            ∙ serve_parsed-raises hooks s responses s.mode draw request now handle log q method
                type_error key raised) in
    (
      fails,
      still_in_flight p.log (serve hooks s responses ep draw request came headers_json now p).1.log
          _ type_error fails
          (serve-IsSettled hooks s responses ep draw request came headers_json now p
            (listener-IsLabelling calls)),
    )

-- The id of an answer: that of the request, or 1 where it has none.
abbrev pub IsIdOf : Json → Json → Type 0
IsIdOf Json.null answered = answered ≡ Json.num (pos 1)
IsIdOf given answered = answered ≡ given

-- An error code as JSON: a whole number, or a text.
abbrev pub IsCodeOf : ErrorCode → Json → Type 0
IsCodeOf (number n) code = code ≡ Json.num n
IsCodeOf (name t) code = code ≡ text t

or_one-IsIdOf : (given : Json) → IsIdOf given (or_one given)
or_one-IsIdOf Json.null = refl
or_one-IsIdOf (Json.bool b) = refl
or_one-IsIdOf (Json.num n) = refl
or_one-IsIdOf (Json.real b t) = refl
or_one-IsIdOf (text t) = refl
or_one-IsIdOf (arr xs) = refl
or_one-IsIdOf (obj fs) = refl

code_value-IsCodeOf : (code : ErrorCode) → IsCodeOf code (code_value code)
code_value-IsCodeOf (number n) = refl
code_value-IsCodeOf (name t) = refl

-- A reply of the block's error, with what the block says of its form; the chosen headers apart.
pub record IsError (s : Scenario) (fs : Fields) (result : ServeResult) : Type 0 where
  pub rid : Json
  pub code : Json
  pub is_id : IsIdOf (Dict.get_or "id" Json.null (fields fs)) rid
  pub is_code : IsCodeOf s.error_code code
  pub action : result.action ≡ respond
  pub status : result.status ≡ s.http_status
  pub body :
      result.body
      ≡ obj (
          field "jsonrpc" (text "2.0") (
            field "id" rid (
              field "error"
                (obj (field "code" code (field "message" (text s.error_message) end)))
                end)))
  pub latency : result.latency_ms ≡ s.latency_ms
  pub pause_at : result.pause_at ≡ s.pause_at
  pub pause_ms : result.pause_ms ≡ s.pause_ms
  pub corruption : result.corruption_mode ≡ s.corruption_mode
  pub missing_field : result.missing_field ≡ s.missing_field
  pub keeps_body : result.suppress_body ≡ false

-- Such a reply with the chosen headers and trailers of the block.
pub record IsErrorReply (s : Scenario) (fs : Fields) (result : ServeResult) : Type 0 where
  pub is_error : IsError s fs result
  pub headers : result.reply_headers ≡ s.reply_headers
  pub trailers : result.reply_trailers ≡ s.reply_trailers

chosen-IsErrorReply :
    (s : Scenario) (fs : Fields) (result : ServeResult)
    → IsError s fs result
    → result.reply_headers ≡ []
    → result.reply_trailers ≡ []
    → IsErrorReply s fs (with_reply_headers result s.reply_headers s.reply_trailers)
unfolding with_reply_headers
chosen-IsErrorReply s fs result h no_headers no_trailers =
    elim (Bool-cases (is_empty s.reply_headers && is_empty s.reply_trailers)) [
      | inl bare ↦
          rw (bare, with_reply_headers)
            (record {
              is_error = h;
              headers = no_headers ∙ sym (is_empty-nil s.reply_headers (ground (arith, bare)));
              trailers = no_trailers ∙ sym (is_empty-nil s.reply_trailers (ground (arith, bare)));
            })
      | inr chosen ↦
          rw (chosen, with_reply_headers)
            (record {
              is_error = record {
                rid = h.rid;
                code = h.code;
                is_id = h.is_id;
                is_code = h.is_code;
                action = h.action;
                status = h.status;
                body = h.body;
                latency = h.latency;
                pause_at = h.pause_at;
                pause_ms = h.pause_ms;
                corruption = h.corruption;
                missing_field = h.missing_field;
                keeps_body = h.keeps_body;
              };
              headers = refl;
              trailers = refl;
            })
    ]

build_fault-IsErrorReply :
    (calls : Calls) (s : Scenario) (draw : ℕ) (request : Request) (now handle : ℕ) (log : CallLog)
    (fs : Fields)
    → s.mode ≡ "error"
    → (result : ServeResult) × ((serve_overridden
          (listener calls)
          none
          s
          true
          s.mode
          draw
          request
          fs
          now
          handle
          log).0
        ≡ ok result)
      × IsError s fs result
      × (result.reply_headers ≡ [])
      × (result.reply_trailers ≡ [])
unfolding serve_overridden effective canned decision on_verdict ladder build_fault envelope close
    dress
build_fault-IsErrorReply calls s draw request now handle log fs fails = rw fails (
  _,
  refl,
  record {
    rid = or_one (value_of "id" fs);
    code = code_value s.error_code;
    is_id = or_one-IsIdOf (value_of "id" fs);
    is_code = code_value-IsCodeOf s.error_code;
    action = refl;
    status = refl;
    body = refl;
    latency = refl;
    pause_at = refl;
    pause_ms = refl;
    corruption = refl;
    missing_field = refl;
    keeps_body = refl;
  },
  refl,
  refl,
)

-- In the mode `error` without a window, a request of a targeted endpoint whose body is an object
-- with a text for a method that has no entry of its own gets the JSON-RPC envelope of an error: the
-- version, its id, or 1 where it has none, and the code and the message of the block, under the HTTP
-- status of the block, after the latency of the block, and with its pause, its corruption and its
-- chosen headers and trailers.
pub serve-IsErrorReply :
    (calls : Calls) (s : Scenario) (responses : Json → Option Override) (ep : Endpoint) (draw : ℕ)
    (request : Request) (came : ℕ) (headers_json : String) (now : ℕ) (p : Provider) (fs : Fields)
    (method : String)
    → targets s ep ≡ true
    → s.fail_first_n ≡ 0
    → s.mode ≡ "error"
    → parse_request calls.loads request ≡ parsed fs
    → Dict.get_or "method" Json.null (fields fs) ≡ text method
    → responses (text method) ≡ none
    → (result : ServeResult) × ((serve
          (listener calls)
          s
          responses
          ep
          draw
          request
          came
          headers_json
          now
          p).0
        ≡ ok result)
      × IsErrorReply s fs result
serve-IsErrorReply calls s responses ep draw request came headers_json now p fs method targeted
      steady fails made key absent =
    let hooks : Listener = listener calls in
    let handle : ℕ = handle_of hooks ep request came headers_json p.log in
    let log : CallLog = noted_log hooks ep request came headers_json p.log in
    let h : IsReached s ep = record {
      targeted = targeted;
      steady = steady;
      up = ap (λ m. m == "down") fails;
    } in
    let (result, reply, good, bare, untrailed) =
      build_fault-IsErrorReply calls s draw request now handle log fs fails in
    (
      with_reply_headers result s.reply_headers s.reply_trailers,
      serve-serve_request hooks s responses ep draw request came headers_json now p h
          ∙ ap (λ (r : Result ServeResult × CallLog). with_chosen hooks true s r.0)
              (serve_request-serve_parsed hooks s responses ep draw request now handle log fs h made
                ∙ serve_parsed-serve_overridden hooks s responses s.mode draw request now handle log
                    fs (text method) (ap Defaults.not_none key) refl
                ∙ ap
                    (λ over.
                      serve_overridden hooks over s true s.mode draw request fs now handle log)
                    absent)
          ∙ ap (with_chosen hooks true s) reply,
      chosen-IsErrorReply s fs result good bare untrailed,
    )

-- A batch to a targeted endpoint that is not down gets one -32600 envelope and the chosen headers,
-- whatever the fault of the block.
pub serve-batch :
    (calls : Calls) (s : Scenario) (responses : Json → Option Override) (ep : Endpoint) (draw : ℕ)
    (request : Request) (came : ℕ) (headers_json : String) (now : ℕ) (p : Provider) (xs : Items)
    → IsReached s ep
    → (request.body == "") ≡ false
    → calls.loads request.body ≡ some (arr xs)
    → (serve (listener calls) s responses ep draw request came headers_json now p).0
      ≡ ok (with_reply_headers batch_reply s.reply_headers s.reply_trailers)
serve-batch calls s responses ep draw request came headers_json now p xs h filled batch =
    let hooks : Listener = listener calls in
    serve-serve_request hooks s responses ep draw request came headers_json now p h
    ∙ ap (with_chosen hooks true s) (
        serve_request-direct hooks s responses ep draw request now
          (handle_of hooks ep request came headers_json p.log)
          (noted_log hooks ep request came headers_json p.log) batch_reply "batch" "error" none h
          (batch_parse calls.loads request.headers request.body xs filled batch))
