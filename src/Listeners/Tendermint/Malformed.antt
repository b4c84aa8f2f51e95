-- ===== src/Listeners/Tendermint/Malformed.antt =====
-- provider_simulator/listeners/tendermint.py: which requests are malformed, and what they get.
use Prim.Native.String.{◌++◌}
use provider_simulator.Base.Int.{negsuc}
use provider_simulator.Base.{
  ℕ, ◌&&◌, arith, ◌≡◌, refl, ap, sym, ◌∙◌, String, Bool, true, false, not, Option, none, some, inl,
  inr, Bool-cases, ◌==◌, if◌then◌else◌,
}
use provider_simulator.Base.Json.{Json, null, num, text, arr, obj, Fields, field, end}
use provider_simulator.Base.Results.{ok}
use provider_simulator.Domain.Endpoint.{Endpoint}
use provider_simulator.Domain.Provider.{Provider}
use provider_simulator.FaultPolicy.{Scenario}
use provider_simulator.Listeners.Defaults.{build_parse_error, value_of}
use provider_simulator.Listeners.Listener.{
  Override, parse_error, respond, ServeResult, is_empty, Listener, with_reply_headers, with_chosen,
  serve,
}
use provider_simulator.Listeners.Listener.Steps.{
  IsReached, is_empty-nil, noted_log, handle_of, serve-serve_request, serve_request-parse_error,
}
use provider_simulator.Listeners.Tendermint.{
  Request, Calls, Call, named, parse_value, parse_get, parse_post, parse_request, listener,
}

-- A text that is not empty.
abbrev is_name : Json → Bool
is_name (text String.[]) = false
is_name (text _) = true
is_name _ = false

-- An object that names its method.
abbrev is_call : Option Json → Bool
is_call (some (obj fs)) = is_name (value_of "method" fs)
is_call _ = false

-- A request that names a method: in the path of a GET, in the body of any other.
abbrev pub is_readable : Calls Call → Request → Bool
is_readable calls request =
    if calls.upper request.verb == "GET"
    then not (calls.strip request.path == "")
    else if request.body == ""
    then false
    else is_call (calls.loads request.body)

named-parse_error :
    (calls : Calls Call) (v : Json) (fs : Fields)
    → is_name v ≡ false
    → (message : String) × (named calls v fs ≡ parse_error message)
named-parse_error calls (text String.[]) fs h = (_, refl)
named-parse_error calls (text (String.◌∷◌ c s)) fs h = cc
named-parse_error calls null fs h = (_, refl)
named-parse_error calls (Json.bool b) fs h = (_, refl)
named-parse_error calls (num n) fs h = (_, refl)
named-parse_error calls (Json.real b s) fs h = (_, refl)
named-parse_error calls (arr xs) fs h = (_, refl)
named-parse_error calls (obj inner) fs h = (_, refl)

parse_value-parse_error :
    (calls : Calls Call) (body : String) (v : Option Json)
    → is_call v ≡ false
    → (message : String) × (parse_value calls body v ≡ parse_error message)
parse_value-parse_error calls body none h = (_, refl)
parse_value-parse_error calls body (some (obj fs)) h =
    named-parse_error calls (value_of "method" fs) fs h
parse_value-parse_error calls body (some null) h = (_, refl)
parse_value-parse_error calls body (some (Json.bool b)) h = (_, refl)
parse_value-parse_error calls body (some (num n)) h = (_, refl)
parse_value-parse_error calls body (some (Json.real b s)) h = (_, refl)
parse_value-parse_error calls body (some (text s)) h = (_, refl)
parse_value-parse_error calls body (some (arr xs)) h = (_, refl)

parse_request-parse_error :
    (calls : Calls Call) (request : Request)
    → is_readable calls request ≡ false
    → (message : String) × (parse_request calls request ≡ parse_error message)
unfolding parse_request parse_get parse_post
parse_request-parse_error calls request h = elim (Bool-cases (calls.upper request.verb == "GET")) [
  | inl get ↦ elim (Bool-cases (calls.strip request.path == "")) [
    | inl bare ↦
        ("GET URI has no method (empty path)", rw (get, bare, parse_request, parse_get) refl)
    | inr path ↦ absurd (let no : true ≡ false = rw (sym h, get, path) refl in cc)
  ]
  | inr post ↦ elim (Bool-cases (request.body == "")) [
    | inl bare ↦ ("POST body is empty", rw (post, bare, parse_request, parse_post) refl)
    | inr filled ↦
        let bad : is_call (calls.loads request.body) ≡ false = rw (sym h, post, filled) refl in
        let (message, e) =
          parse_value-parse_error calls request.body (calls.loads request.body) bad in
        (message, rw (post, filled, parse_request, parse_post) e)
  ]
]

-- The reply to a malformed request: the HTTP status 400, and the JSON-RPC envelope of -32700 with no
-- id and the text of what was wrong, at once, with the chosen headers and trailers of the block and
-- with none of its corruption and pause.
pub record IsParseErrorReply (s : Scenario) (message : String) (result : ServeResult) : Type 0 where
  pub action : result.action ≡ respond
  pub status : result.status ≡ 400
  pub body :
      result.body
      ≡ obj (
          field "jsonrpc" (text "2.0") (
            field "id" null (
              field "error"
                (obj (
                  field "code"
                    (num (negsuc 32699))
                    (field "message" (text ("Parse error: " ++ message)) end)))
                end)))
  pub latency : result.latency_ms ≡ 0
  pub pause_at : result.pause_at ≡ none
  pub corruption : result.corruption_mode ≡ none
  pub keeps_body : result.suppress_body ≡ false
  pub headers : result.reply_headers ≡ s.reply_headers
  pub trailers : result.reply_trailers ≡ s.reply_trailers

build_parse_error-IsParseErrorReply :
    (s : Scenario) (message : String)
    → IsParseErrorReply s message
        (with_reply_headers (build_parse_error message) s.reply_headers s.reply_trailers)
unfolding with_reply_headers
build_parse_error-IsParseErrorReply s message =
    elim (Bool-cases (is_empty s.reply_headers && is_empty s.reply_trailers)) [
      | inl bare ↦
          rw (bare, with_reply_headers)
            (record {
              action = refl;
              status = refl;
              body = refl;
              latency = refl;
              pause_at = refl;
              corruption = refl;
              keeps_body = refl;
              headers = sym (is_empty-nil s.reply_headers (ground (arith, bare)));
              trailers = sym (is_empty-nil s.reply_trailers (ground (arith, bare)));
            })
      | inr chosen ↦
          rw (chosen, with_reply_headers)
            (record {
              action = refl;
              status = refl;
              body = refl;
              latency = refl;
              pause_at = refl;
              corruption = refl;
              keeps_body = refl;
              headers = refl;
              trailers = refl;
            })
    ]

-- A Tendermint RPC request of a targeted endpoint that is not down, without a window, which names no
-- method, in the path of a GET or in the body of any other, gets the HTTP status 400 and the JSON-RPC
-- envelope of -32700 with no id, at once, with the chosen headers and trailers of the block and with
-- none of its corruption and pause, whatever fault the block holds.
pub serve-parse_error :
    (calls : Calls Call) (s : Scenario) (responses : String → Option Override) (ep : Endpoint)
    (draw : ℕ) (request : Request) (came : ℕ) (headers_json : String) (now : ℕ) (p : Provider)
    → IsReached s ep
    → is_readable calls request ≡ false
    → (message : String) × (result : ServeResult) × ((serve
          (listener calls)
          s
          responses
          ep
          draw
          request
          came
          headers_json
          now
          p).0
        ≡ ok result)
      × IsParseErrorReply s message result
serve-parse_error calls s responses ep draw request came headers_json now p h bad =
    let hooks : Listener = listener calls in
    let (message, made) = parse_request-parse_error calls request bad in
    (
      message,
      with_reply_headers (build_parse_error message) s.reply_headers s.reply_trailers,
      serve-serve_request hooks s responses ep draw request came headers_json now p h
          ∙ ap (with_chosen hooks true s) (
              serve_request-parse_error hooks s responses ep draw request now
                (handle_of hooks ep request came headers_json p.log)
                (noted_log hooks ep request came headers_json p.log) message h made),
      build_parse_error-IsParseErrorReply s message,
    )
