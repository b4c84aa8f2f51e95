-- ===== src/Listeners/Rest/Tests.antt =====
-- Runs of provider_simulator/listeners/rest.py.
use provider_simulator.Base.{◌≡◌, refl, none, some, [], ◌∷◌, ◌==◌, ◌&&◌, if◌then◌else◌}
use provider_simulator.Base.Json.{text, obj, arr, nil, cons, Fields, end, field}
use provider_simulator.Base.Results.{ok}
use provider_simulator.Domain.CallLog.{RequestId}
use provider_simulator.Listeners.Rest.{
  Request, Calls, read_request, find_route, caller_request_id, method_key, body_for_history,
}

abbrev calls : Calls
calls = record {
  routes = ("POST", "/txs") ∷ ("GET", "/blocks/{height}") ∷ [];
  match_of = λ template path.
      if template == "/blocks/{height}" && path == "/blocks/5"
      then some (("height", "5") ∷ [])
      else none;
  loads = λ s. none;
  upper = λ s. s;
  lower = λ s. if s == "X-Request-Id" then "x-request-id" else s;
  shown = λ v. "q";
  digest = λ s. (0, s);
  build_success = λ call s. ok (200, obj end);
}

abbrev request : Fields → Request
request query = record {
  verb = "HEAD";
  path = "/blocks/5";
  query = query;
  body = "";
  headers = ("Host", "h") ∷ ("X-Request-Id", "abc") ∷ [];
  next_id = 4;
}

-- A HEAD is matched against the routes of GET, and its id comes from the header when the query has none.
head_of_block :
    (method_key (read_request calls (request end)) ≡ some ("GET", "/blocks/{height}"))
    × ((read_request calls (request end)).request_id ≡ RequestId.text "abc")
    × ((read_request calls
          (request (field "request_id" (arr (cons (text "q") nil)) end))).request_id
        ≡ RequestId.text "q")
    × (body_for_history calls (request end) ≡ none)
unfolding read_request find_route caller_request_id
head_of_block = (refl, refl, refl, refl)
