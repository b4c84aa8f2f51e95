-- ===== src/ControlApi/Rules.antt =====
-- provider_simulator/control_api.py: the rules that need the endpoints of a provider. `updates` is the
-- block, `stored` the snapshot of the scenario, and `effective` the one merged over the other. A rule
-- answers whether it refuses.
use provider_simulator.Base.{
  ℕ, String, Bool, true, false, not, ◌&&◌, ◌||◌, Option, none, some, List, [], ◌∷◌, any, all,
  select, nat_eq, is_one_of, codes, ◌==◌, if◌then◌else◌,
}
use provider_simulator.Base.Dict
use provider_simulator.Base.Dict.{Dict, string_key, nat_key}
use provider_simulator.Base.Int.{pos}
use provider_simulator.Base.Json.{
  Json, null, bool, num, real, text, arr, obj, nil, field, items, fields, is_infix, is_text,
  is_truthy,
}
use provider_simulator.ControlApi.Fields.{Floats}
use provider_simulator.Domain.Config.{write_all}
use provider_simulator.Domain.Endpoint.{Endpoint, transports}
use provider_simulator.Domain.Scenario.{value_of}

-- A JSON value that equals a port.
abbrev pub is_port : Floats → ℕ → Json → Bool
is_port floats port (num (pos n)) = nat_eq n port
is_port floats port (bool b) = nat_eq (if b then 1 else 0) port
is_port floats port (real nonzero s) = floats.equals s port
is_port floats port value = false

-- {**stored, **updates}
abbrev pub effective_of : Dict String Json → Dict String Json → Dict String Json
effective_of stored updates = write_all updates stored

-- The filter of the transports, then that of the ports: null, or a value that may hold the one of the
-- endpoint. A text holds its parts and an object its keys, none of which is a number; Python raises on
-- the other values.
abbrev pub passes_wires : Json → Endpoint → Bool
passes_wires (arr wires) ep = any (is_text ep.transport) (items wires)
passes_wires (text t) ep = is_infix (codes ep.transport) (codes t)
passes_wires (obj fs) ep = Dict.has ep.transport (fields fs)
passes_wires _ ep = true

abbrev pub passes_ports : Floats → Json → Endpoint → Bool
passes_ports floats (arr ports) ep = any (is_port floats ep.port) (items ports)
passes_ports floats (obj fs) ep = false
passes_ports floats _ ep = true

-- fault_policy.targets, on a dictionary
unfoldable pub targets_block : Floats → Dict String Json → Endpoint → Bool
targets_block floats block ep =
    passes_wires (value_of "transports" block) ep && passes_ports floats (value_of "ports" block) ep

abbrev pub is_list_or_null : Json → Bool
is_list_or_null null = true
is_list_or_null (arr values) = true
is_list_or_null _ = false

-- _a_filter_scenario_config_refuses
unfoldable pub has_refused_filter : Dict String Json → Bool
has_refused_filter block =
    not (is_list_or_null (value_of "transports" block))
    || not (is_list_or_null (value_of "ports" block))
    || is_empty_list (value_of "ports" block)
  where
    is_empty_list : Json → Bool
    is_empty_list (arr nil) = true
    is_empty_list _ = false

-- _ports_the_provider_does_not_serve
abbrev pub any_unserved : Floats → List Endpoint → Json → Bool
any_unserved floats endpoints (arr ports) =
    any (λ port. not (any (λ ep. is_port floats ep.port port) endpoints)) (items ports)
any_unserved floats endpoints _ = false

unfoldable pub names_unserved_port : Floats → List Endpoint → Dict String Json → Bool
names_unserved_port floats endpoints updates =
    any_unserved floats endpoints (value_of "ports" updates)

-- _a_pause_no_named_port_can_serve
abbrev pub no_http_port : Floats → List Endpoint → Json → Bool
no_http_port floats endpoints (arr nil) = false
no_http_port floats endpoints (arr ports) =
    not (any (λ ep. ep.transport == "http" && any (is_port floats ep.port) (items ports)) endpoints)
no_http_port floats endpoints _ = false

unfoldable pub pauses_nowhere : Floats → List Endpoint → Dict String Json → Dict String Json → Bool
pauses_nowhere floats endpoints stored updates =
    is_truthy (value_of "pause_at" (effective_of stored updates))
    && no_http_port floats endpoints (value_of "ports" (effective_of stored updates))

-- _WRITERS_OF_CHOSEN
abbrev pub writers_of_chosen : String → List String
writers_of_chosen name = if name == "reply_headers" then transports else "http2" ∷ []

abbrev pub sends_metadata : Json → Bool
sends_metadata (obj (field key value rest)) = true
sends_metadata _ = false

-- _chosen_metadata_no_endpoint_can_send
unfoldable pub chooses_unsent :
    Floats → String → List Endpoint → Dict String Json → Dict String Json → Bool
chooses_unsent floats name endpoints stored updates =
    let block = effective_of stored updates in
    sends_metadata (value_of name block)
    && not (has_refused_filter block)
    && not (
        any (λ ep. is_one_of ep.transport (writers_of_chosen name) && targets_block floats block ep)
          endpoints)

abbrev pub serves : String → List Endpoint → Bool
serves interface endpoints = any (λ ep. ep.interface == interface) endpoints

abbrev pub is_empty {ℓ} : {A : Type ℓ} → List A → Bool
is_empty [] = true
is_empty _ = false

-- _an_invalid_json_no_endpoint_can_apply
unfoldable pub corrupts_json_nowhere : List Endpoint → Dict String Json → Bool
corrupts_json_nowhere endpoints updates =
    is_text "invalid_json" (value_of "corruption_mode" updates)
    && not (is_empty endpoints)
    && all (λ ep. ep.interface == "grpc") endpoints

-- _an_invalid_proto_no_endpoint_can_apply
unfoldable pub corrupts_proto_nowhere : List Endpoint → Dict String Json → Bool
corrupts_proto_nowhere endpoints updates =
    is_text "invalid_proto" (value_of "corruption_mode" updates) && not (serves "grpc" endpoints)

-- cfg[field] != default, for a field that is there
abbrev pub is_set : String → (Json → Bool) → Dict String Json → Bool
is_set name is_default updates = Dict.has name updates && not (is_default (value_of name updates))

abbrev pub is_null : Json → Bool
is_null null = true
is_null _ = false

-- _a_graphql_field_no_endpoint_can_apply
unfoldable pub sets_graphql_field : List Endpoint → Dict String Json → Bool
sets_graphql_field endpoints updates =
    not (serves "graphql" endpoints)
    && (is_set "rate_limit_style" (is_text "status") updates
        || is_set "error_body" is_null updates
        || is_set "unreadable_reply" is_null updates)

abbrev pub has_body : Json → Bool
has_body (obj cfg) = Dict.has "body" (fields cfg)
has_body _ = false

abbrev pub has_canned_body : Json → Bool
has_canned_body (obj entries) = any (λ (method, entry). has_body entry) (fields entries)
has_canned_body _ = false

-- _a_canned_body_no_endpoint_can_serve
unfoldable pub cans_unserved_body : List Endpoint → Dict String Json → Bool
cans_unserved_body endpoints updates =
    serves "grpc" endpoints
    && not (
        serves "jsonrpc" endpoints
        || serves "graphql" endpoints
        || serves "tendermintrpc" endpoints)
    && has_canned_body (value_of "responses" updates)

-- The rules that answer 400, in the order of the call.
unfoldable pub breaks_rule : Floats → List Endpoint → Dict String Json → Dict String Json → Bool
unfolding names_unserved_port pauses_nowhere chooses_unsent corrupts_json_nowhere
    corrupts_proto_nowhere sets_graphql_field cans_unserved_body
breaks_rule floats endpoints stored updates =
    names_unserved_port floats endpoints updates
    || pauses_nowhere floats endpoints stored updates
    || chooses_unsent floats "reply_headers" endpoints stored updates
    || chooses_unsent floats "reply_trailers" endpoints stored updates
    || corrupts_json_nowhere endpoints updates
    || corrupts_proto_nowhere endpoints updates
    || sets_graphql_field endpoints updates
    || cans_unserved_body endpoints updates

-- value == 0, as Python compares numbers
abbrev pub is_zero : Json → Bool
is_zero (num (pos n)) = nat_eq n 0
is_zero (real nonzero s) = not nonzero
is_zero (bool b) = not b
is_zero _ = false

-- _NEEDS_A_REQUEST: a field that is set and acts on a request
unfoldable pub needs_request : Dict String Json → Bool
needs_request block =
    is_set "fail_first_n" is_zero block
    || is_set "error_probability" is_zero block
    || is_set "latency_ms" is_zero block
    || is_set "corruption_mode" is_null block
    || is_set "pause_at" is_null block

-- _a_port_closed_that_cannot_happen: the status of its refusal
unfoldable pub refused_close :
    Floats → (ℕ → Bool) → List Endpoint → Dict String Json → Dict String Json → Option ℕ
unfolding has_refused_filter targets_block needs_request
refused_close floats has_gate endpoints stored updates =
    let block = effective_of stored updates in
    let targeted = select (targets_block floats block) endpoints in
    if not (is_text "port_closed" (value_of "mode" block)) || has_refused_filter block
    then none
    else if is_empty targeted
    then some 400
    else if any (λ ep. not (has_gate ep.port)) targeted
    then some 409
    else if needs_request block
    then some 400
    else none
