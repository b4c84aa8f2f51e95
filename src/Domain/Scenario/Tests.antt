-- ===== src/Domain/Scenario/Tests.antt =====
-- Runs of provider_simulator/domain/scenario.py, and of the config base over its class.
use provider_simulator.Base.{◌≡◌, ◌≢◌, refl, true, false, none, [], ◌∷◌, All, String}
use provider_simulator.Base.Int.{pos}
use provider_simulator.Base.Dict.{Dict, string_key, HasDistinctKeys}
use provider_simulator.Base.Json.{
  Json, null, num, text, arr, obj, cons, nil, field, end, items, fields,
}
use provider_simulator.Base.Results.{ok, err, value_error}
use provider_simulator.Domain.Config.{
  Config, is_field, check, write_all, update, snapshot, reset_fields, reset,
}
use provider_simulator.Domain.Config.Laws.{defaults_of}
use provider_simulator.Domain.Scenario.{
  validate_entries, check_trailer_transports, validate_chosen_value, validate_chosen,
  validate_rate_limit_style, is_int_between, validate_reply, validate_unreadable_reply,
  validate_transport_list, validate_transports, validate_port_list, validate_ports, lacks_http,
  validate_pause, validate, scenario_config,
}
use provider_simulator.Domain.Scenario.Names.{
  is_pushback, is_bad_name, is_bad_value, is_reserved, is_bad_pushback, is_refused,
}
use provider_simulator.Domain.Scenario.Checks.{IsPort, IsWire, check_filters}
use provider_simulator.Domain.Scenario.Chosen.{IsSafe, AreApart, validate_chosen-IsSafe}

program : Unit {0}
unfolding validate_entries is_pushback is_bad_name is_bad_value is_reserved is_bad_pushback
    is_refused check_trailer_transports validate_chosen_value validate_chosen
    validate_rate_limit_style is_int_between validate_reply validate_unreadable_reply
    validate_transport_list validate_transports validate_port_list validate_ports lacks_http
    validate_pause validate scenario_config is_field check write_all update snapshot reset_fields
    reset defaults_of
program = tt

-- A rate limit on one address, with a Retry-After header and a pause.
abbrev headers : Json
headers = obj (field "Retry-After" (text "5") (field "X-Trace" (text "a b") end))

abbrev cfg : Dict String Json
cfg =
    ("mode", text "rate_limit")
    ∷ ("ports", arr (cons (num (pos 8545)) nil))
    ∷ ("transports", arr (cons (text "http") (cons (text "ws") nil)))
    ∷ ("reply_headers", headers)
    ∷ ("pause_at", text "mid_body")
    ∷ []

accepted : check scenario_config cfg ≡ ok tt
unfolding program
accepted = refl

-- A header that the simulator owns, two names that differ in case, and a pushback with a zero first.
refusals :
    (validate_chosen_value true (obj (field "Connection" (text "close") end)) null
      ≡ err value_error)
    × (validate_chosen_value true (obj (field "a" (text "1") (field "A" (text "2") end))) null
        ≡ err value_error)
    × (validate_chosen_value false (obj (field "grpc-retry-pushback-ms" (text "0007") end)) null
        ≡ err value_error)
    × (validate_chosen_value false (obj (field "grpc-retry-pushback-ms" (text "-7") end)) null
        ≡ ok tt)
unfolding program
refusals = (refl, refl, refl, refl)

abbrev start : Config
start = record {
  values = ("mode", text "success") ∷ ("latency_ms", num (pos 0)) ∷ [];
  last_write_at = none;
}

check_filters_example :
    (items (cons (num (pos 8545)) nil) ≢ [])
    × All IsPort (items (cons (num (pos 8545)) nil))
    × All IsWire (items (cons (text "http") (cons (text "ws") nil)))
check_filters_example =
    check_filters cfg (cons (num (pos 8545)) nil) (cons (text "http") (cons (text "ws") nil))
      accepted refl refl

validate_chosen-IsSafe_example :
    All (λ entry. IsSafe true entry.0 entry.1) (fields (field "Retry-After" (text "5") end))
    × AreApart (fields (field "Retry-After" (text "5") end))
unfolding program
validate_chosen-IsSafe_example =
    validate_chosen-IsSafe true (field "Retry-After" (text "5") end) null refl

scenario_fields-HasDistinctKeys : HasDistinctKeys scenario_config.declared
unfolding program
scenario_fields-HasDistinctKeys = (
  refl,
  (
    refl,
    (
      refl,
      (
        refl,
        (
          refl,
          (
            refl,
            (
              refl,
              (
                refl,
                (
                  refl,
                  (
                    refl,
                    (
                      refl,
                      (
                        refl,
                        (
                          refl,
                          (
                            refl,
                            (
                              refl,
                              (refl, (refl, (refl, (refl, (refl, (refl, (refl, (refl, tt)))))))),
                            ),
                          ),
                        ),
                      ),
                    ),
                  ),
                ),
              ),
            ),
          ),
        ),
      ),
    ),
  ),
)
