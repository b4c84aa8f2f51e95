-- ===== src/ControlApi/Tests.antt =====
-- Runs of provider_simulator/control_api.py.
use provider_simulator.Base.{
  ℕ, map, ◌==◌, if◌then◌else◌, ◌≡◌, refl, String, true, false, none, some, List, [], ◌∷◌, arith,
}
use provider_simulator.Base.Dict
use provider_simulator.Base.Dict.{Dict, string_key, nat_key}
use provider_simulator.Base.Int.{pos}
use provider_simulator.Base.Json.{Json, null, num, text, arr, obj, field, end, nil}
use provider_simulator.Base.Results.{ok, type_error}
use provider_simulator.CacheSim.Entry.{Library}
use provider_simulator.Chains.{Rates, Chain, new_head}
use provider_simulator.ControlApi.{Outcome, done, refused, raised, split_key}
use provider_simulator.ControlApi.Advance.{advance}
use provider_simulator.ControlApi.AdvanceForward.{IsForward, advance-IsForward}
use provider_simulator.ControlApi.Apply.{Api, apply_scenario}
use provider_simulator.ControlApi.Fields.{Floats}
use provider_simulator.ControlApi.History.{
  Reader, Entry, get_history, chosen_providers, has_bad_length,
}
use provider_simulator.ControlApi.Clean.{HasLeftNothing, reset_all-HasLeftNothing}
use provider_simulator.ControlApi.Reads.{get_scenario, get_providers, ready}
use provider_simulator.ControlApi.Resets.{reset_all}
use provider_simulator.ControlApi.Outcomes.{IsAnswered, apply_scenario-IsAnswered}
use provider_simulator.ControlApi.Overlay.{reads, IsFollowed}
use provider_simulator.ControlApi.Ports.{Waits}
use provider_simulator.ControlApi.Raises.{mode_request, apply_scenario-raises}
use provider_simulator.ControlApi.Replay.{Command, posted, wiped, run, replay, run-replay}
use provider_simulator.ControlApi.Scopes.{Simulator}
use provider_simulator.Domain.CallLog.{Arrival, new_log, record_arrival}
use provider_simulator.Domain.Config.{is_field}
use provider_simulator.Domain.Provider.{Provider, fresh}
use provider_simulator.Domain.Quirks.{eth_quirks}
use provider_simulator.Domain.Registry.{Registry, provider}
use provider_simulator.Domain.Scenario.{scenario_config}

abbrev floats : Floats
floats = record { in_unit = λ s. true; is_nonnegative = λ s. true; equals = λ s n. false }

abbrev library : Library
library = record {
  dumps = λ value. "payload";
  loads = λ body. none;
  b64 = λ s. s;
  unb64_hex = λ s. "";
  read_int = λ s. none;
  truncate = λ s. none;
  show = λ value. "0";
  grpc_status_names = [];
}

abbrev waits : Waits
waits port want_open ticket = true

abbrev eth_1 : Provider
eth_1 = record {
  pool = "eth";
  pid = "1";
  name = "EthProvider";
  is_backup = false;
  group_label = "";
  scenario = fresh scenario_config;
  quirks_class = eth_quirks;
  quirks = fresh eth_quirks;
  log = new_log "eth" "1" 2000 "EthProvider";
  endpoints = record { interface = "jsonrpc"; transport = "http"; port = 8545 } ∷ [];
  fail_count = 0;
  executed = [];
}

abbrev api : Api
api = record {
  registry = record {
    pools = ("eth", record { name = "eth"; chain = "eth"; providers = ("1", eth_1) ∷ [] }) ∷ [];
    by_port = [];
  };
  gates = [];
}

abbrev chains : Dict String Chain
chains = ("eth", record { head = some (new_head (pos 100)); heads = [] }) ∷ []

abbrev simulator : Simulator
simulator = record { api = api; chains = chains; caches = []; proxies = [] }

abbrev slow : Json
slow =
    obj
      (field "providers" (obj (field "eth:1" (obj (field "latency_ms" (num (pos 5)) end)) end)) end)

abbrev calls : List Command
calls =
    posted 7 waits slow
    ∷ wiped waits (record { scenario = false; history = true }) null
    ∷ wiped waits (record { scenario = true; history = true }) (text "sui")
    ∷ []

followed : IsFollowed "latency_ms"
unfolding is_field scenario_config
followed = (refl, refl)

run-replay_example :
    reads (run floats library calls simulator).1.api.registry "eth" "1" "latency_ms"
    ≡ replay
        (run floats library calls simulator).0
        "eth"
        "1"
        "latency_ms"
        (reads api.registry "eth" "1" "latency_ms")
unfolding eth_quirks
run-replay_example =
    run-replay floats library calls simulator "eth" "1" "latency_ms" ((tt, tt), tt) followed

apply_scenario-IsAnswered_example : IsAnswered api (apply_scenario floats 7 waits slow api)
apply_scenario-IsAnswered_example = apply_scenario-IsAnswered floats 7 waits api slow

split : split_key "eth:1" ≡ some ("eth", "1")
unfolding split_key
split = refl

found : provider api.registry "eth" "1" ≡ ok eth_1
unfolding provider
found = refl

apply_scenario-raises_example :
    apply_scenario floats 7 waits (mode_request "eth:1" (arr nil)) api ≡ (raised type_error, api)
apply_scenario-raises_example =
    apply_scenario-raises floats 7 waits api "eth:1" "eth" "1" eth_1 nil split found

abbrev rates : Rates
rates = record { is_positive = λ rate. true; made = λ rate ms. ms }

abbrev ten_blocks : Json
ten_blocks = obj (field "blocks" (num (pos 10)) end)

advance-IsForward_example :
    IsForward rates 5 9 chains (advance rates floats 6 7 8 ten_blocks chains).1
advance-IsForward_example =
    advance-IsForward rates floats (λ rate a b h. h) 5 6 7 9 (omega arith) (omega arith)
      (omega arith) 8 ten_blocks chains

abbrev reader : Reader
reader = record {
  read_int = λ s. if s == "1" then some (pos 1) else none;
  lower = λ s. s;
  show_id = λ id. "None";
  same_id = λ a b. true;
  is_from = λ wanted ts. true;
  is_to = λ wanted ts. true;
  asked_headers = λ query. [];
  window = 50;
}

abbrev arrival : Arrival
arrival = record {
  interface = "jsonrpc";
  transport = "http";
  port = 8545;
  lava_headers = [];
  headers_json = "{}";
  deadline_remaining_ms = none;
}

abbrev called : Registry
called = record {
  pools =
      (
        "eth",
        record {
          name = "eth";
          chain = "eth";
          providers =
              (
                "1",
                record eth_1 {
                  log = (record_arrival (record_arrival eth_1.log 900 arrival).0 930 arrival).0;
                },
              )
              ∷ [];
        },
      )
      ∷ [];
  by_port = [];
}

abbrev numbers_of : Outcome (List Entry) → List (ℕ × ℕ × ℕ)
numbers_of (done entries) = map (λ e. (e.call_order, e.correlation_group, e.row.ts)) entries
numbers_of _ = []

-- Two calls within the window: the newest has the second place, and both are of one group.
newest_call : numbers_of (get_history reader called (("last", "1") ∷ [])) ≡ (2, 1, 930) ∷ []
unfolding get_history has_bad_length chosen_providers
    provider_simulator.Domain.Registry.all_providers provider_simulator.Domain.CallLog.get_history
    record_arrival provider_simulator.Domain.CallLog.append_row provider_simulator.Base.Deque.append
    new_log provider_simulator.Domain.CallLog.new_entry
newest_call = refl

reset_all-HasLeftNothing_example : HasLeftNothing (reset_all floats library waits null simulator)
unfolding eth_quirks
reset_all-HasLeftNothing_example =
    reset_all-HasLeftNothing floats library waits simulator ((tt, tt), tt)

-- The settings of a provider after a block, and the pool that is not there.
reads_back :
    (Dict.get_or "latency_ms" null (Dict.get_or "eth:1" [] (get_scenario api.registry))
      ≡ num (pos 0))
    × (get_providers (λ s. s) api.registry (("pool", "sui") ∷ []) ≡ refused 400)
    × (ready api.registry ≡ 1)
unfolding get_scenario provider_simulator.Domain.Registry.all_providers
    provider_simulator.Domain.Config.write_all provider_simulator.Domain.Config.snapshot eth_quirks
    scenario_config fresh provider_simulator.Domain.Config.Laws.defaults_of get_providers ready
reads_back = (refl, refl, refl)
