-- ===== src/FaultPolicy/Tests.antt =====
-- Runs of provider_simulator/fault_policy.py.
use provider_simulator.Base.{
  ℕ, ◌≡◌, refl, String, true, false, none, some, [], ◌∷◌, arith, count_if, take, get_elem?,
}
use provider_simulator.Base.Int.{negsuc}
use provider_simulator.Base.Json.{null}
use provider_simulator.Domain.CallLog.{new_log}
use provider_simulator.Domain.Endpoint.{Endpoint}
use provider_simulator.Domain.Provider.{Provider, consume_fail, reset_fail}
use provider_simulator.Domain.Quirks.{quirks}
use provider_simulator.FaultPolicy.{
  number, Scenario, no_fault, down, error, targets, resolve_mode, ladder, decide,
}
use provider_simulator.FaultPolicy.Window.{resolve_all, windowed, resolve_all-windowed}

abbrev provider : Provider
provider = record {
  pool = "eth";
  pid = "1";
  name = "EthProvider1";
  is_backup = false;
  group_label = "";
  scenario = record { values = []; last_write_at = none };
  quirks_class = quirks;
  quirks = record { values = []; last_write_at = none };
  log = new_log "eth" "1" 2000 "EthProvider1";
  endpoints = [];
  fail_count = 4;
  executed = [];
}

abbrev scenario : String → ℕ → Scenario
scenario mode fail_first_n = record {
  mode = mode;
  latency_ms = 0;
  error_steps = 10;
  error_code = number (negsuc 31999);
  error_message = "";
  http_status = 200;
  rate_limit_body = "";
  rate_limit_style = "status";
  error_body = null;
  corruption_mode = none;
  missing_field = none;
  blocks_behind = 0;
  fail_first_n = fail_first_n;
  then_mode = "success";
  drop_at = "before_headers";
  pause_at = none;
  pause_ms = 0;
  transports = some ("http" ∷ []);
  ports = none;
  reply_headers = [];
  reply_trailers = [];
}

abbrev http : Endpoint
http = record { interface = "jsonrpc"; transport = "http"; port = 8545 }

abbrev ws : Endpoint
ws = record { interface = "jsonrpc"; transport = "ws"; port = 8546 }

-- One targeted request is down, the WebSocket one is not targeted, the next targeted one succeeds.
window :
    resolve_all (scenario "down" 1) (reset_fail provider) (http ∷ ws ∷ http ∷ [])
    ≡ (true, "down") ∷ (false, "success") ∷ (true, "success") ∷ []
unfolding resolve_all resolve_mode reset_fail consume_fail targets
window = refl

kinds :
    ((decide (scenario "down" 0) http 50 provider).0.kind ≡ down)
    × ((decide (scenario "success" 0) http 9 provider).0.kind ≡ error)
    × ((decide (scenario "success" 0) http 10 provider).0.kind ≡ no_fault)
unfolding decide resolve_mode targets ladder
kinds = (refl, refl, refl)

resolve_all-windowed_example :
    get_elem? (resolve_all (scenario "down" 1) (reset_fail provider) (http ∷ ws ∷ http ∷ [])) 2
    ≡ some (
        windowed
          (scenario "down" 1)
          http
          (count_if (targets (scenario "down" 1)) (take 3 (http ∷ ws ∷ http ∷ []))))
resolve_all-windowed_example =
    resolve_all-windowed (scenario "down" 1) provider (http ∷ ws ∷ http ∷ []) 2 http (omega arith)
      refl
