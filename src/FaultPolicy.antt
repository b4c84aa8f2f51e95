-- ===== src/FaultPolicy.antt =====
-- provider_simulator/fault_policy.py: which fault one request gets. A scenario is the snapshot of
-- a ScenarioConfig, one field for each key with the type that its default has. `random.random()`
-- gives a multiple of 2^-53 below 1: a draw is that multiple, and `error_steps` is the least number
-- of steps that is not below `error_probability`, so that `draw < error_steps` is the test of the
-- program. A `fail_first_n` or a latency that is not positive is 0.
pub mod Window
pub mod Verdicts
mod Tests
use provider_simulator.Base.{
  ℕ, ◌+◌, String, Bool, true, false, ◌&&◌, ◌||◌, Option, none, some, List, [], ◌∷◌, any, ltb,
  nat_eq, is_one_of, ◌==◌, if◌then◌else◌,
}
use provider_simulator.Base.Int.{ℤ, pos, negsuc}
use provider_simulator.Base.Dict.{Dict}
use provider_simulator.Base.Json.{Json, null}
use provider_simulator.Domain.Endpoint.{Endpoint}
use provider_simulator.Domain.Provider.{Provider, consume_fail}

-- error_code: int | str
pub data ErrorCode : Type 0 where
  number : ℤ → ErrorCode
  name : String → ErrorCode

pub record Scenario : Type 0 where
  pub mode : String
  pub latency_ms : ℕ
  pub error_steps : ℕ
  pub error_code : ErrorCode
  pub error_message : String
  pub http_status : ℕ
  pub rate_limit_body : String
  pub rate_limit_style : String
  pub error_body : Json
  pub corruption_mode : Option String
  pub missing_field : Option String
  pub blocks_behind : ℕ
  pub fail_first_n : ℕ
  pub then_mode : String
  pub drop_at : String
  pub pause_at : Option String
  pub pause_ms : ℕ
  pub transports : Option (List String)
  pub ports : Option (List ℕ)
  pub reply_headers : Dict String String
  pub reply_trailers : Dict String String

pub data Kind : Type 0 where
  no_fault down hang drop rate_limit error : Kind

pub record Verdict : Type 0 where
  pub kind : Kind
  pub status : ℕ
  pub error_code : ErrorCode
  pub error_message : String
  pub drop_at : String
  pub rate_limit_body : String
  pub rate_limit_style : String
  pub error_body : Json

-- Verdict(kind=…): the other fields at their defaults.
abbrev pub verdict : Kind → Verdict
verdict kind = record {
  kind = kind;
  status = 200;
  error_code = number (pos 0);
  error_message = "";
  drop_at = "before_headers";
  rate_limit_body = "";
  rate_limit_style = "status";
  error_body = null;
}

-- A filter that is absent names everything.
abbrev pub passes {ℓ} : {A : Type ℓ} → (A → Bool) → Option (List A) → Bool
passes p none = true
passes p (some names) = any p names

unfoldable pub targets : Scenario → Endpoint → Bool
targets s ep =
    passes (λ wire. ep.transport == wire) s.transports
    && passes (λ port. nat_eq ep.port port) s.ports

unfoldable pub port_closed : Scenario → Endpoint → Bool
port_closed s ep = s.mode == "port_closed" && targets s ep

-- The provider, with its counter, is the state: only a targeted request under a window moves it.
unfoldable pub resolve_mode : Scenario → Endpoint → Provider → (Bool × String) × Provider
resolve_mode s ep p =
    if targets s ep
    then (if ltb 0 s.fail_first_n
        then (let (p', count) = consume_fail p in
            ((true, (if ltb s.fail_first_n count then s.then_mode else s.mode)), p'))
        else ((true, s.mode), p))
    else ((false, "success"), p)

unfoldable pub ladder : String → Scenario → ℕ → Verdict
ladder mode s draw =
    if mode == "down"
    then verdict down
    else if mode == "hang"
    then verdict hang
    else if mode == "drop_connection"
    then record (verdict drop) { drop_at = s.drop_at }
    else if mode == "rate_limit"
    then record (verdict rate_limit) {
      status = 429;
      error_code = number (pos 429);
      error_message = "Too many requests";
      rate_limit_body = s.rate_limit_body;
      rate_limit_style = s.rate_limit_style;
    }
    else if mode == "error" || ltb draw s.error_steps
    then record (verdict error) {
      status = s.http_status;
      error_code = s.error_code;
      error_message = s.error_message;
      error_body = s.error_body;
    }
    else verdict no_fault

unfoldable pub decide : Scenario → Endpoint → ℕ → Provider → Verdict × Provider
decide s ep draw p =
    let ((targeted, mode), p') = resolve_mode s ep p in
    (if targeted then ladder mode s draw else verdict no_fault, p')
