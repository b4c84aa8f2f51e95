-- ===== src/Domain/Provider.antt =====
-- provider_simulator/domain/provider.py: a provider with its runtime counters and its memory of
-- executed transactions, and how a pool builds one.
pub mod Memory
mod Tests
use provider_simulator.Base.{
  ℕ, ◌+◌, String, Bool, true, false, Option, none, some, List, [], ◌∷◌, drop, length, ltb,
  if◌then◌else◌,
}
use provider_simulator.Base.Dict
use provider_simulator.Base.Dict.{Dict, string_key}
use provider_simulator.Base.Json.{Json}
use provider_simulator.Base.Results.{Result, ok, err, value_error, ◌>>=◌, ◌>>◌, raise_if}
use provider_simulator.Domain.Config.{ConfigClass, Config}
use provider_simulator.Domain.Config.Laws.{defaults_of}
use provider_simulator.Domain.CallLog.{CallLog, new_log}
use provider_simulator.Domain.Endpoint.{Endpoint}
use provider_simulator.Domain.Quirks.{quirks_for}
use provider_simulator.Domain.Scenario.{scenario_config}

-- The most executed transactions that one provider remembers.
unfoldable pub executed_memory_cap : ℕ
executed_memory_cap = 10_000

-- The pool of a provider is named: the pool object holds the provider.
pub record Provider : Type 0 where
  pub pool : String
  pub pid : String
  pub name : String
  pub is_backup : Bool
  pub group_label : String
  pub scenario : Config
  pub quirks_class : ConfigClass
  pub quirks : Config
  pub log : CallLog
  pub endpoints : List Endpoint
  pub fail_count : ℕ
  pub executed : Dict String ℕ

pub record Pool : Type 0 where
  pub name : String
  pub chain : String
  pub providers : Dict String Provider

-- An object of a config class with every field at its default, and no write yet.
unfoldable pub fresh : ConfigClass → Config
fresh cls = record { values = defaults_of cls; last_write_at = none }

-- What a row of the topology says of a provider besides its pool.
pub record Identity : Type 0 where
  pub name : String
  pub is_backup : Bool
  pub group_label : String

unfoldable pub add_provider :
    ℕ → Pool → String → List Endpoint → Identity → Result (Pool × Provider)
add_provider history_max pool pid endpoints who = do
  raise_if (Dict.has pid pool.providers) value_error
  cls ← quirks_for pool.chain
  let provider : Provider = record {
    pool = pool.name;
    pid = pid;
    name = who.name;
    is_backup = who.is_backup;
    group_label = who.group_label;
    scenario = fresh scenario_config;
    quirks_class = cls;
    quirks = fresh cls;
    log = new_log pool.name pid history_max who.name;
    endpoints = endpoints;
    fail_count = 0;
    executed = [];
  }
  ok (record pool { providers = Dict.put pid provider pool.providers }, provider)

-- The counter of the fail_first_n fault, one up, and its new value.
unfoldable pub consume_fail : Provider → Provider × ℕ
consume_fail p = (record p { fail_count = p.fail_count + 1 }, p.fail_count + 1)

unfoldable pub peek_fail : Provider → ℕ
peek_fail p = p.fail_count

unfoldable pub reset_fail : Provider → Provider
reset_fail p = record p { fail_count = 0 }

-- A digest that ran before keeps the time of its first run; past the cap the oldest goes.
unfoldable pub remember : ℕ → String → ℕ → Dict String ℕ → Dict String ℕ
remember cap digest at executed =
    if Dict.has digest executed
    then executed
    else let grown = Dict.put digest at executed in
      if ltb cap (length grown) then drop 1 grown else grown

unfoldable pub remember_executed : String → ℕ → Provider → Provider
unfolding remember executed_memory_cap
remember_executed digest at p = record p {
  executed = remember executed_memory_cap digest at p.executed;
}

unfoldable pub executed_snapshot : Provider → Dict String ℕ
executed_snapshot p = p.executed

unfoldable pub forget_executed : Provider → Provider
forget_executed p = record p { executed = [] }
