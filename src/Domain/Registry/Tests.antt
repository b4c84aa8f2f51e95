-- ===== src/Domain/Registry/Tests.antt =====
-- Runs of provider_simulator/domain/registry.py.
use provider_simulator.Base.{ℕ, ◌≡◌, refl, String, false, List, [], ◌∷◌}
use provider_simulator.Base.Dict.{string_key, nat_key}
use provider_simulator.Base.Results.{Result, ok, err, value_error}
use provider_simulator.Domain.Config.Laws.{defaults_of}
use provider_simulator.Domain.CallLog.{new_log}
use provider_simulator.Domain.Endpoint.{Endpoint}
use provider_simulator.Domain.Provider.{add_provider, fresh}
use provider_simulator.Domain.Quirks.{quirks_for}
use provider_simulator.Domain.Registry.{
  Spec, Registry, empty, by_port, provider, validate_row, pool_for, bind_ports, add_row, add_rows,
  build_registry,
}
use provider_simulator.Domain.Registry.Bindings.{IsWired}
use provider_simulator.Domain.Registry.Ports.{build_registry-port_twice}
use provider_simulator.Domain.Registry.Wiring.{build_registry-IsWired}

abbrev http : ℕ → Endpoint
http port = record { interface = "jsonrpc"; transport = "http"; port = port }

abbrev row : String → String → List Endpoint → Spec
row pool pid endpoints = record {
  pool = pool;
  chain = "eth";
  pid = pid;
  who = record { name = "EthProvider"; is_backup = false; group_label = "" };
  endpoints = endpoints;
}

abbrev table : List Spec
table = row "eth" "1" (http 8545 ∷ http 8546 ∷ []) ∷ row "eth" "2" (http 8555 ∷ []) ∷ []

program : Unit {0}
unfolding empty by_port provider validate_row pool_for bind_ports add_row add_rows build_registry
    quirks_for add_provider fresh new_log defaults_of
program = tt

abbrev registry_of : Result Registry → Registry
registry_of (ok reg) = reg
registry_of (err e) = record { pools = []; by_port = [] }

built : build_registry 2000 table ≡ ok (registry_of (build_registry 2000 table))
unfolding program
built = refl

refused :
    (build_registry 2000 (row "eth" "1" (http 8545 ∷ []) ∷ row "eth" "2" (http 8545 ∷ []) ∷ [])
      ≡ err value_error)
    × (build_registry 2000 (row "eth" "1" (http 8545 ∷ []) ∷ row "eth" "1" (http 8546 ∷ []) ∷ [])
        ≡ err value_error)
    × (build_registry 2000 (row "e:h" "1" (http 8545 ∷ []) ∷ []) ≡ err value_error)
unfolding program
refused = (refl, refl, refl)

build_registry-IsWired_example : IsWired (registry_of (build_registry 2000 table))
build_registry-IsWired_example =
    build_registry-IsWired 2000 table (registry_of (build_registry 2000 table)) built

twice-valid : validate_row (row "eth" "1" (http 8545 ∷ http 8545 ∷ [])) ≡ ok tt
unfolding program
twice-valid = refl

build_registry-port_twice_example :
    (reg : Registry) × (build_registry 2000 (row "eth" "1" (http 8545 ∷ http 8545 ∷ []) ∷ [])
      ≡ ok reg)
    × (by_port reg 8545 ≡ ok ("eth", "1", http 8545))
build_registry-port_twice_example =
    build_registry-port_twice 2000 (row "eth" "1" (http 8545 ∷ http 8545 ∷ [])) (http 8545)
      (http 8545) twice-valid refl refl
