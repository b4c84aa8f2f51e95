-- ===== src/Domain/Registry.antt =====
-- provider_simulator/domain/registry.py: the providers that the topology table describes. The
-- rows are an argument. `by_port` holds, where the program holds the provider object, the pool and
-- the pid under which it stands in `pools`.
pub mod Bindings
pub mod Row
pub mod Wiring
pub mod Ports
mod Tests
use provider_simulator.Base.{
  ℕ, zero, String, Bool, true, false, not, ◌&&◌, ◌||◌, Option, none, some, List, [], ◌∷◌, ◌++◌, map,
  any, all, is_one_of, codes, nat_eq, ltb, ◌==◌, if◌then◌else◌,
}
use provider_simulator.Base.Dict
use provider_simulator.Base.Dict.{Dict, string_key, nat_key}
use provider_simulator.Base.Results.{Result, ok, err, value_error, key_error, ◌>>=◌, ◌>>◌, raise_if}
use provider_simulator.Domain.Endpoint.{Endpoint, interfaces, transports}
use provider_simulator.Domain.Provider.{Pool, Provider, Identity, add_provider}
use provider_simulator.Domain.Quirks.{quirks_for}

-- A row of the topology. A port that is not positive is 0.
pub record Spec : Type 0 where
  pub pool : String
  pub chain : String
  pub pid : String
  pub who : Identity
  pub endpoints : List Endpoint

pub record Registry : Type 0 where
  pub pools : Dict String Pool
  pub by_port : Dict ℕ (String × String × Endpoint)

unfoldable pub empty : Registry
empty = record { pools = []; by_port = [] }

unfoldable pub provider : Registry → String → String → Result Provider
provider reg pool pid = elim (Dict.get pool reg.pools) [
  | none ↦ err key_error
  | some p ↦ elim (Dict.get pid p.providers) [ none ↦ err key_error | some found ↦ ok found ]
]

unfoldable pub by_port : Registry → ℕ → Result (String × String × Endpoint)
by_port reg port = elim (Dict.get port reg.by_port) [ none ↦ err key_error | some entry ↦ ok entry ]

abbrev pub values {ℓ κ} : {K : Type ℓ} {V : Type κ} → Dict K V → List V
values [] = []
values ((k, v) ∷ d) = v ∷ values d

unfoldable pub providers_of : List Pool → List Provider
providers_of [] = []
providers_of (p ∷ ps) = values p.providers ++ providers_of ps

unfoldable pub all_providers : Registry → List Provider
unfolding providers_of
all_providers reg = providers_of (values reg.pools)

-- not name or ":" in name
abbrev pub is_bad_address : String → Bool
is_bad_address name = name == "" || any (nat_eq b':') (codes name)

abbrev pub is_bad_endpoint : Endpoint → Bool
is_bad_endpoint ep =
    not (is_one_of ep.interface interfaces)
    || not (is_one_of ep.transport transports)
    || nat_eq ep.port 0

abbrev pub is_empty : List Endpoint → Bool
is_empty [] = true
is_empty _ = false

unfoldable pub validate_row : Spec → Result (Unit {0})
validate_row row = do
  raise_if (is_bad_address row.pool) value_error
  raise_if (is_bad_address row.pid) value_error
  _ ← quirks_for row.chain
  raise_if (is_empty row.endpoints) value_error
  raise_if (any is_bad_endpoint row.endpoints) value_error

-- The pool of a row: the one of that name, or a new one. A pool serves one chain.
unfoldable pub pool_for : Registry → Spec → Result Pool
pool_for reg row = elim (Dict.get row.pool reg.pools) [
  | none ↦ ok (record { name = row.pool; chain = row.chain; providers = [] })
  | some p ↦ if p.chain == row.chain then ok p else err value_error
]

-- for ep in endpoints: reg._by_port[ep.port] = (provider, ep)
unfoldable pub bind_ports :
    String
    → String
    → List Endpoint
    → Dict ℕ (String × String × Endpoint)
    → Dict ℕ (String × String × Endpoint)
bind_ports pool pid [] ports = ports
bind_ports pool pid (ep ∷ eps) ports =
    bind_ports pool pid eps (Dict.put ep.port (pool, pid, ep) ports)

-- A new pool joins the registry before its provider is built; a row that is refused ends the whole
-- build, so the registry with that empty pool is seen by nobody.
unfoldable pub add_row : ℕ → Registry → Spec → Result Registry
unfolding validate_row
add_row history_max reg row = do
  validate_row row
  pool ← pool_for reg row
  raise_if (any (λ ep. Dict.has ep.port reg.by_port) row.endpoints) value_error
  (grown, _) ← add_provider history_max pool row.pid row.endpoints row.who
  ok (record {
    pools = Dict.put row.pool grown reg.pools;
    by_port = bind_ports row.pool row.pid row.endpoints reg.by_port;
  })

unfoldable pub add_rows : ℕ → Registry → List Spec → Result Registry
add_rows history_max reg [] = ok reg
add_rows history_max reg (row ∷ rows) = do
  grown ← add_row history_max reg row
  add_rows history_max grown rows

unfoldable pub build_registry : ℕ → List Spec → Result Registry
build_registry history_max rows = add_rows history_max empty rows
