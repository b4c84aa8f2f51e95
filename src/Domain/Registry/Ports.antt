-- ===== src/Domain/Registry/Ports.antt =====
-- provider_simulator/domain/registry.py: a port that one row of the table names twice.
use provider_simulator.Base.{ℕ, ◌≡◌, refl, [], ◌∷◌, arith, nat_eq_iff}
use provider_simulator.Base.Dict.{string_key, nat_key}
use provider_simulator.Base.Results.{ok, value_error, raise_if, >>=-eq-ok}
use provider_simulator.Domain.Config.{ConfigClass}
use provider_simulator.Domain.Endpoint.{Endpoint}
use provider_simulator.Domain.Provider.{add_provider}
use provider_simulator.Domain.Quirks.{quirks_for}
use provider_simulator.Domain.Registry.{
  Spec, Registry, empty, by_port, is_bad_address, validate_row, pool_for, bind_ports, add_row,
  add_rows, build_registry,
}

valid_chain :
    (row : Spec) → validate_row row ≡ ok tt → (cls : ConfigClass) × (quirks_for row.chain ≡ ok cls)
unfolding validate_row
valid_chain row h =
    let (_, _, h1) = >>=-eq-ok (raise_if (is_bad_address row.pool) value_error) _ h in
    let (_, _, h2) = >>=-eq-ok (raise_if (is_bad_address row.pid) value_error) _ h1 in
    let (cls, known, _) = >>=-eq-ok (quirks_for row.chain) _ h2 in (cls, known)

-- A table of one valid row whose two endpoints name the same port is accepted, and the port leads
-- to the second endpoint alone: the check for a port that is used twice sees only the rows before.
pub build_registry-port_twice :
    (history_max : ℕ) (row : Spec) (e₁ e₂ : Endpoint)
    → validate_row row ≡ ok tt
    → row.endpoints ≡ e₁ ∷ e₂ ∷ []
    → e₁.port ≡ e₂.port
    → (reg : Registry) × (build_registry history_max (row ∷ []) ≡ ok reg)
      × (by_port reg e₁.port ≡ ok (row.pool, row.pid, e₂))
unfolding build_registry add_rows add_row pool_for add_provider empty bind_ports by_port
build_registry-port_twice history_max row e₁ e₂ valid two same =
    let (cls, known) = valid_chain row valid in
    rw (valid, two, known) (_, refl, ground (arith, nat_eq_iff e₁.port e₁.port))
