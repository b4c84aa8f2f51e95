-- ===== src/Domain/Registry/Row.antt =====
-- provider_simulator/domain/registry.py: what an accepted row of the table does.
use provider_simulator.Base.{
  ℕ, ◌≡◌, sym, ap, ◌∙◌, String, false, Option, none, some, List, any, arith,
}
use provider_simulator.Base.Dict
use provider_simulator.Base.Dict.{Dict, string_key, nat_key, get-put, get-has, has-get}
use provider_simulator.Base.Results.{
  Result, ok, err, value_error, key_error, raise_if, >>=-eq-ok, ok-injective,
}
use provider_simulator.Domain.Endpoint.{Endpoint}
use provider_simulator.Domain.Provider.{Pool, Provider, Identity, add_provider}
use provider_simulator.Domain.Quirks.{quirks_for}
use provider_simulator.Domain.Registry.{Spec, Registry, validate_row, pool_for, bind_ports, add_row}

-- What an accepted provider is.
add_provider_lem :
    (history_max : ℕ) (pool : Pool) (pid : String) (endpoints : List Endpoint) (who : Identity)
    (b : Pool × Provider)
    → add_provider history_max pool pid endpoints who ≡ ok b
    → (Dict.has pid pool.providers ≡ false)
      × (b.0 ≡ record pool { providers = Dict.put pid b.1 pool.providers })
      × (b.1.endpoints ≡ endpoints)
      × (b.1.pool ≡ pool.name)
      × (b.1.pid ≡ pid)
unfolding add_provider
add_provider_lem history_max pool pid endpoints who b h =
    let (_, unused, h1) = >>=-eq-ok (raise_if (Dict.has pid pool.providers) value_error) _ h in
    let (cls, known, h2) = >>=-eq-ok (quirks_for pool.chain) _ h1 in
    (ground arith, ground arith, ground arith, ground arith, ground arith)

-- What an accepted row did.
pub record Added (reg : Registry) (row : Spec) (grown : Registry) : Type 0 where
  pub pool : Pool
  pub taken : pool_for reg row ≡ ok pool
  pub fresh_ports : any (λ ep. Dict.has ep.port reg.by_port) row.endpoints ≡ false
  pub fresh_pid : Dict.has row.pid pool.providers ≡ false
  pub added : Provider
  pub own_endpoints : added.endpoints ≡ row.endpoints
  pub own_pool : added.pool ≡ pool.name
  pub own_pid : added.pid ≡ row.pid
  pub pools :
      grown.pools
      ≡ Dict.put row.pool
          (record pool { providers = Dict.put row.pid added pool.providers })
          reg.pools
  pub ports : grown.by_port ≡ bind_ports row.pool row.pid row.endpoints reg.by_port

pub add_row-Added :
    (history_max : ℕ) (reg : Registry) (row : Spec) (grown : Registry)
    → add_row history_max reg row ≡ ok grown
    → Added reg row grown
unfolding add_row
add_row-Added history_max reg row grown h =
    let (_, _, h1) = >>=-eq-ok (validate_row row) _ h in
    let (pool, taken, h2) = >>=-eq-ok (pool_for reg row) _ h1 in
    let (_, unused, h3) =
      >>=-eq-ok (raise_if (any (λ ep. Dict.has ep.port reg.by_port) row.endpoints) value_error) _
        h2 in
    let (b, built, h4) =
      >>=-eq-ok (add_provider history_max pool row.pid row.endpoints row.who) _ h3 in
    let (fresh, grown_pool, eps, own_pool, own_pid) =
      add_provider_lem history_max pool row.pid row.endpoints row.who b built in
    let same = ok-injective _ _ h4 in
    record {
      pool = pool;
      taken = taken;
      fresh_ports = ground arith;
      fresh_pid = fresh;
      added = b.1;
      own_endpoints = eps;
      own_pool = own_pool;
      own_pid = own_pid;
      pools =
          sym (ap (λ (r : Registry). r.pools) same)
          ∙ ap (λ (p : Pool). Dict.put row.pool p reg.pools) grown_pool;
      ports = sym (ap (λ (r : Registry). r.by_port) same);
    }

abbrev pub in_pool : Option Provider → Result Provider
in_pool none = err key_error
in_pool (some found) = ok found
