-- ===== src/Domain/Registry/Bindings.antt =====
-- provider_simulator/domain/registry.py: the ports of a registry, and how those of a row join them.
use provider_simulator.Base.{
  ℕ, ◌≡◌, ◌⊎◌, inl, inr, refl, String, Bool, true, false, some, List, [], ◌∷◌, any, arith, nat_eq,
  nat_eq_iff, Bool-cases,
}
use provider_simulator.Base.Dict
use provider_simulator.Base.Dict.{Dict, string_key, nat_key, get-put, get-has, has-get}
use provider_simulator.Base.Results.{ok}
use provider_simulator.Domain.Endpoint.{Endpoint}
use provider_simulator.Domain.Provider.{Pool, Provider}
use provider_simulator.Domain.Registry.{Registry, provider, by_port, bind_ports}

abbrev pub IsIn : Endpoint → List Endpoint → Type 0
IsIn ep [] = ⊥
IsIn ep (e ∷ eps) = (ep ≡ e) ⊎ IsIn ep eps

abbrev pub has_port : ℕ → List Endpoint → Bool
has_port port eps = any (λ ep. nat_eq ep.port port) eps

-- The provider that a pool name and a pid address, and its endpoint.
pub record Serves (reg : Registry) (pool pid : String) (ep : Endpoint) : Type 0 where
  pub found : Provider
  pub addressed : provider reg pool pid ≡ ok found
  pub listens : IsIn ep found.endpoints
  pub own_pool : found.pool ≡ pool
  pub own_pid : found.pid ≡ pid

-- Each pool stands under its name, each port of `by_port` is an endpoint of the provider that it
-- names, and each endpoint of each provider is found by its port.
pub record IsWired (reg : Registry) : Type 0 where
  pub named : (pool : String) (p : Pool) → Dict.get pool reg.pools ≡ some p → p.name ≡ pool
  pub port_served :
      (port : ℕ) (pool pid : String) (ep : Endpoint)
      → by_port reg port ≡ ok (pool, pid, ep)
      → Serves reg pool pid ep × (ep.port ≡ port)
  pub served_port :
      (pool pid : String) (found : Provider) (ep : Endpoint)
      → provider reg pool pid ≡ ok found
      → IsIn ep found.endpoints
      → (ep' : Endpoint) × (by_port reg ep.port ≡ ok (pool, pid, ep')) × (ep'.port ≡ ep.port)

-- After the ports of a provider are bound, a port is as it was or one of its own.
pub bind_ports_other :
    (pool pid : String) (eps : List Endpoint) (ports : Dict ℕ (String × String × Endpoint))
    (port : ℕ)
    → has_port port eps ≡ false
    → Dict.get port (bind_ports pool pid eps ports) ≡ Dict.get port ports
unfolding bind_ports
bind_ports_other pool pid [] ports port h = refl
bind_ports_other pool pid (e ∷ eps) ports port h = ground (
  arith,
  bind_ports_other pool pid eps (Dict.put e.port (pool, pid, e) ports) port,
  get-put e.port port (pool, pid, e) ports,
)

pub bind_ports_own :
    (pool pid : String) (eps : List Endpoint) (ports : Dict ℕ (String × String × Endpoint))
    (port : ℕ)
    → has_port port eps ≡ true
    → (ep : Endpoint) × IsIn ep eps
      × (ep.port ≡ port)
      × (Dict.get port (bind_ports pool pid eps ports) ≡ some (pool, pid, ep))
unfolding bind_ports
bind_ports_own pool pid [] ports port h = absurd (ground arith)
bind_ports_own pool pid (e ∷ eps) ports port h =
    let ports' = Dict.put e.port (pool, pid, e) ports in
    elim (Bool-cases (has_port port eps)) [
      | inl later ↦
          let (ep, there, same, bound) = bind_ports_own pool pid eps ports' port later in
          (ep, inr there, same, bound)
      | inr last ↦ (
        e,
        inl refl,
        ground arith,
        ground (
          arith,
          bind_ports_other pool pid eps ports' port last,
          get-put e.port port (pool, pid, e) ports,
        ),
      )
    ]

pub has_port_in : (ep : Endpoint) (eps : List Endpoint) → IsIn ep eps → has_port ep.port eps ≡ true
has_port_in ep [] h = absurd h
has_port_in ep (e ∷ eps) (inl same) = ground (arith, nat_eq_iff e.port ep.port)
has_port_in ep (e ∷ eps) (inr later) = ground (arith, has_port_in ep eps later)

pub by_port_found :
    (reg : Registry) (port : ℕ) (entry : String × String × Endpoint)
    → by_port reg port ≡ ok entry
    → Dict.get port reg.by_port ≡ some entry
unfolding by_port
by_port_found reg port entry h = ground arith

pub found_by_port :
    (reg : Registry) (port : ℕ) (entry : String × String × Endpoint)
    → Dict.get port reg.by_port ≡ some entry
    → by_port reg port ≡ ok entry
unfolding by_port
found_by_port reg port entry h = rw (h, by_port)

-- None of the endpoints has a port that is bound.
pub ports_free :
    (port : ℕ) (eps : List Endpoint) (ports : Dict ℕ (String × String × Endpoint))
    → Dict.has port ports ≡ true
    → any (λ ep. Dict.has ep.port ports) eps ≡ false
    → has_port port eps ≡ false
ports_free port [] ports there free = refl
ports_free port (e ∷ eps) ports there free =
    ground (arith, nat_eq_iff e.port port, ports_free port eps ports there)
