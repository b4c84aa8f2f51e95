-- ===== src/Domain/Registry/Wiring.antt =====
-- provider_simulator/domain/registry.py: in a registry that was built, ports and providers agree.
use provider_simulator.Base.{
  ℕ, ◌≡◌, ◌≢◌, ◌⊎◌, inl, inr, sym, ap, subst, ◌∙◌, String, true, false, some, List, [], ◌∷◌, arith,
  ◌==◌, eq_iff, if◌then◌else◌, Option-cases, Bool-cases,
}
use provider_simulator.Base.Dict
use provider_simulator.Base.Dict.{Dict, string_key, nat_key, get-put, get-has, has-get}
use provider_simulator.Base.Results.{ok, >>=-eq-ok, ok-injective}
use provider_simulator.Domain.Endpoint.{Endpoint}
use provider_simulator.Domain.Provider.{Pool, Provider}
use provider_simulator.Domain.Registry.{
  Spec, Registry, empty, provider, by_port, pool_for, add_row, add_rows, build_registry,
}
use provider_simulator.Domain.Registry.Bindings.{
  IsIn, has_port, Serves, IsWired, bind_ports_other, bind_ports_own, has_port_in, by_port_found,
  found_by_port, ports_free,
}
use provider_simulator.Domain.Registry.Row.{Added, add_row-Added, in_pool}

-- The pool of an accepted row holds what stood under its name, or nothing.
module _ (reg : Registry) (row : Spec) (grown : Registry) (wired : IsWired reg)
    (a : Added reg row grown) where
  pool_named : a.pool.name ≡ row.pool
  unfolding pool_for
  pool_named = elim (Option-cases (Dict.get row.pool reg.pools)) [
    | inl new ↦ ground (arith, a.taken)
    | inr (p, old) ↦ ground (arith, a.taken, wired.named row.pool p old)
  ]

  -- A look into the grown registry, by cases on the address.
  provider_grown :
      (pool pid : String)
      → provider grown pool pid ≡ (
          if row.pool == pool
          then (if row.pid == pid then ok a.added else in_pool (Dict.get pid a.pool.providers))
          else provider reg pool pid)
  unfolding provider
  provider_grown pool pid =
      let after : Pool = record a.pool { providers = Dict.put row.pid a.added a.pool.providers } in
      ground (
        arith,
        a.pools,
        get-put row.pool pool after reg.pools,
        get-put row.pid pid a.added a.pool.providers,
      )

  -- A provider of the pool that the row took was in the registry.
  provider_taken :
      (pid : String) → in_pool (Dict.get pid a.pool.providers) ≡ provider reg row.pool pid
  unfolding pool_for provider
  provider_taken pid = ground (arith, a.taken)

  provider_absent : (found : Provider) → provider reg row.pool row.pid ≢ ok found
  provider_absent found h =
      ground (arith, provider_taken row.pid, get-has row.pid a.pool.providers a.fresh_pid)

  -- The other providers stand where they stood.
  provider_other :
      (pool pid : String) (found : Provider)
      → provider reg pool pid ≡ ok found
      → provider grown pool pid ≡ ok found
  provider_other pool pid found h = ground (
    arith,
    provider_grown pool pid,
    provider_taken pid,
    provider_absent found,
    eq_iff row.pool pool,
    eq_iff row.pid pid,
  )

  -- A provider of the grown registry is the new one or was there.
  provider_origin :
      (pool pid : String) (found : Provider)
      → provider grown pool pid ≡ ok found
      → ((pool ≡ row.pool) × (pid ≡ row.pid) × (found ≡ a.added))
        ⊎ (provider reg pool pid ≡ ok found)
  provider_origin pool pid found h =
      ground (
        arith,
        provider_grown pool pid,
        provider_taken pid,
        eq_iff row.pool pool,
        eq_iff row.pid pid,
      )

  provider_added : provider grown row.pool row.pid ≡ ok a.added
  provider_added =
      ground
        (arith, provider_grown row.pool row.pid, eq_iff row.pool row.pool, eq_iff row.pid row.pid)

  -- A port that was bound before the row is bound as it was.
  port_other :
      (port : ℕ) (entry : String × String × Endpoint)
      → by_port reg port ≡ ok entry
      → by_port grown port ≡ ok entry
  port_other port entry h =
      let was : Dict.get port reg.by_port ≡ some entry = by_port_found reg port entry h in
      let free : has_port port row.endpoints ≡ false =
        ports_free port row.endpoints reg.by_port (has-get port reg.by_port entry was)
          a.fresh_ports in
      found_by_port grown port entry (
        ap (Dict.get port) a.ports
        ∙ bind_ports_other row.pool row.pid row.endpoints reg.by_port port free
        ∙ was)

  -- A port of the row leads to the new provider.
  port_own :
      (port : ℕ)
      → has_port port row.endpoints ≡ true
      → (ep : Endpoint) × IsIn ep row.endpoints
        × (ep.port ≡ port)
        × (by_port grown port ≡ ok (row.pool, row.pid, ep))
  port_own port own =
      let (ep, there, same, bound) =
        bind_ports_own row.pool row.pid row.endpoints reg.by_port port own in
      (
        ep,
        there,
        same,
        found_by_port grown port (row.pool, row.pid, ep) (ap (Dict.get port) a.ports ∙ bound),
      )

  added-Serves :
      (port : ℕ) (entry : String × String × Endpoint)
      → has_port port row.endpoints ≡ true
      → by_port grown port ≡ ok entry
      → Serves grown entry.0 entry.1 entry.2 × (entry.2.port ≡ port)
  added-Serves port entry own h =
      let (ep, there, same, bound) = port_own port own in
      let e : (row.pool, row.pid, ep) ≡ entry = ok-injective _ _ (sym bound ∙ h) in
      subst (λ (t : String × String × Endpoint). Serves grown t.0 t.1 t.2 × (t.2.port ≡ port)) e
        (
          record {
            found = a.added;
            addressed = provider_added;
            listens = rw a.own_endpoints there;
            own_pool = a.own_pool ∙ pool_named;
            own_pid = a.own_pid;
          },
          same,
        )

  old-Serves :
      (port : ℕ) (pool pid : String) (ep : Endpoint)
      → has_port port row.endpoints ≡ false
      → by_port grown port ≡ ok (pool, pid, ep)
      → Serves grown pool pid ep × (ep.port ≡ port)
  old-Serves port pool pid ep other h =
      let now = by_port_found grown port (pool, pid, ep) h in
      let was : Dict.get port reg.by_port ≡ some (pool, pid, ep) =
        sym (bind_ports_other row.pool row.pid row.endpoints reg.by_port port other)
        ∙ sym (ap (Dict.get port) a.ports)
        ∙ now in
      let (s, same) =
        wired.port_served port pool pid ep (found_by_port reg port (pool, pid, ep) was) in
      (
        record {
          found = s.found;
          addressed = provider_other pool pid s.found s.addressed;
          listens = s.listens;
          own_pool = s.own_pool;
          own_pid = s.own_pid;
        },
        same,
      )

  grown_named : (pool : String) (p : Pool) → Dict.get pool grown.pools ≡ some p → p.name ≡ pool
  grown_named pool p h =
      let after : Pool = record a.pool { providers = Dict.put row.pid a.added a.pool.providers } in
      ground (
        arith,
        a.pools,
        pool_named,
        get-put row.pool pool after reg.pools,
        wired.named pool p,
        eq_iff row.pool pool,
      )

  grown_served_port :
      (pool pid : String) (found : Provider) (ep : Endpoint)
      → provider grown pool pid ≡ ok found
      → IsIn ep found.endpoints
      → (ep' : Endpoint) × (by_port grown ep.port ≡ ok (pool, pid, ep')) × (ep'.port ≡ ep.port)
  grown_served_port pool pid found ep h l = elim (provider_origin pool pid found h) [
    | inl (p, q, r) ↦
        let own : IsIn ep row.endpoints =
          subst (IsIn ep) a.own_endpoints (subst (λ (f : Provider). IsIn ep f.endpoints) r l) in
        let (ep', _, same, bound) = port_own ep.port (has_port_in ep row.endpoints own) in
        (ep', rw (p, q) bound, same)
    | inr old ↦
        let (ep', bound, same) = wired.served_port pool pid found ep old l in
        (ep', port_other ep.port (pool, pid, ep') bound, same)
  ]

  add_row-IsWired : IsWired grown
  add_row-IsWired = record {
    named = grown_named;
    port_served = λ port pool pid ep h. elim (Bool-cases (has_port port row.endpoints)) [
      | inl own ↦ added-Serves port (pool, pid, ep) own h
      | inr other ↦ old-Serves port pool pid ep other h
    ];
    served_port = grown_served_port;
  }

add_rows-IsWired :
    (history_max : ℕ) (rows : List Spec) (reg built : Registry)
    → IsWired reg
    → add_rows history_max reg rows ≡ ok built
    → IsWired built
unfolding add_rows
add_rows-IsWired history_max [] reg built w h = subst IsWired (ok-injective _ _ h) w
add_rows-IsWired history_max (row ∷ rows) reg built w h =
    let (grown, added, rest) = >>=-eq-ok (add_row history_max reg row) _ h in
    add_rows-IsWired history_max rows grown built
      (add_row-IsWired reg row grown w (add_row-Added history_max reg row grown added)) rest

IsWired-empty : IsWired empty
unfolding empty provider by_port
IsWired-empty = record {
  named = λ pool p h. ground arith;
  port_served = λ port pool pid ep h. absurd (ground arith);
  served_port = λ pool pid found ep h l. absurd (ground arith);
}

-- In every registry that is built from a table, each pool stands under its own name, each bound
-- port is the port of an endpoint of the provider that it leads to, and each endpoint of each
-- provider has a bound port that leads back to this provider.
pub build_registry-IsWired :
    (history_max : ℕ) (rows : List Spec) (built : Registry)
    → build_registry history_max rows ≡ ok built
    → IsWired built
unfolding build_registry
build_registry-IsWired history_max rows built h =
    add_rows-IsWired history_max rows empty built IsWired-empty h
