-- ===== src/ControlApi/Sound.antt =====
-- provider_simulator/control_api.py: every provider has quirks whose fields all have a default, so
-- that a reset raises nothing. No call changes that.
use provider_simulator.Base.{ℕ, String, ◌≡◌, refl, sym, Option, none, some}
use provider_simulator.Base.Dict
use provider_simulator.Base.Dict.{Dict, string_key}
use provider_simulator.Base.Entries.{AllValues, put-AllValues, get-AllValues}
use provider_simulator.Base.Results.{ok}
use provider_simulator.ControlApi.{Staged}
use provider_simulator.ControlApi.Apply.{set_provider, put_in_pool}
use provider_simulator.ControlApi.Atomic.{written, restarted_keeps}
use provider_simulator.ControlApi.Places.{found_in, in_pool, provider-in_pool}
use provider_simulator.Domain.Config.Laws.{HasDefaults}
use provider_simulator.Domain.Provider.{Provider, Pool}
use provider_simulator.Domain.Registry.{Registry, provider}

abbrev pub HasDefaultQuirks : Provider → Type 0
HasDefaultQuirks p = HasDefaults p.quirks_class.declared

abbrev pub IsSound : Registry → Type 0
IsSound reg = AllValues (λ pool. AllValues HasDefaultQuirks pool.providers) reg.pools

found_in-eq-ok : (o : Option Provider) {p : Provider} → found_in o ≡ ok p → o ≡ some p
found_in-eq-ok none h = absurd (cc h)
found_in-eq-ok (some found) h = cc

in_pool-eq-ok :
    (pid : String) (o : Option Pool) {p : Provider}
    → in_pool pid o ≡ ok p
    → (pool : Pool) × (o ≡ some pool) × (Dict.get pid pool.providers ≡ some p)
in_pool-eq-ok pid none h = absurd (cc h)
in_pool-eq-ok pid (some pool) h = (pool, refl, found_in-eq-ok (Dict.get pid pool.providers) h)

-- What holds of every provider holds of one that was looked up.
pub provider-AllValues :
    (P : Provider → Type 0) (reg : Registry) (pool pid : String) (p : Provider)
    → AllValues (λ q. AllValues P q.providers) reg.pools
    → provider reg pool pid ≡ ok p
    → P p
provider-AllValues P reg pool pid p all_of h =
    let (found, in_pools, there) =
      in_pool-eq-ok pid (Dict.get pool reg.pools) {p = p}
        (rw (sym (provider-in_pool reg pool pid)) h) in
    get-AllValues P pid found.providers
      (get-AllValues (λ q. AllValues P q.providers) pool reg.pools all_of in_pools) there

put_in_pool-IsSound :
    (pid pool : String) (p : Provider) (o : Option Pool) (reg : Registry)
    → Dict.get pool reg.pools ≡ o
    → HasDefaultQuirks p
    → IsSound reg
    → IsSound (put_in_pool pid p o reg pool)
put_in_pool-IsSound pid pool p none reg e safe sound = sound
put_in_pool-IsSound pid pool p (some found) reg e safe sound =
    put-AllValues (λ q. AllValues HasDefaultQuirks q.providers) pool _ reg.pools
      (put-AllValues HasDefaultQuirks pid p found.providers safe
        (get-AllValues (λ q. AllValues HasDefaultQuirks q.providers) pool reg.pools sound e))
      sound

-- A write of a block keeps the class of the quirks.
pub set_provider-IsSound :
    (now : ℕ) (st : Staged) (p : Provider) (reg : Registry)
    → provider reg st.pool st.pid ≡ ok p
    → IsSound reg
    → IsSound (set_provider st.pool st.pid (written now st p) reg)
unfolding set_provider
set_provider-IsSound now st p reg found sound =
    put_in_pool-IsSound st.pid st.pool (written now st p) (Dict.get st.pool reg.pools) reg refl
      (rw ((restarted_keeps st p).1)
        (provider-AllValues HasDefaultQuirks reg st.pool st.pid p sound found))
      sound
