-- ===== src/ControlApi/Places.antt =====
-- provider_simulator/domain/registry.py and control_api.py: a provider is written in the place that it
-- stands in.
use provider_simulator.Base.{
  String, ◌≡◌, refl, sym, Bool-cases, Option, none, some, inl, inr, ◌&&◌, ◌==◌, eq_iff,
  if◌then◌else◌,
}
use provider_simulator.Base.Dict
use provider_simulator.Base.Dict.{Dict, string_key, get-put}
use provider_simulator.Base.Results.{Result, ok, err, key_error}
use provider_simulator.ControlApi.Apply.{set_provider, put_in_pool}
use provider_simulator.Domain.Provider.{Provider, Pool}
use provider_simulator.Domain.Registry.{Registry, provider}

abbrev pub found_in : Option Provider → Result Provider
found_in none = err key_error
found_in (some p) = ok p

-- The provider of a pool that may be missing.
abbrev pub in_pool : String → Option Pool → Result Provider
in_pool pid none = err key_error
in_pool pid (some found) = found_in (Dict.get pid found.providers)

pub provider-in_pool :
    (reg : Registry) (pool pid : String)
    → provider reg pool pid ≡ in_pool pid (Dict.get pool reg.pools)
unfolding provider
provider-in_pool reg pool pid = elim (Dict.get pool reg.pools) [
  | none ↦ refl
  | some found ↦ elim (Dict.get pid found.providers) [ none ↦ refl | some p ↦ refl ]
]

put_in_pool-cases :
    (reg : Registry) (pool pid pool' pid' : String) (p old : Provider) (o : Option Pool)
    → Dict.get pool reg.pools ≡ o
    → in_pool pid o ≡ ok old
    → provider (put_in_pool pid p o reg pool) pool' pid'
      ≡ (if pool == pool' && pid == pid' then ok p else provider reg pool' pid')
put_in_pool-cases reg pool pid pool' pid' p old none e h = cc
put_in_pool-cases reg pool pid pool' pid' p old (some found) e h =
    rw
      (
        provider-in_pool (put_in_pool pid p (some found) reg pool) pool' pid',
        provider-in_pool reg pool' pid',
        get-put pool pool' (record found { providers = Dict.put pid p found.providers }) reg.pools,
      )
      (elim (Bool-cases (pool == pool')) [
        | inl same ↦
            rw (same, sym ((eq_iff pool pool').0 same), e, get-put pid pid' p found.providers)
              (elim (Bool-cases (pid == pid')) [
                | inl this ↦ rw this refl
                | inr that ↦ rw that refl
              ])
        | inr other ↦ rw other refl
      ])

pub provider-set_provider :
    (reg : Registry) (pool pid pool' pid' : String) (p : Provider) {old : Provider}
    → provider reg pool pid ≡ ok old
    → provider (set_provider pool pid p reg) pool' pid'
      ≡ (if pool == pool' && pid == pid' then ok p else provider reg pool' pid')
unfolding set_provider
provider-set_provider reg pool pid pool' pid' p {old = old} h =
    put_in_pool-cases reg pool pid pool' pid' p old (Dict.get pool reg.pools) refl
      (rw (sym (provider-in_pool reg pool pid)) h)
