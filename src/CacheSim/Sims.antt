-- ===== src/CacheSim/Sims.antt =====
-- provider_simulator/cache_sim.py: the caches of one simulator, by name. A caller and the registry
-- share a cache: what the caller makes of it is written back under its name.
use provider_simulator.Base.{
  ℕ, ◌≡◌, ap, String, Option, none, some, [], ◌∷◌, arith, ◌==◌, eq_iff, if◌then◌else◌, Option-cases,
  Bool-cases, inl, inr,
}
use provider_simulator.Base.Int.{pos}
use provider_simulator.Base.Dict
use provider_simulator.Base.Dict.{Dict, string_key, get-put}
use provider_simulator.CacheSim.Entry.{Library}
use provider_simulator.CacheSim.Log.{CacheSim, new_sim, reset}
use provider_simulator.CacheSim.Plans.{respond, miss_reply, answer}

unfoldable pub get_or_create : ℕ → String → Dict String CacheSim → CacheSim × Dict String CacheSim
get_or_create history_max name sims = elim (Dict.get name sims) [
  | none ↦ (new_sim history_max name, Dict.put name (new_sim history_max name) sims)
  | some sim ↦ (sim, sims)
]

unfoldable pub get_sim : String → Dict String CacheSim → Option CacheSim
get_sim name sims = Dict.get name sims

unfoldable pub reset_all : Dict String CacheSim → Dict String CacheSim
reset_all [] = []
reset_all ((name, sim) ∷ sims) = (name, reset sim) ∷ reset_all sims

-- After `get_or_create` its name has the cache that it answered, and any other name what it had.
pub get_sim-get_or_create :
    (history_max : ℕ) (name other : String) (sims : Dict String CacheSim)
    → get_sim other (get_or_create history_max name sims).1
      ≡ (if name == other then some (get_or_create history_max name sims).0 else get_sim other sims)
unfolding get_or_create get_sim
get_sim-get_or_create history_max name other sims = elim (Option-cases (Dict.get name sims)) [
  | inl new ↦ rw (get_or_create, new) (get-put name other (new_sim history_max name) sims)
  | inr (sim, old) ↦ rw (get_or_create, old) (ground (arith, eq_iff name other, old))
]

get-reset_all :
    (name : String) (sims : Dict String CacheSim) (sim : CacheSim)
    → Dict.get name (reset_all sims) ≡ some sim
    → (old : CacheSim) × (Dict.get name sims ≡ some old) × (sim ≡ reset old)
unfolding reset_all
get-reset_all name [] sim h = absurd (ground arith)
get-reset_all name ((key, old) ∷ sims) sim h = elim (Bool-cases (key == name)) [
  | inl here ↦ (old, ground arith, ground arith)
  | inr other ↦
      let (was, there, same) = get-reset_all name sims sim (ground arith) in
      (was, ground (arith, there), same)
]

-- After `reset_all` a cache is there only if it was, has nothing on record, and answers a lookup
-- with a miss of a cache that has seen no block, at once.
pub answer-reset_all :
    (lib : Library) (name : String) (sims : Dict String CacheSim) (sim : CacheSim)
    → get_sim name (reset_all sims) ≡ some sim
    → (old : CacheSim) × (get_sim name sims ≡ some old)
      × (sim.calls ≡ [])
      × (sim.records_total ≡ 0)
      × (answer lib sim ≡ respond (miss_reply (pos 0)) 0)
unfolding get_sim answer reset
answer-reset_all lib name sims sim h =
    let (old, there, same) = get-reset_all name sims sim h in
    (
      old,
      there,
      ap (λ (c : CacheSim). c.calls) same,
      ap (λ (c : CacheSim). c.records_total) same,
      ap (answer lib) same,
    )
