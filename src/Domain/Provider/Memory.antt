-- ===== src/Domain/Provider/Memory.antt =====
-- provider_simulator/domain/provider.py: what the memory of executed transactions keeps.
use provider_simulator.Base.{
  ℕ, ◌+◌, ◌≤◌, ◌<◌, ◌≡◌, refl, ap, ◌∙◌, String, Bool, true, false, none, some, List, [], ◌∷◌, arith,
  ltb, ◌==◌, eq_iff, if◌then◌else◌, length, drop, length-drop, length-append, Bool-cases, inl, inr,
}
use provider_simulator.Base.Dict
use provider_simulator.Base.Dict.{
  Dict, string_key, HasDistinctKeys, put-HasDistinctKeys, get-put, has-put, get-has, put_absent,
}
use provider_simulator.Domain.Provider.{
  Provider, executed_memory_cap, remember, remember_executed, executed_snapshot, forget_executed,
}

-- At most the cap, and no digest twice.
pub record IsBounded (cap : ℕ) (executed : Dict String ℕ) : Type 0 where
  pub within : length executed ≤ cap
  pub distinct : HasDistinctKeys executed

drop_one-HasDistinctKeys : (d : Dict String ℕ) → HasDistinctKeys d → HasDistinctKeys (drop 1 d)
drop_one-HasDistinctKeys [] h = tt
drop_one-HasDistinctKeys ((k, v) ∷ d) h = h.1

pub remember-IsBounded :
    (cap : ℕ) (digest : String) (at : ℕ) (executed : Dict String ℕ)
    → IsBounded cap executed
    → IsBounded cap (remember cap digest at executed)
unfolding remember
remember-IsBounded cap digest at executed h = elim (Bool-cases (Dict.has digest executed)) [
  | inl known ↦ rw known h
  | inr new ↦
      let grown = Dict.put digest at executed in
      let distinct = put-HasDistinctKeys digest at executed h.distinct in
      let longer : length grown ≡ length executed + 1 =
        ap length (put_absent digest at executed new)
        ∙ length-append executed ((digest, at) ∷ []) in
      rw new (elim (Bool-cases (ltb cap (length grown))) [
        | inl over ↦ rw over (record {
          within = omega (arith, longer, length-drop 1 grown, h.within);
          distinct = drop_one-HasDistinctKeys grown distinct;
        })
        | inr fits ↦ rw fits (record { within = ground arith; distinct = distinct })
      ])
]

-- The digests that ran, each at its time.
unfoldable pub remember_all : List (String × ℕ) → Provider → Provider
remember_all [] p = p
remember_all ((digest, at) ∷ rest) p = remember_all rest (remember_executed digest at p)

remember_all_keeps :
    (runs : List (String × ℕ)) (p : Provider)
    → IsBounded executed_memory_cap p.executed
    → IsBounded executed_memory_cap (remember_all runs p).executed
unfolding remember_all remember_executed
remember_all_keeps [] p h = h
remember_all_keeps ((digest, at) ∷ rest) p h =
    remember_all_keeps rest (remember_executed digest at p)
      (remember-IsBounded executed_memory_cap digest at p.executed h)

-- Whatever transactions run after a reset, the provider remembers at most `executed_memory_cap` of
-- them, and none twice.
pub remember_all-IsBounded :
    (runs : List (String × ℕ)) (p : Provider)
    → IsBounded executed_memory_cap (executed_snapshot (remember_all runs (forget_executed p)))
unfolding executed_snapshot forget_executed executed_memory_cap
remember_all-IsBounded runs p =
    remember_all_keeps runs (forget_executed p) (record { within = omega arith; distinct = tt })

-- The key of the oldest entry.
abbrev pub is_oldest : String → Dict String ℕ → Bool
is_oldest digest [] = false
is_oldest digest ((k, v) ∷ d) = k == digest

get-drop_one :
    (j : String) (d : Dict String ℕ)
    → HasDistinctKeys d
    → Dict.get j (drop 1 d) ≡ (if is_oldest j d then none else Dict.get j d)
get-drop_one j [] h = refl
get-drop_one j ((k, v) ∷ d) h = ground (arith, eq_iff k j, get-has k d h.0)

is_oldest-put :
    (digest j : String) (at : ℕ) (executed : Dict String ℕ)
    → 0 < length executed
    → is_oldest j (Dict.put digest at executed) ≡ is_oldest j executed
is_oldest-put digest j at [] h = absurd (omega arith)
is_oldest-put digest j at ((k, v) ∷ d) h = ground arith

-- An oldest digest is there.
is_oldest-has : (j : String) (d : Dict String ℕ) → is_oldest j d ≡ true → Dict.has j d ≡ true
is_oldest-has j [] h = h
is_oldest-has j ((k, v) ∷ d) h = ground arith

get-remember :
    (cap : ℕ) (digest j : String) (at : ℕ) (executed : Dict String ℕ)
    → 0 < cap
    → IsBounded cap executed
    → Dict.get j (remember cap digest at executed) ≡ (
        if Dict.has digest executed
        then Dict.get j executed
        else if digest == j
        then some at
        else if ltb (length executed) cap
        then Dict.get j executed
        else if is_oldest j executed
        then none
        else Dict.get j executed)
unfolding remember
get-remember cap digest j at executed some_room h = elim (Bool-cases (Dict.has digest executed)) [
  | inl known ↦ rw known
  | inr new ↦
      let grown = Dict.put digest at executed in
      let distinct = put-HasDistinctKeys digest at executed h.distinct in
      let longer : length grown ≡ length executed + 1 =
        ap length (put_absent digest at executed new)
        ∙ length-append executed ((digest, at) ∷ []) in
      elim (Bool-cases (ltb (length executed) cap)) [
        | inl room ↦
            let fits : ltb cap (length grown) ≡ false = ground arith in
            rw (new, fits, room) (get-put digest j at executed)
        | inr full ↦
            let over : ltb cap (length grown) ≡ true = ground (arith, h.within) in
            rw (new, over, full)
              (ground (
                arith,
                get-drop_one j grown distinct,
                get-put digest j at executed,
                is_oldest-put digest j at executed,
                is_oldest-has j executed,
                eq_iff digest j,
              ))
      ]
]

-- What a lookup of any digest finds after a run of one. A digest that ran before keeps the time of
-- its first run and moves nothing. A new one is found with its time, and every other digest as it
-- was, except that the oldest is forgotten when the memory was full.
pub get-remember_executed :
    (p : Provider) (digest j : String) (at : ℕ)
    → IsBounded executed_memory_cap p.executed
    → Dict.get j (remember_executed digest at p).executed ≡ (
        if Dict.has digest p.executed
        then Dict.get j p.executed
        else if digest == j
        then some at
        else if ltb (length p.executed) executed_memory_cap
        then Dict.get j p.executed
        else if is_oldest j p.executed
        then none
        else Dict.get j p.executed)
unfolding remember_executed executed_memory_cap
get-remember_executed p digest j at h =
    get-remember executed_memory_cap digest j at p.executed (omega arith) h
