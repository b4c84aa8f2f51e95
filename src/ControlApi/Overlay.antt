-- ===== src/ControlApi/Overlay.antt =====
-- The abstract view of the scenarios: the value of one field of one provider, and what an answer of
-- the control API says became of it.
use provider_simulator.Base.{
  String, ◌≡◌, refl, true, false, Bool-cases, [], ◌∷◌, ◌++◌, Option, none, some, inl, inr, ◌&&◌,
  ◌==◌, eq_iff, if◌then◌else◌, arith,
}
use provider_simulator.Base.Dict
use provider_simulator.Base.Dict.{
  Dict, string_key, HasDistinctKeys, get-remove, get-has, get_of_has, get-put, get_or-get,
}
use mathlib.Core.Option.{get_or}
use provider_simulator.Base.Json.{Json, null}
use provider_simulator.Base.Results.{Result, ok, err}
use provider_simulator.ControlApi.{Staged}
use provider_simulator.ControlApi.Apply.{Applied, applied_of}
use provider_simulator.ControlApi.Staging.{IsSorted}
use provider_simulator.Domain.Config.{is_field, write_all}
use provider_simulator.Domain.Config.Laws.{get-write_all}
use provider_simulator.Domain.Provider.{Provider}
use provider_simulator.Domain.Registry.{Registry, provider}
use provider_simulator.Domain.Scenario.{scenario_config}

-- The field in the snapshot of the scenario of a provider, if the provider is there.
abbrev pub field_of : String → Result Provider → Option Json
field_of name (ok p) = some (Dict.get_or name null p.scenario.values)
field_of name (err e) = none

abbrev pub reads : Registry → String → String → String → Option Json
reads reg pool pid name = field_of name (provider reg pool pid)

-- A new value if there is one.
abbrev pub or_old {ℓ} : {A : Type ℓ} → Option A → Option A → Option A
or_old none old = old
or_old (some new) old = some new

-- What a block of an answer says of a field.
abbrev pub overlay_block :
    (String × String) × Dict String Json → String → String → String → Option Json → Option Json
overlay_block ((pool, pid), block) pool' pid' name old =
    if pool == pool' && pid == pid' then or_old (Dict.get name block) old else old

abbrev pub overlay : Applied → String → String → String → Option Json → Option Json
overlay [] pool pid name old = old
overlay (row ∷ rows) pool pid name old =
    overlay rows pool pid name (overlay_block row pool pid name old)

pub overlay-++ :
    (rows others : Applied) (pool pid name : String) (old : Option Json)
    → overlay (rows ++ others) pool pid name old
      ≡ overlay others pool pid name (overlay rows pool pid name old)
overlay-++ [] others pool pid name old = refl
overlay-++ (row ∷ rows) others pool pid name old =
    overlay-++ rows others pool pid name (overlay_block row pool pid name old)

or_old-some :
    (new old : Option Json)
    → some (get_or (or_old new old) null) ≡ or_old new (some (get_or old null))
or_old-some none old = refl
or_old-some (some new) old = refl

-- A field that the client can follow: a field of the scenario that answers name.
abbrev pub IsFollowed : String → Type 0
IsFollowed name = (is_field scenario_config name ≡ true) × (("responses" == name) ≡ false)

get-write_all_or :
    (cfg values : Dict String Json) (key : String)
    → HasDistinctKeys cfg
    → Dict.get key (write_all cfg values) ≡ or_old (Dict.get key cfg) (Dict.get key values)
get-write_all_or cfg values key distinct = elim (Bool-cases (Dict.has key cfg)) [
  | inl there ↦
      let (v, e) = get_of_has key cfg there in
      rw (get-write_all cfg values key distinct, there, e) refl
  | inr missing ↦ rw (get-write_all cfg values key distinct, missing, get-has key cfg missing) refl
]

pub get_or-write_all_or :
    (cfg values : Dict String Json) (key : String)
    → HasDistinctKeys cfg
    → some (Dict.get_or key null (write_all cfg values))
      ≡ or_old (Dict.get key cfg) (some (Dict.get_or key null values))
get_or-write_all_or cfg values key distinct =
    rw
      (
        get_or-get key null (write_all cfg values),
        get-write_all_or cfg values key distinct,
        get_or-get key null values,
      )
      (or_old-some (Dict.get key cfg) (Dict.get key values))

get-write_all_absent :
    (cfg values : Dict String Json) (key : String)
    → Dict.has key cfg ≡ false
    → Dict.get key (write_all cfg values) ≡ Dict.get key values
unfolding write_all
get-write_all_absent [] values key missing = refl
get-write_all_absent ((k, v) ∷ cfg) values key missing = ground (
  arith,
  get-write_all_absent cfg (Dict.put k v values) key,
  get-put k key v values,
  eq_iff k key,
)

pub get-applied_of :
    (st : Staged) (name : String)
    → IsSorted (st.updates, st.quirks)
    → IsFollowed name
    → Dict.get name (applied_of st) ≡ Dict.get name st.updates
unfolding applied_of
get-applied_of st name (_, others) (declared, other) =
    rw
      (
        get-remove "responses" name (write_all st.quirks st.updates),
        other,
        get-write_all_absent st.quirks st.updates name (others name declared),
      )
      refl
