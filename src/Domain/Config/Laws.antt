-- ===== src/Domain/Config/Laws.antt =====
-- provider_simulator/domain/introspective_config.py: what update and reset leave behind.
use provider_simulator.Base.{
  ℕ, ◌≡◌, refl, String, Bool, true, false, not, Option, none, some, List, [], ◌∷◌, map, any, arith,
  eq_iff, if◌then◌else◌,
}
use provider_simulator.Base.Dict
use provider_simulator.Base.Dict.{
  Dict, string_key, HasDistinctKeys, get-put, get_or-put, has-put, get-has,
}
use provider_simulator.Base.Json.{Json, null}
use provider_simulator.Base.Results.{ok, err, value_error}
use provider_simulator.Domain.Config.{
  ConfigClass, Config, is_field, check, write_all, update, snapshot, reset_fields, reset,
}

pub get-write_all :
    (cfg values : Dict String Json) (key : String)
    → HasDistinctKeys cfg
    → Dict.get key (write_all cfg values)
      ≡ (if Dict.has key cfg then Dict.get key cfg else Dict.get key values)
unfolding write_all
get-write_all [] values key h = refl
get-write_all ((k, v) ∷ cfg) values key h =
    ground
      (arith, get-write_all cfg (Dict.put k v values) key h.1, get-put k key v values, eq_iff k key)

-- An update that `check` lets through is made whole: each key of the update gets its new value,
-- every other field stays as it was, and the time of the write is stamped.
pub update_reads :
    (cls : ConfigClass) (now : ℕ) (cfg : Dict String Json) (c : Config)
    → HasDistinctKeys cfg
    → check cls cfg ≡ ok tt
    → (c' : Config) × (update cls now cfg c ≡ ok c')
      × ((key : String)
          → Dict.get key c'.values
            ≡ (if Dict.has key cfg then Dict.get key cfg else Dict.get key c.values))
      × (c'.last_write_at ≡ some now)
unfolding update
update_reads cls now cfg c distinct checked = (
  record { values = write_all cfg c.values; last_write_at = some now },
  rw checked,
  λ key. get-write_all cfg c.values key distinct,
  refl,
)

any-has :
    (p : String → Bool) (cfg : Dict String Json) (key : String)
    → Dict.has key cfg ≡ true
    → p key ≡ true
    → any (λ (k, _). p k) cfg ≡ true
any-has p [] key there h = there
any-has p ((k, v) ∷ cfg) key there h = ground (arith, any-has p cfg key, eq_iff k key)

-- One key that names no field is enough: the whole update is refused, whatever else it holds, and
-- `check` refuses it in the same way.
pub update_unknown :
    (cls : ConfigClass) (now : ℕ) (cfg : Dict String Json) (c : Config) (key : String)
    → Dict.has key cfg ≡ true
    → is_field cls key ≡ false
    → (update cls now cfg c ≡ err value_error) × (check cls cfg ≡ err value_error)
unfolding update check
update_unknown cls now cfg c key there unknown =
    let bad : any (λ (k, _). not (is_field cls k)) cfg ≡ true =
      any-has (λ k. not (is_field cls k)) cfg key there (ground arith) in
    (rw bad, rw bad)

-- Every declared field has a default.
abbrev pub HasDefaults : List (String × Option Json) → Type 0
HasDefaults [] = Unit
HasDefaults ((name, none) ∷ rest) = ⊥
HasDefaults ((name, some default) ∷ rest) = HasDefaults rest

abbrev pub default_or_null : Option Json → Json
default_or_null none = null
default_or_null (some default) = default

abbrev pub at_default : String × Option Json → String × Json
at_default (name, default) = (name, default_or_null default)

abbrev read_from : Dict String Json → String × Option Json → String × Json
read_from values (name, _) = (name, Dict.get_or name null values)

-- The fields of a class at their defaults.
unfoldable pub defaults_of : ConfigClass → Dict String Json
defaults_of cls = map at_default cls.declared

reset_fields_keeps :
    (declared : List (String × Option Json)) (values : Dict String Json) (key : String)
    → HasDefaults declared
    → Dict.has key declared ≡ false
    → Dict.get_or key null (reset_fields declared values).1 ≡ Dict.get_or key null values
unfolding reset_fields
reset_fields_keeps [] values key d h = refl
reset_fields_keeps ((name, none) ∷ rest) values key d h = absurd d
reset_fields_keeps ((name, some default) ∷ rest) values key d h = ground (
  arith,
  reset_fields_keeps rest (Dict.put name default values) key d,
  get_or-put name key default null values,
)

reset_fields_writes :
    (declared : List (String × Option Json)) (values : Dict String Json)
    → HasDefaults declared
    → HasDistinctKeys declared
    → ((reset_fields declared values).0 ≡ ok tt)
      × (map (read_from (reset_fields declared values).1) declared ≡ map at_default declared)
unfolding reset_fields
reset_fields_writes [] values d distinct = (refl, refl)
reset_fields_writes ((name, none) ∷ rest) values d distinct = absurd d
reset_fields_writes ((name, some default) ∷ rest) values d distinct =
    let (done, others) = reset_fields_writes rest (Dict.put name default values) d distinct.1 in
    let own : Dict.get_or name null (reset_fields rest (Dict.put name default values)).1 ≡ default =
      ground (
        arith,
        reset_fields_keeps rest (Dict.put name default values) name d distinct.0,
        get_or-put name name default null values,
        eq_iff name name,
      ) in
    (done, rw (own, others))

-- A class whose fields all have a default, such as each class of the simulator: a reset raises
-- nothing, and a snapshot after it holds every field at its default, whatever was written before.
pub snapshot-reset :
    (cls : ConfigClass) (c : Config)
    → HasDefaults cls.declared
    → HasDistinctKeys cls.declared
    → ((reset cls c).0 ≡ ok tt) × (snapshot cls (reset cls c).1 ≡ defaults_of cls)
unfolding reset snapshot defaults_of
snapshot-reset cls c d distinct = reset_fields_writes cls.declared c.values d distinct

-- After the loop of `reset` each field has its own default.
pub reset_fields_reads :
    (declared : List (String × Option Json)) (values : Dict String Json) (key : String)
    → HasDefaults declared
    → HasDistinctKeys declared
    → Dict.has key declared ≡ true
    → Dict.get_or key null (reset_fields declared values).1
      ≡ Dict.get_or key null (map at_default declared)
unfolding reset_fields
reset_fields_reads [] values key d distinct there = absurd (cc there)
reset_fields_reads ((name, none) ∷ rest) values key d distinct there = absurd d
reset_fields_reads ((name, some default) ∷ rest) values key d distinct there = ground (
  arith,
  reset_fields_keeps rest (Dict.put name default values) key d,
  reset_fields_reads rest (Dict.put name default values) key d,
  get_or-put name key default null values,
  eq_iff name key,
  distinct.0,
  distinct.1,
)
