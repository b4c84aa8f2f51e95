-- ===== src/Domain/Config.antt =====
-- provider_simulator/domain/introspective_config.py: update, check, snapshot and reset of a
-- config object, by its declared fields. A class is its fields with their defaults, in order, and
-- its hook for bad values; an object is the value of each field and the time of the last write.
pub mod Laws
use provider_simulator.Base.{
  ℕ, String, Bool, true, false, not, Option, none, some, List, [], ◌∷◌, map, select, any,
}
use provider_simulator.Base.Dict
use provider_simulator.Base.Dict.{Dict, string_key}
use provider_simulator.Base.Json.{Json, null}
use provider_simulator.Base.Results.{
  Result, ok, err, value_error, type_error, ◌>>=◌, ◌>>◌, raise_if,
}

-- A field with no default has `none`.
pub record ConfigClass : Type 0 where
  pub declared : List (String × Option Json)
  pub validate : Dict String Json → Result (Unit {0})

pub record Config : Type 0 where
  pub values : Dict String Json
  pub last_write_at : Option ℕ

-- {f.name for f in fields(self)}
unfoldable pub is_field : ConfigClass → String → Bool
is_field cls name = Dict.has name cls.declared

-- A key that names no field is refused, then the class's own hook looks at the values.
unfoldable pub check : ConfigClass → Dict String Json → Result (Unit {0})
check cls cfg = do raise_if (any (λ (k, v). not (is_field cls k)) cfg) value_error; cls.validate cfg

-- for key, value in cfg.items(): setattr(self, key, value)
unfoldable pub write_all : Dict String Json → Dict String Json → Dict String Json
write_all [] values = values
write_all ((key, value) ∷ cfg) values = write_all cfg (Dict.put key value values)

-- A refused update leaves the object as it is: the error comes before any write.
unfoldable pub update : ConfigClass → ℕ → Dict String Json → Config → Result Config
update cls now cfg c = do
  check cls cfg
  ok (record { values = write_all cfg c.values; last_write_at = some now })

-- Each declared field with its value, in the order of the class. A field always has a value.
unfoldable pub snapshot : ConfigClass → Config → Dict String Json
snapshot cls c = map (λ (name, _). (name, Dict.get_or name null c.values)) cls.declared

-- The loop of `reset`: what was written before a field with no default stays written.
unfoldable pub reset_fields :
    List (String × Option Json) → Dict String Json → Result (Unit {0}) × Dict String Json
reset_fields [] values = (ok tt, values)
reset_fields ((name, none) ∷ rest) values = (err type_error, values)
reset_fields ((name, some default) ∷ rest) values = reset_fields rest (Dict.put name default values)

unfoldable pub reset : ConfigClass → Config → Result (Unit {0}) × Config
reset cls c =
    let (outcome, values) = reset_fields cls.declared c.values in
    (outcome, record c { values = values })
