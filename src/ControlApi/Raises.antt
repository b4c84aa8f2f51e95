-- ===== src/ControlApi/Raises.antt =====
-- provider_simulator/control_api.py: a value that has no hash, in a field of one word.
use provider_simulator.Base.{ℕ, String, ◌≡◌, refl, some, []}
use provider_simulator.Base.Dict.{nat_key, string_key}
use provider_simulator.Base.Json.{Json, obj, arr, Items, field, end}
use provider_simulator.Base.Results.{ok, type_error}
use provider_simulator.ControlApi.{
  raised, split_key, stage_field, stage_fields, stage_block, stage_blocks,
}
use provider_simulator.ControlApi.Apply.{Api, apply_scenario}
use provider_simulator.ControlApi.Fields.{Floats, bad_enum, enums}
use provider_simulator.ControlApi.Ports.{Waits}
use provider_simulator.Domain.Config.{is_field}
use provider_simulator.Domain.Provider.{Provider}
use provider_simulator.Domain.Registry.{provider}
use provider_simulator.Domain.Scenario.{scenario_config}

-- {"providers": {key: {"mode": values}}}
abbrev pub mode_request : String → Json → Json
mode_request key value =
    obj (field "providers" (obj (field key (obj (field "mode" value end)) end)) end)

stage_field-raises :
    (floats : Floats) (p : Provider) (values : Items)
    → stage_field floats p.quirks_class "mode" (arr values) ([], []) ≡ raised type_error
unfolding stage_field bad_enum enums is_field scenario_config
stage_field-raises floats p values = refl

-- A list for the mode of a provider that is there is not answered: a TypeError leaves the handler, and
-- nothing has changed.
pub apply_scenario-raises :
    (floats : Floats) (now : ℕ) (waits : Waits) (api : Api) (key pool pid : String) (p : Provider)
    (values : Items)
    → split_key key ≡ some (pool, pid)
    → provider api.registry pool pid ≡ ok p
    → apply_scenario floats now waits (mode_request key (arr values)) api ≡ (raised type_error, api)
unfolding apply_scenario stage_blocks stage_block stage_fields
apply_scenario-raises floats now waits api key pool pid p values split found =
    rw (split, found, stage_field-raises floats p values) refl
