-- ===== src/Listeners/Wire/Tests.antt =====
-- Runs of provider_simulator/listeners/wire.py, with a small encoder in the place of the real one.
use provider_simulator.Base.{◌≡◌, refl, true, false, not, none, some, [], codes}
use provider_simulator.Base.Json.{null, text, obj, Fields, end, field}
use provider_simulator.Listeners.Wire.{
  Encoder, split, join, remove_dotted, remove_at, swap_type, wrong_type, finish, body_reply,
  serialize,
}
use provider_simulator.Listeners.Wire.Corruption.{is_left_out, serialize-is_left_out}
use provider_simulator.Listeners.Wire.Paths.{
  remove_path, get_path, remove_at-split, get_path-remove_at,
}

abbrev encoder : Encoder
encoder = record { dumps = λ value. codes "0123456789AB"; encode = λ s. codes s }

-- {"block": {"header": {"height": "7", "time": "t"}}}
abbrev reply : Fields
reply =
    field "block"
      (obj (field "header" (obj (field "height" (text "7") (field "time" (text "t") end))) end)) end

program : Unit {0}
unfolding split join remove_dotted swap_type wrong_type finish body_reply serialize remove_path
    get_path
program = tt

removed :
    (remove_at (codes "block.header.height") reply
      ≡ field "block" (obj (field "header" (obj (field "time" (text "t") end)) end)) end)
    × (remove_at (codes "block.missing.height") reply ≡ reply)
    × (remove_at (codes "block.") reply ≡ reply)
unfolding program
removed = (refl, refl, refl)

corrupted :
    ((serialize encoder 200 (obj reply) (some "truncated") "" false).1 ≡ codes "01")
    × ((serialize encoder 200 (text "slow down") (some "empty_response") "" false)
        ≡ (200, [], false))
    × ((serialize encoder 200 null (some "empty_response") "" false).2 ≡ true)
unfolding program
corrupted = (refl, refl, refl)

serialize-is_left_out_example :
    ((serialize encoder 200 (obj reply) (some "empty_response") "x" false).0 ≡ 200)
    × ((serialize encoder 200 (obj reply) (some "empty_response") "x" false).2
        ≡ not (is_left_out (some "empty_response") (obj reply)))
serialize-is_left_out_example =
    serialize-is_left_out encoder 200 (obj reply) (some "empty_response") "x" false

remove_at-split_example :
    remove_at (codes "block.header.height") reply
    ≡ remove_path (split (codes "block.header.height")) reply
remove_at-split_example = remove_at-split (codes "block.header.height") reply

get_path-remove_at_example :
    get_path (split (codes "block.header.height")) (remove_at (codes "block.header.height") reply)
    ≡ none
unfolding program
get_path-remove_at_example = get_path-remove_at (codes "block.header.height") reply refl
