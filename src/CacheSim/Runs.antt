-- ===== src/CacheSim/Runs.antt =====
-- provider_simulator/cache_sim.py: what holds of a cache after any sequence of calls.
use provider_simulator.Base.{
  ℕ, ◌+◌, ◌≤◌, ◌≡◌, inl, inr, subst, String, List, [], ◌∷◌, ◌++◌, arith, length, length-append,
  length-drop,
}
use provider_simulator.Base.Deque
use provider_simulator.Base.Dict.{Dict, string_key}
use provider_simulator.Base.Json.{Json}
use provider_simulator.Base.Results.{
  Result-cases, ok, err, >>=-eq-ok, ok-injective, raise_if, value_error,
}
use provider_simulator.CacheSim.Entry.{Library}
use provider_simulator.CacheSim.Lookups.{plan_of_row}
use provider_simulator.CacheSim.Control.{
  known_mode, is_hit_without_entry, check_optional_status, read_entry, Stage, stage,
}
use provider_simulator.CacheSim.Log.{
  CacheSim, RecordedCall, record_call, record_other_method, clear_calls, reset, new_sim,
}
use provider_simulator.CacheSim.Plans.{decode, value_of, int_of, lookup_row, plan_decoded, plan}

-- What a cache can be asked, by the router and by the control service.
pub data Operation : Type 0 where
  looked_up : String → ℕ → Operation
  refused_method : String → ℕ → Operation
  staged : Stage → Operation
  calls_cleared : Operation
  was_reset : Operation

-- A refused stage leaves the cache as it is.
unfoldable pub apply : Library → CacheSim → Operation → CacheSim
apply lib sim (looked_up body now) = (plan lib body now sim).1
apply lib sim (refused_method method now) = record_other_method method now sim
apply lib sim (staged a) = elim (stage lib a sim) [ err e ↦ sim | ok sim' ↦ sim' ]
apply lib sim calls_cleared = clear_calls sim
apply lib sim was_reset = reset sim

unfoldable pub run : Library → CacheSim → List Operation → CacheSim
run lib sim [] = sim
run lib sim (op ∷ ops) = run lib (apply lib sim op) ops

-- The record is bounded, and holds no more calls than were ever counted.
pub record IsCounted (sim : CacheSim) : Type 0 where
  pub bounded : length sim.calls ≤ sim.history_max
  pub counted : length sim.calls ≤ sim.records_total

length-append_suc :
    (n : ℕ) (xs : List RecordedCall) (x : RecordedCall)
    → length (Deque.append n xs x) ≤ length xs + 1
unfolding Deque.append
length-append_suc n xs x = ground (arith, length-append xs (x ∷ []), length-drop 1 (xs ++ x ∷ []))

record_call-IsCounted :
    (sim : CacheSim) (row : RecordedCall) → IsCounted sim → IsCounted (record_call sim row)
unfolding record_call
record_call-IsCounted sim row h = record {
  bounded = Deque.length-append_bounded sim.history_max sim.calls row h.bounded;
  counted = omega (arith, h.counted, length-append_suc sim.history_max sim.calls row);
}

plan-IsCounted :
    (lib : Library) (d : Dict String Json) (now : ℕ) (sim : CacheSim)
    → IsCounted sim
    → IsCounted (plan_decoded lib d now sim).1
unfolding plan_decoded
plan-IsCounted lib d now sim h = elim (Result-cases (int_of lib (value_of "requested_block" d))) [
  | inr (e, bad) ↦ rw (bad, plan_decoded) h
  | inl (block, numbered) ↦ elim (Result-cases (lookup_row lib sim d block now)) [
    | inr (e, bad) ↦
        rw (numbered, plan_decoded, bad)
          (record { bounded = h.bounded; counted = omega (arith, h.counted) })
    | inl (row, made) ↦
        rw (plan_of_row lib d now sim block row numbered made) (record_call-IsCounted sim row h)
  ]
]

stage-IsCounted :
    (lib : Library) (a : Stage) (sim sim' : CacheSim)
    → stage lib a sim ≡ ok sim'
    → IsCounted sim
    → IsCounted sim'
unfolding stage
stage-IsCounted lib a sim sim' e h =
    let (mode, _, e1) = >>=-eq-ok (known_mode lib a.mode) _ e in
    let (_, _, e2) =
      >>=-eq-ok (raise_if (is_hit_without_entry lib mode a.entry) value_error) _ e1 in
    let (_, _, e3) = >>=-eq-ok (check_optional_status lib a.error_status) _ e2 in
    let (entry, _, e4) = >>=-eq-ok (read_entry lib a.entry) _ e3 in
    subst IsCounted (ok-injective _ _ e4) (record { bounded = h.bounded; counted = h.counted })

apply-IsCounted :
    (lib : Library) (sim : CacheSim) (op : Operation) → IsCounted sim → IsCounted (apply lib sim op)
unfolding apply plan record_other_method clear_calls reset
apply-IsCounted lib sim (looked_up body now) h = plan-IsCounted lib (decode lib body) now sim h
apply-IsCounted lib sim (refused_method method now) h = record_call-IsCounted sim _ h
apply-IsCounted lib sim (staged a) h = elim (Result-cases (stage lib a sim)) [
  | inr (e, refused) ↦ rw (refused, apply) h
  | inl (sim', done) ↦ rw (done, apply) (stage-IsCounted lib a sim sim' done h)
]
apply-IsCounted lib sim calls_cleared h = record { bounded = omega arith; counted = omega arith }
apply-IsCounted lib sim was_reset h = record { bounded = omega arith; counted = omega arith }

run_keeps :
    (lib : Library) (sim : CacheSim) (ops : List Operation)
    → IsCounted sim
    → IsCounted (run lib sim ops)
unfolding run
run_keeps lib sim [] h = h
run_keeps lib sim (op ∷ ops) h = run_keeps lib (apply lib sim op) ops (apply-IsCounted lib sim op h)

-- Whatever a new cache is asked, in any order, lookups that raise and refused stages included: its
-- record holds at most `history_max` calls, and `records_total` is never below their number.
pub run-IsCounted :
    (lib : Library) (history_max : ℕ) (name : String) (ops : List Operation)
    → IsCounted (run lib (new_sim history_max name) ops)
unfolding new_sim
run-IsCounted lib history_max name ops =
    run_keeps lib (new_sim history_max name) ops
      (record { bounded = omega arith; counted = omega arith })
