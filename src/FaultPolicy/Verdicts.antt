-- ===== src/FaultPolicy/Verdicts.antt =====
-- provider_simulator/fault_policy.py: the verdicts of `decide` on every mode.
use provider_simulator.Base.{
  ℕ, ◌≡◌, refl, ap, ◌∙◌, String, true, false, List, [], ◌∷◌, arith, ltb, if◌then◌else◌, eq_iff,
  is_one_of,
}
use provider_simulator.Domain.Endpoint.{Endpoint}
use provider_simulator.Domain.Provider.{Provider}
use provider_simulator.FaultPolicy.{
  Scenario, no_fault, error, Verdict, targets, port_closed, resolve_mode, ladder, decide,
}

-- The modes that `ladder` has a branch for.
abbrev pub fault_modes : List String
fault_modes = "down" ∷ "hang" ∷ "drop_connection" ∷ "rate_limit" ∷ "error" ∷ []

-- A mode with no branch, such as "port_closed" or a misspelt one, is answered as "success" is.
ladder_other :
    (mode : String) (s : Scenario) (draw : ℕ)
    → is_one_of mode fault_modes ≡ false
    → ladder mode s draw ≡ ladder "success" s draw
unfolding ladder
ladder_other mode s draw h = ground arith

resolve_mode-no_window :
    (s : Scenario) (ep : Endpoint) (p : Provider)
    → targets s ep ≡ true
    → s.fail_first_n ≡ 0
    → resolve_mode s ep p ≡ ((true, s.mode), p)
unfolding resolve_mode
resolve_mode-no_window s ep p t n = rw (t, n)

ladder_success :
    (s : Scenario) (draw : ℕ)
    → (ladder "success" s draw).kind ≡ (if ltb draw s.error_steps then error else no_fault)
unfolding ladder
ladder_success s draw = ground arith

-- A request that still reaches a port which its scenario closes gets no fault of that mode: with
-- no window it is answered as on an open port, by an error when the draw is below the error
-- probability and by the success content when it is not, and no counter moves.
pub decide-port_closed :
    (s : Scenario) (ep : Endpoint) (draw : ℕ) (p : Provider)
    → port_closed s ep ≡ true
    → s.fail_first_n ≡ 0
    → ((decide s ep draw p).0.kind ≡ (if ltb draw s.error_steps then error else no_fault))
      × ((decide s ep draw p).1 ≡ p)
unfolding decide port_closed ladder
decide-port_closed s ep draw p closed no_window =
    let targeted : targets s ep ≡ true = ground arith in
    let mode : s.mode ≡ "port_closed" = ground (arith, eq_iff s.mode "port_closed") in
    rw (resolve_mode-no_window s ep p targeted no_window, mode)
      (
        ap (λ (v : Verdict). v.kind) (ladder_other "port_closed" s draw refl)
            ∙ ladder_success s draw,
        refl,
      )
