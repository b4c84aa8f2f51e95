-- ===== src/ControlApi/Outcomes.antt =====
-- provider_simulator/control_api.py: the outcomes of POST /scenario.
use provider_simulator.Base.{ℕ, ◌≡◌, refl, Bool, true, false, List, [], inl, inr, ◌⊎◌}
use provider_simulator.Base.Dict
use provider_simulator.Base.Dict.{Dict, nat_key}
use provider_simulator.Base.Json.{Json}
use provider_simulator.ControlApi.{Outcome, done, refused, raised, ◌>>=◌, Staged, stage_blocks}
use provider_simulator.ControlApi.Apply.{
  Api, Answer, status_of, apply_scenario, answer_staged, providers_in,
}
use provider_simulator.ControlApi.Atomic.{>>=-eq-done}
use provider_simulator.ControlApi.Fields.{Floats}
use provider_simulator.ControlApi.Ports.{Waits, settle_ports}
use provider_simulator.ControlApi.Sound.{IsSound}
use provider_simulator.ControlApi.Staging.{AreReady, stage_blocks-AreReady}
use provider_simulator.ControlApi.Writes.{Follows, write_blocks-done}

-- The three ways in which a call ends.
abbrev pub IsAnswered : Api → Outcome Answer × Api → Type 0
IsAnswered api (done answer, api') =
    ((answer.status ≡ 200) ⊎ (answer.status ≡ 500))
    × Follows api.registry api'.registry answer.applied
    × (IsSound api.registry → IsSound api'.registry)
IsAnswered api (refused status, api') = api' ≡ api
IsAnswered api (raised e, api') = api' ≡ api

answered_status : (b : Bool) → (status_of b ≡ 200) ⊎ (status_of b ≡ 500)
answered_status true = inl refl
answered_status false = inr refl

module _ (floats : Floats) (now : ℕ) (waits : Waits) (api : Api) where
  answer_staged-IsAnswered :
      (outcome : Outcome (List Staged))
      → ((staged : List Staged) → outcome ≡ done staged → AreReady api.registry staged)
      → IsAnswered api (answer_staged floats now waits api outcome)
  answer_staged-IsAnswered (refused status) ready = refl
  answer_staged-IsAnswered (raised e) ready = refl
  answer_staged-IsAnswered (done staged) ready =
      let (w, e, applied, follows, keeps) =
        write_blocks-done floats now api.gates staged
          (record { registry = api.registry; applied = []; wishes = [] }) (ready staged refl) in
      rw (e, applied) (answered_status (settle_ports waits w.wishes api.gates).0, follows, keeps)

  -- A call that is refused or that raises has changed nothing. One that is answered has the status 200
  -- or 500, each field of a scenario but `responses` then reads as the answer says or as before, and
  -- quirks that all have defaults still have them.
  pub apply_scenario-IsAnswered :
      (body : Json) → IsAnswered api (apply_scenario floats now waits body api)
  unfolding apply_scenario
  apply_scenario-IsAnswered body =
      answer_staged-IsAnswered
        (providers_in body >>= λ blocks.
          stage_blocks floats (λ port. Dict.has port api.gates) api.registry blocks)
        (λ staged h.
          let (blocks, _, h1) = >>=-eq-done (providers_in body) _ h in
          stage_blocks-AreReady floats (λ port. Dict.has port api.gates) api.registry blocks staged
            h1)
