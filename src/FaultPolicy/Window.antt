-- ===== src/FaultPolicy/Window.antt =====
-- provider_simulator/fault_policy.py: the fail_first_n window over a sequence of requests.
use provider_simulator.Base.{
  ℕ, zero, suc, ◌+◌, ◌<◌, ◌≡◌, refl, ap, ◌∙◌, some, String, Bool, true, false, List, [], ◌∷◌, arith,
  leb, if◌then◌else◌, count_if, take, get_elem?,
}
use mathlib.Core.Option.{some-injective}
use provider_simulator.Domain.Endpoint.{Endpoint}
use provider_simulator.Domain.Provider.{Provider, consume_fail, peek_fail, reset_fail}
use provider_simulator.FaultPolicy.{Scenario, targets, resolve_mode}

-- The answers of `resolve_mode` to requests that come one after the other, each on its endpoint.
unfoldable pub resolve_all : Scenario → Provider → List Endpoint → List (Bool × String)
resolve_all s p [] = []
resolve_all s p (ep ∷ eps) = let (answer, p') = resolve_mode s ep p in answer ∷ resolve_all s p' eps

-- The provider after them.
unfoldable pub resolved : Scenario → Provider → List Endpoint → Provider
resolved s p [] = p
resolved s p (ep ∷ eps) = resolved s (resolve_mode s ep p).1 eps

-- The answer to a request on an endpoint, when it is the `seen`th one on a targeted endpoint.
unfoldable pub windowed : Scenario → Endpoint → ℕ → Bool × String
windowed s ep seen =
    if targets s ep
    then (true, (if leb seen s.fail_first_n then s.mode else s.then_mode))
    else (false, "success")

-- One request: what it answers, and where it leaves the counter.
resolve_mode_answer :
    (s : Scenario) (ep : Endpoint) (p : Provider)
    → 0 < s.fail_first_n
    → (resolve_mode s ep p).0 ≡ windowed s ep (p.fail_count + (if targets s ep then 1 else 0))
unfolding resolve_mode consume_fail windowed
resolve_mode_answer s ep p h = ground arith

resolve_mode_count :
    (s : Scenario) (ep : Endpoint) (p : Provider)
    → 0 < s.fail_first_n
    → peek_fail (resolve_mode s ep p).1 ≡ peek_fail p + (if targets s ep then 1 else 0)
unfolding resolve_mode consume_fail peek_fail
resolve_mode_count s ep p h = ground arith

windowed_eq :
    (s : Scenario) (ep ep' : Endpoint) (n n' : ℕ)
    → ep ≡ ep'
    → n ≡ n'
    → windowed s ep n ≡ windowed s ep' n'
windowed_eq s ep ep' n n' e h = cc

window_from :
    (s : Scenario) (p : Provider) (eps : List Endpoint) (i : ℕ) (ep : Endpoint)
    → 0 < s.fail_first_n
    → get_elem? eps i ≡ some ep
    → get_elem? (resolve_all s p eps) i
      ≡ some (windowed s ep (peek_fail p + count_if (targets s) (take (suc i) eps)))
unfolding resolve_all
window_from s p [] i ep h e = absurd (ground arith)
window_from s p (e' ∷ eps) zero ep h e =
    let same : e' ≡ ep = some-injective e' ep e in
    ap some (
      resolve_mode_answer s e' p h
      ∙ windowed_eq s e' ep (p.fail_count + (if targets s e' then 1 else 0))
          (peek_fail p + count_if (targets s) (take 1 (e' ∷ eps))) same
          (unfold peek_fail in omega arith))
window_from s p (e' ∷ eps) (suc i) ep h e =
    window_from s (resolve_mode s e' p).1 eps i ep h e
    ∙ ap some (
        windowed_eq s ep ep
          (peek_fail (resolve_mode s e' p).1 + count_if (targets s) (take (suc i) eps))
          (peek_fail p + count_if (targets s) (take (suc (suc i)) (e' ∷ eps))) refl
          (omega (arith, resolve_mode_count s e' p h)))

-- A provider whose counter was reset, under a window of `fail_first_n` requests: each request on
-- an endpoint that the block targets gets the fault mode while it is among the first
-- `fail_first_n` of those, counted up to itself, and `then_mode` after; a request on any other
-- endpoint is untargeted, gets success, and moves nothing.
pub resolve_all-windowed :
    (s : Scenario) (p : Provider) (eps : List Endpoint) (i : ℕ) (ep : Endpoint)
    → 0 < s.fail_first_n
    → get_elem? eps i ≡ some ep
    → get_elem? (resolve_all s (reset_fail p) eps) i
      ≡ some (windowed s ep (count_if (targets s) (take (suc i) eps)))
resolve_all-windowed s p eps i ep h e =
    window_from s (reset_fail p) eps i ep h e
    ∙ ap some (
        windowed_eq s ep ep (peek_fail (reset_fail p) + count_if (targets s) (take (suc i) eps))
          (count_if (targets s) (take (suc i) eps)) refl
          (unfold peek_fail reset_fail in omega arith))
