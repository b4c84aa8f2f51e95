-- ===== src/CacheSim/Staging.antt =====
-- provider_simulator/cache_sim.py: what was staged is what the next lookups get.
use provider_simulator.Base.{
  ℕ, ◌≡◌, ap, sym, ◌∙◌, String, false, not, Option, none, some, any, arith, is_one_of, Option-cases,
  inl, inr,
}
use provider_simulator.Base.Dict
use provider_simulator.Base.Dict.{Dict, string_key}
use provider_simulator.Base.Json.{Json, text}
use provider_simulator.Base.Results.{ok, value_error, raise_if, >>=-eq-ok, ok-injective}
use provider_simulator.CacheSim.Entry.{
  Library, CacheEntry, from_dict, with_payload, validate, to_cache_relay_reply, envelope,
  known_fields,
}
use provider_simulator.CacheSim.Control.{
  Staged, built, described, Stage, stage, known_mode, is_hit_without_entry, check_optional_status,
  read_entry, or_kept_entry,
}
use provider_simulator.CacheSim.Log.{Mode, hit, CacheSim}
use provider_simulator.CacheSim.Plans.{respond, answer}

read_entry-some :
    (lib : Library) (s : Staged) (e : Option CacheEntry)
    → read_entry lib (some s) ≡ ok e
    → (entry : CacheEntry) × (e ≡ some entry) × (validate entry ≡ ok tt)
unfolding read_entry
read_entry-some lib (built entry) e h =
    let (_, good, h1) = >>=-eq-ok (validate entry) _ h in (entry, sym (ok-injective _ _ h1), good)
read_entry-some lib (described body) e h =
    let (entry, _, h1) = >>=-eq-ok (from_dict lib body) _ h in
    let (_, good, h2) = >>=-eq-ok (validate entry) _ h1 in (entry, sym (ok-injective _ _ h2), good)

mode_hit :
    (lib : Library) (s : String) (mode : Mode) → s ≡ "hit" → known_mode lib s ≡ ok mode → mode ≡ hit
unfolding known_mode
mode_hit lib s mode e h = sym (ok-injective hit mode (sym (ap (known_mode lib) e) ∙ h))

answer_hit :
    (lib : Library) (sim : CacheSim) (entry : CacheEntry) (latency_ms : ℕ)
    → sim.mode ≡ hit
    → sim.entry ≡ some entry
    → sim.latency_ms ≡ latency_ms
    → answer lib sim ≡ respond (to_cache_relay_reply lib entry) latency_ms
unfolding answer
answer_hit lib sim entry latency_ms m e l = ground arith

-- A hit can be staged only with an entry, which reads as a well-typed one; and after it was staged
-- the answer to a lookup is the reply of that entry, after the staged latency.
pub answer-stage :
    (lib : Library) (a : Stage) (sim sim' : CacheSim)
    → a.mode ≡ "hit"
    → stage lib a sim ≡ ok sim'
    → (entry : CacheEntry) × (read_entry lib a.entry ≡ ok (some entry))
      × (validate entry ≡ ok tt)
      × (answer lib sim' ≡ respond (to_cache_relay_reply lib entry) a.latency_ms)
unfolding stage
answer-stage lib a sim sim' m h =
    let (mode, known, h1) = >>=-eq-ok (known_mode lib a.mode) _ h in
    let is_hit : mode ≡ hit = mode_hit lib a.mode mode m known in
    let (_, guarded, h2) =
      >>=-eq-ok (raise_if (is_hit_without_entry lib mode a.entry) value_error) _ h1 in
    let (_, _, h3) = >>=-eq-ok (check_optional_status lib a.error_status) _ h2 in
    let (e, was_read, h4) = >>=-eq-ok (read_entry lib a.entry) _ h3 in
    let same = ok-injective _ _ h4 in
    elim (Option-cases a.entry) [
      | inl missing ↦ absurd (ground (arith, missing, guarded, is_hit))
      | inr (s, given) ↦
          let (entry, found, good) =
            read_entry-some lib s e (ap (read_entry lib) (sym given) ∙ was_read) in
          (
            entry,
            was_read ∙ ap (λ o. ok o) found,
            good,
            answer_hit lib sim' entry a.latency_ms
                (ap (λ (c : CacheSim). c.mode) (sym same) ∙ is_hit)
                (ap (λ (c : CacheSim). c.entry) (sym same)
                  ∙ ap (λ o. or_kept_entry o sim.entry) found)
                (ap (λ (c : CacheSim). c.latency_ms) (sym same)),
          )
    ]

-- A body of a control call that is accepted loses nothing: each of its keys is a field of an entry
-- or one of `result` and `error`, and when it has a `result` the payload is the envelope of it.
pub from_dict-result :
    (lib : Library) (body : Dict String Json) (entry : CacheEntry) (result : Json)
    → from_dict lib body ≡ ok entry
    → Dict.get "result" body ≡ some result
    → (entry.content ≡ text (lib.dumps (envelope "result" result)))
      × (Dict.get "error" body ≡ none)
      × (Dict.has "data" (Dict.remove "error" (Dict.remove "result" body)) ≡ false)
      × (any
            (λ (key, _). not (is_one_of key known_fields))
            (Dict.remove "error" (Dict.remove "result" body))
          ≡ false)
unfolding from_dict with_payload
from_dict-result lib body entry result h there =
    (ground arith, ground arith, ground arith, ground arith)
