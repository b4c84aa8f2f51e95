-- ===== src/CacheSim/Lookups.antt =====
-- provider_simulator/cache_sim.py: what a lookup answers and what it records.
use provider_simulator.Base.{
  ℕ, ◌+◌, ◌≤◌, ◌≡◌, refl, ap, sym, subst, ◌∙◌, String, true, Bool-cases, inl, inr, none, some, List,
  [], ◌∷◌, ◌++◌, length, drop, ltb, arith, ◌==◌, if◌then◌else◌,
}
use provider_simulator.Base.Deque
use provider_simulator.Base.Int.{ℤ, pos}
use provider_simulator.Base.Dict.{Dict, string_key}
use provider_simulator.Base.Json.{Json}
use provider_simulator.Base.Results.{Error, ok, err}
use provider_simulator.CacheSim.Entry.{Library, CacheEntry, to_cache_relay_reply}
use provider_simulator.CacheSim.Log.{hit, CacheSim, RecordedCall, record_call, is_lookup}
use provider_simulator.CacheSim.Plans.{
  decode, value_of, int_of, list_of, answer, lookup_row, plan_decoded, plan, respond,
}

-- The newest of the calls is a lookup of this time, and before it are the calls there were, less the
-- oldest where the record was full.
abbrev pub EndsInLookup : CacheSim → ℕ → List RecordedCall → Type 0
EndsInLookup sim now calls =
    (row : RecordedCall) × (is_lookup row ≡ true)
    × (row.ts ≡ now)
    × (calls
        ≡ (if ltb (length sim.calls) sim.history_max then sim.calls else drop 1 sim.calls)
          ++ row ∷ [])

append-EndsInLookup :
    (sim : CacheSim) (now : ℕ) (row : RecordedCall)
    → 1 ≤ sim.history_max
    → is_lookup row ≡ true
    → row.ts ≡ now
    → EndsInLookup sim now (Deque.append sim.history_max sim.calls row)
unfolding Deque.append
append-EndsInLookup sim now row kept lookup came =
    elim (Bool-cases (ltb (length sim.calls) sim.history_max)) [
      | inl room ↦ (row, lookup, came, rw room refl)
      | inr full ↦
          (row, lookup, came, rw full (drop_one sim.calls row (ground (arith, full, kept))))
    ]
  where
    drop_one :
        (calls : List RecordedCall) (row : RecordedCall)
        → 1 ≤ length calls
        → drop 1 (calls ++ row ∷ []) ≡ drop 1 calls ++ row ∷ []
    drop_one [] row h = absurd (omega arith)
    drop_one (c ∷ calls) row h = refl

module _ (lib : Library) where
  answer_hit :
      (sim : CacheSim) (e : CacheEntry)
      → sim.mode ≡ hit
      → sim.entry ≡ some e
      → answer lib sim ≡ respond (to_cache_relay_reply lib e) sim.latency_ms
  unfolding answer
  answer_hit sim e hits staged = rw (hits, staged) refl

  unread_row :
      (sim : CacheSim) (now : ℕ)
      → (row : RecordedCall) × (lookup_row lib sim [] (pos 0) now ≡ ok row)
        × (is_lookup row ≡ true)
        × (row.ts ≡ now)
  unfolding lookup_row int_of list_of
  unread_row sim now = (_, refl, refl, refl)

  decode-none :
      (body : String) → lib.loads (if body == "" then "{}" else body) ≡ none → decode lib body ≡ []
  unfolding decode
  decode-none body unread = rw unread

  pub plan_of_row :
      (d : Dict String Json) (now : ℕ) (sim : CacheSim) (block : ℤ) (row : RecordedCall)
      → int_of lib (value_of "requested_block" d) ≡ ok block
      → lookup_row lib sim d block now ≡ ok row
      → plan_decoded lib d now sim ≡ (ok (answer lib sim), record_call sim row)
  unfolding plan_decoded
  plan_of_row d now sim block row numbered made = ground arith

  block_of_nothing : int_of lib (value_of "requested_block" []) ≡ ok (pos 0)
  unfolding int_of
  block_of_nothing = refl

  -- With a staged hit, a body that is not JSON gets the staged entry after the staged latency, is
  -- counted once, and is recorded as a lookup, as the newest call, at its time, in a record that keeps
  -- at least one call.
  pub plan-unreadable :
      (body : String) (now : ℕ) (sim : CacheSim) (e : CacheEntry)
      → lib.loads (if body == "" then "{}" else body) ≡ none
      → sim.mode ≡ hit
      → sim.entry ≡ some e
      → 1 ≤ sim.history_max
      → ((plan lib body now sim).0 ≡ ok (respond (to_cache_relay_reply lib e) sim.latency_ms))
        × ((plan lib body now sim).1.records_total ≡ sim.records_total + 1)
        × EndsInLookup sim now (plan lib body now sim).1.calls
  unfolding plan record_call
  plan-unreadable body now sim e unread hits staged kept =
      let (row, made, lookup, came) = unread_row sim now in
      let planned : plan lib body now sim ≡ (ok (answer lib sim), record_call sim row) =
        ap (λ (d : Dict String Json). plan_decoded lib d now sim) (decode-none body unread)
        ∙ plan_of_row [] now sim (pos 0) row block_of_nothing made in
      (
        ap (λ x. x.0) planned ∙ ap ok (answer_hit sim e hits staged),
        ap (λ x. x.1.records_total) planned,
        subst (λ x. EndsInLookup sim now x.1.calls) (sym planned)
            (append-EndsInLookup sim now row kept lookup came),
      )

  -- A lookup that raises, on a number or a list that cannot be read, is not in the record of the
  -- calls, though it may have been counted.
  pub plan-raises :
      (body : String) (now : ℕ) (sim : CacheSim) (e : Error)
      → (plan lib body now sim).0 ≡ err e
      → ((plan lib body now sim).1.calls ≡ sim.calls)
        × ((plan lib body now sim).1.records_total ≤ sim.records_total + 1)
  unfolding plan plan_decoded
  plan-raises body now sim e h = ground arith
