-- ===== src/ControlApi/Writes.antt =====
-- provider_simulator/control_api.py: the blocks that passed the checks are written, each to its provider.
use provider_simulator.Base.{
  ℕ, String, ◌≡◌, refl, sym, true, Bool-cases, List, [], ◌∷◌, ◌++◌, inl, inr, map, ◌&&◌, ◌==◌,
  eq_iff, arith,
}
use mathlib.Core.List.{append-nil, append_assoc}
use provider_simulator.Base.Dict.{Dict, string_key}
use provider_simulator.Base.Json.{Json}
use provider_simulator.Base.Results.{ok}
use provider_simulator.ControlApi.{done, Staged}
use provider_simulator.ControlApi.Apply.{Applied, Written, applied_of, set_provider, write_blocks}
use provider_simulator.ControlApi.Atomic.{written, restarted_keeps, write_provider-checked}
use provider_simulator.ControlApi.Fields.{Floats}
use provider_simulator.ControlApi.Overlay.{
  reads, overlay, IsFollowed, get-applied_of, get_or-write_all_or,
}
use provider_simulator.ControlApi.Places.{provider-set_provider}
use provider_simulator.ControlApi.Ports.{port_wishes}
use provider_simulator.ControlApi.Sound.{IsSound, set_provider-IsSound}
use provider_simulator.ControlApi.Staging.{AreReady, IsSorted}
use provider_simulator.Domain.Provider.{Provider}
use provider_simulator.Domain.Registry.{Registry, provider}
use provider_simulator.PortGate.{PortGate}

-- Every followed field of every provider reads as the rows of an answer say.
abbrev pub Follows : Registry → Registry → Applied → Type 0
Follows before after rows =
    (pool pid name : String)
    → IsFollowed name
    → reads after pool pid name ≡ overlay rows pool pid name (reads before pool pid name)

abbrev pub row_of : Staged → (String × String) × Dict String Json
row_of st = ((st.pool, st.pid), applied_of st)

same_place :
    (pool pid pool' pid' : String)
    → (pool == pool' && pid == pid') ≡ true
    → (pool ≡ pool') × (pid ≡ pid')
same_place pool pid pool' pid' h =
    (ground (arith, eq_iff pool pool'), ground (arith, eq_iff pid pid'))

set_provider-Follows :
    (now : ℕ) (st : Staged) (p : Provider) (reg : Registry)
    → IsSorted (st.updates, st.quirks)
    → provider reg st.pool st.pid ≡ ok p
    → Follows reg (set_provider st.pool st.pid (written now st p) reg) (row_of st ∷ [])
set_provider-Follows now st p reg sorted found pool pid name followed =
    rw (provider-set_provider reg st.pool st.pid pool pid (written now st p) found)
      (elim (Bool-cases (st.pool == pool && st.pid == pid)) [
        | inl same ↦
            let (e1, e2) = same_place st.pool st.pid pool pid same in
            let here : provider reg pool pid ≡ ok p = rw (sym e1, sym e2) found in
            rw
              (
                here,
                same,
                get-applied_of st name sorted followed,
                (restarted_keeps st p).0,
                get_or-write_all_or st.updates p.scenario.values name sorted.0,
              )
              refl
        | inr other ↦ rw other refl
      ])

keeps-AreReady :
    (reg reg' : Registry) (staged : List Staged)
    → ((pool pid : String) (p : Provider)
        → provider reg pool pid ≡ ok p
        → (p' : Provider) × (provider reg' pool pid ≡ ok p'))
    → AreReady reg staged
    → AreReady reg' staged
keeps-AreReady reg reg' [] keeps h = tt
keeps-AreReady reg reg' (st ∷ rest) keeps ((checked, sorted, (p, found)), ready) =
    ((checked, sorted, keeps st.pool st.pid p found), keeps-AreReady reg reg' rest keeps ready)

set_provider_keeps :
    (reg : Registry) (pool pid : String) (new old : Provider)
    → provider reg pool pid ≡ ok old
    → (pool' pid' : String) (p : Provider) → provider reg pool' pid' ≡ ok p
    → (p' : Provider) × (provider (set_provider pool pid new reg) pool' pid' ≡ ok p')
set_provider_keeps reg pool pid new old found pool' pid' p there =
    rw (provider-set_provider reg pool pid pool' pid' new found)
      (elim (Bool-cases (pool == pool' && pid == pid')) [
        | inl same ↦ (new, rw same refl)
        | inr other ↦ (p, rw other there)
      ])

module _ (floats : Floats) (now : ℕ) (gates : Dict ℕ PortGate) where
  -- The loop comes to its end, with every block written.
  pub write_blocks-done :
      (staged : List Staged) (w : Written)
      → AreReady w.registry staged
      → (w' : Written) × (write_blocks floats now gates staged w ≡ (done tt, w'))
        × (w'.applied ≡ w.applied ++ map row_of staged)
        × Follows w.registry w'.registry (map row_of staged)
        × (IsSound w.registry → IsSound w'.registry)
  unfolding write_blocks
  write_blocks-done [] w ready =
      (w, refl, sym (append-nil w.applied), λ _ _ _ _. refl, λ sound. sound)
  write_blocks-done (st ∷ rest) w ((checked, sorted, (p, found)), ready) =
      let p' = written now st p in
      let reg = set_provider st.pool st.pid p' w.registry in
      let next : Written = record {
        registry = reg;
        applied = w.applied ++ row_of st ∷ [];
        wishes = w.wishes ++ port_wishes floats gates p';
      } in
      let (w', e, applied, follows, keeps) = write_blocks-done rest next (
        keeps-AreReady w.registry reg rest (set_provider_keeps w.registry st.pool st.pid p' p found)
          ready) in
      (
        w',
        rw (write_blocks, found, write_provider-checked now st p checked) e,
        rw (applied, append_assoc w.applied (row_of st ∷ []) (map row_of rest)) refl,
        λ pool pid name followed.
            rw
              (
                follows pool pid name followed,
                set_provider-Follows now st p w.registry sorted found pool pid name followed,
              )
              refl,
        λ sound. keeps (set_provider-IsSound now st p w.registry found sound),
      )
