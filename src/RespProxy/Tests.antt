-- ===== src/RespProxy/Tests.antt =====
-- Runs of provider_simulator/resp_proxy.py.
use provider_simulator.Base.{◌≡◌, refl, Bool, true, false, Option, none, some, [], ◌∷◌}
use provider_simulator.RespProxy.{
  error, router, Place, admitted, looping, dialing, pumping, sending, writing, releasing, Conn,
  Proxy, new_proxy, accept, cut_off, end_drain,
}
use provider_simulator.RespProxy.Threads.{
  chunk, System, advance, register, dial, send, write, release,
}
use provider_simulator.RespProxy.Threads.Counts.{Reach-IsConsistent}
use provider_simulator.RespProxy.Threads.Drain.{Drained, cut_off-Drained}
use provider_simulator.RespProxy.Threads.LiveSet.{IsLive, Reach-IsLive}
use provider_simulator.RespProxy.Threads.Quiet.{IsQuiet, IsSilent, end_drain-IsSilent}
use provider_simulator.RespProxy.Threads.Steps.{
  accepts, moves, cuts, moved, Reach, here, next, still, IsConsistent,
}

-- The store answers, a read gives a chunk, and each write raises.
abbrev os : System
os = record { peer_gone = false; dialed = true; received = chunk; raised = true; expired = true }

abbrev conn : Place → Option Bool → Conn
conn place upstream = record { place = place; downstream_open = true; upstream = upstream }

-- One connection, up to a write that runs.
abbrev accepted : Proxy
accepted = accept new_proxy

abbrev registered : Proxy
registered = advance os 0 (conn admitted none) admitted accepted

abbrev turned : Proxy
turned = advance os 0 (conn looping none) looping registered

abbrev reached : Proxy
reached = advance os 0 (conn dialing none) dialing turned

abbrev received : Proxy
received = advance os 0 (conn (pumping router) (some true)) (pumping router) reached

abbrev running : Proxy
running = advance os 0 (conn (sending router) (some true)) (sending router) received

abbrev waiting : Proxy
waiting = cut_off error running

abbrev failed : Proxy
failed = advance os 0 (conn (writing router) (some true)) (writing router) waiting

abbrev over : Proxy
over = advance os 0 (conn (releasing router false) (some true)) (releasing router false) failed

running_run : Reach new_proxy running
unfolding accept advance register dial send
running_run =
    next
      (next
        (next
          (next (next (next here (moved accepts)) (moved (moves os 0 (conn admitted none) refl)))
            (moved (moves os 0 (conn looping none) refl)))
          (moved (moves os 0 (conn dialing none) refl)))
        (moved (moves os 0 (conn (pumping router) (some true)) refl)))
      (moved (moves os 0 (conn (sending router) (some true)) refl))

waiting_run : Reach new_proxy waiting
unfolding accept advance register dial send
waiting_run = next running_run (moved (cuts error refl))

over_run : Reach new_proxy over
unfolding accept advance register dial send write release cut_off
over_run =
    next (next waiting_run (moved (moves os 0 (conn (writing router) (some true)) refl)))
      (moved (moves os 0 (conn (releasing router false) (some true)) refl))

-- The cut-off waits for the one delivery, and counts the connection as closed by it.
waits : (waiting.delivering ≡ 1) × (waiting.counters.closed_by_cut_off ≡ 1) × (over.delivering ≡ 0)
unfolding accept advance register dial send write release cut_off
waits = (refl, refl, refl)

Reach-IsConsistent_example : IsConsistent waiting
Reach-IsConsistent_example = Reach-IsConsistent waiting_run

Reach-IsLive_example : IsLive over
Reach-IsLive_example = Reach-IsLive over_run

cut_off-Drained_example : Drained {start = waiting} {p = waiting} error still 3
unfolding accept advance register dial send write release cut_off
cut_off-Drained_example = cut_off-Drained {p = waiting} (λ n. os) error (0 ∷ []) waiting_run refl

end_drain-IsSilent_example :
    IsQuiet (end_drain error (0 ∷ []) over) × IsSilent over (end_drain error (0 ∷ []) over)
unfolding accept advance register dial send write release cut_off
end_drain-IsSilent_example = end_drain-IsSilent error (0 ∷ []) over_run refl refl still
