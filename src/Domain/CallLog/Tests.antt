-- ===== src/Domain/CallLog/Tests.antt =====
-- Runs of provider_simulator/domain/call_log.py.
use provider_simulator.Base.{ℕ, ◌≡◌, refl, true, none, List, [], ◌∷◌, map}
use provider_simulator.Base.Deque
use provider_simulator.Base.Dict.{string_key}
use provider_simulator.Domain.CallLog.{
  Row, Arrival, new_log, new_entry, count_up, count_down, append_row, record_arrival, push, rejoin,
  settle, finalize_row, finalize, clear, stats, read_rows, get_history,
}
use provider_simulator.Domain.CallLog.Consistency.{IsConsistent}
use provider_simulator.Domain.CallLog.Runs.{
  Operation, arrive, finished, cleared, apply, run, run-IsConsistent,
}
use provider_simulator.Domain.CallLog.Window.{arrivals, arrival_row, get_history-arrivals}

program : Unit {0}
unfolding new_log new_entry count_up count_down append_row record_arrival push rejoin settle
    finalize_row finalize clear stats read_rows get_history apply run arrivals arrival_row
    Deque.append
program = tt

abbrev at_port : ℕ → Arrival
at_port port = record {
  interface = "jsonrpc";
  transport = "http";
  port = port;
  lava_headers = [];
  headers_json = "{}";
  deadline_remaining_ms = none;
}

-- Two requests, a reset between the arrival of the second and its end.
abbrev ops : List Operation
ops =
    arrive 10 (at_port 8545)
    ∷ finished 11 0 "eth_chainId" "success" 0 none
    ∷ arrive 12 (at_port 8545)
    ∷ cleared
    ∷ finished 13 1 "eth_call" "error" 5 none
    ∷ []

run_counts :
    (stats (run (new_log "eth" "1" 2 "EthProvider1") ops)).calls_by_status ≡ ("error", 1) ∷ []
unfolding program
run_counts = refl

window :
    map
      (λ (row : Row). row.port)
      (get_history
        (arrivals
          (new_log "eth" "1" 2 "EthProvider1")
          ((1, at_port 1) ∷ (2, at_port 2) ∷ (3, at_port 3) ∷ []))
        (λ _. true))
    ≡ 2 ∷ 3 ∷ []
unfolding program
window = refl

run-IsConsistent_example : IsConsistent (run (new_log "eth" "1" 2 "EthProvider1") ops)
run-IsConsistent_example = run-IsConsistent "eth" "1" 2 "EthProvider1" ops

get_history-arrivals_example :
    get_history
      (arrivals
        (new_log "eth" "1" 2 "EthProvider1")
        ((1, at_port 1) ∷ (2, at_port 2) ∷ (3, at_port 3) ∷ []))
      (λ _. true)
    ≡ Deque.newest 2 (
        map
          (arrival_row (new_log "eth" "1" 2 "EthProvider1"))
          ((1, at_port 1) ∷ (2, at_port 2) ∷ (3, at_port 3) ∷ []))
get_history-arrivals_example =
    get_history-arrivals "eth" "1" 2 "EthProvider1"
      ((1, at_port 1) ∷ (2, at_port 2) ∷ (3, at_port 3) ∷ [])
