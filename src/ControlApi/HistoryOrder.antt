-- ===== src/ControlApi/HistoryOrder.antt =====
-- provider_simulator/control_api.py: the rows of GET /history, their order and their numbers.
use provider_simulator.Base.{◌≡◌, String, List, All}
use provider_simulator.Base.Dict
use provider_simulator.Base.Dict.{Dict, string_key}
use provider_simulator.ControlApi.{Outcome, done, refused, raised}
use provider_simulator.ControlApi.History.{Reader, Entry}
use provider_simulator.Domain.Registry.{Registry}
use provider_simulator.ControlApi.HistoryWhole.{IsPart}
use provider_simulator.ControlApi.HistoryRows.{IsOrdered, IsAnswerRow}

module _ (reader : Reader) (query : Dict String String) (reg : Registry) where
  -- What an answer is: in order, and of rows of the providers and with the values that were asked for.
  abbrev pub IsHistory : List Entry → Type 0
  IsHistory entries = IsOrdered entries × All (λ e. IsAnswerRow reader query reg e.row) entries

  -- A refusal, or a list in order.
  abbrev pub IsOrderedAnswer : Outcome (List Entry) → Type 0
  IsOrderedAnswer (done entries) = IsHistory entries
  IsOrderedAnswer (refused status) = status ≡ 400
  IsOrderedAnswer (raised e) = ⊥

  -- A refusal, or a history.
  abbrev pub IsHistoryAnswer : Outcome (List Entry) → Type 0
  IsHistoryAnswer (done entries) = IsHistory entries × IsPart reader query reg entries
  IsHistoryAnswer (refused status) = status ≡ 400
  IsHistoryAnswer (raised e) = ⊥
