-- ===== src/Domain/CallLog.antt =====
-- provider_simulator/domain/call_log.py: the history of one provider, a ring buffer of rows beside
-- counters that are never capped. A row is an object that the log, the history and the caller
-- share: the rows live in a store, and the history and the callers hold their positions in it.
-- The texts of the headers and the formatted time stamp are made by the standard library; a row
-- takes the first as arguments and leaves the second out, which repeats `ts`.
pub mod Counters
pub mod Consistency
mod Settling
pub mod Runs
pub mod Window
mod Tests
use provider_simulator.Base.{
  ℕ, ◌+◌, ◌-◌, String, Bool, true, false, not, ◌&&◌, Option, none, some, List, [], ◌∷◌, ◌++◌, map,
  ltb, nat_eq, ◌==◌, if◌then◌else◌, length, get_elem?, set,
}
use provider_simulator.Base.Int.{ℤ}
use provider_simulator.Base.Json.{Json}
use provider_simulator.Base.Deque
use provider_simulator.Base.Dict
use provider_simulator.Base.Dict.{Dict, string_key}

-- request_id: int | str | None. A caller on JSON-RPC can send any other value, and it is kept.
pub data RequestId : Type 0 where
  num : ℤ → RequestId
  text : String → RequestId
  other : Json → RequestId

pub record Row : Type 0 where
  pub ts : ℕ
  pub request_id : Option RequestId
  pub method : String
  pub status : String
  pub latency_ms : ℕ
  pub lava_headers : List (String × String)
  pub deadline_remaining_ms : Option ℕ
  pub grpc_status : Option String
  pub body_len : Option ℕ
  pub body_sha256 : Option String
  pub path : Option String
  pub pool : String
  pub pid : String
  pub name : String
  pub interface : String
  pub transport : String
  pub port : ℕ
  pub headers_json : String
  pub reset_gen : Option ℕ

pub record CallLog : Type 0 where
  pub pool : String
  pub pid : String
  pub name : String
  pub history_max : ℕ
  pub rows : List Row
  pub history : List ℕ
  pub total_calls : ℕ
  pub calls_by_status : Dict String ℕ
  pub reset_generation : ℕ

-- CallLog(pool, pid, history_max, name)
unfoldable pub new_log : String → String → ℕ → String → CallLog
new_log pool pid history_max name = record {
  pool = pool;
  pid = pid;
  name = name;
  history_max = history_max;
  rows = [];
  history = [];
  total_calls = 0;
  calls_by_status = [];
  reset_generation = 0;
}

-- The endpoint, the header texts and the deadline that a caller of the log names.
pub record Arrival : Type 0 where
  pub interface : String
  pub transport : String
  pub port : ℕ
  pub lava_headers : List (String × String)
  pub headers_json : String
  pub deadline_remaining_ms : Option ℕ

unfoldable pub new_entry : CallLog → ℕ → Arrival → String → String → ℕ → Option RequestId → Row
new_entry log now a method status latency_ms request_id = record {
  ts = now;
  request_id = request_id;
  method = method;
  status = status;
  latency_ms = latency_ms;
  lava_headers = a.lava_headers;
  deadline_remaining_ms = a.deadline_remaining_ms;
  grpc_status = none;
  body_len = none;
  body_sha256 = none;
  path = none;
  pool = log.pool;
  pid = log.pid;
  name = log.name;
  interface = a.interface;
  transport = a.transport;
  port = a.port;
  headers_json = a.headers_json;
  reset_gen = none;
}

-- calls[status] = calls.get(status, 0) + 1
unfoldable pub count_up : String → Dict String ℕ → Dict String ℕ
count_up status calls = Dict.put status (Dict.get_or status 0 calls + 1) calls

-- The old status gives up one call, and its key goes at zero. A missing key reads 0 and `- 1`
-- gives -1 there; 0 stands for it, since only `remaining > 0` is asked.
unfoldable pub count_down : String → Dict String ℕ → Dict String ℕ
count_down status calls =
    let remaining = Dict.get_or status 0 calls - 1 in
    if ltb 0 remaining then Dict.put status remaining calls else Dict.remove status calls

-- The part under the lock of `record_arrival` and of `push`: the row gets the stamp of the
-- generation, and joins the store, the history and the counters.
unfoldable pub append_row : CallLog → Row → CallLog × ℕ
append_row log entry =
    let handle = length log.rows in
    (
      record log {
        rows = log.rows ++ (record entry { reset_gen = some log.reset_generation }) ∷ [];
        history = Deque.append log.history_max log.history handle;
        total_calls = log.total_calls + 1;
        calls_by_status = count_up entry.status log.calls_by_status;
      },
      handle,
    )

unfoldable pub record_arrival : CallLog → ℕ → Arrival → CallLog × ℕ
record_arrival log now a = append_row log (new_entry log now a "*" "in_flight" 0 none)

unfoldable pub push : CallLog → ℕ → Arrival → String → String → ℕ → Option RequestId → CallLog × ℕ
push log now a method status latency_ms request_id = append_row log (
    new_entry log now (record a { deadline_remaining_ms = none }) method status latency_ms
      request_id)

-- entry.get("_reset_gen") == generation
abbrev pub is_generation : ℕ → Row → Bool
is_generation generation row = elim row.reset_gen [ none ↦ false | some g ↦ nat_eq g generation ]

-- if request_id is not None: entry["request_id"] = request_id
abbrev pub or_kept : Option RequestId → Option RequestId → Option RequestId
or_kept none old = old
or_kept (some r) old = some r

-- A row of an older generation: the log was cleared since, so the row joins it again.
unfoldable pub rejoin : CallLog → ℕ → ℕ → Row → String → CallLog
rejoin log now handle entry status = record log {
  rows =
      set log.rows handle
        (record entry { ts = now; status = status; reset_gen = some log.reset_generation });
  history = Deque.append log.history_max log.history handle;
  total_calls = log.total_calls + 1;
  calls_by_status = count_up status log.calls_by_status;
}

-- A row of this generation: the counters follow its status.
unfoldable pub settle : CallLog → ℕ → Row → String → CallLog
settle log handle entry status =
    if entry.status == status then record log { rows = set log.rows handle entry } else record log {
      rows = set log.rows handle (record entry { status = status });
      calls_by_status = count_up status (count_down entry.status log.calls_by_status);
    }

unfoldable pub finalize_row : CallLog → ℕ → ℕ → Row → String → CallLog
finalize_row log now handle entry status =
    if is_generation log.reset_generation entry
    then settle log handle entry status
    else rejoin log now handle entry status

-- A handle that the log never gave out finds no row, and changes nothing.
unfoldable pub finalize : CallLog → ℕ → ℕ → String → String → ℕ → Option RequestId → CallLog
finalize log now handle method status latency_ms request_id = elim (get_elem? log.rows handle) [
  | none ↦ log
  | some entry ↦
      finalize_row log now handle
        (record entry {
          method = method;
          latency_ms = latency_ms;
          request_id = or_kept request_id entry.request_id;
        })
        status
]

-- Writes to one row alone.
unfoldable pub edit_row : CallLog → ℕ → (Row → Row) → CallLog
edit_row log handle f = elim (get_elem? log.rows handle) [
  | none ↦ log
  | some entry ↦ record log { rows = set log.rows handle (f entry) }
]

unfoldable pub set_grpc_status : CallLog → ℕ → String → CallLog
unfolding edit_row
set_grpc_status log handle grpc_status =
    edit_row log handle (λ entry. record entry { grpc_status = some grpc_status })

-- The digest of the body is the standard library's: it comes with the length.
unfoldable pub record_body : CallLog → ℕ → ℕ → String → CallLog
unfolding edit_row
record_body log handle body_len body_sha256 =
    edit_row log handle
      (λ entry. record entry { body_len = some body_len; body_sha256 = some body_sha256 })

unfoldable pub record_path : CallLog → ℕ → String → CallLog
unfolding edit_row
record_path log handle path = edit_row log handle (λ entry. record entry { path = some path })

unfoldable pub clear : CallLog → CallLog
clear log = record log {
  history = [];
  total_calls = 0;
  calls_by_status = [];
  reset_generation = log.reset_generation + 1;
}

pub record Stats : Type 0 where
  pub total_calls : ℕ
  pub calls_by_status : Dict String ℕ
  pub history_entries : ℕ

unfoldable pub stats : CallLog → Stats
stats log = record {
  total_calls = log.total_calls;
  calls_by_status = log.calls_by_status;
  history_entries = length log.history;
}

-- The rows of some handles for which `where` answers true.
unfoldable pub read_rows : (Row → Bool) → List Row → List ℕ → List Row
read_rows test rows [] = []
read_rows test rows (handle ∷ rest) =
    let others = read_rows test rows rest in
    elim (get_elem? rows handle) [
      | none ↦ others
      | some row ↦ if test row then row ∷ others else others
    ]

-- A copy of each row; the decoded headers are the text `headers_json`.
unfoldable pub get_history : CallLog → (Row → Bool) → List Row
unfolding read_rows
get_history log test = read_rows test log.rows log.history
