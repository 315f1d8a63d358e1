-- ===== src/Api/Server.antt =====
-- API/server.py: one strictly ordered stream of requests for each client session.
-- `handle_request` is given an object, as the transport makes sure.
pub mod Dispatch
pub mod Correlation
pub mod Effect
pub mod Replay
pub mod Status
pub mod Isolation
pub mod Sessions
mod Examples
use sts2_rl.Prelude.{
  ℕ, ◌+◌, String, Bool, true, false, not, Option, none, some, List, [], ◌∷◌, Result, ok, err, ◌>>=◌,
  ◌>>◌, raise_if, leb, ◌==◌, if◌then◌else◌, length,
}
use sts2_rl.Prelude.Dict
use sts2_rl.Prelude.Dict.{Dict}
use sts2_rl.Prelude.Key.{str_key}
use sts2_rl.Prelude.Int.{ℤ, to_nat}
use sts2_rl.Api.Value.{Value, null, bool, int, float, str, list, dict, Payload, entries, of_entries}
use sts2_rl.Api.Dto.{schema_version, statuses, member}
use sts2_rl.Api.Rejected.{Message, Rejection, reject_as, new_session_seq, no_capacity}
use sts2_rl.Api.Faults.{Exception, rejected, raised, with_instance_id, field_of, fault_response}
use sts2_rl.Api.Validation.{check_payload}
use sts2_rl.Api.Identifiers.Ledger.{SessionLedger, new_ledger, begin, complete}
use Dispatch.{Instances, Runtime, execute_new_request}
use Dispatch.{text_of}

-- `digest` is the hash of a payload's canonical JSON, and `render` the text of a message: both
-- stand for formatting and hashing by the standard library.
module _ (given : Instances) (digest : Payload → String) (render : Message → String) where
  pub record Server : Type 0 where
    pub runtime : Runtime given
    pub sessions : Dict String SessionLedger
    pub max_sessions : ℕ
    pub server_epoch : String

  -- `max_sessions <= 0` is an error.
  unfoldable pub new_server : ℕ → String → Option Server
  new_server max_sessions epoch =
      if max_sessions == 0
      then none
      else some (record {
        runtime = record { instances = []; instance_serial = 1 };
        sessions = [];
        max_sessions = max_sessions;
        server_epoch = epoch;
      })

  unfoldable pub instance_count : Server → ℕ
  instance_count s = length s.runtime.instances

  unfoldable pub session_count : Server → ℕ
  session_count s = length s.sessions

  -- What an instance's `close` raises is ignored.
  unfoldable pub close_all : Server → Server
  close_all s = record s { runtime = record s.runtime { instances = [] }; sessions = [] }

  -- The identity of the answer is written last, over whatever the handler put there.
  unfoldable pub wrap : String → Payload → Payload → Payload
  wrap epoch payload response = with_instance_id (field_of payload "instance_id") (
      Dict.put
        (Dict.put
          (Dict.put
            (Dict.put
              (Dict.put (Dict.put response "schema_version" (str schema_version)) "server_epoch"
                (str epoch))
              "client_session_id" (field_of payload "client_session_id"))
            "request_seq" (field_of payload "request_seq"))
          "request_id" (field_of payload "request_id"))
        "operation" (field_of payload "operation"))

  abbrev kind_value : Option String → Value
  kind_value none = null
  kind_value (some kind) = str kind

  pub rejected_fields : Rejection → Payload
  rejected_fields e =
      ("status", str "rejected")
      ∷ ("error", str (render e.error))
      ∷ ("fault_kind", kind_value e.fault_kind)
      ∷ []

  -- What a handler returned or raised, as the fields of a response.
  response_fields : Payload → Result Exception Value → Value
  unfolding rejected_fields
  response_fields payload (ok v) = v
  response_fields payload (err (rejected e)) = dict (of_entries (rejected_fields e))
  response_fields payload (err (raised error)) = dict (of_entries (fault_response payload error))

  invalid_status : Payload → Payload
  invalid_status payload =
      fault_response payload "TypeError: RL handler returned invalid response status"

  -- `isinstance(response, dict)` with a status of `STATUSES`, or the fault that replaces it.
  with_status : Payload → Value → Payload
  unfolding invalid_status
  with_status payload (dict fs) = elim (field_of (entries fs) "status") [
    | str status ↦ if member status statuses then entries fs else invalid_status payload
    | _ ↦ invalid_status payload
  ]
  with_status payload v = invalid_status payload

  -- The session's ledger; a new session begins with request 1 while there is room.
  open_session :
      Option SessionLedger → Server → String → ℕ → Result Rejection (SessionLedger × Server)
  open_session (some ledger) s session_id seq = ok (ledger, s)
  open_session none s session_id seq = do
    raise_if (not (seq == 1)) (reject_as (new_session_seq seq) "session_sequence_gap")
    raise_if (leb s.max_sessions (length s.sessions))
        (reject_as no_capacity "session_capacity_exceeded")
    ok (new_ledger, record s { sessions = Dict.put s.sessions session_id new_ledger })

  unfoldable pub get_or_create_session :
      Server → String → ℕ → Result Rejection (SessionLedger × Server)
  unfolding open_session
  get_or_create_session s session_id seq =
      open_session (Dict.get s.sessions session_id) s session_id seq

  -- Execution of a request that `begin` found new, and the record of its response.
  pub run_new : Server → String → Payload → SessionLedger → Payload × Server
  unfolding response_fields with_status wrap
  run_new s session_id payload ledger =
      let (result, (runtime, ledger')) = execute_new_request given payload s.runtime ledger in
      let response =
        wrap s.server_epoch payload (with_status payload (response_fields payload result)) in
      (
        response,
        record s {
          runtime = runtime;
          sessions = Dict.put s.sessions session_id (complete ledger' response);
        },
      )

  after_begin :
      Server
      → String
      → Payload
      → Result Rejection (Option Payload × SessionLedger)
      → Payload × Server
  unfolding run_new
  after_begin s session_id payload (err e) = (wrap s.server_epoch payload (rejected_fields e), s)
  after_begin s session_id payload (ok (some cached, ledger)) = (cached, s)
  after_begin s session_id payload (ok (none, ledger)) = run_new s session_id payload ledger

  after_session :
      String → ℕ → Payload → Server → Result Rejection (SessionLedger × Server) → Payload × Server
  unfolding after_begin
  after_session session_id seq payload s (err e) =
      (wrap s.server_epoch payload (rejected_fields e), s)
  after_session session_id seq payload s (ok (ledger, s')) =
      after_begin s' session_id payload (begin ledger seq (digest payload))

  abbrev seq_of : Value → ℕ
  seq_of (int z) = to_nat z
  seq_of v = 0

  -- A rejection by validation has the kind "invalid_request" if it has none of its own.
  invalid : Rejection → Rejection
  invalid e = record e {
    fault_kind = elim e.fault_kind [ none ↦ some "invalid_request" | some kind ↦ some kind ];
  }

  after_validation : Server → Payload → Result Rejection (Unit {0}) → Payload × Server
  unfolding invalid after_session get_or_create_session
  after_validation s payload (err e) =
      (wrap s.server_epoch payload (rejected_fields (invalid e)), s)
  after_validation s payload (ok _) =
      let session_id = text_of (field_of payload "client_session_id") in
      let seq = seq_of (field_of payload "request_seq") in
      after_session session_id seq payload s (get_or_create_session s session_id seq)

  unfoldable pub handle_request : Server → Payload → Payload × Server
  unfolding after_validation
  handle_request s payload = after_validation s payload (check_payload payload)
