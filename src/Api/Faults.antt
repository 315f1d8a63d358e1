-- ===== src/Api/Faults.antt =====
-- API/faults.py, and the exceptions that a handler may raise. An exception that is no
-- `RequestRejected` is known by its text, `f"{type(exc).__name__}: {exc}"`.
use sts2_rl.Prelude.{String, [], ◌∷◌}
use sts2_rl.Prelude.Dict
use sts2_rl.Prelude.Key.{str_key}
use sts2_rl.Api.Value.{Value, null, str, Payload, or_null}
use sts2_rl.Api.Dto.{schema_version}
use sts2_rl.Api.Rejected.{Rejection}

pub data Exception : Type 0 where
  rejected : Rejection → Exception
  raised : String → Exception

-- `if payload.get("instance_id") is not None: response["instance_id"] = …`
abbrev pub with_instance_id : Value → Payload → Payload
with_instance_id null response = response
with_instance_id id response = Dict.put response "instance_id" id

unfoldable pub field_of : Payload → String → Value
field_of payload f = or_null (Dict.get payload f)

unfoldable pub fault_response : Payload → String → Payload
fault_response payload error = with_instance_id (field_of payload "instance_id") (
    ("schema_version", str schema_version)
    ∷ ("client_session_id", field_of payload "client_session_id")
    ∷ ("request_seq", field_of payload "request_seq")
    ∷ ("request_id", field_of payload "request_id")
    ∷ ("operation", field_of payload "operation")
    ∷ ("status", str "faulted")
    ∷ ("error", str error)
    ∷ ("fault_kind", str "emulator_error")
    ∷ [])
