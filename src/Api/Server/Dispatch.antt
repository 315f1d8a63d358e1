-- ===== src/Api/Server/Dispatch.antt =====
-- The instances of API/server.py: starting, closing and dispatching to them. The instances
-- themselves are given: a type of objects with the methods that the server calls. Each is a value with a
-- state of its own; the one game of the process, which they share, is behind those methods and not in
-- this model.
pub mod Contract
use Prim.Native.String.{◌++◌ as str_append}
use sts2_rl.Prelude.{
  ℕ, ◌+◌, String, Bool, true, false, ◌&&◌, not, Option, none, some, List, [], ◌∷◌, Result, ok, err,
  ◌>>=◌, str_eq, if◌then◌else◌,
}
use sts2_rl.Prelude.Dict
use sts2_rl.Prelude.Dict.{Dict}
use sts2_rl.Prelude.Key.{str_key}
use sts2_rl.Api.Value.{
  Value, null, bool, int, float, str, list, dict, Payload, entries, of_entries, or_null,
}
use sts2_rl.Api.Decimal.{padded}
use sts2_rl.Api.Dto.{member}
use sts2_rl.Api.Rejected.{
  Rejection, reject, reject_as, owns_instance, not_owned, unknown_instance, unsupported_operation,
  unknown_instance_type, unhandled,
}
use sts2_rl.Api.Faults.{Exception, rejected, raised, field_of}
use sts2_rl.Api.Identifiers.Ledger.{SessionLedger}

-- The calls of `_dispatch`, with the payload's values that they pass.
pub data Call : Type 0 where
  get_decision : Value → Call
  commit_action : Value → Value → Call
  emulate_action : Value → Value → Value → Value → Value → Value → Call
  emulate_actions : Value → Value → Call
  cancel_branches release_branches get_branch_status : Value → Call

-- A method returns or raises, and may have changed its object either way. `create` is the
-- constructor for an instance type, given the id and the config; `close` gives the text of what
-- it raises.
pub record Instances : Type 1 where
  pub Instance : Type 0
  pub instance_type : Instance → String
  pub create : String → String → Payload → Result Exception Instance
  pub start_instance_response : Instance → Result Exception Value × Instance
  pub perform : Instance → Call → Result Exception Value × Instance
  pub close : Instance → Option String

-- f"inst-{n:06d}"
unfoldable pub instance_id_for : ℕ → String
instance_id_for n = str_append "inst-" (padded n)

-- The text of a field that validation has found to be a text.
abbrev pub text_of : Value → String
text_of (str s) = s
text_of v = ""

module _ (given : Instances) where
  open given use {Instance, instance_type, create, start_instance_response, perform, close}

  pub record Runtime : Type 0 where
    pub instances : Dict String Instance
    pub instance_serial : ℕ

  abbrev pub Outcome : Type 0
  Outcome = Result Exception Value × (Runtime × SessionLedger)

  -- `isinstance(response, dict) and response.get("status") == "completed"`
  abbrev completed_fields : Value → Option Payload
  completed_fields (dict fs) = elim (field_of (entries fs) "status") [
    | str s ↦ if str_eq s "completed" then some (entries fs) else none
    | _ ↦ none
  ]
  completed_fields v = none

  -- The end of `_handle_start_instance` and what `_execute_new_request` does with its result. What
  -- `close` raises is ignored, and the instance is dropped.
  finish_start : Result Exception Value → Instance → String → Runtime → SessionLedger → Outcome
  finish_start (err e) instance id rt l =
      (err e, (record rt { instances = Dict.remove rt.instances id }, l))
  finish_start (ok v) instance id rt l = elim (completed_fields v) [
    | none ↦ (
      err (raised "TypeError: start_instance_response must return a completed response"),
      (record rt { instances = Dict.remove rt.instances id }, l),
    )
    | some fs ↦ (
      ok (dict (of_entries (Dict.put fs "instance_id" (str id)))),
      (
        record rt { instances = Dict.put rt.instances id instance },
        record l { active_instance_id = some id },
      ),
    )
  ]

  run_start : Result Exception Instance → String → Runtime → SessionLedger → Outcome
  unfolding finish_start
  run_start (err e) id rt l = (err e, (rt, l))
  run_start (ok instance) id rt l =
      let (response, instance') = start_instance_response instance in
      finish_start response instance' id
        (record rt { instances = Dict.put rt.instances id instance }) l

  construct : Value → String → Payload → Result Exception Instance
  construct (str kind) id config =
      if member kind ("combat" ∷ "whole_run" ∷ [])
      then create kind id config
      else err (rejected (reject unknown_instance_type))
  construct v id config = err (rejected (reject unknown_instance_type))

  as_config : Value → Payload
  as_config (dict fs) = entries fs
  as_config v = []

  -- The serial number is taken before anything can fail.
  handle_start_instance : Payload → Runtime → SessionLedger → Outcome
  unfolding run_start construct as_config
  handle_start_instance payload rt l =
      let config = as_config (field_of payload "instance_config") in
      let id = instance_id_for rt.instance_serial in
      run_start (construct (field_of config "instance_type") id config) id
        (record rt { instance_serial = rt.instance_serial + 1 }) l

  -- `finally`: the instance and the session's claim on it go, whatever `close` does.
  handle_close_instance : String → Instance → Runtime → SessionLedger → Outcome
  handle_close_instance id instance rt l = (
    ok (
        dict (
          of_entries (elim (close instance) [
            | none ↦ ("status", str "completed") ∷ []
            | some error ↦
                ("status", str "faulted")
                ∷ ("error", str error)
                ∷ ("fault_kind", str "emulator_error")
                ∷ []
          ]))),
    (record rt { instances = Dict.remove rt.instances id }, record l { active_instance_id = none }),
  )

  call_of : String → Payload → Option Call
  call_of operation payload =
      if str_eq operation "get_decision"
      then some (get_decision (arg "branch_id"))
      else if str_eq operation "commit_action"
      then some (commit_action (arg "decision_point_id") (arg "action_id"))
      else if str_eq operation "emulate_action"
      then some (
          emulate_action (arg "parent_branch_id") (arg "branch_id") (arg "rng_id")
            (arg "decision_point_id") (arg "action_id") (arg "simulation_options"))
      else if str_eq operation "emulate_actions"
      then some (emulate_actions (arg "items") (arg "simulation_options"))
      else if str_eq operation "cancel_branches"
      then some (cancel_branches (arg "branch_ids"))
      else if str_eq operation "release_branches"
      then some (release_branches (arg "branch_ids"))
      else if str_eq operation "get_branch_status"
      then some (get_branch_status (arg "branch_ids"))
      else none
    where
      arg : String → Value
      arg = field_of payload

  -- `_OPERATION_INSTANCE_TYPES`: only `emulate_actions` is limited to some types.
  is_supported : String → String → Bool
  is_supported operation kind =
      if str_eq operation "emulate_actions" then member kind ("combat" ∷ "whole_run" ∷ []) else true

  store : String → Result Exception Value × Instance → Runtime → SessionLedger → Outcome
  store id (response, instance) rt l =
      (response, (record rt { instances = Dict.put rt.instances id instance }, l))

  dispatch : String → Payload → String → Instance → Runtime → SessionLedger → Outcome
  unfolding is_supported call_of store
  dispatch operation payload id instance rt l =
      if is_supported operation (instance_type instance)
      then elim (call_of operation payload) [
        | none ↦ (err (rejected (reject (unhandled operation))), (rt, l))
        | some call ↦ store id (perform instance call) rt l
      ]
      else (err (rejected (reject (unsupported_operation operation))), (rt, l))

  on_instance : String → Payload → String → Option Instance → Runtime → SessionLedger → Outcome
  unfolding dispatch handle_close_instance
  on_instance operation payload id none rt l =
      (err (rejected (reject_as (unknown_instance id) "unknown_instance")), (rt, l))
  on_instance operation payload id (some instance) rt l =
      if str_eq operation "close_instance"
      then handle_close_instance id instance rt l
      else dispatch operation payload id instance rt l

  abbrev owns : Option String → String → Bool
  owns none id = false
  owns (some active) id = str_eq active id

  start_owned : Option String → Payload → Runtime → SessionLedger → Outcome
  unfolding handle_start_instance
  start_owned none payload rt l = handle_start_instance payload rt l
  start_owned (some active) payload rt l =
      (err (rejected (reject_as (owns_instance active) "session_instance_conflict")), (rt, l))

  unfoldable pub execute_new_request : Payload → Runtime → SessionLedger → Outcome
  unfolding start_owned on_instance
  execute_new_request payload rt l =
      let operation = text_of (field_of payload "operation") in
      let id = text_of (field_of payload "instance_id") in
      if str_eq operation "start_instance"
      then start_owned l.active_instance_id payload rt l
      else if owns l.active_instance_id id
      then on_instance operation payload id (Dict.get rt.instances id) rt l
      else (err (rejected (reject_as (not_owned id) "session_instance_conflict")), (rt, l))
