-- ===== src/Api/Validation.antt =====
-- API/validation.py: what a request must contain before it is dispatched.
pub mod Options
pub mod BatchItems
pub mod Checks
pub mod Fields
pub mod Contents
use sts2_rl.Prelude.{
  ℕ, String, Bool, true, false, ◌||◌, not, Option, none, some, List, [], ◌∷◌, Result, ok, err,
  ◌>>=◌, ◌>>◌, raise_if, or_raise, str_eq, if◌then◌else◌,
}
use sts2_rl.Prelude.Dict
use sts2_rl.Prelude.Key.{str_key}
use sts2_rl.Prelude.Int.{ℤ, pos, negsuc, is_positive, to_nat}
use sts2_rl.Api.Value.{Value, null, bool, int, float, str, list, dict, Payload, items, entries}
use sts2_rl.Api.Dto.{member, supported_schema_versions, operations, root_branch_id, request_id_for}
use sts2_rl.Api.Require.{require}
use sts2_rl.Api.Rejected.{
  a_str, a_int, a_list, a_dict, Rejection, reject, not_object, bad_schema, bad_request_id,
  unknown_operation, bad_seq, no_instance_type, bad_god_mode, not_root_branch, not_root_rng,
  rng_not_positive, no_branch_ids, bad_branch_ids,
}
use Options.{validate_simulation_options}
use BatchItems.{validate_emulate_actions_items}

abbrev pub is_missing : Option Value → Bool
is_missing none = true
is_missing (some v) = false

-- `"god_mode" in config and not isinstance(config["god_mode"], bool)`
abbrev pub is_bad_god_mode : Option Value → Bool
is_bad_god_mode none = false
is_bad_god_mode (some (bool b)) = false
is_bad_god_mode (some v) = true

pub check_config : Payload → Result Rejection (Unit {0})
check_config config = do
  raise_if (is_missing (Dict.get config "instance_type")) (reject no_instance_type)
  raise_if (is_bad_god_mode (Dict.get config "god_mode")) (reject bad_god_mode)

-- `not isinstance(branch_id, str) or not branch_id`, for any of the entries.
pub any_bad_id : List Value → Bool
any_bad_id [] = false
any_bad_id (str s ∷ vs) = str_eq s "" || any_bad_id vs
any_bad_id (v ∷ vs) = true

pub check_branch_ids : List Value → Result Rejection (Unit {0})
unfolding any_bad_id
check_branch_ids [] = err (reject no_branch_ids)
check_branch_ids (v ∷ vs) = raise_if (any_bad_id (v ∷ vs)) (reject bad_branch_ids)

-- `!= ROOT_RNG_ID`
abbrev pub is_root_rng : ℤ → Bool
is_root_rng (pos ℕ.zero) = true
is_root_rng z = false

pub check_commit : Payload → Result Rejection (Unit {0})
check_commit payload = do
  branch_id ← require payload "branch_id" a_str
  raise_if (not (str_eq branch_id root_branch_id)) (reject not_root_branch)
  rng_id ← require payload "rng_id" a_int
  raise_if (not (is_root_rng rng_id)) (reject not_root_rng)
  _ ← require payload "decision_point_id" a_str
  _ ← require payload "action_id" a_str
  ok tt

pub check_emulate : Payload → Result Rejection (Unit {0})
check_emulate payload = do
  _ ← require payload "parent_branch_id" a_str
  _ ← require payload "branch_id" a_str
  rng_id ← require payload "rng_id" a_int
  raise_if (not (is_positive rng_id)) (reject rng_not_positive)
  _ ← require payload "decision_point_id" a_str
  _ ← require payload "action_id" a_str
  validate_simulation_options payload

-- The fields of each operation. `close_instance` has none of its own.
unfoldable pub check_operation : String → Payload → Result Rejection (Unit {0})
unfolding check_config check_branch_ids check_commit check_emulate
check_operation operation payload =
    if str_eq operation "start_instance"
    then (do config ← require payload "instance_config" a_dict; check_config config)
    else if str_eq operation "get_decision"
    then (do _ ← require payload "branch_id" a_str; ok tt)
    else if str_eq operation "commit_action"
    then check_commit payload
    else if str_eq operation "emulate_action"
    then check_emulate payload
    else if str_eq operation "emulate_actions"
    then (do validate_emulate_actions_items payload; validate_simulation_options payload)
    else if member operation ("cancel_branches" ∷ "release_branches" ∷ "get_branch_status" ∷ [])
    then (do ids ← require payload "branch_ids" a_list; check_branch_ids ids)
    else ok tt

pub check_instance_id : String → Payload → Result Rejection (Unit {0})
check_instance_id operation payload =
    if str_eq operation "start_instance"
    then ok tt
    else (do _ ← require payload "instance_id" a_str; ok tt)

unfoldable pub check_payload : Payload → Result Rejection (Unit {0})
unfolding check_instance_id check_operation
check_payload payload = do
  schema_version ← require payload "schema_version" a_str
  raise_if (not (member schema_version supported_schema_versions))
      (reject (bad_schema schema_version))
  session_id ← require payload "client_session_id" a_str
  request_seq ← require payload "request_seq" a_int
  raise_if (not (is_positive request_seq)) (reject bad_seq)
  request_id ← require payload "request_id" a_str
  raise_if (not (str_eq request_id (request_id_for session_id (to_nat request_seq))))
      (reject (bad_request_id (request_id_for session_id (to_nat request_seq))))
  operation ← require payload "operation" a_str
  raise_if (not (member operation operations)) (reject (unknown_operation operation))
  check_instance_id operation payload
  check_operation operation payload

-- The contents of the object that `validate_request` returns.
unfoldable pub validate_request : Value → Result Rejection Payload
unfolding check_payload
validate_request (dict fs) = do check_payload (entries fs); ok (entries fs)
validate_request v = err (reject not_object)
