-- ===== src/Combat/Faults.antt =====
-- Combat/search/fault_taxonomy.py: the kinds of faults, how one is classified, and the retries.
-- The module's fault kinds, states and policies are texts, as they are in the source.
pub mod Classify
use sts2_rl.Prelude.{
  ℕ, ◌+◌, String, Bool, true, false, not, Option, none, some, List, [], ◌∷◌, Result, ok, err, ◌>>=◌,
  ◌>>◌, raise_if, str_eq, leb, ltb, ◌==◌, if◌then◌else◌,
}
use sts2_rl.Prelude.Dict
use sts2_rl.Prelude.Dict.{Dict}
use sts2_rl.Prelude.Key.{str_key}
use sts2_rl.Api.Dto.{member}

abbrev pub branch_fault_kinds : List String
branch_fault_kinds =
    "validation_rejection" ∷ "replay_mismatch" ∷ "post_teardown_restore_failure" ∷ "action_fault"
    ∷ "task_timeout" ∷ "worker_process_crash" ∷ "depth_cap_exceeded" ∷ "zero_candidates"
    ∷ "snapshot_restore_missing_monster_move" ∷ []

abbrev pub main_fault_sources : List String
main_fault_sources = "main_step" ∷ "main_invariant" ∷ []

abbrev pub work_item_states : List String
work_item_states = "Running" ∷ "Retrying" ∷ "FinalSuccess" ∷ "FinalFault" ∷ []

abbrev pub fault_by_exception_type : Dict String String
fault_by_exception_type =
    ("SnapshotRestoreRejectedError", "validation_rejection")
    ∷ ("SnapshotRestoreFailedError", "post_teardown_restore_failure")
    ∷ ("SnapshotRestoreMissingMoveError", "snapshot_restore_missing_monster_move")
    ∷ ("ActionExecutionError", "action_fault")
    ∷ ("FaultedCombatSessionError", "action_fault")
    ∷ ("QuiescentBoundaryViolation", "action_fault")
    ∷ ("TimeoutError", "task_timeout")
    ∷ ("NoViableCandidates", "zero_candidates")
    ∷ []

abbrev pub fault_by_diagnostic_kind : Dict String String
fault_by_diagnostic_kind =
    ("validation_rejection", "validation_rejection")
    ∷ ("snapshot_restore_rejected", "validation_rejection")
    ∷ ("SnapshotRestoreRejectedError", "validation_rejection")
    ∷ ("replay_mismatch", "replay_mismatch")
    ∷ ("post_teardown_restore_failure", "post_teardown_restore_failure")
    ∷ ("snapshot_restore_failed", "post_teardown_restore_failure")
    ∷ ("SnapshotRestoreFailedError", "post_teardown_restore_failure")
    ∷ ("snapshot_restore_missing_monster_move", "snapshot_restore_missing_monster_move")
    ∷ ("SnapshotRestoreMissingMoveError", "snapshot_restore_missing_monster_move")
    ∷ ("action_fault", "action_fault")
    ∷ ("worker_exception", "action_fault")
    ∷ ("task_timeout", "task_timeout")
    ∷ ("timeout", "task_timeout")
    ∷ ("worker_process_crash", "worker_process_crash")
    ∷ ("process_crash", "worker_process_crash")
    ∷ ("depth_cap_exceeded", "depth_cap_exceeded")
    ∷ ("zero_candidates", "zero_candidates")
    ∷ ("no_viable_candidates", "zero_candidates")
    ∷ []

abbrev pub decision_log_status_by_fault : Dict String String
decision_log_status_by_fault =
    ("validation_rejection", "validation_rejected")
    ∷ ("replay_mismatch", "replay_mismatch")
    ∷ ("action_fault", "action_fault")
    ∷ ("task_timeout", "timeout")
    ∷ ("post_teardown_restore_failure", "diagnostic_only")
    ∷ ("worker_process_crash", "diagnostic_only")
    ∷ ("depth_cap_exceeded", "diagnostic_only")
    ∷ ("zero_candidates", "coverage_failed")
    ∷ ("snapshot_restore_missing_monster_move", "validation_rejected")
    ∷ []

-- The `ValueError`s of the module.
pub data FaultError : Type 0 where
  unclassified unknown_kind main_source unknown_state negative_attempts no_generation : FaultError
  negative_retries final_state bad_depth : FaultError

-- The two fields of a diagnostics dict that are read; `none` is a missing one or `None`. An
-- exception is known by the names of its classes and by the `fault_kind` it carries, if any.
pub data Fault : Type 0 where
  diagnostics : (fault_kind exception_type : Option String) → Fault
  exception : (classes : List String) (fault_kind : Option String) → Fault

-- `x in table` with `None` for a missing field, which no table has.
abbrev looked_up : Dict String String → Option String → Option String
looked_up table none = none
looked_up table (some k) = Dict.get table k

abbrev or_action_fault : Option String → String
or_action_fault none = "action_fault"
or_action_fault (some k) = k

-- `if exception_type:` and the `ValueError` after it.
by_type : Option String → Result FaultError String
by_type none = err unclassified
by_type (some t) =
    if str_eq t ""
    then err unclassified
    else ok (or_action_fault (Dict.get fault_by_exception_type t))

abbrev is_restore_error : Option String → Bool
is_restore_error none = false
is_restore_error (some t) =
    member t ("SnapshotRestoreRejectedError" ∷ "SnapshotRestoreFailedError" ∷ [])

by_kind : Option String → Option String → Option String → Result FaultError String
unfolding by_type
by_kind none fault_kind exception_type = by_type exception_type
by_kind (some mapped) fault_kind exception_type =
    if str_eq mapped "action_fault"
    then (if is_restore_error exception_type then by_type exception_type else ok mapped)
    else ok mapped

classify_diagnostics : Option String → Option String → Option String → Result FaultError String
unfolding by_kind
classify_diagnostics (some k) fault_kind exception_type = ok k
classify_diagnostics none fault_kind exception_type =
    by_kind (looked_up fault_by_diagnostic_kind fault_kind) fault_kind exception_type

-- The exception classes that are tried, in their order.
abbrev isinstance_order : List (String × String)
isinstance_order =
    ("SnapshotRestoreRejectedError", "validation_rejection")
    ∷ ("SnapshotRestoreFailedError", "post_teardown_restore_failure")
    ∷ ("SnapshotRestoreMissingMoveError", "snapshot_restore_missing_monster_move")
    ∷ ("ActionExecutionError", "action_fault")
    ∷ ("FaultedCombatSessionError", "action_fault")
    ∷ ("QuiescentBoundaryViolation", "action_fault")
    ∷ ("TimeoutError", "task_timeout")
    ∷ ("NoViableCandidates", "zero_candidates")
    ∷ []

carried : Option String → Result FaultError String
carried none = err unclassified
carried (some k) = if member k branch_fault_kinds then ok k else err unclassified

classify_exception : List (String × String) → List String → Option String → Result FaultError String
unfolding carried
classify_exception [] classes fault_kind = carried fault_kind
classify_exception ((exc_type, kind) ∷ rest) classes fault_kind =
    let later = classify_exception rest classes fault_kind in
    if member exc_type classes then ok kind else later

unfoldable pub classify_fault : Fault → Result FaultError String
unfolding classify_diagnostics classify_exception
classify_fault (diagnostics fault_kind exception_type) =
    classify_diagnostics (looked_up fault_by_exception_type exception_type) fault_kind
      exception_type
classify_fault (exception classes fault_kind) =
    classify_exception isinstance_order classes fault_kind

unfoldable pub worker_reuse_policy : String → Result FaultError String
worker_reuse_policy fault_kind =
    if str_eq fault_kind "validation_rejection"
    then ok "reuse_safe"
    else if member fault_kind branch_fault_kinds
    then ok "force_restart"
    else if member fault_kind main_fault_sources
    then err main_source
    else err unknown_kind

pub record WorkItemAttempt : Type 0 where
  pub work_id : String
  pub attempt_count : ℕ
  pub state : String
  pub worker_generation : ℕ

-- `__post_init__`; a count is no negative number here.
unfoldable pub make_attempt : WorkItemAttempt → Result FaultError WorkItemAttempt
make_attempt a = do
  raise_if (not (member a.state work_item_states)) unknown_state
  raise_if (a.worker_generation == 0) no_generation
  ok a

pub record RetryDecision : Type 0 where
  pub next_state : String
  pub policy : String
  pub should_retry : Bool
  pub worker_generation : ℕ
  pub attempt_count : ℕ

unfoldable pub decide_retry : WorkItemAttempt → String → ℕ → Result FaultError RetryDecision
decide_retry attempt fault_kind max_retries = do
  raise_if (not (member attempt.state ("Running" ∷ "Retrying" ∷ []))) final_state
  policy ← worker_reuse_policy fault_kind
  let next_attempt_count = attempt.attempt_count + 1
  let should_retry = leb next_attempt_count max_retries
  ok (record {
    next_state = if should_retry then "Retrying" else "FinalFault";
    policy = policy;
    should_retry = should_retry;
    worker_generation =
        if str_eq policy "force_restart"
        then attempt.worker_generation + 1
        else attempt.worker_generation;
    attempt_count = next_attempt_count;
  })

pub record DepthCapExceeded : Type 0 where
  pub current_depth : ℕ
  pub max_depth : ℕ

unfoldable pub depth_cap_fault : ℕ → ℕ → Result FaultError (Option DepthCapExceeded)
depth_cap_fault current_depth max_depth = do
  raise_if (max_depth == 0) bad_depth
  ok (
      if leb max_depth current_depth
      then some (record { current_depth = current_depth; max_depth = max_depth })
      else none)
