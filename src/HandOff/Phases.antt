-- ===== src/HandOff/Phases.antt =====
-- `enter_combat_phase` and `leave_combat_phase` of API/instance_whole_run.py. What the adoption of
-- the live combat gives, a phase or an error, comes in as a value: it reads the game and takes no
-- lease. Closing a phase changes nothing that is modelled here.
pub mod Atomic
pub mod Leaving
pub mod Failing
use sts2_rl.Prelude.{
  ℕ, String, Bool, true, false, ◌||◌, not, Option, none, some, List, Result, ok, err, ◌>>=◌, ◌>>◌,
  raise_if, if◌then◌else◌,
}
use sts2_rl.Api.Dto.{root_branch_id}
use sts2_rl.Api.Identifiers.Decisions.{DecisionPointRegistry, issue, current_id, restore_current}
use sts2_rl.GameAccess.{
  LeaseState, run, combat, same_state, same_holder, AccessError, GameLease, GameAccess,
  validate_current, claim, release, begin, commit, rollback, poison,
}
use sts2_rl.HandOff.{
  Session, HandOffError, access_error, no_lease, faulted_instance, phase_is_active, no_active_phase,
  adopt_error, leave_error, begin_run_transfer, begin_combat_transfer, accept_transferred_lease,
  rollback_lease_transfer,
}

module _ (Phase Completion : Type 0) where
  pub record WholeRun : Type 0 where
    pub access : GameAccess
    pub session : Session
    pub live_session : Option Session
    pub decision_points : DecisionPointRegistry
    pub combat_phase : Option Phase
    pub last_combat_completion : Option Completion
    pub action_prefix : List ℕ
    pub faulted : Bool

  abbrev pub is_active : Option Phase → Bool
  is_active none = false
  is_active (some phase) = true

  after_rollback :
      HandOffError
      → WholeRun
      → Result HandOffError (Session × GameAccess)
      → Result HandOffError Phase × WholeRun
  after_rollback error i (err e) = (err e, i)
  after_rollback error i (ok (session, a)) = (err error, record i { session = session; access = a })

  -- The handler of a failure before the commit.
  undo : HandOffError → GameLease → Option String → WholeRun → Result HandOffError Phase × WholeRun
  unfolding after_rollback
  undo error transfer prior_decision i =
      let i' = record i {
        decision_points = restore_current i.decision_points root_branch_id prior_decision;
      } in
      after_rollback error i' (rollback_lease_transfer i'.session transfer i'.access)

  -- The handler of a failure after it.
  unfoldable pub poison_combat_transaction : WholeRun → WholeRun
  poison_combat_transaction i = record i {
    faulted = true;
    combat_phase = none;
    session = record i.session { lease = none };
    access = poison i.access;
  }

  accepted : Phase → WholeRun → Result HandOffError Session → Result HandOffError Phase × WholeRun
  unfolding poison_combat_transaction
  accepted phase i (err e) = (err e, poison_combat_transaction i)
  accepted phase i (ok live) =
      (ok phase, record i { live_session = some live; combat_phase = some phase })

  committed :
      Phase
      → Session
      → GameLease
      → Option String
      → WholeRun
      → Result AccessError (GameAccess × GameLease)
      → Result HandOffError Phase × WholeRun
  unfolding accepted undo
  committed phase live transfer prior_decision i (err e) =
      undo (access_error e) transfer prior_decision i
  committed phase live transfer prior_decision i (ok (a, lease)) =
      accepted phase (record i { access = a }) (accept_transferred_lease combat live lease a)

  adopted :
      Result String Phase
      → Session
      → GameLease
      → Option String
      → WholeRun
      → Result HandOffError Phase × WholeRun
  unfolding committed undo
  adopted (err error) live transfer prior_decision i =
      undo (adopt_error error) transfer prior_decision i
  adopted (ok phase) live transfer prior_decision i =
      committed phase live transfer prior_decision
        (record i { decision_points = (issue i.decision_points root_branch_id).1 })
        (commit i.access transfer combat (some live.lease_holder))

  begun :
      Result String Phase
      → Session
      → WholeRun
      → Result HandOffError (GameLease × (Session × GameAccess))
      → Result HandOffError Phase × WholeRun
  unfolding adopted
  begun adoption live i (err e) = (err e, i)
  begun adoption live i (ok (transfer, (session, a))) =
      adopted adoption live transfer (current_id i.decision_points root_branch_id)
        (record i { session = session; access = a })

  -- `live` is the new session, which has no lease yet.
  unfoldable pub enter_combat_phase :
      WholeRun → Result String Phase → Session → Result HandOffError Phase × WholeRun
  unfolding begun
  enter_combat_phase i adoption live =
      if i.faulted
      then (err faulted_instance, i)
      else if is_active i.combat_phase
      then (err phase_is_active, i)
      else begun adoption live i (begin_run_transfer i.session i.access)

  -- Leaving. `retired` is what cancelling the branches and closing the phase gave, `settled` the ids
  -- that the drain took at the run's frontier, `captured` what the map snapshot gave; each may have
  -- raised. On success nothing is returned, as in the code.
  map_captured : Result String (Unit {0}) → WholeRun → Result HandOffError (Unit {0}) × WholeRun
  unfolding poison_combat_transaction
  map_captured (err error) i = (err (leave_error error), poison_combat_transaction i)
  map_captured (ok _) i = (ok tt, i)

  settle_run :
      Result String (List ℕ)
      → Result String (Unit {0})
      → WholeRun
      → Result HandOffError (Unit {0}) × WholeRun
  unfolding map_captured poison_combat_transaction
  settle_run (err error) captured i = (err (leave_error error), poison_combat_transaction i)
  settle_run (ok auto_action_ids) captured i =
      map_captured captured (record i { action_prefix = auto_action_ids })

  run_accepted :
      Result String (List ℕ)
      → Result String (Unit {0})
      → WholeRun
      → Result HandOffError Session
      → Result HandOffError (Unit {0}) × WholeRun
  unfolding settle_run poison_combat_transaction
  run_accepted settled captured i (err e) = (err e, poison_combat_transaction i)
  run_accepted settled captured i (ok session) =
      settle_run settled captured (record i { session = session })

  run_committed :
      Result String (List ℕ)
      → Result String (Unit {0})
      → WholeRun
      → Result AccessError (GameAccess × GameLease)
      → Result HandOffError (Unit {0}) × WholeRun
  unfolding run_accepted poison_combat_transaction
  run_committed settled captured i (err e) = (err (access_error e), poison_combat_transaction i)
  run_committed settled captured i (ok (a, lease)) =
      run_accepted settled captured (record i { access = a })
        (accept_transferred_lease run i.session lease a)

  retire :
      Result String (Unit {0})
      → Result String (List ℕ)
      → Result String (Unit {0})
      → GameLease
      → WholeRun
      → Result HandOffError (Unit {0}) × WholeRun
  unfolding run_committed poison_combat_transaction
  retire (err error) settled captured transfer i =
      (err (leave_error error), poison_combat_transaction i)
  retire (ok _) settled captured transfer i =
      run_committed settled captured (record i { combat_phase = none })
        (commit i.access transfer run (some i.session.lease_holder))

  leaving :
      Completion
      → Result String (Unit {0})
      → Result String (List ℕ)
      → Result String (Unit {0})
      → WholeRun
      → Result HandOffError (GameLease × (Session × GameAccess))
      → Result HandOffError (Unit {0}) × WholeRun
  unfolding retire
  leaving completion retired settled captured i (err e) = (err e, i)
  leaving completion retired settled captured i (ok (transfer, (live, a))) =
      retire retired settled captured transfer (record i {
        live_session = some live;
        access = a;
        last_combat_completion = some completion;
      })

  phase_transfer :
      Option Session → GameAccess → Result HandOffError (GameLease × (Session × GameAccess))
  phase_transfer none a = err no_lease
  phase_transfer (some live) a = begin_combat_transfer live a

  unfoldable pub leave_combat_phase :
      WholeRun
      → Completion
      → Result String (Unit {0})
      → Result String (List ℕ)
      → Result String (Unit {0})
      → Result HandOffError (Unit {0}) × WholeRun
  unfolding leaving phase_transfer
  leave_combat_phase i completion retired settled captured =
      if i.faulted
      then (err faulted_instance, i)
      else if is_active i.combat_phase
      then leaving completion retired settled captured i (phase_transfer i.live_session i.access)
      else (err no_active_phase, i)
