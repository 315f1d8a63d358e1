-- ===== src/HandOff/Phases/Atomic.antt =====
-- Entering the combat phase is a transaction.
use sts2_rl.Prelude.{
  ℕ, ◌+◌, ◌≡◌, ◌≢◌, refl, sym, ap, ◌∙◌, arith, String, true, false, Option, none, some, Result, ok,
  err,
}
use sts2_rl.Api.Dto.{root_branch_id}
use sts2_rl.Api.Identifiers.Decisions.{
  DecisionPointRegistry, issue, current_id, restore_current, undo-restore, validate-issue,
}
use sts2_rl.GameAccess.{
  LeaseState, run, combat, transferring, poisoned, is_normal, GameLease, GameAccess,
  validate_current, begin, commit,
}
use sts2_rl.GameAccess.Transfer.{rollback-begin}
use sts2_rl.GameAccess.History.{one_current_lease}
use sts2_rl.HandOff.{
  Session, adopt_error, is_foreign, begin_run_transfer, rollback_lease_transfer,
  accept_transferred_lease,
}
use sts2_rl.HandOff.Phases.{
  WholeRun, after_rollback, undo, accepted, committed, adopted, begun, enter_combat_phase,
}

pub begin-current :
    (a : GameAccess) (l : GameLease)
    → validate_current a l ≡ ok tt
    → (b : GameAccess) × (transfer : GameLease) × (begin a l ≡ ok (b, transfer))
      × (transfer.holder ≡ l.holder)
unfolding begin
begin-current a l v = (
  record {
    state = LeaseState.transferring;
    holder = a.holder;
    generation = a.generation + 1;
    transfer_origin = some (a.state, a.holder);
  },
  record { holder = l.holder; state = LeaseState.transferring; generation = a.generation + 1 },
  rw v refl,
  refl,
)

normal_is_current :
    (holder : Option ℕ) (state : LeaseState) (generation : ℕ)
    → is_normal state ≡ true
    → validate_current
        (record { state = state; holder = holder; generation = generation; transfer_origin = none })
        (record { holder = holder; state = state; generation = generation })
      ≡ ok tt
unfolding validate_current
normal_is_current holder run generation normal = ground arith
normal_is_current holder combat generation normal = ground arith
normal_is_current holder transferring generation normal = ground arith
normal_is_current holder poisoned generation normal = ground arith

pub commit-begin :
    (a b : GameAccess) (l transfer : GameLease) (holder : Option ℕ) (target : LeaseState)
    → begin a l ≡ ok (b, transfer)
    → is_normal target ≡ true
    → (c : GameAccess) × (m : GameLease) × (commit b transfer target holder ≡ ok (c, m))
      × (m ≡ record { holder = holder; state = target; generation = a.generation + 1 + 1 })
      × (validate_current c m ≡ ok tt)
unfolding begin commit validate_current
commit-begin a b l transfer holder target e normal = (
  record {
    state = target;
    holder = holder;
    generation = a.generation + 1 + 1;
    transfer_origin = none;
  },
  record { holder = holder; state = target; generation = a.generation + 1 + 1 },
  ground arith,
  refl,
  normal_is_current holder target (a.generation + 1 + 1) normal,
)

issued_is_current :
    (r : DecisionPointRegistry) (branch_id : String)
    → current_id (issue r branch_id).1 branch_id ≡ some (issue r branch_id).0
issued_is_current r branch_id = ground (arith, (validate-issue r branch_id branch_id).1)

pub own_lease :
    (s : Session) (l : GameLease)
    → l.state ≡ run
    → l.holder ≡ some s.lease_holder
    → is_foreign run s l ≡ false
own_lease s l st h = ground arith

module _ (Phase Completion : Type 0) where
  -- The instance can enter a combat, and its session's lease `l` is current.
  pub record IsRunning (i : WholeRun Phase Completion) (l : GameLease) : Type 0 where
    pub not_faulted : i.faulted ≡ false
    pub no_phase : i.combat_phase ≡ none
    pub holds : i.session.lease ≡ some l
    pub is_current : validate_current i.access l ≡ ok tt
    pub run_state : l.state ≡ run
    pub own : l.holder ≡ some i.session.lease_holder

  entered :
      (i : WholeRun Phase Completion) (l : GameLease) (adoption : Result String Phase)
      (live : Session) (b : GameAccess) (transfer : GameLease)
      → IsRunning i l
      → begin i.access l ≡ ok (b, transfer)
      → enter_combat_phase Phase Completion i adoption live
        ≡ adopted Phase Completion adoption live transfer
            (current_id i.decision_points root_branch_id)
            (record i { session = record i.session { lease = none }; access = b })
  unfolding enter_combat_phase begun begin_run_transfer
  entered i l adoption live b transfer w e = rw (w.not_faulted, w.no_phase, w.holds, e) refl

  -- If the adoption of the combat fails, entering gives its error and leaves the instance able to
  -- enter again: it is not faulted and has no phase, its session holds a lease of its own that is
  -- current, and every branch has the decision that it had.
  pub failed_adoption_restores :
      (i : WholeRun Phase Completion) (l : GameLease) (error : String) (live : Session)
      (branch_id : String)
      → IsRunning i l
      → (j : WholeRun Phase Completion) × (l' : GameLease) × (enter_combat_phase Phase Completion i
            (err error)
            live
          ≡ (err (adopt_error error), j))
        × IsRunning j l'
        × (current_id j.decision_points branch_id ≡ current_id i.decision_points branch_id)
  unfolding adopted undo after_rollback rollback_lease_transfer
  failed_adoption_restores i l error live branch_id w =
      let (b, transfer, e, h) = begin-current i.access l w.is_current in
      let (c, restored, back, same, holder, state, current) =
        rollback-begin i.access b l transfer e in
      let own = own_lease i.session restored (state ∙ w.run_state) (holder ∙ w.own) in
      let prior = current_id i.decision_points root_branch_id in
      (
        record i {
          decision_points = restore_current i.decision_points root_branch_id prior;
          session = record i.session { lease = some restored };
          access = c;
        },
        restored,
        entered i l (err error) live b transfer w e ∙ rw (back, own) refl,
        record {
          not_faulted = w.not_faulted;
          no_phase = w.no_phase;
          holds = refl;
          is_current = current;
          run_state = state ∙ w.run_state;
          own = holder ∙ w.own;
        },
        undo-restore i.decision_points i.decision_points root_branch_id branch_id prior refl
            (λ ne. refl),
      )

  -- If the adoption of the combat succeeds, the combat session holds the lease that is current, for the state COMBAT, the
  -- run's session has none, the lease that it had is current no more, and the root has a new decision.
  pub adoption_hands_over :
      (i : WholeRun Phase Completion) (l : GameLease) (phase : Phase) (live : Session)
      → IsRunning i l
      → (j : WholeRun Phase Completion) × (m : GameLease) × (enter_combat_phase Phase Completion i
            (ok phase)
            live
          ≡ (ok phase, j))
        × (j.combat_phase ≡ some phase)
        × (j.live_session ≡ some (record live { lease = some m }))
        × (validate_current j.access m ≡ ok tt)
        × (m.state ≡ combat)
        × (j.session.lease ≡ none)
        × (validate_current j.access l ≢ ok tt)
        × (current_id j.decision_points root_branch_id
            ≡ some (issue i.decision_points root_branch_id).0)
  unfolding adopted committed accepted accept_transferred_lease
  adoption_hands_over i l phase live w =
      let (b, transfer, e, h) = begin-current i.access l w.is_current in
      let (c, m, taken, held, current) =
        commit-begin i.access b l transfer (some live.lease_holder) combat e refl in
      let own : is_foreign combat live m ≡ false = ground (arith, held) in
      (
        record i {
          session = record i.session { lease = none };
          access = c;
          decision_points = (issue i.decision_points root_branch_id).1;
          live_session = some (record live { lease = some m });
          combat_phase = some phase;
        },
        m,
        entered i l (ok phase) live b transfer w e ∙ rw (taken, own, current) refl,
        refl,
        refl,
        current,
        ap (λ (x : GameLease). x.state) held,
        refl,
        λ v. cc (
            sym (
              ap (λ (x : GameLease). x.state) (one_current_lease c l m v current)
              ∙ ap (λ (x : GameLease). x.state) held)
            ∙ w.run_state),
        issued_is_current i.decision_points root_branch_id,
      )
