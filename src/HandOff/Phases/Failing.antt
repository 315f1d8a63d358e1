-- ===== src/HandOff/Phases/Failing.antt =====
-- Leaving the combat phase when it fails: nothing has changed, or the instance is poisoned.
use sts2_rl.Prelude.{
  ℕ, String, List, ◌≡◌, ◌≢◌, refl, true, false, some, none, Result, ok, err, ◌⊎◌, inl, inr, Bool,
  Option, if◌then◌else◌,
}
use sts2_rl.GameAccess.{
  run, GameLease, GameAccess, AccessError, validate_current, commit, is_poisoned, poison,
}
use sts2_rl.HandOff.{
  Session, HandOffError, faulted_instance, no_active_phase, begin_combat_transfer, begin_held,
  accept_transferred_lease,
}
use sts2_rl.HandOff.Phases.{
  WholeRun, poison_combat_transaction, map_captured, settle_run, run_accepted, run_committed,
  is_active, retire, leaving, phase_transfer, leave_combat_phase,
}
use sts2_rl.HandOff.Phases.Atomic.{begin-current}

module _ (Phase Completion : Type 0) where
  -- The instance takes no more changes, and no lease is current.
  pub record IsRetired (j : WholeRun Phase Completion) : Type 0 where
    pub is_faulted : j.faulted ≡ true
    pub no_phase : j.combat_phase ≡ none
    pub no_lease : j.session.lease ≡ none
    pub refuses : (l : GameLease) → validate_current j.access l ≡ err is_poisoned

  poison-IsRetired :
      (i : WholeRun Phase Completion) → IsRetired (poison_combat_transaction Phase Completion i)
  unfolding poison_combat_transaction poison validate_current
  poison-IsRetired i = record {
    is_faulted = refl;
    no_phase = refl;
    no_lease = refl;
    refuses = λ l. refl;
  }

  module _ (settled : Result String (List ℕ)) (captured : Result String (Unit {0}))
      (error : HandOffError) where
    captured-IsRetired :
        (outcome : Result String (Unit {0})) (i : WholeRun Phase Completion)
        → (map_captured Phase Completion outcome i).0 ≡ err error
        → IsRetired (map_captured Phase Completion outcome i).1
    unfolding map_captured
    captured-IsRetired (err e) i failed = poison-IsRetired i
    captured-IsRetired (ok _) i failed = cc failed

    settle-IsRetired :
        (outcome : Result String (List ℕ)) (i : WholeRun Phase Completion)
        → (settle_run Phase Completion outcome captured i).0 ≡ err error
        → IsRetired (settle_run Phase Completion outcome captured i).1
    unfolding settle_run
    settle-IsRetired (err e) i failed = poison-IsRetired i
    settle-IsRetired (ok ids) i failed =
        captured-IsRetired captured (record i { action_prefix = ids }) failed

    accepted-IsRetired :
        (i : WholeRun Phase Completion) (outcome : Result HandOffError Session)
        → (run_accepted Phase Completion settled captured i outcome).0 ≡ err error
        → IsRetired (run_accepted Phase Completion settled captured i outcome).1
    unfolding run_accepted
    accepted-IsRetired i (err e) failed = poison-IsRetired i
    accepted-IsRetired i (ok session) failed =
        settle-IsRetired settled (record i { session = session }) failed

    committed-IsRetired :
        (i : WholeRun Phase Completion) (outcome : Result AccessError (GameAccess × GameLease))
        → (run_committed Phase Completion settled captured i outcome).0 ≡ err error
        → IsRetired (run_committed Phase Completion settled captured i outcome).1
    unfolding run_committed
    committed-IsRetired i (err e) failed = poison-IsRetired i
    committed-IsRetired i (ok (a, lease)) failed =
        accepted-IsRetired (record i { access = a })
          (accept_transferred_lease run i.session lease a) failed

    retire-IsRetired :
        (i : WholeRun Phase Completion) (transfer : GameLease) (retired : Result String (Unit {0}))
        → (retire Phase Completion retired settled captured transfer i).0 ≡ err error
        → IsRetired (retire Phase Completion retired settled captured transfer i).1
    unfolding retire
    retire-IsRetired i transfer (err e) failed = poison-IsRetired i
    retire-IsRetired i transfer (ok _) failed =
        committed-IsRetired (record i { combat_phase = none })
          (commit i.access transfer run (some i.session.lease_holder)) failed

  -- Why leaving is refused before the game is asked for: the instance is faulted, it is in no combat,
  -- or the combat's session has no lease that is current.
  pub data IsRefused (i : WholeRun Phase Completion) : Type 0 where
    is_faulted : i.faulted ≡ true → IsRefused i
    no_combat : i.combat_phase ≡ none → IsRefused i
    no_current :
        ((live : Session) (l : GameLease)
          → i.live_session ≡ some live
          → live.lease ≡ some l
          → validate_current i.access l ≢ ok tt)
        → IsRefused i

  begun-Or :
      (i : WholeRun Phase Completion) (completion : Completion) (retired : Result String (Unit {0}))
      (settled : Result String (List ℕ)) (captured : Result String (Unit {0}))
      (error : HandOffError) (outcome : Result HandOffError (GameLease × (Session × GameAccess)))
      → phase_transfer Phase Completion i.live_session i.access ≡ outcome
      → (leaving Phase Completion completion retired settled captured i outcome).0 ≡ err error
      → (IsRefused i
          × ((leaving Phase Completion completion retired settled captured i outcome).1 ≡ i))
        ⊎ IsRetired (leaving Phase Completion completion retired settled captured i outcome).1
  unfolding leaving phase_transfer begin_combat_transfer begin_held
  begun-Or i completion retired settled captured error (err e) same failed = inl (
    IsRefused.no_current (λ live l is_live held current.
        let (b, transfer, begun, h) = begin-current i.access l current in
        cc (rw (is_live, held, begun) at same)),
    refl,
  )
  begun-Or i completion retired settled captured error (ok (transfer, (live, a))) same failed =
      inr (retire-IsRetired settled captured error _ transfer retired failed)

  -- `leave_combat_phase` with what its guards read.
  abbrev guarded :
      WholeRun Phase Completion
      → Completion
      → Result String (Unit {0})
      → Result String (List ℕ)
      → Result String (Unit {0})
      → Bool
      → Option Phase
      → Result HandOffError (Unit {0}) × WholeRun Phase Completion
  guarded i completion retired settled captured faulted phase =
      if faulted
      then (err faulted_instance, i)
      else if is_active Phase Completion phase
      then leaving Phase Completion completion retired settled captured i
          (phase_transfer Phase Completion i.live_session i.access)
      else (err no_active_phase, i)

  by_guards :
      (i : WholeRun Phase Completion) (completion : Completion) (retired : Result String (Unit {0}))
      (settled : Result String (List ℕ)) (captured : Result String (Unit {0}))
      (error : HandOffError) (faulted : Bool) (phase : Option Phase)
      → i.faulted ≡ faulted
      → i.combat_phase ≡ phase
      → (guarded i completion retired settled captured faulted phase).0 ≡ err error
      → (IsRefused i × ((guarded i completion retired settled captured faulted phase).1 ≡ i))
        ⊎ IsRetired (guarded i completion retired settled captured faulted phase).1
  by_guards i completion retired settled captured error true phase f c failed =
      inl (IsRefused.is_faulted f, refl)
  by_guards i completion retired settled captured error false none f c failed =
      inl (IsRefused.no_combat c, refl)
  by_guards i completion retired settled captured error false (some phase) f c failed =
      begun-Or i completion retired settled captured error _ refl failed

  -- When leaving a combat fails, either it was refused before the transfer began (the instance is
  -- faulted, in no combat, or the combat's session has no lease that is current) and nothing has
  -- changed, or the instance is faulted, has no phase, its session has no lease, and no lease at all
  -- is current.
  pub failed_leaving_poisons :
      (i : WholeRun Phase Completion) (completion : Completion) (retired : Result String (Unit {0}))
      (settled : Result String (List ℕ)) (captured : Result String (Unit {0}))
      (error : HandOffError)
      → (leave_combat_phase Phase Completion i completion retired settled captured).0 ≡ err error
      → (IsRefused i
          × ((leave_combat_phase Phase Completion i completion retired settled captured).1 ≡ i))
        ⊎ IsRetired (leave_combat_phase Phase Completion i completion retired settled captured).1
  unfolding leave_combat_phase
  failed_leaving_poisons i completion retired settled captured error failed =
      by_guards i completion retired settled captured error i.faulted i.combat_phase refl refl
        failed
