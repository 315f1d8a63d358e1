-- ===== src/HandOff/Phases/Leaving.antt =====
-- Leaving the combat phase: the lease comes back to the run.
use sts2_rl.Prelude.{◌≡◌, false, some, ok}
use sts2_rl.GameAccess.{combat, GameLease, GameAccess, validate_current}
use sts2_rl.HandOff.{Session}
use sts2_rl.HandOff.Phases.{WholeRun}

module _ (Phase Completion : Type 0) where
  -- The instance is in a combat, whose session's lease `l` is current.
  pub record IsFighting (i : WholeRun Phase Completion) (live : Session) (l : GameLease)
      : Type 0 where
    pub not_faulted : i.faulted ≡ false
    pub phase : Phase
    pub has_phase : i.combat_phase ≡ some phase
    pub has_live : i.live_session ≡ some live
    pub holds : live.lease ≡ some l
    pub is_current : validate_current i.access l ≡ ok tt
    pub combat_state : l.state ≡ combat
