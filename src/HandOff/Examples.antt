-- ===== src/HandOff/Examples.antt =====
-- A run that enters a combat, one whose adoption fails, one that leaves its combat, and one whose
-- drain fails then.
use sts2_rl.Prelude.{◌⊎◌, ℕ, String, [], ◌≡◌, ◌≢◌, refl, false, none, some, ok, err}
use sts2_rl.Api.Dto.{root_branch_id}
use sts2_rl.Api.Identifiers.Decisions.{new_decisions, issue, current_id}
use sts2_rl.GameAccess.{run, combat, GameLease, validate_current, begin, commit}
use sts2_rl.HandOff.{
  Session, adopt_error, leave_error, begin_combat_transfer, accept_transferred_lease,
}
use sts2_rl.HandOff.Phases.{WholeRun, enter_combat_phase, leave_combat_phase}
use sts2_rl.HandOff.Phases.Atomic.{IsRunning, failed_adoption_restores, adoption_hands_over}
use sts2_rl.HandOff.Phases.Failing.{IsRefused, IsRetired, failed_leaving_poisons}

abbrev lease : GameLease
lease = record { holder = some 1; state = run; generation = 1 }

-- A phase is known by its number.
abbrev whole_run : WholeRun ℕ String
whole_run = record {
  access = record { state = run; holder = some 1; generation = 1; transfer_origin = none };
  session = record { lease_holder = 1; lease = some lease };
  live_session = none;
  decision_points = (issue new_decisions root_branch_id).1;
  combat_phase = none;
  last_combat_completion = none;
  action_prefix = [];
  faulted = false;
}

abbrev live : Session
live = record { lease_holder = 2; lease = none }

running : IsRunning ℕ String whole_run lease
unfolding validate_current
running = record {
  not_faulted = refl;
  no_phase = refl;
  holds = refl;
  is_current = refl;
  run_state = refl;
  own = refl;
}

failed_adoption_restores_example :
    (j : WholeRun ℕ String) × (l : GameLease) × (enter_combat_phase ℕ String whole_run
        (err "no turnNumber")
        live
      ≡ (err (adopt_error "no turnNumber"), j))
    × IsRunning ℕ String j l
    × (current_id j.decision_points "root" ≡ current_id whole_run.decision_points "root")
failed_adoption_restores_example =
    failed_adoption_restores ℕ String whole_run lease "no turnNumber" live "root" running

adoption_hands_over_example :
    (j : WholeRun ℕ String) × (m : GameLease) × (enter_combat_phase ℕ String whole_run (ok 7) live
      ≡ (ok 7, j))
    × (j.combat_phase ≡ some 7)
    × (j.live_session ≡ some (record live { lease = some m }))
    × (validate_current j.access m ≡ ok tt)
    × (m.state ≡ combat)
    × (j.session.lease ≡ none)
    × (validate_current j.access lease ≢ ok tt)
    × (current_id j.decision_points root_branch_id
        ≡ some (issue whole_run.decision_points root_branch_id).0)
adoption_hands_over_example = adoption_hands_over ℕ String whole_run lease 7 live running

abbrev combat_lease : GameLease
combat_lease = record { holder = some 2; state = combat; generation = 3 }

abbrev fighter : Session
fighter = record { lease_holder = 2; lease = some combat_lease }

abbrev in_combat : WholeRun ℕ String
in_combat = record whole_run {
  access = record { state = combat; holder = some 2; generation = 3; transfer_origin = none };
  session = record { lease_holder = 1; lease = none };
  live_session = some fighter;
  combat_phase = some 7;
}

drain_failed :
    (leave_combat_phase ℕ String in_combat "victory" (ok tt) (err "no offer") (ok tt)).0
    ≡ err (leave_error "no offer")
unfolding leave_combat_phase begin_combat_transfer begin commit accept_transferred_lease
drain_failed = refl

failed_leaving_poisons_example :
    (IsRefused ℕ String in_combat
      × ((leave_combat_phase ℕ String in_combat "victory" (ok tt) (err "no offer") (ok tt)).1
          ≡ in_combat))
    ⊎ IsRetired ℕ String
        (leave_combat_phase ℕ String in_combat "victory" (ok tt) (err "no offer") (ok tt)).1
failed_leaving_poisons_example =
    failed_leaving_poisons ℕ String in_combat "victory" (ok tt) (err "no offer") (ok tt)
      (leave_error "no offer") drain_failed
