-- ===== src/GameAccess/Examples.antt =====
-- Leases at work: holder 1 claims the run and hands it to the combat.
use sts2_rl.Prelude.{Bool, true, ◌+◌, ◌≡◌, ◌≢◌, refl, none, some, ok, err}
use sts2_rl.GameAccess.{
  LeaseState, run, combat, transferring, GameLease, GameAccess, fresh, is_poisoned, not_transfer,
  validate_current, validate_transfer, claim, begin, commit, rollback, poison,
}
use sts2_rl.GameAccess.Invariant.{IsValid, Step, Reach, here, next, no_transfer, Reach-IsValid}
use sts2_rl.GameAccess.Transfer.{rollback-begin}
use sts2_rl.GameAccess.History.{stale_forever, poison_is_terminal}

abbrev claimed : GameAccess
claimed = record { state = run; holder = some 1; generation = 1; transfer_origin = none }

abbrev lease : GameLease
lease = record { holder = some 1; state = run; generation = 1 }

abbrev moving : GameAccess
moving = record {
  state = transferring;
  holder = some 1;
  generation = 2;
  transfer_origin = some (run, some 1);
}

abbrev transfer : GameLease
transfer = record { holder = some 1; state = transferring; generation = 2 }

claim_runs : claim fresh (some 1) run ≡ ok (claimed, lease)
unfolding claim
claim_runs = refl

begin_runs : begin claimed lease ≡ ok (moving, transfer)
unfolding begin
begin_runs = refl

lease_is_current : validate_current claimed lease ≡ ok tt
unfolding validate_current
lease_is_current = refl

transfer_is_current : validate_transfer moving transfer ≡ ok tt
unfolding validate_transfer
transfer_is_current = refl

abbrev any_state : LeaseState → Bool
any_state state = true

stale_forever_example : validate_current (poison moving) lease ≢ ok tt
stale_forever_example =
    stale_forever any_state claimed moving (poison moving) lease lease_is_current
      (Step.begins lease transfer begin_runs) (next here (Step.poisons refl))

poison_is_terminal_example :
    (validate_current (poison moving) transfer ≡ err is_poisoned)
    × (claim (poison moving) (some 2) combat ≡ err is_poisoned)
    × (commit (poison moving) transfer combat (some 2) ≡ err not_transfer)
    × (rollback (poison moving) transfer ≡ err not_transfer)
poison_is_terminal_example =
    poison_is_terminal any_state moving (poison moving) transfer (some 2) combat here

rollback-begin_example :
    (c : GameAccess) × (restored : GameLease) × (rollback moving transfer ≡ ok (c, restored))
    × (c ≡ record claimed { generation = claimed.generation + 1 + 1; transfer_origin = none })
    × (restored.holder ≡ lease.holder)
    × (restored.state ≡ lease.state)
    × (validate_current c restored ≡ ok tt)
rollback-begin_example = rollback-begin claimed moving lease transfer begin_runs

reached : Reach no_transfer fresh moving
unfolding no_transfer
reached =
    next (next here (Step.claims (some 1) run lease refl claim_runs))
      (Step.begins lease transfer begin_runs)

Reach-IsValid_example : IsValid moving
Reach-IsValid_example = Reach-IsValid moving reached
