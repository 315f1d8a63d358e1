-- ===== src/GameAccess/History.antt =====
-- Who may mutate the game, now and after any later calls.
use sts2_rl.Prelude.{ok, err, ℕ, Bool, ◌+◌, ◌≡◌, ◌≢◌, refl, true, Option, none, arith}
use sts2_rl.GameAccess.{
  LeaseState, transferring, poisoned, GameLease, GameAccess, is_normal, validate_current,
  validate_transfer, claim, release, begin, commit, rollback, poison, is_poisoned, is_transferring,
  not_transfer,
}
use sts2_rl.GameAccess.Invariant.{Step, Reach, here, next, Step-generation, Reach-generation}

valid_fields :
    (a : GameAccess) (l : GameLease)
    → validate_current a l ≡ ok tt
    → (l.generation ≡ a.generation) × (l.holder ≡ a.holder) × (l.state ≡ a.state)
unfolding validate_current
valid_fields a l e = ground arith

-- At most one lease is current: two leases that may both mutate the game are the same lease.
pub one_current_lease :
    (a : GameAccess) (l m : GameLease)
    → validate_current a l ≡ ok tt
    → validate_current a m ≡ ok tt
    → l ≡ m
one_current_lease a l m p q = ground (arith, valid_fields a l p, valid_fields a m q)

-- A lease that was current stops being so at the next claim (for whatever state), release, begin,
-- commit, rollback or poisoning that succeeds, and no later calls of these revive it.
pub stale_forever :
    (allowed : LeaseState → Bool) (a b c : GameAccess) (l : GameLease)
    → validate_current a l ≡ ok tt
    → Step allowed a b
    → Reach allowed b c
    → validate_current c l ≢ ok tt
stale_forever allowed a b c l v s r w = omega (
  arith,
  valid_fields a l v,
  valid_fields c l w,
  Step-generation allowed a b s,
  Reach-generation r,
)

Step-poisoned :
    (allowed : LeaseState → Bool) (a b : GameAccess)
    → a.state ≡ poisoned
    → Step allowed a b
    → b.state ≡ poisoned
unfolding claim release begin commit rollback poison
Step-poisoned allowed a b p (Step.claims holder state l n e) = ground arith
Step-poisoned allowed a b p (Step.releases l e) = ground arith
Step-poisoned allowed a b p (Step.begins l m e) = ground arith
Step-poisoned allowed a b p (Step.commits l m target holder e) = ground arith
Step-poisoned allowed a b p (Step.rolls_back l m e) = ground arith
Step-poisoned allowed a b p (Step.poisons e) = ground arith

Reach-poisoned :
    {allowed : LeaseState → Bool} {a b : GameAccess}
    → a.state ≡ poisoned
    → Reach allowed a b
    → b.state ≡ poisoned
Reach-poisoned p here = p
Reach-poisoned {allowed} p (next {b} {c} r s) = Step-poisoned allowed b c (Reach-poisoned p r) s

-- Once poisoned, whatever claims, releases, begins, commits, rollbacks and poisonings follow, no lease is current, none can be claimed, and no transfer
-- can be completed or undone.
pub poison_is_terminal :
    (allowed : LeaseState → Bool) (a b : GameAccess) (l : GameLease) (holder : Option ℕ)
    (state : LeaseState)
    → Reach allowed (poison a) b
    → (validate_current b l ≡ err is_poisoned)
      × (claim b holder state ≡ err is_poisoned)
      × (commit b l state holder ≡ err not_transfer)
      × (rollback b l ≡ err not_transfer)
unfolding validate_current claim commit rollback
poison_is_terminal allowed a b l holder state r =
    let p = Reach-poisoned {a = poison a} (unfold poison in refl) r in
    (ground arith, ground arith, ground arith, ground arith)

-- While a transfer is under way no lease may mutate the game and none can be claimed, and the
-- lease that `begin` returned can complete or undo the transfer.
transfer_is_exclusive :
    (a b : GameAccess) (lease transfer l : GameLease) (holder : Option ℕ) (state : LeaseState)
    → begin a lease ≡ ok (b, transfer)
    → (validate_current b l ≡ err is_transferring)
      × (claim b holder state ≡ err is_transferring)
      × (validate_transfer b transfer ≡ ok tt)
unfolding validate_current begin claim validate_transfer
transfer_is_exclusive a b lease transfer l holder state e =
    (ground arith, ground arith, ground arith)

-- No lease but the one that `begin` returned completes or undoes a transfer.
transfer_lease_unique :
    (a b : GameAccess) (lease transfer l : GameLease)
    → begin a lease ≡ ok (b, transfer)
    → validate_transfer b l ≡ ok tt
    → l ≡ transfer
unfolding validate_current begin validate_transfer
transfer_lease_unique a b lease transfer l e h = ground arith

-- A claim for TRANSFERRING is accepted, and the access that it leaves has no way on but poison:
-- no lease is current, none can be claimed, and none completes or undoes a transfer.
claim_wedge :
    (a : GameAccess) (holder h : Option ℕ) (l : GameLease) (state : LeaseState)
    → is_normal a.state ≡ true
    → a.transfer_origin ≡ none
    → (b : GameAccess) × (lease : GameLease) × (claim a holder transferring ≡ ok (b, lease))
      × (validate_current b l ≡ err is_transferring)
      × (claim b h state ≡ err is_transferring)
      × (validate_transfer b l ≡ err not_transfer)
unfolding claim validate_current validate_transfer
claim_wedge a holder h l state n o = (
  record a { state = transferring; holder = holder; generation = a.generation + 1 },
  record { holder = holder; state = transferring; generation = a.generation + 1 },
  ground arith,
  refl,
  refl,
  ground arith,
)
