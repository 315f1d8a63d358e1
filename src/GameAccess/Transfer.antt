-- ===== src/GameAccess/Transfer.antt =====
-- A hand-off from its `begin` to its `commit` or `rollback`.
use sts2_rl.Prelude.{ok, ◌+◌, ◌≡◌, refl, none, arith}
use sts2_rl.GameAccess.{GameLease, GameAccess, validate_current, begin, rollback}

-- A hand-off that is begun with a current lease and rolled back gives the state and the holder
-- that it began with, in a state two generations on, and a lease that is current there.
pub rollback-begin :
    (a b : GameAccess) (lease transfer : GameLease)
    → begin a lease ≡ ok (b, transfer)
    → (c : GameAccess) × (restored : GameLease) × (rollback b transfer ≡ ok (c, restored))
      × (c ≡ record a { generation = a.generation + 1 + 1; transfer_origin = none })
      × (restored.holder ≡ lease.holder)
      × (restored.state ≡ lease.state)
      × (validate_current c restored ≡ ok tt)
unfolding begin rollback
rollback-begin a b lease transfer e = (
  record a { generation = a.generation + 1 + 1; transfer_origin = none },
  record lease { generation = a.generation + 1 + 1 },
  ground arith,
  refl,
  refl,
  refl,
  ground arith,
)
