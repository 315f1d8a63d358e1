-- ===== src/GameAccess.antt =====
-- game_access.py: the process-wide owner of the game and the lease state machine that guards
-- mutation. A holder is an object compared by `is`: a number, or `none` for Python's `None`.
-- A method that raises does so before its first write, so an error carries no state.
pub mod Invariant
pub mod Transfer
pub mod History
mod Examples
use sts2_rl.Prelude.{
  ℕ, ◌+◌, Bool, true, false, ◌||◌, not, Option, none, some, Result, ok, err, ◌>>=◌, ◌>>◌, ◌==◌,
  if◌then◌else◌,
}

pub data LeaseState : Type 0 where
  run combat transferring poisoned : LeaseState

abbrev pub same_state : LeaseState → LeaseState → Bool
same_state run run = true
same_state combat combat = true
same_state transferring transferring = true
same_state poisoned poisoned = true
same_state _ _ = false

-- `a is b` on holders.
abbrev pub same_holder : Option ℕ → Option ℕ → Bool
same_holder none none = true
same_holder (some a) (some b) = a == b
same_holder _ _ = false

-- The `GameAccessError`s by what they say, the `ValueError` of `commit`, and the assertion of
-- `rollback`.
pub data AccessError : Type 0 where
  is_poisoned is_transferring not_current not_transfer bad_target no_origin : AccessError

pub record GameLease : Type 0 where
  pub holder : Option ℕ
  pub state : LeaseState
  pub generation : ℕ

-- The lease fields of `GameAccess`; the game itself is in `Owned` below.
pub record GameAccess : Type 0 where
  pub state : LeaseState
  pub holder : Option ℕ
  pub generation : ℕ
  pub transfer_origin : Option (LeaseState × Option ℕ)

abbrev pub fresh : GameAccess
fresh = record { state = run; holder = none; generation = 0; transfer_origin = none }

check_current : LeaseState → GameAccess → GameLease → Result AccessError (Unit {0})
check_current poisoned a lease = err is_poisoned
check_current transferring a lease = err is_transferring
check_current _ a lease =
    if not (lease.generation == a.generation)
      || (not (same_holder lease.holder a.holder) || not (same_state lease.state a.state))
    then err not_current
    else ok tt

unfoldable pub validate_current : GameAccess → GameLease → Result AccessError (Unit {0})
unfolding check_current
validate_current a lease = check_current a.state a lease

-- `self._transfer_origin is None or transfer.holder is not self._transfer_origin[1]`
abbrev misses_origin : Option (LeaseState × Option ℕ) → Option ℕ → Bool
misses_origin none holder = true
misses_origin (some (_, origin_holder)) holder = not (same_holder holder origin_holder)

unfoldable pub validate_transfer : GameAccess → GameLease → Result AccessError (Unit {0})
validate_transfer a transfer =
    if not (same_state a.state transferring)
      || (not (same_state transfer.state transferring)
          || (not (transfer.generation == a.generation)
              || misses_origin a.transfer_origin transfer.holder))
    then err not_transfer
    else ok tt

grant : GameAccess → Option ℕ → LeaseState → GameAccess × GameLease
grant a holder state = (
  record a { state = state; holder = holder; generation = a.generation + 1 },
  record { holder = holder; state = state; generation = a.generation + 1 },
)

claim_from :
    LeaseState → GameAccess → Option ℕ → LeaseState → Result AccessError (GameAccess × GameLease)
claim_from poisoned a holder state = err is_poisoned
claim_from transferring a holder state = err is_transferring
claim_from _ a holder state = ok (grant a holder state)

unfoldable pub claim :
    GameAccess → Option ℕ → LeaseState → Result AccessError (GameAccess × GameLease)
unfolding claim_from grant
claim a holder state = claim_from a.state a holder state

unfoldable pub release : GameAccess → GameLease → Result AccessError GameAccess
unfolding validate_current
release a lease = do
  validate_current a lease
  ok (record a { holder = none; generation = a.generation + 1 })

unfoldable pub begin : GameAccess → GameLease → Result AccessError (GameAccess × GameLease)
unfolding validate_current
begin a lease = do
  validate_current a lease
  ok (
    record {
      state = transferring;
      holder = a.holder;
      generation = a.generation + 1;
      transfer_origin = some (a.state, a.holder);
    },
    record { holder = lease.holder; state = transferring; generation = a.generation + 1 },
  )

abbrev pub is_normal : LeaseState → Bool
is_normal run = true
is_normal combat = true
is_normal _ = false

unfoldable pub commit :
    GameAccess → GameLease → LeaseState → Option ℕ → Result AccessError (GameAccess × GameLease)
unfolding validate_transfer grant
commit a transfer target holder = do
  validate_transfer a transfer
  if is_normal target
      then ok (grant (record a { transfer_origin = none }) holder target)
      else err bad_target

restore : GameAccess → Option (LeaseState × Option ℕ) → Result AccessError (GameAccess × GameLease)
restore a none = err no_origin
restore a (some (state, holder)) = ok (grant (record a { transfer_origin = none }) holder state)

unfoldable pub rollback : GameAccess → GameLease → Result AccessError (GameAccess × GameLease)
unfolding validate_transfer restore grant
rollback a transfer = do validate_transfer a transfer; restore a a.transfer_origin

unfoldable pub poison : GameAccess → GameAccess
poison a = record {
  state = poisoned;
  holder = none;
  generation = a.generation + 1;
  transfer_origin = none;
}

-- The lazily built game. The factory is code outside the process: it changes the world `W`.
module _ {G W : Type 0} (game_factory : W → G × W) where
  pub record Owned : Type 0 where
    pub access : GameAccess
    pub game : Option G

  build : Owned → W → Option G → (G × Owned) × W
  build o w (some g) = ((g, o), w)
  build o w none = let (g, w') = game_factory w in ((g, record o { game = some g }), w')

  unfoldable pub observation_game : Owned → W → (G × Owned) × W
  unfolding build
  observation_game o w = build o w o.game

  unfoldable pub mutating_game : Owned → GameLease → W → Result AccessError ((G × Owned) × W)
  unfolding validate_current observation_game
  mutating_game o lease w = do validate_current o.access lease; ok (observation_game o w)

  -- The module's global `_process_game_access`; a later factory is not kept.
  unfoldable pub process_game_access : Option Owned → Owned
  process_game_access none = record { access = fresh; game = none }
  process_game_access (some o) = o
