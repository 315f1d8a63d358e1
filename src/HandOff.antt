-- ===== src/HandOff.antt =====
-- The hand-off of the game from a whole run to a combat and back: the leases of `WholeRunSession`
-- (Run/whole_run_session.py) and `LiveCombatSession` (Combat/live_combat_session.py); the two
-- phases' changes are in HandOff/Phases.
pub mod Phases
mod Examples
use sts2_rl.Prelude.{
  ℕ, String, Bool, true, false, ◌||◌, not, Option, none, some, List, Result, ok, err, ◌>>=◌, ◌>>◌,
  raise_if, if◌then◌else◌,
}
use sts2_rl.Api.Dto.{root_branch_id}
use sts2_rl.Api.Identifiers.Decisions.{DecisionPointRegistry, issue, current_id, restore_current}
use sts2_rl.GameAccess.{
  LeaseState, run, combat, same_state, same_holder, AccessError, GameLease, GameAccess,
  validate_current, claim, release, begin, commit, rollback, poison,
}

-- A session's opaque holder and its lease, if it has one.
pub record Session : Type 0 where
  pub lease_holder : ℕ
  pub lease : Option GameLease

pub data HandOffError : Type 0 where
  access_error : AccessError → HandOffError
  wrong_lease no_lease faulted_instance phase_is_active no_active_phase : HandOffError
  adopt_error leave_error : String → HandOffError

abbrev pub access : {A : Type 0} → Result AccessError A → Result HandOffError A
access (ok a) = ok a
access (err e) = err (access_error e)

-- The lease that the session has, or a newly claimed one for the state.
held_lease :
    LeaseState
    → Session
    → Option GameLease
    → GameAccess
    → Result HandOffError (GameAccess × GameLease)
held_lease state s (some lease) a = ok (a, lease)
held_lease state s none a = access (claim a (some s.lease_holder) state)

-- `_mutating_game`: the session and the access afterwards.
unfoldable pub mutating :
    LeaseState → Session → GameAccess → Result HandOffError (Session × GameAccess)
unfolding held_lease
mutating state s a = held_lease state s s.lease a >>= λ held.
    access (validate_current held.0 held.1) >> ok (record s { lease = some held.1 }, held.0)

-- `WholeRunSession.begin_lease_transfer`
unfoldable pub begin_run_transfer :
    Session → GameAccess → Result HandOffError (GameLease × (Session × GameAccess))
unfolding held_lease
begin_run_transfer s a = held_lease run s s.lease a >>= λ held.
    access (begin held.0 held.1) >>= λ begun. ok (begun.1, (record s { lease = none }, begun.0))

-- `LiveCombatSession.begin_lease_transfer`
begin_held :
    Session
    → Option GameLease
    → GameAccess
    → Result HandOffError (GameLease × (Session × GameAccess))
begin_held s none a = err no_lease
begin_held s (some lease) a =
    access (begin a lease) >>= λ begun. ok (begun.1, (record s { lease = none }, begun.0))

unfoldable pub begin_combat_transfer :
    Session → GameAccess → Result HandOffError (GameLease × (Session × GameAccess))
unfolding begin_held
begin_combat_transfer s a = begin_held s s.lease a

-- `lease.state is not … or lease.holder is not self._lease_holder`
abbrev pub is_foreign : LeaseState → Session → GameLease → Bool
is_foreign state s lease =
    not (same_state lease.state state) || not (same_holder lease.holder (some s.lease_holder))

-- `accept_transferred_lease`, for the state that the session works in.
unfoldable pub accept_transferred_lease :
    LeaseState → Session → GameLease → GameAccess → Result HandOffError Session
accept_transferred_lease state s lease a = do
  raise_if (is_foreign state s lease) wrong_lease
  access (validate_current a lease)
  ok (record s { lease = some lease })

unfoldable pub rollback_lease_transfer :
    Session → GameLease → GameAccess → Result HandOffError (Session × GameAccess)
rollback_lease_transfer s transfer a = access (rollback a transfer) >>= λ back.
    raise_if (is_foreign run s back.1) wrong_lease >> ok (record s { lease = some back.1 }, back.0)

released : GameAccess → Result AccessError GameAccess → GameAccess
released a (ok a') = a'
released a (err e) = a

closed : Session → Option GameLease → GameAccess → Session × GameAccess
unfolding released
closed s none a = (s, a)
closed s (some lease) a = (record s { lease = none }, released a (release a lease))

-- `close`: a lease that is stale is left to its new owner.
unfoldable pub close : Session → GameAccess → Session × GameAccess
unfolding closed
close s a = closed s s.lease a
