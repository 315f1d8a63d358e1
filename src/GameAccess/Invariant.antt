-- ===== src/GameAccess/Invariant.antt =====
-- What holds in every state of the lease machine, and the calls that lead from state to state.
use sts2_rl.Prelude.{ok, ℕ, Bool, false, ◌+◌, ◌≤◌, ◌≡◌, true, Option, none, some, arith}
use sts2_rl.GameAccess.{
  LeaseState, run, combat, transferring, poisoned, GameLease, GameAccess, fresh, is_normal, claim,
  release, begin, commit, rollback, poison,
}

-- A transfer under way has an origin, which names a normal state and the holder; no other state
-- has one.
abbrev pub Shape : LeaseState → Option (LeaseState × Option ℕ) → Option ℕ → Type 0
Shape transferring (some (state, origin_holder)) holder =
    (is_normal state ≡ true) × (origin_holder ≡ holder)
Shape run none holder = Unit
Shape combat none holder = Unit
Shape poisoned none holder = Unit
Shape _ _ holder = ⊥

abbrev pub IsValid : GameAccess → Type 0
IsValid a = Shape a.state a.transfer_origin a.holder

-- One successful call of those that move the lease; `mutating_game` and `observation_game` change
-- nothing of it. A claim is for any of the states that `allowed` admits.
pub data Step (allowed : LeaseState → Bool) (a b : GameAccess) : Type 0 where
  claims :
      (holder : Option ℕ) (state : LeaseState) (l : GameLease)
      → allowed state ≡ true
      → claim a holder state ≡ ok (b, l)
      → Step allowed a b
  releases : (l : GameLease) → release a l ≡ ok b → Step allowed a b
  begins : (l m : GameLease) → begin a l ≡ ok (b, m) → Step allowed a b
  commits :
      (l m : GameLease) (target : LeaseState) (holder : Option ℕ)
      → commit a l target holder ≡ ok (b, m)
      → Step allowed a b
  rolls_back : (l m : GameLease) → rollback a l ≡ ok (b, m) → Step allowed a b
  poisons : b ≡ poison a → Step allowed a b

pub data Reach (allowed : LeaseState → Bool) (a : GameAccess) : GameAccess → Type 0 where
  here : Reach allowed a a
  next : {b c : GameAccess} → Reach allowed a b → Step allowed b c → Reach allowed a c

-- Each call moves to the next generation.
pub Step-generation :
    (allowed : LeaseState → Bool) (a b : GameAccess)
    → Step allowed a b
    → b.generation ≡ a.generation + 1
unfolding claim release begin commit rollback poison
Step-generation allowed a b (claims holder state l n e) = ground arith
Step-generation allowed a b (releases l e) = ground arith
Step-generation allowed a b (begins l m e) = ground arith
Step-generation allowed a b (commits l m target holder e) = ground arith
Step-generation allowed a b (rolls_back l m e) = ground arith
Step-generation allowed a b (poisons e) = ground arith

-- The states that a claim may be for: all but TRANSFERRING.
unfoldable pub no_transfer : LeaseState → Bool
no_transfer transferring = false
no_transfer _ = true

pub Step-IsValid : (a b : GameAccess) → Step no_transfer a b → IsValid a → IsValid b
unfolding claim release begin commit rollback poison no_transfer
Step-IsValid a b (claims holder state l n e) v = ground arith
Step-IsValid a b (releases l e) v = ground arith
Step-IsValid a b (begins l m e) v = ground arith
Step-IsValid a b (commits l m target holder e) v = ground arith
Step-IsValid a b (rolls_back l m e) v = ground arith
Step-IsValid a b (poisons e) v = ground arith

-- In every state that claims for a state other than TRANSFERRING, releases, begins, commits,
-- rollbacks and poisonings reach (the code accepts a claim for TRANSFERRING too), a transfer under way can be completed or undone: it has
-- an origin, whose holder is the current one and whose state is RUN or COMBAT.
pub Reach-IsValid : (a : GameAccess) → Reach no_transfer fresh a → IsValid a
Reach-IsValid _ here = tt
Reach-IsValid _ (next {b} {c} r s) = Step-IsValid b c s (Reach-IsValid b r)

pub Reach-generation :
    {allowed : LeaseState → Bool} {a b : GameAccess}
    → Reach allowed a b
    → a.generation ≤ b.generation
Reach-generation here = omega arith
Reach-generation {allowed} (next {b} {c} r s) =
    omega (arith, Reach-generation r, Step-generation allowed b c s)
