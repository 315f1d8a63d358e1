-- ===== src/Combat/Branches/Cancel/Steps.antt =====
-- What cancelling one branch does to its record, whatever state it is in.
use sts2_rl.Prelude.{
  ℕ, ◌≡◌, ◌≢◌, refl, sym, String, Bool, true, false, Option, none, some, ok, err, ◌⊎◌, inl, inr,
  Result-cases, if◌then◌else◌,
}
use sts2_rl.Prelude.Dict
use sts2_rl.Prelude.Key.{str_key, nat_key}
use sts2_rl.Combat.Pool.{
  BranchError, too_many_rounds, Pool, LeaseRegistry, respawn_worker, respawned,
}
use sts2_rl.Combat.Branches.{
  BranchState, queued, running, cancelled, released, is_dropped, BranchRecord, BranchManager,
}
use sts2_rl.Combat.Branches.Cancel.{Outcome, killed, kill, discard, cancel_in, cancel_one}

if_branches : {A : Type 0} (b : Bool) (x y z : A) → (if b then x else y) ≡ z → (x ≡ z) ⊎ (y ≡ z)
if_branches true x y z h = inl h
if_branches false x y z h = inr h

respawned-refuses :
    (generation : Option ℕ) (pool : Pool) (leases : LeaseRegistry) (worker_id : ℕ) (e : BranchError)
    → respawned generation pool leases worker_id ≡ err e
    → e ≢ too_many_rounds
unfolding respawned
respawned-refuses none pool leases worker_id e h = λ k. cc (h, k)
respawned-refuses (some g) pool leases worker_id e h = cc h

pub respawn_worker-refuses :
    (pool : Pool) (leases : LeaseRegistry) (worker_id : ℕ) (e : BranchError)
    → respawn_worker pool leases worker_id ≡ err e
    → e ≢ too_many_rounds
unfolding respawn_worker
respawn_worker-refuses pool leases worker_id e h = elim (if_branches pool.closed _ _ (err e) h) [
  | inl closed ↦ λ k. cc (closed, k)
  | inr h2 ↦ respawned-refuses (Dict.get pool.workers worker_id) pool leases worker_id e h2
]

module _ {J R : Type 0} where
  -- The record of `id` becomes one that is dropped and has the same links.
  pub record Drops (m : BranchManager J R) (id : String) (r : BranchRecord J R)
      (m' : BranchManager J R) : Type 0 where
    pub last : BranchRecord J R
    pub stored : m'.records ≡ Dict.put m.records id last
    pub is_last : is_dropped last.state ≡ true
    pub same_children : last.child_branch_ids ≡ r.child_branch_ids
    pub same_parent : last.parent_branch_id ≡ r.parent_branch_id

  -- A refusal leaves the manager as it is.
  abbrev pub Cancels : BranchManager J R → String → BranchRecord J R → Outcome J R → Type 0
  Cancels m id r (err e, m') = (e ≢ too_many_rounds) × (m' ≡ m)
  Cancels m id r (ok s, m') = Drops m id r m'

  killed-Cancels :
      (m : BranchManager J R) (id : String) (r : BranchRecord J R) (w : ℕ)
      → Cancels m id r (killed m id r (respawn_worker m.pool m.leases w))
  unfolding killed
  killed-Cancels m id r w = elim (Result-cases (respawn_worker m.pool m.leases w)) [
    | inl ((pool, leases), e) ↦ rw e (record {
      last = record r { state = cancelled };
      stored = refl;
      is_last = refl;
      same_children = refl;
      same_parent = refl;
    })
    | inr (e, h) ↦ rw h (respawn_worker-refuses m.pool m.leases w e h, refl)
  ]

  kill-Cancels :
      (w : Option ℕ) (m : BranchManager J R) (id : String) (r : BranchRecord J R)
      → Cancels m id r (kill w m id r)
  unfolding kill
  kill-Cancels none m id r = (λ h. cc h, refl)
  kill-Cancels (some w) m id r = killed-Cancels m id r w

  discard-Drops :
      (m : BranchManager J R) (id : String) (r : BranchRecord J R) → Cancels m id r (discard m id r)
  unfolding discard
  discard-Drops m id r = record {
    last = record r { result = none; state = cancelled };
    stored = refl;
    is_last = refl;
    same_children = refl;
    same_parent = refl;
  }

  stays-Drops :
      (m : BranchManager J R) (id : String) (r : BranchRecord J R)
      → Dict.get m.records id ≡ some r
      → is_dropped r.state ≡ true
      → Drops m id r m
  stays-Drops m id r g d = record {
    last = r;
    stored = sym (Dict.put_same m.records id r g);
    is_last = d;
    same_children = refl;
    same_parent = refl;
  }

  cancel_in-Cancels :
      (s : BranchState) (m : BranchManager J R) (id : String) (r : BranchRecord J R)
      → Dict.get m.records id ≡ some r
      → r.state ≡ s
      → Cancels m id r (cancel_in s m id r)
  unfolding cancel_in
  cancel_in-Cancels cancelled m id r g e = stays-Drops m id r g (rw e refl)
  cancel_in-Cancels released m id r g e = stays-Drops m id r g (rw e refl)
  cancel_in-Cancels queued m id r g e = record {
    last = record r { state = cancelled };
    stored = refl;
    is_last = refl;
    same_children = refl;
    same_parent = refl;
  }
  cancel_in-Cancels running m id r g e = kill-Cancels r.worker_id m id r
  cancel_in-Cancels _ m id r g e = discard-Drops m id r

  pub cancel_one-Cancels :
      (m : BranchManager J R) (id : String) (r : BranchRecord J R)
      → Dict.get m.records id ≡ some r
      → Cancels m id r (cancel_one m id r)
  unfolding cancel_one
  cancel_one-Cancels m id r g = cancel_in-Cancels r.state m id r g refl

  from_ok :
      (m : BranchManager J R) (id : String) (r : BranchRecord J R) (o : Outcome J R)
      (s : BranchState)
      → Cancels m id r o
      → o.0 ≡ ok s
      → Drops m id r o.1
  from_ok m id r (err e, m') s c h = cc h
  from_ok m id r (ok t, m') s c h = c

  from_err :
      (m : BranchManager J R) (id : String) (r : BranchRecord J R) (o : Outcome J R)
      (e : BranchError)
      → Cancels m id r o
      → o.0 ≡ err e
      → (e ≢ too_many_rounds) × (o.1 ≡ m)
  from_err m id r (err f, m') e (c, p) h = (λ k. c (cc (h, k)), p)
  from_err m id r (ok t, m') e c h = cc h

  pub cancel_one-Drops :
      (m : BranchManager J R) (id : String) (r : BranchRecord J R) (s : BranchState)
      → Dict.get m.records id ≡ some r
      → (cancel_one m id r).0 ≡ ok s
      → Drops m id r (cancel_one m id r).1
  cancel_one-Drops m id r s g h =
      from_ok m id r (cancel_one m id r) s (cancel_one-Cancels m id r g) h

  pub cancel_one-refuses :
      (m : BranchManager J R) (id : String) (r : BranchRecord J R) (e : BranchError)
      → Dict.get m.records id ≡ some r
      → (cancel_one m id r).0 ≡ err e
      → (e ≢ too_many_rounds) × ((cancel_one m id r).1 ≡ m)
  cancel_one-refuses m id r e g h =
      from_err m id r (cancel_one m id r) e (cancel_one-Cancels m id r g) h
