-- ===== src/Combat/Branches/Poll/Steps.antt =====
-- The steps of a poll keep account of every branch.
use sts2_rl.Prelude.{
  if_all, ℕ, ◌+◌, ◌≡◌, ◌≢◌, refl, sym, subst, ap, ◌∙◌, String, true, Option, none, some, List, [],
  ◌∷◌, Result, ok, err, inl, inr, Option-cases, Bool-cases,
}
use sts2_rl.Prelude.Dict
use sts2_rl.Prelude.Dict.{Dict}
use sts2_rl.Prelude.Key.{str_key, nat_key}
use sts2_rl.Combat.Pool.{
  ResultStatus, success, fault, WorkItem, BranchResult, BranchError, LeaseRegistry, Pool,
  respawn_worker, respawned, submit, submitted,
}
use sts2_rl.Combat.Branches.{
  BranchState, cancelled, released, is_dropped, state_after, BranchRecord, BranchManager, finish,
  finish_item,
}
use sts2_rl.Combat.Branches.Release.Modify.{state_in, status_of}
use sts2_rl.Combat.Branches.Dispatch.{Poll, and_then}
use sts2_rl.Combat.Branches.Poll.{
  settle, finished, fault_of, time_out, forget_branch, expire_one, expire, receive_one,
}
use sts2_rl.Combat.Branches.Poll.Tracks.{ended_as, IsOver, Tracks, settled-Tracks}

-- What holds of the value and the state of a step that did not raise.
abbrev pub Holds {ℓ} :
    {A : Type 0} {M : Type ℓ} → (A → M → Type 0) → Result BranchError A × M → Type 0
Holds P (ok a, m) = P a m
Holds P (err e, m) = Unit

pub and_then-Holds {ℓ} :
    {A B : Type 0} {M : Type ℓ} (P : A → M → Type 0) (Q : B → M → Type 0)
    (o : Result BranchError A × M) (next : A → M → Result BranchError B × M)
    → Holds P o
    → ((a : A) (m : M) → P a m → Holds Q (next a m))
    → Holds Q (and_then o next)
unfolding and_then
and_then-Holds P Q (err e, m) next p q = tt
and_then-Holds P Q (ok a, m) next p q = q a m p

-- A request has the next number.
abbrev pub Numbers : Pool → Result BranchError (ℕ × Pool) → Type 0
Numbers pool (err e) = Unit
Numbers pool (ok (request_id, pool')) =
    (request_id ≡ pool'.next_request_id) × (pool'.next_request_id ≡ pool.next_request_id + 1)

submitted-Numbers : (o : Option ℕ) (pool : Pool) (w : ℕ) → Numbers pool (submitted o pool w)
unfolding submitted
submitted-Numbers none pool w = tt
submitted-Numbers (some g) pool w = (refl, refl)

pub submit-Numbers : (pool : Pool) (w : ℕ) → Numbers pool (submit pool w)
unfolding submit
submit-Numbers pool w =
    if_all (Numbers pool) pool.closed _ _ (λ c. tt)
      (λ c. submitted-Numbers (Dict.get pool.workers w) pool w)

abbrev SameNumber : Pool → Result BranchError (Pool × LeaseRegistry) → Type 0
SameNumber pool (err e) = Unit
SameNumber pool (ok (pool', leases)) = pool'.next_request_id ≡ pool.next_request_id

respawned-SameNumber :
    (o : Option ℕ) (pool : Pool) (leases : LeaseRegistry) (w : ℕ)
    → SameNumber pool (respawned o pool leases w)
unfolding respawned
respawned-SameNumber none pool leases w = tt
respawned-SameNumber (some g) pool leases w = refl

respawn_worker-SameNumber :
    (pool : Pool) (leases : LeaseRegistry) (w : ℕ) → SameNumber pool (respawn_worker pool leases w)
unfolding respawn_worker
respawn_worker-SameNumber pool leases w =
    if_all (SameNumber pool) pool.closed _ _ (λ c. tt)
      (λ c. respawned-SameNumber (Dict.get pool.workers w) pool leases w)

state_after-eq : (s : ResultStatus) → state_after s ≡ ended_as s
state_after-eq success = refl
state_after-eq fault = refl

dropped-IsOver :
    {R : Type 0} (results : Dict String (BranchResult R)) (s : BranchState) (id : String)
    → is_dropped s ≡ true
    → IsOver results (some s) id
dropped-IsOver results cancelled id h = inr (inl refl)
dropped-IsOver results released id h = inr (inr refl)
dropped-IsOver results s id h = cc h

module _ {J R : Type 0} (ids : List String) where
  abbrev pub Tracked : Poll R → BranchManager J R → Type 0
  Tracked p m = Tracks ids p m

  -- The branch of `id` has ended by the result, and nothing else has changed.
  abbrev Over : BranchManager J R → String → BranchResult R → BranchManager J R → Type 0
  Over m id result m' =
      (status_of m'.records id ≡ some (ended_as result.status))
      × ((j : String) → id ≢ j → status_of m'.records j ≡ status_of m.records j)
      × (m'.pool.next_request_id ≡ m.pool.next_request_id)

  abbrev Finishes :
      BranchManager J R → String → BranchResult R → Result BranchError (BranchManager J R) → Type 0
  Finishes m id result (err e) = Unit
  Finishes m id result (ok m') = Over m id result m'

  finish_item-Finishes :
      (o : Option (WorkItem J)) (m : BranchManager J R) (id : String) (r : BranchRecord J R)
      (result : BranchResult R)
      → Finishes m id result (finish_item o m id r result)
  unfolding finish_item status_of
  finish_item-Finishes none m id r result = tt
  finish_item-Finishes (some item) m id r result = (
    ap state_in (Dict.get-put_self m.records id _)
        ∙ ap (λ s. some s) (state_after-eq result.status),
    λ j n. ap state_in (Dict.get-put_other m.records id j _ n),
    refl,
  )

  finished-Holds :
      (o : Result BranchError (BranchManager J R)) (m m0 : BranchManager J R) (id : String)
      (result : BranchResult R) (p : Poll R)
      → Finishes m id result o
      → ((m' : BranchManager J R)
          → Over m id result m'
          → Tracked (record p { results = Dict.put p.results id result }) m')
      → Holds Tracked (finished o id result p m0)
  unfolding finished
  finished-Holds (err e) m m0 id result p f k = tt
  finished-Holds (ok m') m m0 id result p f k = record {
    accounted = (k m' f).accounted;
    numbered = (k m' f).numbered;
  }

  -- What a settled request needs, from the manager that it was settled in.
  Over-Tracks :
      (p : Poll R) (m : BranchManager J R) (r w : ℕ) (id : String) (result : BranchResult R)
      → Tracks ids p m
      → Dict.get p.running_by_request r ≡ some id
      → (m' : BranchManager J R) → Over m id result m'
      → Tracked (record (settle r w p) { results = Dict.put (settle r w p).results id result }) m'
  Over-Tracks p m r w id result t live m' (done, others, next) =
      settled-Tracks ids p m m' r w id (Dict.put (settle r w p).results id result) t live
        (inl (result, Dict.get-put_self (settle r w p).results id result, done))
        (λ j n. Dict.get-put_other (settle r w p).results id j result n) others next

  -- A branch that was dropped meanwhile is over as it is.
  dropped-Tracks :
      (p : Poll R) (m : BranchManager J R) (r w : ℕ) (id : String) (rec : BranchRecord J R)
      → Tracks ids p m
      → Dict.get p.running_by_request r ≡ some id
      → Dict.get m.records id ≡ some rec
      → is_dropped rec.state ≡ true
      → Tracked (settle r w p) m
  unfolding status_of
  dropped-Tracks p m r w id rec t live g d =
      settled-Tracks ids p m m r w id (settle r w p).results t live
        (subst (λ o. IsOver (settle r w p).results (state_in o) id) (sym g)
          (dropped-IsOver (settle r w p).results rec.state id d))
        (λ j n. refl) (λ j n. refl) refl

  finish-Holds :
      (p : Poll R) (m m1 m0 : BranchManager J R) (r w : ℕ) (id : String) (rec : BranchRecord J R)
      (result : BranchResult R)
      → Tracks ids p m
      → Dict.get p.running_by_request r ≡ some id
      → m1.records ≡ m.records
      → m1.pool.next_request_id ≡ m.pool.next_request_id
      → Holds Tracked (finished (finish m1 id rec result) id result (settle r w p) m0)
  unfolding finish status_of
  finish-Holds p m m1 m0 r w id rec result t live same next =
      finished-Holds (finish_item rec.work_item m1 id rec result) m1 m0 id result (settle r w p)
        (finish_item-Finishes rec.work_item m1 id rec result)
        (λ m' (done, others, number).
          Over-Tracks p m r w id result t live m'
            (done, λ j n. others j n ∙ ap (λ d. state_in (Dict.get d j)) same, number ∙ next))

  fault_of-Holds :
      (o : Result BranchError (Pool × LeaseRegistry)) (p : Poll R) (m m1 : BranchManager J R)
      (r w : ℕ) (id : String) (rec : BranchRecord J R)
      → SameNumber m1.pool o
      → Tracks ids p m
      → Dict.get p.running_by_request r ≡ some id
      → m1.records ≡ m.records
      → m1.pool.next_request_id ≡ m.pool.next_request_id
      → Holds Tracked (fault_of o w id rec (settle r w p) m1)
  unfolding fault_of
  fault_of-Holds (err e) p m m1 r w id rec s t live same next = tt
  fault_of-Holds (ok (pool, leases)) p m m1 r w id rec s t live same next =
      finish-Holds p m (record m1 { pool = pool; leases = leases }) _ r w id rec _ t live same
        (s ∙ next)

  time_out-Holds :
      (o : Option (WorkItem J)) (p : Poll R) (m m1 : BranchManager J R) (r w : ℕ) (id : String)
      (rec : BranchRecord J R)
      → Tracks ids p m
      → Dict.get p.running_by_request r ≡ some id
      → m1.records ≡ m.records
      → m1.pool.next_request_id ≡ m.pool.next_request_id
      → Holds Tracked (time_out o w id rec (settle r w p) m1)
  unfolding time_out
  time_out-Holds none p m m1 r w id rec t live same next = tt
  time_out-Holds (some item) p m m1 r w id rec t live same next =
      fault_of-Holds (respawn_worker m1.pool m1.leases w) p m m1 r w id rec
        (respawn_worker-SameNumber m1.pool m1.leases w) t live same next

  forgotten-Tracks :
      (p : Poll R) (m : BranchManager J R) (r : ℕ) → Tracked p m → Tracked p (forget_branch r m)
  unfolding forget_branch
  forgotten-Tracks p m r t = record { accounted = t.accounted; numbered = t.numbered }

  expire_one-Holds :
      (w r : ℕ) (id : String) (p : Poll R) (m : BranchManager J R)
      → Tracks ids p m
      → Dict.get p.running_by_request r ≡ some id
      → Holds Tracked (expire_one w r id p m)
  unfolding expire_one forget_branch
  expire_one-Holds w r id p m t live = elim (Option-cases (Dict.get m.records id)) [
    | inl e ↦ rw (e, expire_one) tt
    | inr (rec, e) ↦
        rw (e, expire_one)
          (elim (Bool-cases (is_dropped rec.state)) [
            | inl f ↦
                rw f
                  (forgotten-Tracks (settle r w p) m r (dropped-Tracks p m r w id rec t live e f))
            | inr f ↦
                rw f
                  (time_out-Holds rec.work_item p m (forget_branch r m) r w id rec t live refl refl)
          ])
  ]

  pub receive_one-Holds :
      (w r : ℕ) (id : String) (result : BranchResult R) (p : Poll R) (m : BranchManager J R)
      → Tracks ids p m
      → Dict.get p.running_by_request r ≡ some id
      → Holds Tracked (receive_one w r id result p m)
  unfolding receive_one forget_branch
  receive_one-Holds w r id result p m t live = elim (Option-cases (Dict.get m.records id)) [
    | inl e ↦ rw (e, receive_one) tt
    | inr (rec, e) ↦
        rw (e, receive_one)
          (elim (Bool-cases (is_dropped rec.state)) [
            | inl f ↦
                rw f
                  (forgotten-Tracks (settle r w p) m r (dropped-Tracks p m r w id rec t live e f))
            | inr f ↦
                rw f (finish-Holds p m (forget_branch r m) _ r w id rec result t live refl refl)
          ])
  ]

  pub expire-Holds :
      (ws : List ℕ) (p : Poll R) (m : BranchManager J R)
      → Tracks ids p m
      → Holds Tracked (expire ws p m)
  unfolding expire
  expire-Holds [] p m t = t
  expire-Holds (w ∷ ws) p m t = elim (Option-cases (Dict.get p.worker_requests w)) [
    | inl e ↦ rw (e, expire) tt
    | inr (r, e) ↦
        rw (e, expire)
          (elim (Option-cases (Dict.get p.running_by_request r)) [
            | inl f ↦ rw f tt
            | inr (id, f) ↦ rw f (
                and_then-Holds Tracked Tracked (expire_one w r id p m) _
                  (expire_one-Holds w r id p m t f) (λ p' m' t'. expire-Holds ws p' m' t'))
          ])
  ]
