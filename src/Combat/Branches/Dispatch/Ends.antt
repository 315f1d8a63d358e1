-- ===== src/Combat/Branches/Dispatch/Ends.antt =====
-- The rounds of a dispatch are enough: each takes a branch from those that wait.
use sts2_rl.Prelude.{
  if_all, ℕ, zero, suc, ◌≤◌, ◌<◌, ◌≡◌, ◌≢◌, refl, arith, String, Bool, true, false, Option, none,
  some, List, [], ◌∷◌, Result, ok, err, inl, inr, Option-cases, Bool-cases, List-cases,
  Result-cases, length,
}
use sts2_rl.Prelude.Dict
use sts2_rl.Prelude.Dict.{Dict}
use sts2_rl.Prelude.Key.{str_key, nat_key}
use sts2_rl.Combat.Pool.{
  WorkItem, Lease, LeaseRegistry, Route, Pool, BranchError, too_many_rounds, route_work_item,
  route_lease, bootstrap, after_choice, choose_bootstrap_worker, nth_worker, or_all, unleased,
  submit, submitted, worker_ids, invalidate_lease, lease_of, lease_holds,
}
use sts2_rl.Combat.Branches.{BranchRecord, BranchManager}
use sts2_rl.Combat.Branches.Release.{remove_first}
use sts2_rl.Combat.Branches.Dispatch.Counts.{
  count, Sub, head_waits, tail-Sub, removed-Sub, length-remove_first,
}
use sts2_rl.Combat.Branches.Dispatch.{
  Poll, Scan, Step, and_then, elem, free_of, is_queued, is_deferred, started, send, dispatch_routed,
  scan, dispatch_rounds,
}

-- A step that does not run out of rounds, with what holds of its value.
abbrev pub Ends {ℓ} : {A : Type 0} {M : Type ℓ} → (A → Type 0) → Result BranchError A × M → Type 0
Ends P (ok a, m) = P a
Ends P (err e, m) = e ≢ too_many_rounds

nth_worker-error :
    (ws : List ℕ) (next : ℕ) (e : BranchError) → nth_worker ws next ≡ err e → e ≢ too_many_rounds
unfolding nth_worker
nth_worker-error [] next e h = λ k. cc (h, k)
nth_worker-error (w ∷ ws) next e h = λ k. ground (arith, h, k)

-- What routing answers when it raises.
abbrev pub Refuses {ℓ} : {A : Type 0} {M : Type ℓ} → Result BranchError A × M → Type 0
Refuses o = Ends (λ a. Unit {0}) o

after_choice-Refuses :
    (leases : LeaseRegistry) (o : Result BranchError (ℕ × ℕ))
    → Ends (λ a. Unit {0}) (o, leases)
    → Refuses (after_choice leases o)
unfolding after_choice
after_choice-Refuses leases (err e) h = h
after_choice-Refuses leases (ok (w, next)) h = tt

chosen-Refuses :
    (ws : List ℕ) (leases : LeaseRegistry) (next : ℕ)
    → Ends {M = LeaseRegistry} (λ a. Unit {0}) (choose_bootstrap_worker ws leases next, leases)
unfolding choose_bootstrap_worker
chosen-Refuses ws leases next =
    elim (Result-cases (nth_worker (or_all (unleased leases ws) ws) next)) [
      | inl (w, e) ↦ rw (e, choose_bootstrap_worker) tt
      | inr (x, e) ↦
          rw (e, choose_bootstrap_worker)
            (nth_worker-error (or_all (unleased leases ws) ws) next x e)
    ]

bootstrap-Refuses :
    (leases : LeaseRegistry) (ws : List ℕ) (next : ℕ) → Refuses (bootstrap leases ws next)
unfolding bootstrap
bootstrap-Refuses leases ws next =
    after_choice-Refuses leases (choose_bootstrap_worker ws leases next)
      (chosen-Refuses ws leases next)

route_lease-Refuses :
    {J : Type 0} (item : WorkItem J) (lease : Option Lease) (leases : LeaseRegistry) (ws : List ℕ)
    (generations : Dict ℕ ℕ) (next : ℕ)
    → Refuses (route_lease item lease leases ws generations next)
unfolding route_lease
route_lease-Refuses item none leases ws generations next = bootstrap-Refuses leases ws next
route_lease-Refuses item (some lease) leases ws generations next =
    if_all Refuses (lease_holds item lease (Dict.get generations lease.worker_id)) _ _ (λ c. tt)
      (λ c. bootstrap-Refuses (invalidate_lease leases lease) ws next)

submitted-Ends :
    (o : Option ℕ) (pool : Pool) (w : ℕ) (e : BranchError)
    → submitted o pool w ≡ err e
    → e ≢ too_many_rounds
unfolding submitted
submitted-Ends none pool w e h = λ k. cc (h, k)
submitted-Ends (some g) pool w e h = cc h

submit-Ends : (pool : Pool) (w : ℕ) (e : BranchError) → submit pool w ≡ err e → e ≢ too_many_rounds
unfolding submit
submit-Ends pool w e =
    if_all (λ o. o ≡ err e → e ≢ too_many_rounds) pool.closed _ _ (λ c h k. cc (h, k))
      (λ c. submitted-Ends (Dict.get pool.workers w) pool w e)

routing-Refuses :
    {J : Type 0} (item : WorkItem J) (leases : LeaseRegistry) (ws : List ℕ) (generations : Dict ℕ ℕ)
    (next : ℕ)
    → Refuses (route_work_item item leases ws generations next)
unfolding route_work_item
routing-Refuses item leases ws generations next =
    route_lease-Refuses item (lease_of item item.work_kind leases) leases ws generations next

pub and_then-Ends {ℓ} :
    {A B : Type 0} {M : Type ℓ} (P : A → Type 0) (o : Result BranchError A × M)
    (next : A → M → Result BranchError B × M)
    → Ends P o
    → ((a : A) (m : M) → P a → Refuses (next a m))
    → Refuses (and_then o next)
unfolding and_then
and_then-Ends P (err e, m) next p q = p
and_then-Ends P (ok a, m) next p q = q a m p

pub not_too_many {ℓ} :
    {A : Type 0} {M : Type ℓ} (o : Result BranchError A × M) → Refuses o → o.0 ≢ err too_many_rounds
not_too_many (err e, m) h k = h (cc k)
not_too_many (ok a, m) h k = cc k

module _ {J R : Type 0} (deadline : ℕ → ℕ) where
  -- A scan that sends a branch leaves fewer than `n` that wait.
  abbrev ScanEnds : ℕ → Scan J R → Type 0
  ScanEnds n = Ends (λ s. s.0 ≡ true → length (s.1.waiting) < n)

  send-Ends :
      (o : Result BranchError (ℕ × Pool)) (id : String) (r : BranchRecord J R) (route : Route)
      (leases : LeaseRegistry) (p : Poll R) (m : BranchManager J R) (n : ℕ)
      → ((e : BranchError) → o ≡ err e → e ≢ too_many_rounds)
      → 1 ≤ count id p.waiting
      → length p.waiting ≤ n
      → ScanEnds n (send deadline o id r route leases p m)
  unfolding send started
  send-Ends (err e) id r route leases p m n h waits le = h e refl
  send-Ends (ok (request_id, pool)) id r route leases p m n h waits le =
      λ sent. omega (arith, length-remove_first id p.waiting waits)

  dispatch_routed-Ends :
      (routed : Result BranchError Route × LeaseRegistry) (free : List ℕ) (id : String)
      (r : BranchRecord J R) (p : Poll R) (m : BranchManager J R) (n : ℕ)
      → Refuses routed
      → 1 ≤ count id p.waiting
      → length p.waiting ≤ n
      → ScanEnds n (dispatch_routed deadline routed free id r p m)
  unfolding dispatch_routed
  dispatch_routed-Ends (err e, leases) free id r p m n h waits le = h
  dispatch_routed-Ends (ok route, leases) free id r p m n h waits le =
      if_all (ScanEnds n) (elem route.worker_id free) _ _
        (λ c.
          send-Ends (submit m.pool route.worker_id) id r route leases p m n
            (submit-Ends m.pool route.worker_id) waits le)
        (λ c k. cc k)

  scan-Ends :
      (ids : List String) (free : List ℕ) (p : Poll R) (m : BranchManager J R) (n : ℕ)
      → Sub ids p.waiting
      → length p.waiting ≤ n
      → ScanEnds n (scan deadline ids free p m)
  unfolding scan
  scan-Ends [] free p m n sub le = λ h. cc h
  scan-Ends (id ∷ ids) free p m n sub le = elim (Option-cases (Dict.get m.records id)) [
    | inl e ↦ rw (e, scan) (λ h. cc h)
    | inr (r, e) ↦
        rw (e, scan)
          (elim (Bool-cases (is_queued r.state)) [
            | inr f ↦ rw f (
                scan-Ends ids free (record p { waiting = remove_first p.waiting id }) m n
                  (removed-Sub id ids p.waiting sub)
                  (omega (
                    arith,
                    le,
                    length-remove_first id p.waiting (head_waits id ids p.waiting sub),
                  )))
            | inl f ↦ rw f (elim (Option-cases r.work_item) [
              | inl g ↦ rw g (λ h. cc h)
              | inr (item, g) ↦
                  rw g (elim (Bool-cases (is_deferred item m.leases m.pool.workers free)) [
                    | inl k ↦ rw k (scan-Ends ids free p m n (tail-Sub id ids p.waiting sub) le)
                    | inr k ↦ rw k (
                        dispatch_routed-Ends
                          (route_work_item item m.leases free m.pool.workers m.next_bootstrap_index)
                          free id r p m n
                          (routing-Refuses item m.leases free m.pool.workers m.next_bootstrap_index)
                          (head_waits id ids p.waiting sub) le)
                  ])
            ])
          ])
  ]

  sent-Ends :
      (dispatched : Bool) (p : Poll R) (m : BranchManager J R) (rest : Step J R)
      → (dispatched ≡ true → Refuses rest)
      → Refuses (elim dispatched as (λ _. Step J R) [ false ↦ (ok p, m) | true ↦ rest ])
  sent-Ends false p m rest k = tt
  sent-Ends true p m rest k = k refl

  pub dispatch_rounds-Ends :
      (rounds : ℕ) (p : Poll R) (m : BranchManager J R)
      → length p.waiting < rounds
      → Refuses (dispatch_rounds deadline rounds p m)
  unfolding dispatch_rounds
  dispatch_rounds-Ends zero p m lt = omega arith
  dispatch_rounds-Ends (suc rounds) p m lt = elim (List-cases p.waiting) [
    | inl e ↦ rw (e, dispatch_rounds) tt
    | inr (id, ids, e) ↦
        rw (e, dispatch_rounds)
          (elim (List-cases (free_of p.worker_requests (worker_ids m.pool))) [
            | inl f ↦ rw f tt
            | inr (w, ws, f) ↦ rw f (
                and_then-Ends (λ s. s.0 ≡ true → length (s.1.waiting) < rounds) _ _
                  (scan-Ends p.waiting (w ∷ ws) p m rounds (λ x. omega arith) (omega arith))
                  (λ s m' k.
                    sent-Ends s.0 s.1 m' (dispatch_rounds deadline rounds s.1 m')
                      (λ c. dispatch_rounds-Ends rounds s.1 m' (k c))))
          ])
  ]
