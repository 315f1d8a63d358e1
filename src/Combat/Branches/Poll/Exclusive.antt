-- ===== src/Combat/Branches/Poll/Exclusive.antt =====
-- During a poll a worker has one request at a time.
use sts2_rl.Prelude.{
  if_all, subst, ℕ, ◌≡◌, sym, ◌∙◌, String, Option, none, some, List, [], ◌∷◌, Result, ok, err, inl,
  inr, Option-cases, Bool-cases, ℕ_discrete,
}
use sts2_rl.Prelude.Dict
use sts2_rl.Prelude.Dict.{Dict}
use sts2_rl.Prelude.Key.{str_key, nat_key}
use sts2_rl.Combat.Pool.{WorkItem, BranchResult, BranchError, respawn_worker, Pool, LeaseRegistry}
use sts2_rl.Combat.Branches.{is_dropped, BranchRecord, BranchManager}
use sts2_rl.Combat.Branches.Dispatch.{Poll, Step, and_then, dispatch_available}
use sts2_rl.Combat.Branches.Dispatch.Exclusive.{Ok, and_then-Ok, IsExclusive, dispatch_available-Ok}
use sts2_rl.Combat.Branches.Poll.{
  Event, received, timed_out, start, settle, finished, fault_of, time_out, forget_branch,
  expire_one, expire, expired, receive_one, receive, handle, ensure_running, is_empty,
}

settle-IsExclusive :
    {R : Type 0} (request_id worker_id : ℕ) (p : Poll R)
    → IsExclusive p
    → Dict.get p.worker_requests worker_id ≡ some request_id
    → IsExclusive (settle request_id worker_id p)
unfolding settle
settle-IsExclusive request_id worker_id p inv busy r w h = elim (ℕ_discrete request_id r) [
  | yes e ↦ cc (h, e, Dict.get-remove_self p.request_workers request_id)
  | no n ↦
      let live = inv r w (sym (Dict.get-remove_other p.request_workers request_id r n) ∙ h) in
      Dict.get-remove_other p.worker_requests worker_id w (λ e. n (cc (busy, e, live))) ∙ live
]

module _ {J R : Type 0} where
  finished-Ok :
      (o : Result BranchError (BranchManager J R)) (id : String) (result : BranchResult R)
      (p : Poll R) (m : BranchManager J R)
      → IsExclusive p
      → Ok IsExclusive (finished o id result p m)
  unfolding finished
  finished-Ok (err e) id result p m inv = tt
  finished-Ok (ok m') id result p m inv = inv

  fault_of-Ok :
      (o : Result BranchError (Pool × LeaseRegistry)) (w : ℕ) (id : String) (r : BranchRecord J R)
      (p : Poll R) (m : BranchManager J R)
      → IsExclusive p
      → Ok IsExclusive (fault_of o w id r p m)
  unfolding fault_of
  fault_of-Ok (err e) w id r p m inv = tt
  fault_of-Ok (ok (pool, leases)) w id r p m inv = finished-Ok _ id _ p _ inv

  time_out-Ok :
      (o : Option (WorkItem J)) (w : ℕ) (id : String) (r : BranchRecord J R) (p : Poll R)
      (m : BranchManager J R)
      → IsExclusive p
      → Ok IsExclusive (time_out o w id r p m)
  unfolding time_out
  time_out-Ok none w id r p m inv = tt
  time_out-Ok (some item) w id r p m inv =
      fault_of-Ok (respawn_worker m.pool m.leases w) w id r p m inv

  expire_one-Ok :
      (w request_id : ℕ) (id : String) (p : Poll R) (m : BranchManager J R)
      → IsExclusive (settle request_id w p)
      → Ok IsExclusive (expire_one w request_id id p m)
  unfolding expire_one forget_branch
  expire_one-Ok w request_id id p m inv = elim (Option-cases (Dict.get m.records id)) [
    | inl e ↦ rw (e, expire_one) tt
    | inr (r, e) ↦
        rw (e, expire_one)
          (elim (Bool-cases (is_dropped r.state)) [
            | inl f ↦ rw f inv
            | inr f ↦ rw f (
                time_out-Ok r.work_item w id r (settle request_id w p) (forget_branch request_id m)
                  inv)
          ])
  ]

  receive_one-Ok :
      (w request_id : ℕ) (id : String) (result : BranchResult R) (p : Poll R)
      (m : BranchManager J R)
      → IsExclusive (settle request_id w p)
      → Ok IsExclusive (receive_one w request_id id result p m)
  unfolding receive_one forget_branch
  receive_one-Ok w request_id id result p m inv = elim (Option-cases (Dict.get m.records id)) [
    | inl e ↦ rw (e, receive_one) tt
    | inr (r, e) ↦
        rw (e, receive_one)
          (elim (Bool-cases (is_dropped r.state)) [
            | inl f ↦ rw f inv
            | inr f ↦ rw f (finished-Ok _ id result (settle request_id w p) _ inv)
          ])
  ]

  expire-Ok :
      (ws : List ℕ) (p : Poll R) (m : BranchManager J R)
      → IsExclusive p
      → Ok IsExclusive (expire ws p m)
  unfolding expire
  expire-Ok [] p m inv = inv
  expire-Ok (w ∷ ws) p m inv = elim (Option-cases (Dict.get p.worker_requests w)) [
    | inl e ↦ rw (e, expire) tt
    | inr (request_id, e) ↦
        rw (e, expire)
          (elim (Option-cases (Dict.get p.running_by_request request_id)) [
            | inl f ↦ rw f tt
            | inr (id, f) ↦ rw f (
                and_then-Ok IsExclusive IsExclusive (expire_one w request_id id p m) _
                  (expire_one-Ok w request_id id p m (settle-IsExclusive request_id w p inv e))
                  (λ p' m' inv'. expire-Ok ws p' m' inv'))
          ])
  ]

module _ {J R : Type 0} (deadline : ℕ → ℕ) where
  then_dispatch :
      (o : Step J R)
      → Ok IsExclusive o
      → Ok IsExclusive (and_then o (λ p m. dispatch_available deadline p m))
  then_dispatch o inv =
      and_then-Ok IsExclusive IsExclusive o _ inv
        (λ p m inv'. dispatch_available-Ok deadline p m inv')

  receive-Ok :
      (request_id : ℕ) (result : BranchResult R) (p : Poll R) (m : BranchManager J R)
      → IsExclusive p
      → Ok IsExclusive (receive deadline request_id result p m)
  unfolding receive
  receive-Ok request_id result p m inv =
      elim (Option-cases (Dict.get p.running_by_request request_id)) [
        | inl e ↦ rw (e, receive) inv
        | inr (id, e) ↦
            rw (e, receive)
              (elim (Option-cases (Dict.get p.request_workers request_id)) [
                | inl f ↦ rw f tt
                | inr (w, f) ↦ rw f (
                    then_dispatch (receive_one w request_id id result p m) (
                      receive_one-Ok w request_id id result p m
                        (settle-IsExclusive request_id w p inv (inv request_id w f))))
              ])
      ]

  handle-Ok :
      (event : Event R) (p : Poll R) (m : BranchManager J R)
      → IsExclusive p
      → Ok IsExclusive (handle deadline event p m)
  unfolding handle
  handle-Ok (received request_id result) p m inv = receive-Ok request_id result p m inv
  handle-Ok (timed_out now) p m inv =
      then_dispatch (expire (expired p.worker_deadlines now) p m)
        (expire-Ok (expired p.worker_deadlines now) p m inv)

  ensure_running-Ok :
      (p : Poll R) (m : BranchManager J R)
      → IsExclusive p
      → Ok IsExclusive (ensure_running deadline p m)
  unfolding ensure_running
  ensure_running-Ok p m inv =
      if_all (Ok IsExclusive) (is_empty p.running_by_request) _ _
        (λ c.
          and_then-Ok IsExclusive IsExclusive (dispatch_available deadline p m) _
            (dispatch_available-Ok deadline p m inv)
            (λ p' m' inv'.
              if_all (Ok IsExclusive) (is_empty p'.running_by_request) _ _ (λ d. tt) (λ d. inv')))
        (λ c. inv)

  -- The tables and the manager between the rounds of a poll, after any events.
  pub data Polling (ids : List String) (m : BranchManager J R)
      : Poll R → BranchManager J R → Type 0 where
    begun :
        {p : Poll R} {n : BranchManager J R}
        → dispatch_available deadline (start ids) m ≡ (ok p, n)
        → Polling ids m p n
    kept_busy :
        {p q : Poll R} {n o : BranchManager J R}
        → Polling ids m p n
        → ensure_running deadline p n ≡ (ok q, o)
        → Polling ids m q o
    handled :
        {p q : Poll R} {n o : BranchManager J R} (event : Event R)
        → Polling ids m p n
        → handle deadline event p n ≡ (ok q, o)
        → Polling ids m q o

  from_Ok :
      (o : Step J R) (p : Poll R) (m : BranchManager J R)
      → o ≡ (ok p, m)
      → Ok IsExclusive o
      → IsExclusive p
  from_Ok o p m h k = subst (Ok IsExclusive) h k

  Polling-IsExclusive :
      (ids : List String) (m : BranchManager J R) (p : Poll R) (n : BranchManager J R)
      → Polling ids m p n
      → IsExclusive p
  unfolding Dict.get
  Polling-IsExclusive ids m p n (begun h) =
      from_Ok (dispatch_available deadline (start ids) m) p n h
        (dispatch_available-Ok deadline (start ids) m (λ r w k. cc k))
  Polling-IsExclusive ids m q o (kept_busy {p = p} {n = n} before h) =
      from_Ok (ensure_running deadline p n) q o h
        (ensure_running-Ok p n (Polling-IsExclusive ids m p n before))
  Polling-IsExclusive ids m q o (handled {p = p} {n = n} event before h) =
      from_Ok (handle deadline event p n) q o h
        (handle-Ok event p n (Polling-IsExclusive ids m p n before))

  -- At no time of a poll, after any results and timeouts and in any order, do two live requests have
  -- the same worker, and the worker of a live request is marked as busy with that request.
  pub one_request_per_worker :
      (ids : List String) (m : BranchManager J R) (p : Poll R) (n : BranchManager J R) (r s w : ℕ)
      → Polling ids m p n
      → Dict.get p.request_workers r ≡ some w
      → Dict.get p.request_workers s ≡ some w
      → (r ≡ s) × (Dict.get p.worker_requests w ≡ some r)
  one_request_per_worker ids m p n r s w polling h k =
      let inv = Polling-IsExclusive ids m p n polling in (cc (inv r w h, inv s w k), inv r w h)
