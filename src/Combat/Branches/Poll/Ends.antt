-- ===== src/Combat/Branches/Poll/Ends.antt =====
-- A poll, with the quarantine after an exception, does not run out of rounds.
use sts2_rl.Prelude.{
  ℕ, ◌+◌, ◌≡◌, ◌≢◌, refl, arith, String, ◌&&◌, Option, none, some, List, [], ◌∷◌, Result, ok, err,
  inl, inr, Option-cases, Bool-cases, List-cases, Result-cases, if_all, length, leb,
}
use sts2_rl.Prelude.Dict
use sts2_rl.Prelude.Dict.{Dict}
use sts2_rl.Prelude.Key.{str_key, nat_key}
use sts2_rl.Api.Dto.{member}
use sts2_rl.Combat.Pool.{
  WorkItem, BranchResult, BranchError, too_many_rounds, respawn_worker, Pool, LeaseRegistry,
}
use sts2_rl.Combat.Branches.{
  BranchState, is_dropped, BranchRecord, BranchManager, Records, finish, finish_item,
}
use sts2_rl.Combat.Branches.Cancel.{cancel_branches}
use sts2_rl.Combat.Branches.Cancel.Steps.{respawn_worker-refuses}
use sts2_rl.Combat.Branches.Cancel.Ends.{cancel_branches-Ends}
use sts2_rl.Combat.Branches.Release.{release_branches}
use sts2_rl.Combat.Branches.Release.Ends.{release_from-Ends}
use sts2_rl.Combat.Branches.Dispatch.{Poll, Step, and_then, is_queued, dispatch_available}
use sts2_rl.Combat.Branches.Dispatch.Ends.{
  Refuses, and_then-Ends, not_too_many, dispatch_rounds-Ends,
}
use sts2_rl.Combat.Branches.Poll.{
  Event, received, timed_out, start, settle, forget_branch, finished, fault_of, time_out,
  expire_one, expire, expired, receive_one, receive, handle, ensure_running, is_empty, poll_loop,
  poll_all, check_queued, check_ids, poll_branch_ids, first_error, known_of, quarantine, guarded,
  poll, Polled,
}

module _ {J R : Type 0} where
  -- Two steps, the first of which may give anything.
  chain :
      {A B : Type 0} (o : Result BranchError A × BranchManager J R)
      (next : A → BranchManager J R → Result BranchError B × BranchManager J R)
      → Refuses o
      → ((a : A) (m : BranchManager J R) → Refuses (next a m))
      → Refuses (and_then o next)
  chain o next h k = and_then-Ends (λ a. Unit {0}) o next h (λ a m u. k a m)

  finish_item-Refuses :
      (o : Option (WorkItem J)) (m m0 : BranchManager J R) (id : String) (r : BranchRecord J R)
      (result : BranchResult R) (p : Poll R)
      → Refuses (finished (finish_item o m id r result) id result p m0)
  unfolding finish_item finished
  finish_item-Refuses none m m0 id r result p = λ h. cc h
  finish_item-Refuses (some item) m m0 id r result p = tt

  fault_of-Refuses :
      (o : Result BranchError (Pool × LeaseRegistry)) (w : ℕ) (id : String) (r : BranchRecord J R)
      (p : Poll R) (m : BranchManager J R)
      → ((e : BranchError) → o ≡ err e → e ≢ too_many_rounds)
      → Refuses (fault_of o w id r p m)
  unfolding fault_of finish
  fault_of-Refuses (err e) w id r p m h = h e refl
  fault_of-Refuses (ok (pool, leases)) w id r p m h = finish_item-Refuses r.work_item _ _ id r _ p

  time_out-Refuses :
      (o : Option (WorkItem J)) (w : ℕ) (id : String) (r : BranchRecord J R) (p : Poll R)
      (m : BranchManager J R)
      → Refuses (time_out o w id r p m)
  unfolding time_out
  time_out-Refuses none w id r p m = λ h. cc h
  time_out-Refuses (some item) w id r p m =
      fault_of-Refuses (respawn_worker m.pool m.leases w) w id r p m
        (respawn_worker-refuses m.pool m.leases w)

  expire_one-Refuses :
      (w r : ℕ) (id : String) (p : Poll R) (m : BranchManager J R) → Refuses (expire_one w r id p m)
  unfolding expire_one forget_branch
  expire_one-Refuses w r id p m = elim (Option-cases (Dict.get m.records id)) [
    | inl e ↦ rw (e, expire_one) (λ h. cc h)
    | inr (rec, e) ↦
        rw (e, expire_one)
          (elim (Bool-cases (is_dropped rec.state)) [
            | inl f ↦ rw f tt
            | inr f ↦
                rw f (time_out-Refuses rec.work_item w id rec (settle r w p) (forget_branch r m))
          ])
  ]

  receive_one-Refuses :
      (w r : ℕ) (id : String) (result : BranchResult R) (p : Poll R) (m : BranchManager J R)
      → Refuses (receive_one w r id result p m)
  unfolding receive_one forget_branch finish
  receive_one-Refuses w r id result p m = elim (Option-cases (Dict.get m.records id)) [
    | inl e ↦ rw (e, receive_one) (λ h. cc h)
    | inr (rec, e) ↦
        rw (e, receive_one)
          (elim (Bool-cases (is_dropped rec.state)) [
            | inl f ↦ rw f tt
            | inr f ↦ rw f (finish_item-Refuses rec.work_item _ _ id rec result (settle r w p))
          ])
  ]

  expire-Refuses : (ws : List ℕ) (p : Poll R) (m : BranchManager J R) → Refuses (expire ws p m)
  unfolding expire
  expire-Refuses [] p m = tt
  expire-Refuses (w ∷ ws) p m = elim (Option-cases (Dict.get p.worker_requests w)) [
    | inl e ↦ rw (e, expire) (λ h. cc h)
    | inr (r, e) ↦
        rw (e, expire)
          (elim (Option-cases (Dict.get p.running_by_request r)) [
            | inl f ↦ rw f (λ h. cc h)
            | inr (id, f) ↦ rw f (
                chain (expire_one w r id p m) _ (expire_one-Refuses w r id p m)
                  (λ p' m'. expire-Refuses ws p' m'))
          ])
  ]

module _ {J R : Type 0} (deadline : ℕ → ℕ) where
  dispatch-Refuses :
      (p : Poll R) (m : BranchManager J R) → Refuses (dispatch_available deadline p m)
  unfolding dispatch_available
  dispatch-Refuses p m = dispatch_rounds-Ends deadline (length p.waiting + 1) p m (omega arith)

  then_dispatch :
      (o : Step J R) → Refuses o → Refuses (and_then o (λ p m. dispatch_available deadline p m))
  then_dispatch o h = chain o _ h dispatch-Refuses

  receive-Refuses :
      (request_id : ℕ) (result : BranchResult R) (p : Poll R) (m : BranchManager J R)
      → Refuses (receive deadline request_id result p m)
  unfolding receive
  receive-Refuses request_id result p m =
      elim (Option-cases (Dict.get p.running_by_request request_id)) [
        | inl e ↦ rw (e, receive) tt
        | inr (id, e) ↦
            rw (e, receive)
              (elim (Option-cases (Dict.get p.request_workers request_id)) [
                | inl f ↦ rw f (λ h. cc h)
                | inr (w, f) ↦ rw f (
                    then_dispatch (receive_one w request_id id result p m)
                      (receive_one-Refuses w request_id id result p m))
              ])
      ]

  handle-Refuses :
      (event : Event R) (p : Poll R) (m : BranchManager J R) → Refuses (handle deadline event p m)
  unfolding handle
  handle-Refuses (received request_id result) p m = receive-Refuses request_id result p m
  handle-Refuses (timed_out now) p m =
      then_dispatch (expire (expired p.worker_deadlines now) p m)
        (expire-Refuses (expired p.worker_deadlines now) p m)

  ensure_running-Refuses :
      (p : Poll R) (m : BranchManager J R) → Refuses (ensure_running deadline p m)
  unfolding ensure_running
  ensure_running-Refuses p m =
      if_all Refuses (is_empty p.running_by_request) _ _
        (λ c.
          chain (dispatch_available deadline p m) _ (dispatch-Refuses p m)
            (λ p' m'. if_all Refuses (is_empty p'.running_by_request) _ _ (λ d h. cc h) (λ d. tt)))
        (λ c. tt)

  poll_loop-Refuses :
      (events : List (Event R)) (p : Poll R) (m : BranchManager J R)
      → Refuses (poll_loop deadline events p m)
  unfolding poll_loop
  poll_loop-Refuses [] p m =
      if_all Refuses (is_empty p.waiting && is_empty p.running_by_request) _ _ (λ c. tt)
        (λ c. chain (ensure_running deadline p m) _ (ensure_running-Refuses p m) (λ p' m'. tt))
  poll_loop-Refuses (event ∷ events) p m =
      elim (Bool-cases (is_empty p.waiting && is_empty p.running_by_request)) [
        | inl c ↦ rw (c, poll_loop) tt
        | inr c ↦
            rw (c, poll_loop)
              (chain (ensure_running deadline p m) _ (ensure_running-Refuses p m) (λ p' m'.
                chain (handle deadline event p' m') _ (handle-Refuses event p' m')
                  (λ p'' m''. poll_loop-Refuses events p'' m'')))
      ]

  poll_all-Refuses :
      (events : List (Event R)) (ids : List String) (m : BranchManager J R)
      → Refuses (poll_all deadline events ids m)
  unfolding poll_all
  poll_all-Refuses events ids m =
      chain (dispatch_available deadline (start ids) m) _ (dispatch-Refuses (start ids) m)
        (λ p' m'. poll_loop-Refuses events p' m')

first_error-Ends :
    (cancelling releasing : Result BranchError (Dict String BranchState)) (raised : BranchError)
    → cancelling ≢ err too_many_rounds
    → releasing ≢ err too_many_rounds
    → raised ≢ too_many_rounds
    → first_error cancelling releasing raised ≢ too_many_rounds
unfolding first_error
first_error-Ends cancelling (err e) raised c r h = λ k. r (cc k)
first_error-Ends (err e) (ok out) raised c r h = λ k. c (cc k)
first_error-Ends (ok visited) (ok out) raised c r h = h

module _ {J R : Type 0} where
  quarantine-Ends :
      (ids : List String) (raised : BranchError) (m : BranchManager J R)
      → raised ≢ too_many_rounds
      → (quarantine ids raised m).0 ≢ too_many_rounds
  unfolding quarantine release_branches
  quarantine-Ends ids raised m h = elim (List-cases (known_of m.records ids)) [
    | inl e ↦ rw (e, quarantine) h
    | inr (id, rest, e) ↦
        rw (e, quarantine)
          (first_error-Ends (cancel_branches m (id ∷ rest)).0
            (release_branches (cancel_branches m (id ∷ rest)).1 (id ∷ rest)).0 raised
            (cancel_branches-Ends m (id ∷ rest))
            (release_from-Ends [] (cancel_branches m (id ∷ rest)).1 (id ∷ rest)) h)
  ]

  guarded-Refuses : (ids : List String) (o : Polled J R) → Refuses o → Refuses (guarded ids o)
  unfolding guarded
  guarded-Refuses ids (ok answer, m) h = tt
  guarded-Refuses ids (err e, m) h = quarantine-Ends ids e m h

  check_queued-Ends :
      (id : String) (o : Option (BranchRecord J R)) → check_queued id o ≢ err too_many_rounds
  unfolding check_queued
  check_queued-Ends id none = λ h. cc h
  check_queued-Ends id (some r) =
      if_all (λ (x : Result BranchError (Unit {0})). x ≢ err too_many_rounds) (is_queued r.state) _
        _ (λ c h. cc h) (λ c h. cc h)

  check_ids-Ends :
      (records : Records J R) (visited ids : List String)
      → check_ids records visited ids ≢ err too_many_rounds
  unfolding check_ids
  check_ids-Ends records visited [] = λ h. cc h
  check_ids-Ends records visited (id ∷ ids) = elim (Bool-cases (member id visited)) [
    | inl k ↦ rw (k, check_ids) (check_ids-Ends records visited ids)
    | inr k ↦
        rw (k, check_ids)
          (elim (Result-cases (check_queued id (Dict.get records id))) [
            | inr (e, f) ↦ rw f (λ h. check_queued-Ends id (Dict.get records id) (cc (f, h)))
            | inl (u, f) ↦ rw f (elim (Result-cases (check_ids records (id ∷ visited) ids)) [
              | inr (e, g) ↦ rw g (λ h. check_ids-Ends records (id ∷ visited) ids (cc (g, h)))
              | inl (rest, g) ↦ rw g (λ h. cc h)
            ])
          ])
  ]

  admitted-Ends :
      (records : Records J R) (branch_ids : Option (List String))
      → poll_branch_ids records branch_ids ≢ err too_many_rounds
  unfolding poll_branch_ids
  admitted-Ends records none = λ h. cc h
  admitted-Ends records (some ids) = check_ids-Ends records [] ids

  -- A poll never runs out of rounds, neither in giving out its branches nor, after an exception, in
  -- cancelling and releasing them: for every list of events it returns, or raises an error of the
  -- program's own, or waits for another event.
  pub poll-Ends :
      (timeout : ℕ) (submitted_at : ℕ → ℕ) (events : List (Event R))
      (branch_ids : Option (List String)) (m : BranchManager J R)
      → (poll timeout submitted_at events branch_ids m).0 ≢ err too_many_rounds
  unfolding poll
  poll-Ends timeout submitted_at events branch_ids m =
      if_all (λ (o : Polled J R). o.0 ≢ err too_many_rounds) (leb timeout 0) _ _ (λ c h. cc h)
        (λ c. elim (Result-cases (poll_branch_ids m.records branch_ids)) [
          | inr (e, f) ↦ rw f (λ h. admitted-Ends m.records branch_ids (cc (f, h)))
          | inl (ids, f) ↦ rw f (
              not_too_many _ (
                guarded-Refuses ids _ (
                  poll_all-Refuses (λ request_id. submitted_at request_id + timeout) events ids m)))
        ])
