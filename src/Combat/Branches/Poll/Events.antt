-- ===== src/Combat/Branches/Poll/Events.antt =====
-- The giving out of branches and the events of a poll keep account of every branch.
use sts2_rl.Prelude.{
  if_all, ℕ, zero, suc, ◌+◌, ◌≤◌, refl, sym, ap, ◌∙◌, arith, String, Bool, true, false, List, [],
  ◌∷◌, Result, ok, err, inl, inr, Option-cases, Bool-cases, List-cases, length, subst,
}
use sts2_rl.Prelude.Dict
use sts2_rl.Prelude.Dict.{Dict}
use sts2_rl.Prelude.Key.{str_key, nat_key}
use sts2_rl.Combat.Pool.{
  BranchResult, BranchError, Route, LeaseRegistry, Pool, submit, route_work_item, worker_ids,
}
use sts2_rl.Combat.Branches.{BranchRecord, BranchManager}
use sts2_rl.Combat.Branches.Release.{remove_first}
use sts2_rl.Combat.Branches.Release.Modify.{state_in, status_of}
use sts2_rl.Combat.Branches.Dispatch.{
  Poll, Scan, Step, and_then, elem, free_of, is_queued, is_deferred, started, running_record, send,
  dispatch_routed, scan, dispatch_rounds, dispatch_available,
}
use sts2_rl.Combat.Branches.Dispatch.Counts.{count, Sub, head_waits, tail-Sub, removed-Sub}
use sts2_rl.Combat.Branches.Poll.{
  Event, received, timed_out, expire, expired, receive_one, receive, handle, ensure_running,
  is_empty,
}
use sts2_rl.Combat.Branches.Poll.Tracks.{is_queued_in, Tracks, sent-Tracks, skipped-Tracks}
use sts2_rl.Combat.Branches.Poll.Steps.{
  Holds, and_then-Holds, Numbers, submit-Numbers, receive_one-Holds, expire-Holds,
}

module _ {J R : Type 0} (deadline : ℕ → ℕ) (ids : List String) where
  abbrev ScanHolds : Scan J R → Type 0
  ScanHolds = Holds (λ s m. Tracks ids s.1 m)

  send-Holds :
      (o : Result BranchError (ℕ × Pool)) (id : String) (r : BranchRecord J R) (route : Route)
      (leases : LeaseRegistry) (p : Poll R) (m : BranchManager J R)
      → Numbers m.pool o
      → 1 ≤ count id p.waiting
      → Tracks ids p m
      → ScanHolds (send deadline o id r route leases p m)
  unfolding send
  send-Holds (err e) id r route leases p m n waits t = tt
  send-Holds (ok (request_id, pool)) id r route leases p m (same, next) waits t =
      let last = running_record r request_id route pool in
      let m' = record m {
        pool = pool;
        leases = leases;
        next_bootstrap_index = route.next_bootstrap_index;
        records = Dict.put m.records id last;
        branch_by_request = Dict.put m.branch_by_request request_id id;
      } in
      subst (λ q. Tracks ids (started deadline id q route.worker_id p) m') (sym same)
        (sent-Tracks ids deadline p m m' id route.worker_id last t waits refl next)

  dispatch_routed-Holds :
      (routed : Result BranchError Route × LeaseRegistry) (free : List ℕ) (id : String)
      (r : BranchRecord J R) (p : Poll R) (m : BranchManager J R)
      → 1 ≤ count id p.waiting
      → Tracks ids p m
      → ScanHolds (dispatch_routed deadline routed free id r p m)
  unfolding dispatch_routed
  dispatch_routed-Holds (err e, leases) free id r p m waits t = tt
  dispatch_routed-Holds (ok route, leases) free id r p m waits t =
      if_all ScanHolds (elem route.worker_id free) _ _
        (λ c.
          send-Holds (submit m.pool route.worker_id) id r route leases p m
            (submit-Numbers m.pool route.worker_id) waits t)
        (λ c. tt)

  scan-Holds :
      (scanned : List String) (free : List ℕ) (p : Poll R) (m : BranchManager J R)
      → Sub scanned p.waiting
      → Tracks ids p m
      → ScanHolds (scan deadline scanned free p m)
  unfolding scan status_of
  scan-Holds [] free p m sub t = t
  scan-Holds (id ∷ rest) free p m sub t = elim (Option-cases (Dict.get m.records id)) [
    | inl e ↦ rw (e, scan) tt
    | inr (r, e) ↦
        rw (e, scan)
          (elim (Bool-cases (is_queued r.state)) [
            | inr f ↦ rw f (
                scan-Holds rest free (record p { waiting = remove_first p.waiting id }) m
                  (removed-Sub id rest p.waiting sub)
                  (skipped-Tracks ids p m id t (head_waits id rest p.waiting sub)
                    (ap (λ o. is_queued_in (state_in o)) e ∙ f)))
            | inl f ↦ rw f (elim (Option-cases r.work_item) [
              | inl g ↦ rw g tt
              | inr (item, g) ↦
                  rw g (elim (Bool-cases (is_deferred item m.leases m.pool.workers free)) [
                    | inl k ↦ rw k (scan-Holds rest free p m (tail-Sub id rest p.waiting sub) t)
                    | inr k ↦ rw k (
                        dispatch_routed-Holds
                          (route_work_item item m.leases free m.pool.workers m.next_bootstrap_index)
                          free id r p m (head_waits id rest p.waiting sub) t)
                  ])
            ])
          ])
  ]

  abbrev pub StepHolds : Step J R → Type 0
  StepHolds = Holds (λ p m. Tracks ids p m)

  sent-Holds :
      (dispatched : Bool) (p : Poll R) (m : BranchManager J R) (rest : Step J R)
      → Tracks ids p m
      → StepHolds rest
      → StepHolds (elim dispatched as (λ _. Step J R) [ false ↦ (ok p, m) | true ↦ rest ])
  sent-Holds false p m rest t k = t
  sent-Holds true p m rest t k = k

  dispatch_rounds-Holds :
      (rounds : ℕ) (p : Poll R) (m : BranchManager J R)
      → Tracks ids p m
      → StepHolds (dispatch_rounds deadline rounds p m)
  unfolding dispatch_rounds
  dispatch_rounds-Holds zero p m t = tt
  dispatch_rounds-Holds (suc rounds) p m t = elim (List-cases p.waiting) [
    | inl e ↦ rw (e, dispatch_rounds) t
    | inr (id, rest, e) ↦
        rw (e, dispatch_rounds)
          (elim (List-cases (free_of p.worker_requests (worker_ids m.pool))) [
            | inl f ↦ rw f t
            | inr (w, ws, f) ↦ rw f (
                and_then-Holds (λ s m'. Tracks ids s.1 m') (λ q m'. Tracks ids q m') _ _
                  (scan-Holds p.waiting (w ∷ ws) p m (λ x. omega arith) t)
                  (λ s m' t'.
                    sent-Holds s.0 s.1 m' (dispatch_rounds deadline rounds s.1 m') t'
                      (dispatch_rounds-Holds rounds s.1 m' t')))
          ])
  ]

  pub dispatch_available-Holds :
      (p : Poll R) (m : BranchManager J R)
      → Tracks ids p m
      → StepHolds (dispatch_available deadline p m)
  unfolding dispatch_available
  dispatch_available-Holds p m t = dispatch_rounds-Holds (length p.waiting + 1) p m t

  then_dispatch :
      (o : Step J R) → StepHolds o → StepHolds (and_then o (λ p m. dispatch_available deadline p m))
  then_dispatch o h =
      and_then-Holds (λ p m. Tracks ids p m) (λ p m. Tracks ids p m) o _ h
        (λ p m t. dispatch_available-Holds p m t)

  receive-Holds :
      (request_id : ℕ) (result : BranchResult R) (p : Poll R) (m : BranchManager J R)
      → Tracks ids p m
      → StepHolds (receive deadline request_id result p m)
  unfolding receive
  receive-Holds request_id result p m t =
      elim (Option-cases (Dict.get p.running_by_request request_id)) [
        | inl e ↦ rw (e, receive) t
        | inr (id, e) ↦
            rw (e, receive)
              (elim (Option-cases (Dict.get p.request_workers request_id)) [
                | inl f ↦ rw f tt
                | inr (w, f) ↦ rw f (
                    then_dispatch (receive_one w request_id id result p m)
                      (receive_one-Holds ids w request_id id result p m t e))
              ])
      ]

  pub handle-Holds :
      (event : Event R) (p : Poll R) (m : BranchManager J R)
      → Tracks ids p m
      → StepHolds (handle deadline event p m)
  unfolding handle
  handle-Holds (received request_id result) p m t = receive-Holds request_id result p m t
  handle-Holds (timed_out now) p m t =
      then_dispatch (expire (expired p.worker_deadlines now) p m)
        (expire-Holds ids (expired p.worker_deadlines now) p m t)

  pub ensure_running-Holds :
      (p : Poll R) (m : BranchManager J R)
      → Tracks ids p m
      → StepHolds (ensure_running deadline p m)
  unfolding ensure_running
  ensure_running-Holds p m t =
      if_all StepHolds (is_empty p.running_by_request) _ _
        (λ c.
          and_then-Holds (λ p m. Tracks ids p m) (λ p m. Tracks ids p m)
            (dispatch_available deadline p m) _ (dispatch_available-Holds p m t)
            (λ p' m' t'. if_all StepHolds (is_empty p'.running_by_request) _ _ (λ d. tt) (λ d. t')))
        (λ c. t)
