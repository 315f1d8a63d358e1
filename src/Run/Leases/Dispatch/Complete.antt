-- ===== src/Run/Leases/Dispatch/Complete.antt =====
-- Every work item gets a result unless the wait is interrupted, and the wait ends.
use sts2_rl.Prelude.{
  ℕ, ◌+◌, ◌≤◌, ◌≡◌, ◌⊎◌, inl, inr, refl, sym, ap, subst, ◌∙◌, arith, String, true, Option, none,
  some, List, [], ◌∷◌, Result, ok, err, Option-cases, Result-cases, ok_inj, All, length,
}
use sts2_rl.Prelude.Dict
use sts2_rl.Prelude.Dict.{Dict, get-put}
use sts2_rl.Prelude.Key.{str_key}
use sts2_rl.Run.Leases.{
  Slot, slot_key, LeaseRegistry, ChoiceWorkItem, RouteError, route_choice_work_item,
}
use sts2_rl.Run.Leases.Dispatch.{
  BranchResult, WorkerPool, branch_worker_slots, Event, Pending, cons_pending, submit_all,
  Collected, find, collect, finish, Dispatched, not_routed, waiting, missing_result, finished,
  finished_with, after_collect, after_submit, dispatch_choice_work_items, update_leases, WaitError,
  Wait, waits, fails, gives, raised,
}
use sts2_rl.Run.Leases.Dispatch.Answers.{
  is_some, Results, has, Answered, Distinct, collect-Answered,
}
use sts2_rl.Run.Leases.Dispatch.Interrupted.{timeouts, Cause, Fair, collect-Fair}

module _ (J : Type 0) where
  abbrev AllHave : List (ChoiceWorkItem J) → Results J → Type 0
  AllHave ws r = All (λ (w : ChoiceWorkItem J). has J r w.work_id ≡ true) ws

  finish-some :
      (ws : List (ChoiceWorkItem J)) (r : Results J) (leases : LeaseRegistry)
      → AllHave ws r
      → (rs : List (BranchResult J)) × (leases' : LeaseRegistry) × (finish J ws r leases
          ≡ some (rs, leases'))
        × (length rs ≡ length ws)
  unfolding finish
  finish-some [] r leases h = ([], leases, refl, refl)
  finish-some (w ∷ ws) r leases h = elim (Option-cases (Dict.get r w.work_id)) [
    | inl e ↦ absurd (cc (sym h.0 ∙ ap is_some e))
    | inr (b, e) ↦
        let (rs, leases', f, n) = finish-some ws r (update_leases J b w.context_id leases) h.1 in
        (b ∷ rs, leases', rw (finish, e, f) refl, omega (arith, n))
  ]

  cons_pending-ok :
      (p : Pending J) (m : Result RouteError (List (Pending J) × ℕ)) (ps : List (Pending J))
      (next : ℕ)
      → cons_pending J p m ≡ ok (ps, next)
      → (qs : List (Pending J)) × (m ≡ ok (qs, next)) × (ps ≡ p ∷ qs)
  cons_pending-ok p (err e) ps next h = absurd (cc h)
  cons_pending-ok p (ok (qs, n)) ps next h =
      let e = ok_inj h in (qs, ap (λ m. ok (qs, m)) (ap (λ x. x.1) e), sym (ap (λ x. x.0) e))

  -- The submitted requests: their ids are new and distinct, and there is one for every item.
  abbrev Submitted : List (ChoiceWorkItem J) → ℕ → List (Pending J) → Type 0
  Submitted ws request_id ps =
      Distinct J ps
      × ((id : ℕ) → id ≤ request_id → find J id ps ≡ none)
      × ((r : Results J) → Answered J ps r → AllHave ws r)

  submit_all-Submitted :
      (ws : List (ChoiceWorkItem J)) (holders : Dict String Slot) (pool : WorkerPool)
      (next request_id : ℕ) (leases : LeaseRegistry) (ps : List (Pending J)) (next' : ℕ)
      → (submit_all J ws holders pool next request_id leases).0 ≡ ok (ps, next')
      → Submitted ws request_id ps
  unfolding submit_all
  submit_all-Submitted [] holders pool next request_id leases ps next' h =
      subst (Submitted [] request_id) (ap (λ x. x.0) (ok_inj h)) (tt, λ id le. refl, λ r a. tt)
  submit_all-Submitted (w ∷ ws) holders pool next request_id leases ps next' h =
      let routed =
        route_choice_work_item w leases (branch_worker_slots pool) pool.worker_generations next
          (Dict.get holders w.work_id) in
      elim (Result-cases routed.0) [
        | inr (e, f) ↦ absurd (cc (rw (submit_all, f) at h))
        | inl (route, f) ↦
            let p : Pending J = record {
              request_id = request_id + 1;
              work_item = w;
              slot = route.slot;
              execution_mode = route.execution_mode;
            } in
            let (qs, g, same) =
              cons_pending-ok p
                (submit_all J ws holders pool route.next_bootstrap_index (request_id + 1)
                  routed.1).0
                ps next' (rw (submit_all, f) at h) in
            let (d, new, covers) =
              submit_all-Submitted ws holders pool route.next_bootstrap_index (request_id + 1)
                routed.1 qs next' g in
            subst (Submitted (w ∷ ws) request_id) (sym same) (
              (new (request_id + 1) (omega arith), d),
              λ id le. ground (arith, new id),
              λ r a. (a.0, covers r a.1),
            )
      ]

  -- A dispatch that has J collected its answers has J a result for every item: none is missing, and
  -- there are as many results as items.
  abbrev Full : List (ChoiceWorkItem J) → Dispatched J → Type 0
  Full ws (not_routed e) = Unit
  Full ws waiting = Unit
  Full ws (raised e pool leases) = Unit
  Full ws missing_result = ⊥
  Full ws (finished rs pool leases) = length rs ≡ length ws

  collected-Full :
      (ws : List (ChoiceWorkItem J)) (next : ℕ) (w : Wait (Collected J))
      → ((c : Collected J) → w ≡ gives c → AllHave ws c.results_by_work_id)
      → Full ws (after_collect J ws next w)
  unfolding after_collect finished_with
  collected-Full ws next waits h = tt
  collected-Full ws next (fails e pool leases) h = tt
  collected-Full ws next (gives c) h =
      let (rs, leases, f, n) = finish-some ws c.results_by_work_id c.leases (h c refl) in rw f n

  after_collect-Full :
      (ws : List (ChoiceWorkItem J)) (next : ℕ) (events : List (Event J)) (ps : List (Pending J))
      (c : Collected J)
      → Distinct J ps
      → ((r : Results J) → Answered J ps r → AllHave ws r)
      → Full ws (after_collect J ws next (collect J events ps c))
  after_collect-Full ws next events ps c d covers =
      collected-Full ws next (collect J events ps c)
        (λ c' e. covers c'.results_by_work_id (collect-Answered J events ps c c' d e).0)

  after_submit-Full :
      (ws : List (ChoiceWorkItem J)) (pool : WorkerPool) (events : List (Event J)) (request_id : ℕ)
      (sent : Result RouteError (List (Pending J) × ℕ) × (ℕ × LeaseRegistry))
      → ((ps : List (Pending J)) (next : ℕ) → sent.0 ≡ ok (ps, next) → Submitted ws request_id ps)
      → Full ws (after_submit J ws pool events sent)
  unfolding after_submit
  after_submit-Full ws pool events request_id (err e, rest) h = tt
  after_submit-Full ws pool events request_id (ok (ps, next), (last, leases)) h =
      let (d, new, covers) = h ps next refl in after_collect-Full ws next events ps _ d covers

  dispatch-Full :
      (ws : List (ChoiceWorkItem J)) (leases : LeaseRegistry) (pool : WorkerPool)
      (holders : Dict String Slot) (events : List (Event J))
      → Full ws (dispatch_choice_work_items J ws leases pool holders events)
  unfolding dispatch_choice_work_items
  dispatch-Full ws leases pool holders events =
      after_submit-Full ws pool events pool.next_request_id
        (submit_all J ws holders pool pool.next_bootstrap_index pool.next_request_id leases)
        (λ ps next e.
          submit_all-Submitted ws holders pool pool.next_bootstrap_index pool.next_request_id leases
            ps next e)

  -- Whether the dispatch waits or raises fits the events.
  abbrev Timely : List (Event J) → Dispatched J → Type 0
  Timely events waiting = timeouts J events ≤ 1
  Timely events (raised e pool leases) = Cause J e events
  Timely events _ = Unit

  finished_with-Timely :
      (events : List (Event J)) (next : ℕ) (pool : WorkerPool)
      (o : Option (List (BranchResult J) × LeaseRegistry))
      → Timely events (finished_with J next pool o)
  unfolding finished_with
  finished_with-Timely events next pool none = tt
  finished_with-Timely events next pool (some (rs, leases)) = tt

  after_collect-Timely :
      (ws : List (ChoiceWorkItem J)) (events : List (Event J)) (next : ℕ) (w : Wait (Collected J))
      → Fair J events w
      → Timely events (after_collect J ws next w)
  unfolding after_collect
  after_collect-Timely ws events next waits h = h
  after_collect-Timely ws events next (fails e pool leases) h = h
  after_collect-Timely ws events next (gives c) h =
      finished_with-Timely events next c.pool (finish J ws c.results_by_work_id c.leases)

  after_submit-Timely :
      (ws : List (ChoiceWorkItem J)) (pool : WorkerPool) (events : List (Event J))
      (sent : Result RouteError (List (Pending J) × ℕ) × (ℕ × LeaseRegistry))
      → Timely events (after_submit J ws pool events sent)
  unfolding after_submit
  after_submit-Timely ws pool events (err e, rest) = tt
  after_submit-Timely ws pool events (ok (ps, next), (request_id, leases)) =
      after_collect-Timely ws events next _ (collect-Fair J events ps _)

  abbrev pub Ends : List (ChoiceWorkItem J) → List (Event J) → Dispatched J → Type 0
  Ends ws events d =
      ((e : RouteError) × (d ≡ not_routed e))
      ⊎ (((d ≡ waiting) × (timeouts J events ≤ 1))
          ⊎ (((e : WaitError) × (pool : WorkerPool) × (leases : LeaseRegistry) × (d
                  ≡ raised e pool leases)
                × Cause J e events)
              ⊎ ((rs : List (BranchResult J)) × (pool : WorkerPool) × (leases : LeaseRegistry) × (d
                    ≡ finished rs pool leases)
                  × (length rs ≡ length ws))))

  Full-Ends :
      (ws : List (ChoiceWorkItem J)) (events : List (Event J)) (d : Dispatched J)
      → Timely events d
      → Full ws d
      → Ends ws events d
  Full-Ends ws events (not_routed e) t f = inl (e, refl)
  Full-Ends ws events waiting t f = inr (inl (refl, t))
  Full-Ends ws events missing_result t f = absurd f
  Full-Ends ws events (raised e pool leases) t f = inr (inr (inl (e, pool, leases, refl, t)))
  Full-Ends ws events (finished rs pool leases) t f = inr (inr (inr (rs, pool, leases, refl, f)))

  -- Whatever the result queue gives, strays of other requests included, a dispatch is refused by the
  -- routing, or returns one result for each item, or raises, or has had at most one timeout while it
  -- still waits. It raises only for a cause: a second timeout, while a hung worker is replaced; a
  -- message that is read where it does not belong, which takes a timeout or a message of a worker's
  -- start; or a new worker that does not start.
  pub dispatch_choice_work_items-Ends :
      (ws : List (ChoiceWorkItem J)) (leases : LeaseRegistry) (pool : WorkerPool)
      (holders : Dict String Slot) (events : List (Event J))
      → Ends ws events (dispatch_choice_work_items J ws leases pool holders events)
  unfolding dispatch_choice_work_items
  dispatch_choice_work_items-Ends ws leases pool holders events =
      Full-Ends ws events (dispatch_choice_work_items J ws leases pool holders events)
        (after_submit-Timely ws pool events
          (submit_all J ws holders pool pool.next_bootstrap_index pool.next_request_id leases))
        (dispatch-Full ws leases pool holders events)
