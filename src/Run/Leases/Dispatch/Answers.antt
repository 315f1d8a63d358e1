-- ===== src/Run/Leases/Dispatch/Answers.antt =====
-- What the wait for the answers collects: a result for every request, unless it is interrupted.
use sts2_rl.Prelude.{
  ℕ, ◌==◌, ◌≡◌, ◌⊎◌, inl, inr, refl, sym, ap, subst, arith, String, Bool, true, false, Option, none,
  some, List, [], ◌∷◌, Bool-cases, Option-cases, All,
}
use sts2_rl.Prelude.Dict
use sts2_rl.Prelude.Dict.{Dict, get-put}
use sts2_rl.Prelude.Key.{str_key}
use sts2_rl.Run.Leases.{Slot, slot_key}
use sts2_rl.Run.Leases.Dispatch.{
  BranchResult, Event, timed_out, answered, started, startup_fault, Pending, Collected, find,
  discard, fault_result, fault_all, hung, hang, collect, Wait, waits, fails, gives, Respawned,
}

abbrev pub is_some : {A : Type 0} → Option A → Bool
is_some none = false
is_some (some a) = true

gives_inj : {A : Type 0} {a b : A} → gives a ≡ gives b → a ≡ b
gives_inj e = cc

some_inj : {A : Type 0} {a b : A} → some a ≡ some b → a ≡ b
some_inj e = cc

module _ (J : Type 0) where
  abbrev pub Results : Type 0
  Results = Dict String (BranchResult J)

  abbrev pub has : Results → String → Bool
  has results id = is_some (Dict.get results id)

  has-put :
      (r : Results) (id other : String) (b : BranchResult J)
      → has r other ≡ true
      → has (Dict.put r id b) other ≡ true
  has-put r id other b h = ground (arith, h, get-put r id other b)

  put-has : (r : Results) (id : String) (b : BranchResult J) → has (Dict.put r id b) id ≡ true
  put-has r id b = ground (arith, get-put r id id b)

  fault_all-keeps :
      (ps : List (Pending J)) (g : Dict Slot ℕ) (r : Results) (id : String)
      → has r id ≡ true
      → has (fault_all J ps g r) id ≡ true
  unfolding fault_all
  fault_all-keeps [] g r id h = h
  fault_all-keeps (p ∷ ps) g r id h =
      fault_all-keeps ps g
        (Dict.put r p.work_item.work_id (fault_result J p (Dict.get g p.slot) "task_timeout")) id
        (has-put r p.work_item.work_id id (fault_result J p (Dict.get g p.slot) "task_timeout") h)

  abbrev pub Answered : List (Pending J) → Results → Type 0
  Answered ps r = All (λ (p : Pending J). has r p.work_item.work_id ≡ true) ps

  -- A request that is left unanswered, or has its result.
  abbrev Tracked : List (Pending J) → List (Pending J) → Results → Type 0
  Tracked ps remaining r =
      All
        (λ (p : Pending J).
          (has r p.work_item.work_id ≡ true) ⊎ (is_some (find J p.request_id remaining) ≡ true))
        ps

  fault_all-Answered :
      (ps : List (Pending J)) (g : Dict Slot ℕ) (r : Results) → Answered ps (fault_all J ps g r)
  unfolding fault_all
  fault_all-Answered [] g r = tt
  fault_all-Answered (p ∷ ps) g r =
      let b = fault_result J p (Dict.get g p.slot) "task_timeout" in
      (
        fault_all-keeps ps g (Dict.put r p.work_item.work_id b) p.work_item.work_id
            (put-has r p.work_item.work_id b),
        fault_all-Answered ps g (Dict.put r p.work_item.work_id b),
      )

  abbrev pub Distinct : List (Pending J) → Type 0
  Distinct [] = Unit
  Distinct (p ∷ ps) = (find J p.request_id ps ≡ none) × Distinct ps

  discard-none : (id : ℕ) (ps : List (Pending J)) → find J id ps ≡ none → discard J id ps ≡ ps
  unfolding discard
  discard-none id [] h = refl
  discard-none id (p ∷ ps) h = ground (arith, discard-none id ps)

  find-discard :
      (id other : ℕ) (ps : List (Pending J))
      → find J other ps ≡ none
      → find J other (discard J id ps) ≡ none
  unfolding discard
  find-discard id other [] h = refl
  find-discard id other (p ∷ ps) h = ground (arith, find-discard id other ps)

  Distinct-discard : (id : ℕ) (ps : List (Pending J)) → Distinct ps → Distinct (discard J id ps)
  unfolding discard
  Distinct-discard id [] d = tt
  Distinct-discard id (p ∷ ps) d = elim (Bool-cases (p.request_id == id)) [
    | inl y ↦ rw y (Distinct-discard id ps d.1)
    | inr n ↦ rw n (find-discard id p.request_id ps d.0, Distinct-discard id ps d.1)
  ]

  Answered-discard :
      (id : ℕ) (ps : List (Pending J)) (q : Pending J) (r : Results)
      → Distinct ps
      → find J id ps ≡ some q
      → has r q.work_item.work_id ≡ true
      → Answered (discard J id ps) r
      → Answered ps r
  unfolding discard
  Answered-discard id [] q r d f h a = tt
  Answered-discard id (p ∷ ps) q r d f h a = elim (Bool-cases (p.request_id == id)) [
    | inl y ↦
        let same : p ≡ q = some_inj (rw y at f) in
        let none_left : find J id ps ≡ none =
          subst (λ i. find J i ps ≡ none) (ground (arith, y)) d.0 in
        (
          subst (λ (x : Pending J). has r x.work_item.work_id ≡ true) (sym same) h,
          subst (λ xs. Answered xs r) (discard-none id ps none_left) (rw y at a),
        )
    | inr n ↦
        let kept : Answered (p ∷ discard J id ps) r = rw n at a in
        (kept.0, Answered-discard id ps q r d.1 (rw n at f) h kept.1)
  ]

  hung-results :
      (ps : List (Pending J)) (c c' : Collected J) (w : Wait (Respawned J))
      → hung J ps c w ≡ gives c'
      → fault_all J ps c.pool.worker_generations c.results_by_work_id ≡ c'.results_by_work_id
  unfolding hung
  hung-results ps c c' waits h = cc h
  hung-results ps c c' (fails e pool leases) h = cc h
  hung-results ps c c' (gives r) h = ap (λ (x : Collected J). x.results_by_work_id) (gives_inj h)

  pub collect-Answered :
      (events : List (Event J)) (ps : List (Pending J)) (c c' : Collected J)
      → Distinct ps
      → collect J events ps c ≡ gives c'
      → Answered ps c'.results_by_work_id
        × ((id : String) → has c.results_by_work_id id ≡ true → has c'.results_by_work_id id ≡ true)
  unfolding collect hang
  collect-Answered events [] c c' d h =
      (tt, λ id e. subst (λ (x : Collected J). has x.results_by_work_id id ≡ true) (gives_inj h) e)
  collect-Answered [] (p ∷ ps) c c' d h = absurd (cc h)
  collect-Answered (timed_out ∷ events) (p ∷ ps) c c' d h =
      let same = hung-results (p ∷ ps) c c' _ h in
      (
        subst (λ r. Answered (p ∷ ps) r) same
            (fault_all-Answered (p ∷ ps) c.pool.worker_generations c.results_by_work_id),
        λ id e.
            subst (λ r. has r id ≡ true) same
              (fault_all-keeps (p ∷ ps) c.pool.worker_generations c.results_by_work_id id e),
      )
  collect-Answered (started s ∷ events) (p ∷ ps) c c' d h = absurd (cc h)
  collect-Answered (startup_fault s ∷ events) (p ∷ ps) c c' d h = absurd (cc h)
  collect-Answered (answered request_id result ∷ events) (p ∷ ps) c c' d h =
      elim (Option-cases (find J request_id (p ∷ ps))) [
        | inl f ↦ collect-Answered events (p ∷ ps) c c' d (rw (collect, f) at h)
        | inr (q, f) ↦
            let results = Dict.put c.results_by_work_id q.work_item.work_id result in
            let (a, keeps) =
              collect-Answered events (discard J request_id (p ∷ ps))
                (record c { results_by_work_id = results }) c'
                (Distinct-discard request_id (p ∷ ps) d) (rw (collect, f) at h) in
            (
              Answered-discard request_id (p ∷ ps) q c'.results_by_work_id d f
                  (keeps q.work_item.work_id
                    (put-has c.results_by_work_id q.work_item.work_id result))
                  a,
              λ id e. keeps id (has-put c.results_by_work_id q.work_item.work_id id result e),
            )
      ]
