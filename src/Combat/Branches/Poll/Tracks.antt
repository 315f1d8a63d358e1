-- ===== src/Combat/Branches/Poll/Tracks.antt =====
-- What becomes of each branch of a poll, by the tables of the poll.
use sts2_rl.Prelude.{
  ℕ, ◌+◌, ◌≤◌, ◌≡◌, ◌≢◌, ◌⊎◌, refl, subst, sym, ap, ◌∙◌, arith, String, Bool, true, false, Option,
  none, some, List, inl, inr, Bool-cases, ℕ_discrete, str_eq, eq_iff,
}
use sts2_rl.Prelude.Dict
use sts2_rl.Prelude.Dict.{Dict}
use sts2_rl.Prelude.Key.{str_key, nat_key, str_discrete}
use sts2_rl.Api.Dto.{member}
use sts2_rl.Combat.Pool.{ResultStatus, success, fault, BranchResult}
use sts2_rl.Combat.Branches.{
  BranchState, completed, cancelled, faulted, released, BranchRecord, BranchManager,
}
use sts2_rl.Combat.Branches.Release.{remove_first}
use sts2_rl.Combat.Branches.Release.Modify.{state_in, status_of}
use sts2_rl.Combat.Branches.Dispatch.{Poll, started, is_queued}
use sts2_rl.Combat.Branches.Dispatch.Counts.{one_if, count, count-remove_first}
use sts2_rl.Combat.Branches.Poll.{settle}

abbrev pub is_queued_in : Option BranchState → Bool
is_queued_in none = false
is_queued_in (some s) = is_queued s

-- The state in which a branch ends by a result.
abbrev pub ended_as : ResultStatus → BranchState
ended_as success = completed
ended_as fault = faulted

-- A branch that is over: by its result, which is among the results, or dropped.
abbrev pub IsOver :
    {R : Type 0} → Dict String (BranchResult R) → Option BranchState → String → Type 0
IsOver {R} results state id =
    ((result : BranchResult R) × (Dict.get results id ≡ some result)
      × (state ≡ some (ended_as result.status)))
    ⊎ ((state ≡ some cancelled) ⊎ (state ≡ some released))

IsOver-moved :
    {R : Type 0} (results results' : Dict String (BranchResult R)) (s s' : Option BranchState)
    (id : String)
    → Dict.get results' id ≡ Dict.get results id
    → s' ≡ s
    → IsOver results s id
    → IsOver results' s' id
IsOver-moved results results' s s' id kept same (inl (result, g, h)) =
    inl (result, kept ∙ g, same ∙ h)
IsOver-moved results results' s s' id kept same (inr (inl h)) = inr (inl (same ∙ h))
IsOver-moved results results' s s' id kept same (inr (inr h)) = inr (inr (same ∙ h))

str_ne : (s t : String) → s ≢ t → str_eq s t ≡ false
str_ne s t n = elim (Bool-cases (str_eq s t)) [ inl e ↦ absurd (n ((eq_iff s t).0 e)) | inr e ↦ e ]

count-other :
    (id j : String) (waiting : List String)
    → 1 ≤ count id waiting
    → id ≢ j
    → count j (remove_first waiting id) ≡ count j waiting
count-other id j waiting h n =
    omega (arith, count-remove_first id j waiting h, ap one_if (str_ne id j n))

module _ {J R : Type 0} where
  -- A branch waits, or it runs for a live request, or it is over.
  abbrev pub Accounted : Poll R → BranchManager J R → String → Type 0
  Accounted p m id =
      ((1 ≤ count id p.waiting) × (is_queued_in (status_of m.records id) ≡ true))
      ⊎ (((r : ℕ) × (Dict.get p.running_by_request r ≡ some id))
          ⊎ IsOver p.results (status_of m.records id) id)

  pub record Tracks (ids : List String) (p : Poll R) (m : BranchManager J R) : Type 0 where
    pub accounted : (id : String) → member id ids ≡ true → Accounted p m id
    pub numbered :
        (r : ℕ) (id : String)
        → Dict.get p.running_by_request r ≡ some id
        → r ≤ m.pool.next_request_id

  status-put_other :
      (m m' : BranchManager J R) (id j : String) (last : BranchRecord J R)
      → m'.records ≡ Dict.put m.records id last
      → id ≢ j
      → status_of m'.records j ≡ status_of m.records j
  unfolding status_of
  status-put_other m m' id j last stored n =
      rw stored (ap state_in (Dict.get-put_other m.records id j last n))

  -- A branch was sent: its record runs, and its request has a new number.
  pub sent-Tracks :
      (ids : List String) (deadline : ℕ → ℕ) (p : Poll R) (m m' : BranchManager J R) (id : String)
      (w : ℕ) (last : BranchRecord J R)
      → Tracks ids p m
      → 1 ≤ count id p.waiting
      → m'.records ≡ Dict.put m.records id last
      → m'.pool.next_request_id ≡ m.pool.next_request_id + 1
      → Tracks ids (started deadline id m'.pool.next_request_id w p) m'
  unfolding started
  sent-Tracks ids deadline p m m' id w last t waits stored next = record {
    accounted = λ j k. elim (str_discrete id j) [
      | yes e ↦ inr (
          inl (
            m'.pool.next_request_id,
            Dict.get-put_self p.running_by_request m'.pool.next_request_id id ∙ ap (λ x. some x) e,
          ))
      | no n ↦
          let same = status-put_other m m' id j last stored n in
          elim (t.accounted j k) [
            | inl (h, q) ↦
                inl (omega (arith, h, count-other id j p.waiting waits n), ap is_queued_in same ∙ q)
            | inr (inl (r, g)) ↦ inr (
                inl (
                  r,
                  Dict.get-put_other p.running_by_request m'.pool.next_request_id r id
                        (λ e. omega (arith, e, next, t.numbered r j g))
                      ∙ g,
                ))
            | inr (inr a) ↦ inr (inr (IsOver-moved p.results p.results _ _ j refl same a))
          ]
    ];
    numbered = λ r j h. elim (ℕ_discrete m'.pool.next_request_id r) [
      | yes e ↦ omega (arith, e)
      | no n ↦ omega (
        arith,
        next,
        t.numbered r j
            (sym (Dict.get-put_other p.running_by_request m'.pool.next_request_id r id n) ∙ h),
      )
    ];
  }

  -- A branch that does not wait any more is passed over.
  pub skipped-Tracks :
      (ids : List String) (p : Poll R) (m : BranchManager J R) (id : String)
      → Tracks ids p m
      → 1 ≤ count id p.waiting
      → is_queued_in (status_of m.records id) ≡ false
      → Tracks ids (record p { waiting = remove_first p.waiting id }) m
  skipped-Tracks ids p m id t waits passed = record {
    accounted = λ j k. elim (str_discrete id j) [
      | yes e ↦ elim (t.accounted j k) [
        | inl (h, q) ↦ cc (q, passed, ap (λ x. is_queued_in (status_of m.records x)) e)
        | inr other ↦ inr other
      ]
      | no n ↦ elim (t.accounted j k) [
        | inl (h, q) ↦ inl (omega (arith, h, count-other id j p.waiting waits n), q)
        | inr other ↦ inr other
      ]
    ];
    numbered = t.numbered;
  }

  -- A request was settled, after which its branch is over.
  pub settled-Tracks :
      (ids : List String) (p : Poll R) (m m' : BranchManager J R) (r w : ℕ) (id : String)
      (results : Dict String (BranchResult R))
      → Tracks ids p m
      → Dict.get p.running_by_request r ≡ some id
      → IsOver results (status_of m'.records id) id
      → ((j : String) → id ≢ j → Dict.get results j ≡ Dict.get (settle r w p).results j)
      → ((j : String) → id ≢ j → status_of m'.records j ≡ status_of m.records j)
      → m'.pool.next_request_id ≡ m.pool.next_request_id
      → Tracks ids (record (settle r w p) { results = results }) m'
  unfolding settle
  settled-Tracks ids p m m' r w id results t live done kept others next = record {
    accounted = λ j k. elim (str_discrete id j) [
      | yes e ↦ inr (inr (subst (λ x. IsOver results (status_of m'.records x) x) e done))
      | no n ↦ elim (t.accounted j k) [
        | inl (h, q) ↦ inl (h, ap is_queued_in (others j n) ∙ q)
        | inr (inl (s, g)) ↦
            inr (
              inl
                (s, Dict.get-remove_other p.running_by_request r s (λ e. n (cc (live, g, e))) ∙ g))
        | inr (inr a) ↦ inr (inr (IsOver-moved p.results results _ _ j (kept j n) (others j n) a))
      ]
    ];
    numbered = λ s j h. elim (ℕ_discrete r s) [
      | yes e ↦ cc (h, e, Dict.get-remove_self p.running_by_request r)
      | no n ↦
          omega (
            arith,
            next,
            t.numbered s j (sym (Dict.get-remove_other p.running_by_request r s n) ∙ h),
          )
    ];
  }
