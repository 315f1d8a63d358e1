-- ===== src/Combat/Coordinator/Settled.antt =====
-- What a round of the retry loop does to the attempts, and which items are due for the next one.
use sts2_rl.Prelude.{
  ℕ, suc, ◌+◌, ◌≤◌, ◌≡◌, ◌⊎◌, inl, inr, refl, sym, subst, arith, String, false, Option, none, some,
  List, [], ◌∷◌, ◌++◌, Result, ok, err, str_eq, Bool-cases, Option-cases, All, All-append,
  >>=-eq-ok, raise_if-eq-ok, ok_inj,
}
use sts2_rl.Prelude.Dict
use sts2_rl.Prelude.Dict.{Dict, get-put}
use sts2_rl.Prelude.Key.{str_key}
use sts2_rl.Combat.Faults.{FaultError, WorkItemAttempt, RetryDecision, classify_fault, decide_retry}
use sts2_rl.Combat.Coordinator.{
  BranchResult, DispatchError, lift, Progress, by_work_id, settle_success, settle_retry,
  settle_fault, settle, settle_all, one_round,
}

lift-eq-ok : {A : Type 0} (r : Result FaultError A) (a : A) → lift r ≡ ok a → r ≡ ok a
lift-eq-ok (ok b) a h = cc
lift-eq-ok (err e) a h = cc

-- A retry is decided while attempts are left, and counts one more.
decide_retry-count :
    (a : WorkItemAttempt) (kind : String) (max_retries : ℕ) (d : RetryDecision)
    → decide_retry a kind max_retries ≡ ok d
    → (d.attempt_count ≡ a.attempt_count + 1)
      × ((d.should_retry ≡ false) ⊎ (a.attempt_count + 1 ≤ max_retries))
unfolding decide_retry
decide_retry-count a kind max_retries d h = ground arith

not_ok : {A : Type 0} {a : A} {e : DispatchError} → err e ≡ ok a → ⊥
not_ok h = cc

abbrev count : Option WorkItemAttempt → ℕ
count none = 0
count (some a) = a.attempt_count

put_grows :
    (m : Dict String WorkItemAttempt) (id : String) (a b : WorkItemAttempt)
    → Dict.get m id ≡ some a
    → a.attempt_count ≤ b.attempt_count
    → (j : String) → count (Dict.get m j) ≤ count (Dict.get (Dict.put m id b) j)
put_grows m id a b e le j = ground (arith, get-put m id j b)

module _ {Item W : Type 0} (work_id : Item → String)
    (dispatch : List Item → W → Result String (List BranchResult) × W) where
  -- Every entry stands under its own id.
  abbrev pub Names : Dict String Item → Type 0
  Names m = (id : String) (i : Item) → Dict.get m id ≡ some i → work_id i ≡ id

  pub Names-by_work_id :
      (m : Dict String Item) (is : List Item) → Names m → Names (by_work_id work_id dispatch m is)
  unfolding by_work_id
  Names-by_work_id m [] n = n
  Names-by_work_id m (i ∷ is) n =
      Names-by_work_id (Dict.put m (work_id i) i) is
        (λ id j e. ground (arith, n id j, get-put m (work_id i) id i))

  abbrev tries : Progress work_id dispatch → String → ℕ
  tries p id = count (Dict.get p.attempts id)

  -- Due for round `k`: so many attempts have failed, and as many retries were allowed.
  abbrev pub Due : ℕ → ℕ → Progress work_id dispatch → List Item → Type 0
  Due max_retries k p is = All (λ i. (k ≤ tries p (work_id i)) × (k ≤ max_retries)) is

  abbrev Grows : Progress work_id dispatch → Progress work_id dispatch → Type 0
  Grows p q = (id : String) → tries p id ≤ tries q id

  Due-Grows :
      (m k : ℕ) (p q : Progress work_id dispatch) (is : List Item)
      → Grows p q
      → Due m k p is
      → Due m k q is
  Due-Grows m k p q [] g d = tt
  Due-Grows m k p q (i ∷ is) g d = ground (arith, g (work_id i), Due-Grows m k p q is g d.1)

  -- What settling one result does to the attempts and to the items of the next round.
  abbrev Settled : ℕ → Item → Progress work_id dispatch → Progress work_id dispatch → Type 0
  Settled max_retries item p q =
      Grows p q
      × ((q.retry_next_round ≡ p.retry_next_round)
          ⊎ ((again : Item) × (q.retry_next_round ≡ p.retry_next_round ++ again ∷ [])
              × (work_id again ≡ work_id item)
              × (tries p (work_id item) + 1 ≤ tries q (work_id item))
              × (tries p (work_id item) + 1 ≤ max_retries)))

  settle_success-Settled :
      (max_retries : ℕ) (a : WorkItemAttempt) (item : Item) (r : BranchResult)
      (p : Progress work_id dispatch)
      → Dict.get p.attempts (work_id item) ≡ some a
      → Settled max_retries item p (settle_success work_id dispatch a item r p)
  unfolding settle_success
  settle_success-Settled max_retries a item r p e =
      (put_grows p.attempts (work_id item) a _ e (omega arith), inl refl)

  settle_retry-Settled :
      (max_retries : ℕ) (d : RetryDecision) (items : Dict String Item) (a : WorkItemAttempt)
      (item : Item) (r : BranchResult) (p q : Progress work_id dispatch)
      → Names items
      → Dict.get p.attempts (work_id item) ≡ some a
      → d.attempt_count ≡ a.attempt_count + 1
      → (d.should_retry ≡ false) ⊎ (a.attempt_count + 1 ≤ max_retries)
      → settle_retry work_id dispatch d items a item r p ≡ ok q
      → Settled max_retries item p q
  unfolding settle_retry
  settle_retry-Settled max_retries d items a item r p q names e c left h =
      let b = record a {
        attempt_count = d.attempt_count;
        state = d.next_state;
        worker_generation = d.worker_generation;
      } in
      let grows = put_grows p.attempts (work_id item) a b e (omega (arith, c)) in
      elim (Bool-cases d.should_retry) [
        | inl y ↦ elim (Option-cases (Dict.get items (work_id item))) [
          | inl f ↦ absurd (not_ok (rw (y, f) at h))
          | inr (again, f) ↦ subst (Settled max_retries item p) (ok_inj (rw (y, f) at h)) (
            grows,
            inr (
              again,
              refl,
              names (work_id item) again f,
              ground (arith, e, c, get-put p.attempts (work_id item) (work_id item) b),
              ground (arith, e, y, left),
            ),
          )
        ]
        | inr n ↦ subst (Settled max_retries item p) (ok_inj (rw n at h)) (grows, inl refl)
      ]

  settle_fault-Settled :
      (max_retries : ℕ) (items : Dict String Item) (a : WorkItemAttempt) (item : Item)
      (r : BranchResult) (p q : Progress work_id dispatch)
      → Names items
      → Dict.get p.attempts (work_id item) ≡ some a
      → settle_fault work_id dispatch max_retries items a item r p ≡ ok q
      → Settled max_retries item p q
  unfolding settle_fault
  settle_fault-Settled max_retries items a item r p q names e h =
      let (kind, f, h₁) = >>=-eq-ok (lift (classify_fault r.diagnostics)) _ h in
      let (d, g, h₂) = >>=-eq-ok (lift (decide_retry a kind max_retries)) _ h₁ in
      let (c, left) = decide_retry-count a kind max_retries d (lift-eq-ok _ d g) in
      settle_retry-Settled max_retries d items a item r p q names e c left h₂

  settle-Settled :
      (max_retries : ℕ) (items : Dict String Item) (item : Item) (r : BranchResult)
      (p q : Progress work_id dispatch)
      → Names items
      → settle work_id dispatch max_retries items item r p ≡ ok q
      → Settled max_retries item p q
  unfolding settle
  settle-Settled max_retries items item r p q names h =
      elim (Option-cases (Dict.get p.attempts (work_id item))) [
        | inl e ↦ absurd (not_ok (rw e at h))
        | inr (a, e) ↦ elim (Bool-cases (str_eq r.status "success")) [
          | inl y ↦
              subst (Settled max_retries item p) (ok_inj (rw (e, y) at h))
                (settle_success-Settled max_retries a item r p e)
          | inr n ↦
              let (_, f) = raise_if-eq-ok _ _ _ (rw (e, n) at h) in
              settle_fault-Settled max_retries items a item r p q names e f
        ]
      ]

  Due-next :
      (max_retries k : ℕ) (item : Item) (p q : Progress work_id dispatch)
      → k ≤ tries p (work_id item)
      → Settled max_retries item p q
      → Due max_retries (suc k) p p.retry_next_round
      → Due max_retries (suc k) q q.retry_next_round
  Due-next max_retries k item p q le (grows, inl same) due =
      subst (Due max_retries (suc k) q) (sym same)
        (Due-Grows max_retries (suc k) p q p.retry_next_round grows due)
  Due-next max_retries k item p q le (grows, inr (again, more, id, tried, allowed)) due =
      subst (Due max_retries (suc k) q) (sym more) (
        All-append (λ i. (suc k ≤ tries q (work_id i)) × (suc k ≤ max_retries)) p.retry_next_round
          (again ∷ []) (Due-Grows max_retries (suc k) p q p.retry_next_round grows due)
          (
            (
              subst (λ i. suc k ≤ tries q i) (sym id) (omega (arith, tried, le)),
              omega (arith, allowed, le),
            ),
            tt,
          ))

  settle_all-Due :
      (max_retries k : ℕ) (items : Dict String Item) (is : List Item) (rs : List BranchResult)
      (p q : Progress work_id dispatch)
      → Names items
      → Due max_retries k p is
      → Due max_retries (suc k) p p.retry_next_round
      → settle_all work_id dispatch max_retries items is rs p ≡ ok q
      → Due max_retries (suc k) q q.retry_next_round
  unfolding settle_all
  settle_all-Due max_retries k items [] rs p q names d due h =
      subst (λ s. Due max_retries (suc k) s s.retry_next_round) (ok_inj h) due
  settle_all-Due max_retries k items (i ∷ is) [] p q names d due h =
      subst (λ s. Due max_retries (suc k) s s.retry_next_round) (ok_inj h) due
  settle_all-Due max_retries k items (i ∷ is) (r ∷ rs) p q names d due h =
      let (p', e, h₁) = >>=-eq-ok (settle work_id dispatch max_retries items i r p) _ h in
      let settled = settle-Settled max_retries items i r p p' names e in
      settle_all-Due max_retries k items is rs p' q names
        (Due-Grows max_retries k p p' is settled.0 d.1)
        (Due-next max_retries k i p p' d.0.0 settled due) h₁

  pub one_round-Due :
      (max_retries k : ℕ) (items : Dict String Item) (is : List Item)
      (p q : Progress work_id dispatch) (rs : Result String (List BranchResult))
      → Names items
      → Due max_retries k p is
      → one_round work_id dispatch max_retries items is p rs ≡ ok q
      → Due max_retries (suc k) q q.retry_next_round
  unfolding one_round
  one_round-Due max_retries k items is p q (err e) names d h = absurd (cc h)
  one_round-Due max_retries k items is p q (ok rs) names d h =
      let (_, h₁) = raise_if-eq-ok _ _ _ h in
      settle_all-Due max_retries k items is rs (record p { retry_next_round = [] }) q names d tt h₁
