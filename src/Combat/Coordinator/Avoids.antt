-- ===== src/Combat/Coordinator/Avoids.antt =====
-- Of the errors of the retry loop, only the loop itself raises the one for meeting its cap.
use sts2_rl.Prelude.{
  ℕ, ◌≢◌, inl, inr, String, Bool, true, false, not, Option, none, some, List, [], ◌∷◌, Result, ok,
  err, ◌>>=◌, raise_if, or_raise, str_eq, ◌==◌, length, Bool-cases,
}
use sts2_rl.Prelude.Dict
use sts2_rl.Prelude.Dict.{Dict, get-put}
use sts2_rl.Prelude.Key.{str_key}
use sts2_rl.Combat.Faults.{FaultError, WorkItemAttempt, RetryDecision, classify_fault, decide_retry}
use sts2_rl.Combat.Coordinator.{
  BranchResult, DispatchError, round_cap, result_count, unknown_status, missing_key, lift, Progress,
  settle_retry, settle_fault, settle, settle_all, one_round, outcome, outcomes,
}

abbrev pub Avoids : {A : Type 0} → Result DispatchError A → Type 0
Avoids r = r ≢ err round_cap

pub bind-Avoids :
    {A B : Type 0} (m : Result DispatchError A) (f : A → Result DispatchError B)
    → Avoids m
    → ((a : A) → Avoids (f a))
    → Avoids (m >>= f)
bind-Avoids (ok a) f hm hf = hf a
bind-Avoids (err e) f hm hf = λ h. hm (cc h)

missing : {A : Type 0} (o : Option A) → Avoids (or_raise o missing_key)
missing none = λ h. cc h
missing (some a) = λ h. cc h

raise_if-Avoids : (b : Bool) (e : DispatchError) → e ≢ round_cap → Avoids (raise_if b e)
raise_if-Avoids true e ne = λ h. ne (cc h)
raise_if-Avoids false e ne = λ h. cc h

lift-Avoids : {A : Type 0} (r : Result FaultError A) → Avoids (lift r)
lift-Avoids (ok a) = λ h. cc h
lift-Avoids (err e) = λ h. cc h

module _ {Item W : Type 0} (work_id : Item → String)
    (dispatch : List Item → W → Result String (List BranchResult) × W) where
  settle_retry-Avoids :
      (d : RetryDecision) (items : Dict String Item) (a : WorkItemAttempt) (i : Item)
      (r : BranchResult) (p : Progress work_id dispatch)
      → Avoids (settle_retry work_id dispatch d items a i r p)
  unfolding settle_retry
  settle_retry-Avoids d items a i r p = elim (Bool-cases d.should_retry) [
    | inl y ↦ rw y (
        bind-Avoids (or_raise (Dict.get items (work_id i)) missing_key) _ (missing _) (λ j h. cc h))
    | inr n ↦ rw n (λ h. cc h)
  ]

  settle-Avoids :
      (max_retries : ℕ) (items : Dict String Item) (i : Item) (r : BranchResult)
      (p : Progress work_id dispatch)
      → Avoids (settle work_id dispatch max_retries items i r p)
  unfolding settle settle_fault
  settle-Avoids max_retries items i r p =
      bind-Avoids (or_raise (Dict.get p.attempts (work_id i)) missing_key) _ (missing _) (λ a.
        elim (Bool-cases (str_eq r.status "success")) [
          | inl y ↦ rw y (λ h. cc h)
          | inr n ↦ rw n (
              bind-Avoids (raise_if (not (str_eq r.status "fault")) unknown_status) _
                (raise_if-Avoids _ unknown_status (λ h. cc h))
                (λ _. bind-Avoids (lift (classify_fault r.diagnostics)) _ (lift-Avoids _) (λ kind.
                  bind-Avoids (lift (decide_retry a kind max_retries)) _ (lift-Avoids _)
                    (λ d. settle_retry-Avoids d items a i r p))))
        ])

  settle_all-Avoids :
      (max_retries : ℕ) (items : Dict String Item) (is : List Item) (rs : List BranchResult)
      (p : Progress work_id dispatch)
      → Avoids (settle_all work_id dispatch max_retries items is rs p)
  unfolding settle_all
  settle_all-Avoids max_retries items [] rs p = λ h. cc h
  settle_all-Avoids max_retries items (i ∷ is) [] p = λ h. cc h
  settle_all-Avoids max_retries items (i ∷ is) (r ∷ rs) p =
      bind-Avoids (settle work_id dispatch max_retries items i r p) _
        (settle-Avoids max_retries items i r p) (λ q. settle_all-Avoids max_retries items is rs q)

  pub one_round-Avoids :
      (max_retries : ℕ) (items : Dict String Item) (is : List Item) (p : Progress work_id dispatch)
      (rs : Result String (List BranchResult))
      → Avoids (one_round work_id dispatch max_retries items is p rs)
  unfolding one_round
  one_round-Avoids max_retries items is p (err e) = λ h. cc h
  one_round-Avoids max_retries items is p (ok rs) =
      bind-Avoids (raise_if (not (length rs == length is)) result_count) _
        (raise_if-Avoids _ result_count (λ h. cc h))
        (λ _. settle_all-Avoids max_retries items is rs _)

  pub outcomes-Avoids :
      (p : Progress work_id dispatch) (is : List Item) → Avoids (outcomes work_id dispatch p is)
  unfolding outcomes outcome
  outcomes-Avoids p [] = λ h. cc h
  outcomes-Avoids p (i ∷ is) =
      bind-Avoids (outcome work_id dispatch p i) _
        (bind-Avoids (or_raise (Dict.get p.final_results (work_id i)) missing_key) _ (missing _)
          (λ r.
            bind-Avoids (or_raise (Dict.get p.final_states (work_id i)) missing_key) _ (missing _)
              (λ s h. cc h)))
        (λ first.
          bind-Avoids (outcomes work_id dispatch p is) _ (outcomes-Avoids p is) (λ rest h. cc h))
