-- ===== src/Combat/Coordinator.antt =====
-- Combat/search/search_coordinator.py: `_dispatch_work_items_until_final`, the loop that sends work
-- items to the pool and sends those that failed again. The pool is the parameter `dispatch`, which
-- changes the world `W` and may raise; the metrics, which are optional counters, are left out.
pub mod Avoids
pub mod Settled
pub mod Ends
use sts2_rl.Prelude.{
  ℕ, zero, suc, ◌+◌, String, Bool, true, false, not, Option, none, some, List, [], ◌∷◌, ◌++◌,
  Result, ok, err, ◌>>=◌, ◌>>◌, raise_if, or_raise, str_eq, ◌==◌, if◌then◌else◌, length,
}
use sts2_rl.Prelude.Dict
use sts2_rl.Prelude.Dict.{Dict}
use sts2_rl.Prelude.Key.{str_key}
use sts2_rl.Combat.Faults.{
  Fault, FaultError, WorkItemAttempt, RetryDecision, classify_fault, decide_retry,
}

-- What the loop reads of a result.
pub record BranchResult : Type 0 where
  pub status : String
  pub diagnostics : Fault
  pub worker_generation : Option ℕ

pub data DispatchError : Type 0 where
  round_cap result_count unknown_status missing_key : DispatchError
  fault_error : FaultError → DispatchError
  pool_error : String → DispatchError

abbrev pub lift : {A : Type 0} → Result FaultError A → Result DispatchError A
lift (ok a) = ok a
lift (err e) = err (fault_error e)

-- `branch_result.worker_generation or attempt.worker_generation`
abbrev or_generation : Option ℕ → ℕ → ℕ
or_generation none n = n
or_generation (some zero) n = n
or_generation (some (suc m)) n = suc m

module _ {Item W : Type 0} (work_id : Item → String)
    (dispatch : List Item → W → Result String (List BranchResult) × W) where
  pub record Progress : Type 0 where
    pub attempts : Dict String WorkItemAttempt
    pub final_results : Dict String BranchResult
    pub final_states : Dict String String
    pub retry_next_round : List Item

  -- {item.work_id: item for item in work_items}, from the entries so far.
  unfoldable pub by_work_id : Dict String Item → List Item → Dict String Item
  by_work_id m [] = m
  by_work_id m (i ∷ is) = by_work_id (Dict.put m (work_id i) i) is

  abbrev first_attempt : String → WorkItemAttempt
  first_attempt id = record {
    work_id = id;
    attempt_count = 0;
    state = "Running";
    worker_generation = 1;
  }

  first_attempts : Dict String WorkItemAttempt → List Item → Dict String WorkItemAttempt
  first_attempts m [] = m
  first_attempts m (i ∷ is) = first_attempts (Dict.put m (work_id i) (first_attempt (work_id i))) is

  settle_success : WorkItemAttempt → Item → BranchResult → Progress → Progress
  settle_success attempt item result p = record p {
    attempts = Dict.put p.attempts (work_id item) (record attempt {
      state = "FinalSuccess";
      worker_generation = or_generation result.worker_generation attempt.worker_generation;
    });
    final_results = Dict.put p.final_results (work_id item) result;
    final_states = Dict.put p.final_states (work_id item) "FinalSuccess";
  }

  settle_retry :
      RetryDecision
      → Dict String Item
      → WorkItemAttempt
      → Item
      → BranchResult
      → Progress
      → Result DispatchError Progress
  settle_retry retry items attempt item result p =
      let attempts = Dict.put p.attempts (work_id item) (record attempt {
        attempt_count = retry.attempt_count;
        state = retry.next_state;
        worker_generation = retry.worker_generation;
      }) in
      if retry.should_retry
      then (do
        again ← or_raise (Dict.get items (work_id item)) missing_key
        ok (record p { attempts = attempts; retry_next_round = p.retry_next_round ++ again ∷ [] }))
      else ok (record p {
        attempts = attempts;
        final_results = Dict.put p.final_results (work_id item) result;
        final_states = Dict.put p.final_states (work_id item) "FinalFault";
      })

  settle_fault :
      ℕ
      → Dict String Item
      → WorkItemAttempt
      → Item
      → BranchResult
      → Progress
      → Result DispatchError Progress
  unfolding settle_retry
  settle_fault max_retries items attempt item result p = do
    fault_kind ← lift (classify_fault result.diagnostics)
    retry ← lift (decide_retry attempt fault_kind max_retries)
    settle_retry retry items attempt item result p

  -- The body of the loop over the results of a round.
  settle : ℕ → Dict String Item → Item → BranchResult → Progress → Result DispatchError Progress
  unfolding settle_success settle_fault
  settle max_retries items item result p = do
    attempt ← or_raise (Dict.get p.attempts (work_id item)) missing_key
    if str_eq result.status "success" then ok (settle_success attempt item result p) else (do
      raise_if (not (str_eq result.status "fault")) unknown_status
      settle_fault max_retries items attempt item result p)

  settle_all :
      ℕ
      → Dict String Item
      → List Item
      → List BranchResult
      → Progress
      → Result DispatchError Progress
  unfolding settle
  settle_all max_retries items (i ∷ is) (r ∷ rs) p = do
    p' ← settle max_retries items i r p
    settle_all max_retries items is rs p'
  settle_all max_retries items _ _ p = ok p

  pub one_round :
      ℕ
      → Dict String Item
      → List Item
      → Progress
      → Result String (List BranchResult)
      → Result DispatchError Progress
  unfolding settle_all
  one_round max_retries items pending p (err e) = err (pool_error e)
  one_round max_retries items pending p (ok results) = do
    raise_if (not (length results == length pending)) result_count
    settle_all max_retries items pending results (record p { retry_next_round = [] })

  -- `while pending`, with the number of rounds that the cap leaves.
  rounds : ℕ → ℕ → Dict String Item → List Item → Progress → W → Result DispatchError Progress × W
  unfolding one_round
  rounds n max_retries items [] p w = (ok p, w)
  rounds zero max_retries items (i ∷ is) p w = (err round_cap, w)
  rounds (suc n) max_retries items (i ∷ is) p w =
      let (results, w') = dispatch (i ∷ is) w in
      elim (one_round max_retries items (i ∷ is) p results) [
        | err e ↦ (err e, w')
        | ok p' ↦ rounds n max_retries items p'.retry_next_round p' w'
      ]

  outcome : Progress → Item → Result DispatchError (Item × BranchResult × String)
  outcome p item = do
    result ← or_raise (Dict.get p.final_results (work_id item)) missing_key
    state ← or_raise (Dict.get p.final_states (work_id item)) missing_key
    ok (item, result, state)

  pub outcomes : Progress → List Item → Result DispatchError (List (Item × BranchResult × String))
  unfolding outcome
  outcomes p [] = ok []
  outcomes p (i ∷ is) = do first ← outcome p i; rest ← outcomes p is; ok (first ∷ rest)

  abbrev start : List Item → Progress
  start work_items = record {
    attempts = first_attempts [] work_items;
    final_results = [];
    final_states = [];
    retry_next_round = [];
  }

  unfoldable pub dispatch_work_items_until_final :
      ℕ → List Item → W → Result DispatchError (List (Item × BranchResult × String)) × W
  unfolding rounds outcomes first_attempts
  dispatch_work_items_until_final max_retries work_items w =
      let (end, w') =
        rounds (max_retries + 2) max_retries (by_work_id [] work_items) work_items
          (start work_items) w in
      (end >>= λ p. outcomes p work_items, w')
