-- ===== src/Combat/Examples.antt =====
-- Faults and retries at work: a pool whose workers always time out.
use sts2_rl.Combat.Coordinator.{by_work_id}
use sts2_rl.Prelude.Key.{str_discrete}
use sts2_rl.Prelude.{
  ℕ, ◌+◌, ◌≡◌, ◌≢◌, refl, String, none, some, List, [], ◌∷◌, map, Result, ok, err,
}
use sts2_rl.Prelude.Dict
use sts2_rl.Prelude.Key.{str_key}
use sts2_rl.Api.Dto.{member}
use sts2_rl.Combat.Faults.{Fault, diagnostics, classify_fault, worker_reuse_policy, decide_retry}
use sts2_rl.Combat.Coordinator.{BranchResult, round_cap, dispatch_work_items_until_final}
use sts2_rl.Combat.Coordinator.Ends.{retries_end}

abbrev timeout_fault : Fault
timeout_fault = diagnostics (some "timeout") none

abbrev hung : BranchResult
hung = record { status = "fault"; diagnostics = timeout_fault; worker_generation = none }

-- Every item of a round times out; the world counts the rounds.
abbrev hung_pool : List String → ℕ → Result String (List BranchResult) × ℕ
hung_pool items rounds = (ok (map (λ item. hung) items), rounds + 1)

abbrev own_id : String → String
own_id item = item

-- One retry is allowed, so two rounds are sent.
two_rounds : (dispatch_work_items_until_final own_id hung_pool 1 ("x" ∷ "y" ∷ []) 0).1 ≡ 2
unfolding dispatch_work_items_until_final Dict.get Dict.put str_discrete classify_fault decide_retry
    member worker_reuse_policy by_work_id
two_rounds = refl

retries_end_example :
    (dispatch_work_items_until_final own_id hung_pool 1 ("x" ∷ "y" ∷ []) 0).0 ≢ err round_cap
retries_end_example = retries_end own_id hung_pool 1 ("x" ∷ "y" ∷ []) 0

timeout_is_classified : classify_fault timeout_fault ≡ ok "task_timeout"
unfolding classify_fault Dict.get str_discrete
timeout_is_classified = refl
