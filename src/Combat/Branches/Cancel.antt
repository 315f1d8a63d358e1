-- ===== src/Combat/Branches/Cancel.antt =====
-- Combat/search/branch_manager.py: cancelling branches, each with the branches below it.
pub mod Steps
pub mod Seen
pub mod Ends
pub mod Subtree
use sts2_rl.Prelude.{
  ℕ, zero, suc, ◌+◌, String, Option, none, some, List, [], ◌∷◌, Result, ok, err, length,
}
use sts2_rl.Prelude.Dict
use sts2_rl.Prelude.Dict.{Dict}
use sts2_rl.Prelude.Totals
use sts2_rl.Prelude.Key.{str_key, nat_key}
use sts2_rl.Combat.Pool.{
  ExecutionMode, Lease, LeaseRegistry, BranchResult, invalidate_lease, BranchError, unknown_branch,
  no_worker_id, too_many_rounds, Pool, respawn_worker,
}
use sts2_rl.Combat.Branches.{
  BranchState, queued, running, completed, partial, cancelled, faulted, released, BranchRecord,
  BranchManager, Records, update,
}

abbrev pub Outcome : Type 0 → Type 0 → Type 0
Outcome J R = Result BranchError BranchState × BranchManager J R

abbrev pub Visit : Type 0 → Type 0 → Type 0
Visit J R = Result BranchError (Dict String BranchState) × BranchManager J R

-- The lease that a result established, if any.
abbrev pub established : {R : Type 0} → Option (BranchResult R) → Option Lease
established none = none
established (some result) = result.established_lease

unfoldable pub forget : LeaseRegistry → Option Lease → LeaseRegistry
forget leases none = leases
forget leases (some lease) = invalidate_lease leases lease

unfoldable pub forget_request : Option ℕ → Dict ℕ String → Dict ℕ String
forget_request none requests = requests
forget_request (some request_id) requests = Dict.remove requests request_id

-- The ids on top of the stack, the last one first.
unfoldable pub push : List String → List String → List String
push [] stack = stack
push (id ∷ ids) stack = push ids (id ∷ stack)

module _ {J R : Type 0} where
  unfoldable pub killed :
      BranchManager J R
      → String
      → BranchRecord J R
      → Result BranchError (Pool × LeaseRegistry)
      → Outcome J R
  unfolding forget_request
  killed m id r (err e) = (err e, m)
  killed m id r (ok (pool, leases)) = (
    ok cancelled,
    record m {
      pool = pool;
      leases = leases;
      branch_by_request = forget_request r.request_id m.branch_by_request;
      records = Dict.put m.records id (record r { state = cancelled });
    },
  )

  unfoldable pub kill : Option ℕ → BranchManager J R → String → BranchRecord J R → Outcome J R
  unfolding killed
  kill none m id r = (err no_worker_id, m)
  kill (some worker_id) m id r = killed m id r (respawn_worker m.pool m.leases worker_id)

  unfoldable pub discard : BranchManager J R → String → BranchRecord J R → Outcome J R
  unfolding forget
  discard m id r = (
    ok cancelled,
    record m {
      leases = forget m.leases (established r.result);
      records = Dict.put m.records id (record r { result = none; state = cancelled });
    },
  )

  unfoldable pub cancel_in :
      BranchState → BranchManager J R → String → BranchRecord J R → Outcome J R
  unfolding kill discard
  cancel_in cancelled m id r = (ok cancelled, m)
  cancel_in released m id r = (ok released, m)
  cancel_in queued m id r = (ok cancelled, update m id (record r { state = cancelled }))
  cancel_in running m id r = kill r.worker_id m id r
  cancel_in _ m id r = discard m id r

  -- `_cancel_one`
  unfoldable pub cancel_one : BranchManager J R → String → BranchRecord J R → Outcome J R
  unfolding cancel_in
  cancel_one m id r = cancel_in r.state m id r

  -- `while to_visit`, with a number of rounds.
  unfoldable pub cancel_loop :
      ℕ → List String → Dict String BranchState → BranchManager J R → Visit J R
  cancel_loop rounds [] visited m = (ok visited, m)
  cancel_loop zero (id ∷ stack) visited m = (err too_many_rounds, m)
  cancel_loop (suc rounds) (id ∷ stack) visited m = elim (Dict.get visited id) [
    | some state ↦ cancel_loop rounds stack visited m
    | none ↦ elim (Dict.get m.records id) [
      | none ↦ (err (unknown_branch id), m)
      | some r ↦
          let (answer, m') = cancel_one m id r in
          elim answer [
            | err e ↦ (err e, m')
            | ok state ↦
                cancel_loop rounds (push r.child_branch_ids stack) (Dict.put visited id state) m'
          ]
    ]
  ]

  -- The children of the records, which is how many ids the loop can come to push.
  unfoldable pub child_weight : String → BranchRecord J R → ℕ
  child_weight id r = length r.child_branch_ids

  unfoldable pub cancel_branches : BranchManager J R → List String → Visit J R
  unfolding cancel_loop push child_weight Totals.total
  cancel_branches m ids =
      cancel_loop (length ids + Totals.total child_weight m.records) (push ids []) [] m
