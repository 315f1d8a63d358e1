-- ===== src/Combat/Branches/Examples.antt =====
-- A finished branch with a queued branch below it, and one that is not below it.
use sts2_rl.Api.Decimal.{decimal}
use sts2_rl.Combat.Branches.Cancel.{cancel_one}
use sts2_rl.Prelude.{
  ℕ, ◌≤◌, ◌⊎◌, ◌≡◌, ◌≢◌, refl, String, true, false, Option, none, some, List, [], ◌∷◌, Result, ok,
  err,
}
use sts2_rl.Prelude.Dict
use sts2_rl.Prelude.Dict.{Dict}
use sts2_rl.Prelude.Key.{str_key, str_discrete}
use sts2_rl.Api.Dto.{member}
use sts2_rl.Combat.Pool.{
  success, LeaseKey, WorkItem, continuation, BranchResult, released_branch, too_many_rounds,
  BranchError,
}
use sts2_rl.Combat.Branches.{
  BranchState, queued, completed, cancelled, released, BranchRecord, BranchManager, Entries,
  active_branch_count, submit_many, get_branch_result,
}
use sts2_rl.Combat.Branches.Capacity.{submit_many_bounded}
use sts2_rl.Combat.Branches.Cancel.{cancel_branches}
use sts2_rl.Combat.Branches.Cancel.Subtree.{
  self, child, is_dropped_in, children_of, cancelled_subtree,
}
use sts2_rl.Combat.Branches.Release.{release_branches, close_all}
use sts2_rl.Combat.Branches.Release.Close.{IsClosed, close_all-Ends}
use sts2_rl.Combat.Branches.Release.Modify.{status_of}
use sts2_rl.Combat.Branches.Release.Refines.{
  after_release, release_branches-status, released_unread,
}

abbrev key : LeaseKey
key = record { context_id = "context"; search_hypothesis_id = none }

abbrev item : WorkItem ℕ
item = record {
  work_id = "work";
  key = key;
  work_kind = continuation;
  combat_session_id = none;
  step_index = 0;
  decision_result_digest = "digest";
  job = 0;
}

abbrev result : BranchResult ℕ
result = record {
  status = success;
  execution_mode = none;
  worker_id = some 0;
  worker_generation = some 0;
  established_lease = none;
  fault_kind = none;
  body = some 7;
}

abbrev branch : String → BranchState → Option String → List String → BranchRecord ℕ ℕ
branch id state parent children = record {
  branch_id = id;
  work_item = some item;
  state = state;
  parent_branch_id = parent;
  child_branch_ids = children;
  worker_id = none;
  worker_generation = none;
  request_id = none;
  execution_mode = none;
  result = none;
}

abbrev manager : BranchManager ℕ ℕ
manager = record {
  pool = record { workers = (0, 0) ∷ []; next_request_id = 0; closed = false };
  leases = [];
  max_branches = 4;
  records =
      ("a", record (branch "a" completed none ("b" ∷ [])) { result = some result })
      ∷ ("b", branch "b" queued (some "a") [])
      ∷ ("c", branch "c" queued none [])
      ∷ [];
  branch_by_request = [];
  next_serial = 3;
  next_bootstrap_index = 0;
}

b_is_child : member "b" (children_of manager.records "a") ≡ true
unfolding member children_of Dict.get str_discrete
b_is_child = refl

a_is_asked : member "a" ("a" ∷ []) ≡ true
unfolding member
a_is_asked = refl

cancelled_both :
    (cancel_branches manager ("a" ∷ [])).0 ≡ ok (("a", cancelled) ∷ ("b", cancelled) ∷ [])
unfolding cancel_branches Dict.get str_discrete cancel_one Dict.put
cancelled_both = refl

-- The queued branch below the one that is cancelled goes with it.
cancelled_subtree_example :
    (is_dropped_in (cancel_branches manager ("a" ∷ [])).1.records "b" ≡ true)
    × (children_of (cancel_branches manager ("a" ∷ [])).1.records "b"
        ≡ children_of manager.records "b")
cancelled_subtree_example =
    cancelled_subtree manager ("a" ∷ []) (("a", cancelled) ∷ ("b", cancelled) ∷ []) "a" "b"
      cancelled_both a_is_asked (child {c = "b"} b_is_child self)

released_a : (release_branches manager ("a" ∷ [])).0 ≡ ok (("a", released) ∷ [])
unfolding release_branches Dict.get str_discrete Dict.put
released_a = refl

release_branches-status_example :
    status_of (release_branches manager ("a" ∷ [])).1.records "b"
    ≡ after_release ("a" ∷ []) (status_of manager.records) "b"
release_branches-status_example =
    release_branches-status manager ("a" ∷ []) (("a", released) ∷ []) released_a "b"

released_unread_example :
    get_branch_result (release_branches manager ("a" ∷ [])).1 "a" ≡ err (released_branch "a")
released_unread_example =
    released_unread manager ("a" ∷ []) (("a", released) ∷ []) "a" released_a a_is_asked

close_all-Ends_example :
    ((e : BranchError) × ((close_all manager).0 ≡ err e) × (e ≢ too_many_rounds))
    ⊎ (((close_all manager).0 ≡ ok tt)
        × ((id : String)
            → IsClosed (status_of manager.records id) (status_of (close_all manager).1.records id)))
close_all-Ends_example = close_all-Ends manager

abbrev accepted_in : Result BranchError (List String × BranchManager ℕ ℕ) → BranchManager ℕ ℕ
accepted_in (ok (ids, m)) = m
accepted_in (err e) = manager

abbrev batch : Entries ℕ
batch = (item, some "c") ∷ []

abbrev grown : BranchManager ℕ ℕ
grown = accepted_in (submit_many manager batch)

submitted : submit_many manager batch ≡ ok ("branch-4" ∷ [], grown)
unfolding submit_many Dict.get str_discrete decimal
submitted = refl

submit_many_bounded_example :
    (active_branch_count grown ≤ grown.max_branches) × (grown.max_branches ≡ manager.max_branches)
submit_many_bounded_example = submit_many_bounded manager grown batch ("branch-4" ∷ []) submitted
