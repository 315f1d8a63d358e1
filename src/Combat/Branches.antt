-- ===== src/Combat/Branches.antt =====
-- Combat/search/branch_manager.py: the branches of a combat search, each with its state, over a pool
-- and its leases. A record is known by its id alone, so the table of records is the store. An
-- operation that raises gives the manager as it is then.
pub mod Capacity
pub mod Cancel
pub mod Release
pub mod Dispatch
pub mod Poll
pub mod Examples
use sts2_rl.Prelude.{
  ℕ, zero, suc, ◌+◌, ◌==◌, String, Bool, true, false, ◌&&◌, ◌||◌, not, Option, none, some, List, [],
  ◌∷◌, ◌++◌, Result, ok, err, str_eq, if◌then◌else◌, ltb, length, ◌>>=◌, or_raise, map,
}
use Prim.Native.String.{◌++◌ as str_append}
use sts2_rl.Prelude.Dict
use sts2_rl.Prelude.Totals
use sts2_rl.Prelude.Dict.{Dict}
use sts2_rl.Prelude.Key.{str_key, nat_key}
use sts2_rl.Api.Decimal.{decimal}
use sts2_rl.Combat.Pool.{
  ExecutionMode, ResultStatus, success, fault, Lease, LeaseRegistry, WorkItem, BranchResult, set,
  invalidate, invalidate_lease, invalidate_worker, BranchError, unknown_branch, no_work_item,
  released_branch, no_result, limit_exceeded, no_worker_id, too_many_rounds, Pool, respawn_worker,
}

pub data BranchState : Type 0 where
  queued running completed partial cancelled faulted released : BranchState

abbrev pub is_active : BranchState → Bool
is_active queued = true
is_active running = true
is_active _ = false

abbrev pub is_released : BranchState → Bool
is_released released = true
is_released _ = false

-- Cancelled or released.
abbrev pub is_dropped : BranchState → Bool
is_dropped cancelled = true
is_dropped released = true
is_dropped _ = false

module _ (J R : Type 0) where
  pub record BranchRecord : Type 0 where
    pub branch_id : String
    pub work_item : Option (WorkItem J)
    pub state : BranchState
    pub parent_branch_id : Option String
    pub child_branch_ids : List String
    pub worker_id : Option ℕ
    pub worker_generation : Option ℕ
    pub request_id : Option ℕ
    pub execution_mode : Option ExecutionMode
    pub result : Option (BranchResult R)

  pub record BranchManager : Type 0 where
    pub pool : Pool
    pub leases : LeaseRegistry
    pub max_branches : ℕ
    pub records : Dict String BranchRecord
    pub branch_by_request : Dict ℕ String
    pub next_serial : ℕ
    pub next_bootstrap_index : ℕ

abbrev pub Entries : Type 0 → Type 0
Entries J = List (WorkItem J × Option String)

abbrev pub Records : Type 0 → Type 0 → Type 0
Records J R = Dict String (BranchRecord J R)

-- `_new_branch_id`, for the serial number that it has advanced to.
abbrev pub branch_id_for : ℕ → String
branch_id_for serial = str_append "branch-" (decimal serial)

-- The leases after a result: that of its work item goes, a new one is set, and a fault takes all of
-- its worker's.
lease_set : ResultStatus → Option Lease → LeaseRegistry → LeaseRegistry
lease_set success (some lease) leases = set leases lease
lease_set _ _ leases = leases

worker_dropped : ResultStatus → Option ℕ → LeaseRegistry → LeaseRegistry
worker_dropped fault (some worker_id) leases = invalidate_worker leases worker_id
worker_dropped _ _ leases = leases

abbrev pub state_after : ResultStatus → BranchState
state_after success = completed
state_after fault = faulted

module _ {J R : Type 0} where
  abbrev pub update : BranchManager J R → String → BranchRecord J R → BranchManager J R
  update m id r = record m { records = Dict.put m.records id r }

  unfoldable pub active_weight : String → BranchRecord J R → ℕ
  active_weight id r = if is_active r.state then 1 else 0

  unfoldable pub active_branch_count : BranchManager J R → ℕ
  unfolding Totals.total active_weight
  active_branch_count m = Totals.total active_weight m.records

  check_parent : Option String → Records J R → Result BranchError (Unit {0})
  check_parent none records = ok tt
  check_parent (some parent) records = elim (Dict.get records parent) [
    | none ↦ err (unknown_branch parent)
    | some r ↦ ok tt
  ]

  unfoldable pub check_parents : Entries J → Records J R → Result BranchError (Unit {0})
  unfolding check_parent
  check_parents [] records = ok tt
  check_parents ((item, parent) ∷ entries) records =
      check_parent parent records >>= λ _. check_parents entries records

  abbrev new_record : String → WorkItem J → Option String → BranchRecord J R
  new_record id item parent = record {
    branch_id = id;
    work_item = some item;
    state = queued;
    parent_branch_id = parent;
    child_branch_ids = [];
    worker_id = none;
    worker_generation = none;
    request_id = none;
    execution_mode = none;
    result = none;
  }

  unfoldable pub new_records : ℕ → Entries J → List (BranchRecord J R)
  new_records serial [] = []
  new_records serial ((item, parent) ∷ entries) =
      new_record (branch_id_for (serial + 1)) item parent ∷ new_records (serial + 1) entries

  unfoldable pub add_records : List (BranchRecord J R) → Records J R → Records J R
  add_records [] records = records
  add_records (r ∷ rs) records = add_records rs (Dict.put records r.branch_id r)

  unfoldable pub add_child : Option (BranchRecord J R) → String → String → Records J R → Records J R
  add_child none parent id records = records
  add_child (some p) parent id records =
      Dict.put records parent (record p { child_branch_ids = p.child_branch_ids ++ id ∷ [] })

  unfoldable pub link : Option String → String → Records J R → Records J R
  unfolding add_child
  link none id records = records
  link (some parent) id records = add_child (Dict.get records parent) parent id records

  unfoldable pub link_children : List (BranchRecord J R) → Records J R → Records J R
  unfolding link
  link_children [] records = records
  link_children (r ∷ rs) records = link_children rs (link r.parent_branch_id r.branch_id records)

  abbrev pub ids_of : List (BranchRecord J R) → List String
  ids_of rs = map (λ r. r.branch_id) rs

  unfoldable pub submit_many :
      BranchManager J R → Entries J → Result BranchError (List String × BranchManager J R)
  unfolding check_parents new_records add_records link_children active_branch_count
  submit_many m entries = check_parents entries m.records >>= λ _.
      if ltb m.max_branches (active_branch_count m + length entries)
      then err limit_exceeded
      else let rs = new_records m.next_serial entries in
        ok (
          ids_of rs,
          record m {
            next_serial = m.next_serial + length entries;
            records = link_children rs (add_records rs m.records);
          },
        )

  -- Every operation that names a branch looks it up first.
  abbrev pub find : BranchManager J R → String → Result BranchError (BranchRecord J R)
  find m id = or_raise (Dict.get m.records id) (unknown_branch id)

  unfoldable pub get_branch_status :
      BranchManager J R → List String → Result BranchError (Dict String BranchState)
  get_branch_status m [] = ok []
  get_branch_status m (id ∷ ids) =
      find m id >>= λ r. get_branch_status m ids >>= λ rest. ok (Dict.put rest id r.state)

  unfoldable pub get_branch_result :
      BranchManager J R → String → Result BranchError (BranchResult R)
  get_branch_result m id = find m id >>= λ r.
      if is_released r.state then err (released_branch id) else or_raise r.result (no_result id)

  unfoldable pub finish_item :
      Option (WorkItem J)
      → BranchManager J R
      → String
      → BranchRecord J R
      → BranchResult R
      → Result BranchError (BranchManager J R)
  unfolding lease_set worker_dropped
  finish_item none m id r result = err (no_work_item id)
  finish_item (some item) m id r result = ok (record m {
    records =
        Dict.put m.records id
          (record r { result = some result; state = state_after result.status });
    leases =
        worker_dropped result.status result.worker_id
          (lease_set result.status result.established_lease (invalidate m.leases item.key));
  })

  -- `_finish`
  unfoldable pub finish :
      BranchManager J R
      → String
      → BranchRecord J R
      → BranchResult R
      → Result BranchError (BranchManager J R)
  unfolding finish_item
  finish m id r result = finish_item r.work_item m id r result
