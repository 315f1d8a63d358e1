-- ===== src/Combat/Pool.antt =====
-- Combat/search/branch_worker_pool.py: the leases of the branch workers, where a work item is sent,
-- and the replacement of a worker. A worker is its number with its generation; its process and its
-- queues are not modelled. What else a work item and a result hold are the types `J` and `R`.
use sts2_rl.Prelude.{
  ℕ, ◌+◌, ◌%◌, ◌==◌, String, Bool, true, false, ◌&&◌, ◌||◌, Option, none, some, List, [], ◌∷◌,
  Result, ok, err, str_eq, if◌then◌else◌, length, get_elem?, ℕ_discrete, ◌>>=◌, or_raise, map,
}
use sts2_rl.Prelude.Dict
use sts2_rl.Prelude.Dict.{Dict}
use sts2_rl.Prelude.Key.{Key, str_key, nat_key, str_discrete}

pub data WorkKind : Type 0 where
  continuation sub_branch : WorkKind

pub data ExecutionMode : Type 0 where
  bootstrap_step holder_step : ExecutionMode

pub data ResultStatus : Type 0 where
  success fault : ResultStatus

-- `(context_id, search_hypothesis_id)`
pub record LeaseKey : Type 0 where
  pub context_id : String
  pub search_hypothesis_id : Option String

unfoldable pub LeaseKey-discrete : Discrete LeaseKey
unfolding str_discrete
LeaseKey-discrete = hlevel str_discrete

instance abbrev pub lease_key : Key LeaseKey
lease_key = record { same = LeaseKey-discrete }

pub record Lease : Type 0 where
  pub worker_id : ℕ
  pub worker_generation : ℕ
  pub key : LeaseKey
  pub state_epoch : ℕ
  pub combat_session_id : Option String
  pub step_index : ℕ
  pub decision_result_digest : String

unfoldable pub Lease-discrete : Discrete Lease
unfolding str_discrete ℕ_discrete LeaseKey-discrete
Lease-discrete = hlevel (str_discrete, ℕ_discrete, LeaseKey-discrete)

unfoldable pub session-discrete : Discrete (Option String)
unfolding str_discrete
session-discrete = hlevel str_discrete

-- A work item with what its decision context expects: the session, the step and the digest of the
-- signature.
pub record WorkItem (J : Type 0) : Type 0 where
  pub work_id : String
  pub key : LeaseKey
  pub work_kind : WorkKind
  pub combat_session_id : Option String
  pub step_index : ℕ
  pub decision_result_digest : String
  pub job : J

pub record BranchResult (R : Type 0) : Type 0 where
  pub status : ResultStatus
  pub execution_mode : Option ExecutionMode
  pub worker_id : Option ℕ
  pub worker_generation : Option ℕ
  pub established_lease : Option Lease
  pub fault_kind : Option String
  pub body : Option R

abbrev pub LeaseRegistry : Type 0
LeaseRegistry = Dict LeaseKey Lease

abbrev pub is_yes {ℓ} : {P : Type ℓ} → Dec P → Bool
is_yes (yes p) = true
is_yes (no p) = false

abbrev is_continuation : WorkKind → Bool
is_continuation continuation = true
is_continuation sub_branch = false

-- `Lease.is_valid_for`, with the generation that its callers give.
unfoldable pub is_valid_for : {J : Type 0} → Lease → WorkItem J → ℕ → Bool
is_valid_for lease work_item worker_generation =
    is_continuation work_item.work_kind
    && (is_yes (LeaseKey-discrete lease.key work_item.key)
        && (lease.worker_generation == worker_generation
            && (is_yes (session-discrete lease.combat_session_id work_item.combat_session_id)
                && (lease.step_index == work_item.step_index
                    && str_eq lease.decision_result_digest work_item.decision_result_digest))))

unfoldable pub set : LeaseRegistry → Lease → LeaseRegistry
set leases lease = Dict.put leases lease.key lease

unfoldable pub invalidate : LeaseRegistry → LeaseKey → LeaseRegistry
invalidate leases key = Dict.remove leases key

is_registered : Option Lease → Lease → Bool
is_registered none lease = false
is_registered (some current) lease = is_yes (Lease-discrete current lease)

unfoldable pub invalidate_lease : LeaseRegistry → Lease → LeaseRegistry
unfolding is_registered
invalidate_lease leases lease =
    if is_registered (Dict.get leases lease.key) lease then Dict.remove leases lease.key else leases

unfoldable pub pop_worker : List (LeaseKey × Lease) → ℕ → LeaseRegistry → LeaseRegistry
pop_worker [] worker_id leases = leases
pop_worker ((key, lease) ∷ items) worker_id leases =
    pop_worker items worker_id
      (if lease.worker_id == worker_id then Dict.remove leases key else leases)

unfoldable pub invalidate_worker : LeaseRegistry → ℕ → LeaseRegistry
unfolding pop_worker
invalidate_worker leases worker_id = pop_worker leases worker_id leases

-- `worker_id in worker_ids_holding_leases()`
unfoldable pub holds_lease : LeaseRegistry → ℕ → Bool
holds_lease [] worker_id = false
holds_lease ((key, lease) ∷ leases) worker_id =
    lease.worker_id == worker_id || holds_lease leases worker_id

-- What the pool and the manager raise.
pub data BranchError : Type 0 where
  unknown_branch : String → BranchError
  not_queued : String → BranchError
  no_work_item : String → BranchError
  released_branch : String → BranchError
  no_result : String → BranchError
  unknown_worker : ℕ → BranchError
  unknown_request : ℕ → BranchError
  busy_worker : ℕ → BranchError
  limit_exceeded pool_closed bad_timeout no_worker unroutable nothing_routed no_worker_id :
      BranchError
  submit_failed : ℕ → BranchError
  too_many_rounds : BranchError

unfoldable pub unleased : LeaseRegistry → List ℕ → List ℕ
unleased leases [] = []
unleased leases (w ∷ worker_ids) =
    let rest = unleased leases worker_ids in if holds_lease leases w then rest else w ∷ rest

abbrev pub or_all : List ℕ → List ℕ → List ℕ
or_all [] worker_ids = worker_ids
or_all (w ∷ ws) worker_ids = w ∷ ws

unfoldable pub nth_worker : List ℕ → ℕ → Result BranchError ℕ
nth_worker [] next_index = err no_worker
nth_worker (w ∷ ws) next_index =
    or_raise (get_elem? (w ∷ ws) (next_index % length (w ∷ ws))) no_worker

unfoldable pub choose_bootstrap_worker : List ℕ → LeaseRegistry → ℕ → Result BranchError (ℕ × ℕ)
unfolding unleased nth_worker
choose_bootstrap_worker worker_ids leases next_index =
    nth_worker (or_all (unleased leases worker_ids) worker_ids) next_index >>= λ chosen.
    ok (chosen, next_index + 1)

-- The request that a route makes, its worker, and the next index.
pub record Route : Type 0 where
  pub execution_mode : ExecutionMode
  pub expected_lease : Option Lease
  pub worker_id : ℕ
  pub next_bootstrap_index : ℕ

unfoldable pub after_choice :
    LeaseRegistry → Result BranchError (ℕ × ℕ) → Result BranchError Route × LeaseRegistry
after_choice leases (err e) = (err e, leases)
after_choice leases (ok (worker_id, next)) = (
  ok (record {
    execution_mode = bootstrap_step;
    expected_lease = none;
    worker_id = worker_id;
    next_bootstrap_index = next;
  }),
  if holds_lease leases worker_id then invalidate_worker leases worker_id else leases,
)

unfoldable pub bootstrap : LeaseRegistry → List ℕ → ℕ → Result BranchError Route × LeaseRegistry
unfolding after_choice
bootstrap leases worker_ids next =
    after_choice leases (choose_bootstrap_worker worker_ids leases next)

unfoldable pub lease_holds : {J : Type 0} → WorkItem J → Lease → Option ℕ → Bool
lease_holds work_item lease none = false
lease_holds work_item lease (some generation) = is_valid_for lease work_item generation

unfoldable pub route_lease :
    {J : Type 0}
    → WorkItem J
    → Option Lease
    → LeaseRegistry
    → List ℕ
    → Dict ℕ ℕ
    → ℕ
    → Result BranchError Route × LeaseRegistry
unfolding bootstrap
route_lease work_item none leases worker_ids generations next = bootstrap leases worker_ids next
route_lease work_item (some lease) leases worker_ids generations next =
    if lease_holds work_item lease (Dict.get generations lease.worker_id)
    then (
      ok (record {
        execution_mode = holder_step;
        expected_lease = some lease;
        worker_id = lease.worker_id;
        next_bootstrap_index = next;
      }),
      leases,
    )
    else bootstrap (invalidate_lease leases lease) worker_ids next

-- The lease that a continuation is looked up by; a sub-branch has none.
abbrev pub lease_of : {J : Type 0} → WorkItem J → WorkKind → LeaseRegistry → Option Lease
lease_of work_item continuation leases = Dict.get leases work_item.key
lease_of work_item sub_branch leases = none

unfoldable pub route_work_item :
    {J : Type 0}
    → WorkItem J
    → LeaseRegistry
    → List ℕ
    → Dict ℕ ℕ
    → ℕ
    → Result BranchError Route × LeaseRegistry
unfolding route_lease
route_work_item work_item leases worker_ids generations next =
    route_lease work_item (lease_of work_item work_item.work_kind leases) leases worker_ids
      generations next

-- `_workers` by their generations.
pub record Pool : Type 0 where
  pub workers : Dict ℕ ℕ
  pub next_request_id : ℕ
  pub closed : Bool

abbrev pub worker_ids : Pool → List ℕ
worker_ids pool = map (λ w. w.0) pool.workers

unfoldable pub respawned :
    Option ℕ → Pool → LeaseRegistry → ℕ → Result BranchError (Pool × LeaseRegistry)
respawned none pool leases worker_id = err (unknown_worker worker_id)
respawned (some generation) pool leases worker_id = ok (
  record pool { workers = Dict.put pool.workers worker_id (generation + 1) },
  invalidate_worker leases worker_id,
)

unfoldable pub respawn_worker : Pool → LeaseRegistry → ℕ → Result BranchError (Pool × LeaseRegistry)
unfolding respawned
respawn_worker pool leases worker_id =
    if pool.closed
    then err pool_closed
    else respawned (Dict.get pool.workers worker_id) pool leases worker_id

unfoldable pub submitted : Option ℕ → Pool → ℕ → Result BranchError (ℕ × Pool)
submitted none pool worker_id = err (unknown_worker worker_id)
submitted (some generation) pool worker_id =
    ok (pool.next_request_id + 1, record pool { next_request_id = pool.next_request_id + 1 })

-- `_submit`: the id of the request.
unfoldable pub submit : Pool → ℕ → Result BranchError (ℕ × Pool)
unfolding submitted
submit pool worker_id =
    if pool.closed
    then err pool_closed
    else submitted (Dict.get pool.workers worker_id) pool worker_id

unfoldable pub fault_result :
    {R : Type 0} → Option ExecutionMode → ℕ → Option ℕ → String → BranchResult R
fault_result execution_mode worker_id worker_generation fault_kind = record {
  status = fault;
  execution_mode = execution_mode;
  worker_id = some worker_id;
  worker_generation = worker_generation;
  established_lease = none;
  fault_kind = some fault_kind;
  body = none;
}
