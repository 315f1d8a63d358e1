-- ===== src/Run/Leases.antt =====
-- Run/worker_pool.py: which worker holds which choice context, where a work item is sent, and how
-- the answers of the workers are collected. What a work item says beyond its ids and its kind is
-- the worker's business: the type `J`.
pub mod Registry
pub mod Routing
pub mod Dispatch
use sts2_rl.Prelude.{
  ℕ, zero, suc, ◌+◌, ◌%◌, ◌==◌, String, Bool, true, false, ◌&&◌, not, Option, none, some, List, [],
  ◌∷◌, Result, ok, err, str_eq, if◌then◌else◌, length, get_elem?, ℕ_discrete, ◌>>=◌, or_raise,
}
use sts2_rl.Prelude.Dict
use sts2_rl.Prelude.Dict.{Dict}
use sts2_rl.Prelude.Key.{Key, str_key, str_discrete}

-- "main" or the number of a branch worker.
pub data Slot : Type 0 where
  main : Slot
  branch : ℕ → Slot

unfoldable pub Slot-discrete : Discrete Slot
unfolding ℕ_discrete
Slot-discrete = hlevel ℕ_discrete

instance abbrev pub slot_key : Key Slot
slot_key = record { same = Slot-discrete }

abbrev pub same_slot : Slot → Slot → Bool
same_slot a b = elim (Slot-discrete a b) [ yes _ ↦ true | no _ ↦ false ]

-- The seed, which nothing here reads, is kept by its text.
pub record Lease : Type 0 where
  pub worker_slot : Slot
  pub worker_generation : ℕ
  pub pid : ℕ
  pub context_id : String
  pub combat_session_id : Option String
  pub run_seed : Option String
  pub step_signature : String

unfoldable pub Lease-discrete : Discrete Lease
unfolding str_discrete ℕ_discrete Slot-discrete
Lease-discrete = hlevel (str_discrete, ℕ_discrete, Slot-discrete)

pub data WorkKind : Type 0 where
  continuation sub_branch : WorkKind

pub data ExecutionMode : Type 0 where
  bootstrap_step holder_step : ExecutionMode

pub record ChoiceWorkItem (J : Type 0) : Type 0 where
  pub work_id : String
  pub context_id : String
  pub work_kind : WorkKind
  pub job : J

-- The leases by their context ids.
abbrev pub LeaseRegistry : Type 0
LeaseRegistry = Dict String Lease

abbrev is_continuation : WorkKind → Bool
is_continuation continuation = true
is_continuation sub_branch = false

-- `is_valid_for` with a generation, as its only caller gives it.
unfoldable pub is_valid_for : {J : Type 0} → Lease → ChoiceWorkItem J → ℕ → Bool
is_valid_for lease work_item worker_generation =
    is_continuation work_item.work_kind
    && (str_eq lease.context_id work_item.context_id
        && (lease.worker_generation == worker_generation))

unfoldable pub set : LeaseRegistry → Lease → LeaseRegistry
set leases lease = Dict.put leases lease.context_id lease

unfoldable pub invalidate : LeaseRegistry → String → LeaseRegistry
invalidate leases context_id = Dict.remove leases context_id

-- The lease goes if it is still the registered one of its context.
unfoldable pub invalidate_lease : LeaseRegistry → Lease → LeaseRegistry
invalidate_lease leases lease = elim (Dict.get leases lease.context_id) [
  | none ↦ leases
  | some current ↦ elim (Lease-discrete current lease) [
    | yes _ ↦ Dict.remove leases lease.context_id
    | no _ ↦ leases
  ]
]

-- for ctx_id, lease in list(items): if drop(lease): pop(ctx_id)
pop_where : (Lease → Bool) → List (String × Lease) → LeaseRegistry → LeaseRegistry
pop_where drop [] leases = leases
pop_where drop ((ctx_id, lease) ∷ items) leases =
    let kept = pop_where drop items leases in
    let popped = pop_where drop items (Dict.remove leases ctx_id) in
    if drop lease then popped else kept

unfoldable pub invalidate_worker_generation : LeaseRegistry → Slot → ℕ → LeaseRegistry
unfolding pop_where
invalidate_worker_generation leases slot generation =
    pop_where (λ l. same_slot l.worker_slot slot && (l.worker_generation == generation)) leases
      leases

unfoldable pub invalidate_worker_all_generations : LeaseRegistry → Slot → LeaseRegistry
unfolding pop_where
invalidate_worker_all_generations leases slot =
    pop_where (λ l. same_slot l.worker_slot slot) leases leases

-- `slot in worker_slots_holding_leases()`
unfoldable pub holds_lease : LeaseRegistry → Slot → Bool
holds_lease [] slot = false
holds_lease ((ctx_id, lease) ∷ leases) slot =
    let rest = holds_lease leases slot in if same_slot lease.worker_slot slot then true else rest

unleased : LeaseRegistry → List Slot → List Slot
unleased leases [] = []
unleased leases (s ∷ slots) =
    let rest = unleased leases slots in if holds_lease leases s then rest else s ∷ rest

abbrev or_slots : List Slot → List Slot → List Slot
or_slots [] slots = slots
or_slots (s ∷ more) slots = s ∷ more

-- A `RuntimeError` for want of a lease, or the `ZeroDivisionError` for want of a branch worker.
pub data RouteError : Type 0 where
  no_valid_lease no_branch_worker : RouteError

nth_slot : List Slot → ℕ → Result RouteError Slot
nth_slot [] next_index = err no_branch_worker
nth_slot (s ∷ slots) next_index =
    or_raise (get_elem? (s ∷ slots) (next_index % length (s ∷ slots))) no_branch_worker

unfoldable pub choose_bootstrap_slot : List Slot → LeaseRegistry → ℕ → Result RouteError (Slot × ℕ)
unfolding unleased nth_slot
choose_bootstrap_slot branch_slots leases next_index =
    nth_slot (or_slots (unleased leases branch_slots) branch_slots) next_index >>= λ chosen.
    ok (chosen, next_index + 1)

pub record Route : Type 0 where
  pub execution_mode : ExecutionMode
  pub expected_lease : Option Lease
  pub slot : Slot
  pub next_bootstrap_index : ℕ

-- What the continuation branch does with its lease and the slot it has found.
route_holder :
    {J : Type 0}
    → ChoiceWorkItem J
    → Option Lease
    → Option Slot
    → Dict Slot ℕ
    → ℕ
    → Result RouteError Route
route_holder work_item (some lease) (some slot) worker_generations next =
    elim (Dict.get worker_generations slot) [
      | none ↦ err no_valid_lease
      | some generation ↦
          if is_valid_for lease work_item generation
          then ok (record {
            execution_mode = holder_step;
            expected_lease = some lease;
            slot = slot;
            next_bootstrap_index = next;
          })
          else err no_valid_lease
    ]
route_holder work_item _ _ worker_generations next = err no_valid_lease

-- The pinned slot, or that of the lease.
abbrev pub holder_of : Option Slot → Option Lease → Option Slot
holder_of (some slot) lease = some slot
holder_of none none = none
holder_of none (some lease) = some lease.worker_slot

abbrev forget : LeaseRegistry → Option Lease → LeaseRegistry
forget leases none = leases
forget leases (some lease) = invalidate_lease leases lease

after_holder :
    LeaseRegistry → Option Lease → Result RouteError Route → Result RouteError Route × LeaseRegistry
after_holder leases lease (ok route) = (ok route, leases)
after_holder leases lease (err e) = (err e, forget leases lease)

after_choice :
    LeaseRegistry → Result RouteError (Slot × ℕ) → Result RouteError Route × LeaseRegistry
after_choice leases (err e) = (err e, leases)
after_choice leases (ok (slot, next)) = (
  ok (record {
    execution_mode = bootstrap_step;
    expected_lease = none;
    slot = slot;
    next_bootstrap_index = next;
  }),
  if holds_lease leases slot then invalidate_worker_all_generations leases slot else leases,
)

route_by :
    {J : Type 0}
    → WorkKind
    → ChoiceWorkItem J
    → LeaseRegistry
    → List Slot
    → Dict Slot ℕ
    → ℕ
    → Option Slot
    → Result RouteError Route × LeaseRegistry
unfolding route_holder after_holder after_choice
route_by continuation work_item leases branch_slots worker_generations next holder_slot =
    let lease = Dict.get leases work_item.context_id in
    after_holder leases lease
      (route_holder work_item lease (holder_of holder_slot lease) worker_generations next)
route_by sub_branch work_item leases branch_slots worker_generations next holder_slot =
    after_choice leases (choose_bootstrap_slot branch_slots leases next)

unfoldable pub route_choice_work_item :
    {J : Type 0}
    → ChoiceWorkItem J
    → LeaseRegistry
    → List Slot
    → Dict Slot ℕ
    → ℕ
    → Option Slot
    → Result RouteError Route × LeaseRegistry
unfolding route_by
route_choice_work_item work_item = route_by work_item.work_kind work_item
