-- ===== src/Run/Leases/Dispatch.antt =====
-- `dispatch_choice_work_items` of Run/worker_pool.py. What the result queue gives, one message or
-- timeout after the other, is the list of events; the pool is open.
pub mod Answers
pub mod Interrupted
pub mod Complete
use sts2_rl.Prelude.{
  ℕ, ◌+◌, ◌==◌, String, Bool, true, false, not, Option, none, some, List, [], ◌∷◌, Result, ok, err,
  if◌then◌else◌,
}
use sts2_rl.Prelude.Dict
use sts2_rl.Prelude.Dict.{Dict}
use sts2_rl.Prelude.Key.{str_key}
use sts2_rl.Run.Leases.{
  Slot, main, branch, slot_key, same_slot, Lease, LeaseRegistry, ExecutionMode, ChoiceWorkItem,
  RouteError, Route, route_choice_work_item, set, invalidate, invalidate_worker_generation,
  invalidate_worker_all_generations,
}

pub record BranchResult (J : Type 0) : Type 0 where
  pub is_success : Bool
  pub work_item : ChoiceWorkItem J
  pub execution_mode : ExecutionMode
  pub worker_slot : Slot
  pub worker_generation : Option ℕ
  pub established_lease : Option Lease
  pub fault_kind : Option String

-- The slots with their workers' generations, in the order of their creation.
pub record WorkerPool : Type 0 where
  pub worker_generations : Dict Slot ℕ
  pub next_bootstrap_index : ℕ
  pub next_request_id : ℕ

abbrev is_main : Slot → Bool
is_main main = true
is_main (branch n) = false

branch_slots_of : Dict Slot ℕ → List Slot
branch_slots_of [] = []
branch_slots_of ((slot, generation) ∷ workers) =
    let rest = branch_slots_of workers in if is_main slot then rest else slot ∷ rest

unfoldable pub branch_worker_slots : WorkerPool → List Slot
unfolding branch_slots_of
branch_worker_slots pool = branch_slots_of pool.worker_generations

abbrev generation_or_zero : Option ℕ → ℕ
generation_or_zero none = 0
generation_or_zero (some n) = n

-- What waiting for the queue raises: nothing came (`queue.Empty`), a tuple of another length (a
-- `ValueError`), or the new worker's own fault (a `RuntimeError`).
pub data WaitError : Type 0 where
  no_answer bad_message did_not_start : WaitError

-- A wait is not over with the events that are given, raises with what has been changed so far, or
-- gives its value.
pub data Wait (A : Type 0) : Type 0 where
  waits : Wait A
  fails : WaitError → WorkerPool → LeaseRegistry → Wait A
  gives : A → Wait A

module _ (J : Type 0) where
  pub data Event : Type 0 where
    timed_out : Event
    answered : ℕ → BranchResult J → Event
    started startup_fault : Slot → Event

  pub data Awaited : Type 0 where
    starting : Awaited
    refused : WaitError → Awaited
    ready : List Event → Awaited

  -- `_await_ready`: a worker that has started may be another one. An answer has no four parts.
  unfoldable pub await_ready : Slot → List Event → Awaited
  await_ready slot [] = starting
  await_ready slot (timed_out ∷ events) = refused no_answer
  await_ready slot (answered request_id result ∷ events) = refused bad_message
  await_ready slot (startup_fault s ∷ events) = refused did_not_start
  await_ready slot (started s ∷ events) =
      let rest = await_ready slot events in if same_slot s slot then ready events else rest

  pub record Respawned : Type 0 where
    pub pool : WorkerPool
    pub leases : LeaseRegistry
    pub events : List Event

  respawned : Slot → ℕ → WorkerPool → LeaseRegistry → Awaited → Wait Respawned
  respawned slot old_generation pool leases starting = waits
  respawned slot old_generation pool leases (refused e) = fails e pool leases
  respawned slot old_generation pool leases (ready events) = gives (record {
    pool = pool;
    leases = invalidate_worker_generation leases slot old_generation;
    events = events;
  })

  -- The process is replaced by one of the next generation, and when that is ready, the leases of the
  -- old one are forgotten.
  unfoldable pub respawn_worker : Slot → WorkerPool → LeaseRegistry → List Event → Wait Respawned
  unfolding respawned await_ready
  respawn_worker slot pool leases events =
      let old_generation = generation_or_zero (Dict.get pool.worker_generations slot) in
      respawned slot old_generation
        (record pool {
          worker_generations = Dict.put pool.worker_generations slot (old_generation + 1);
        })
        leases (await_ready slot events)

  pub record Pending : Type 0 where
    pub request_id : ℕ
    pub work_item : ChoiceWorkItem J
    pub slot : Slot
    pub execution_mode : ExecutionMode

  abbrev cons_pending :
      Pending → Result RouteError (List Pending × ℕ) → Result RouteError (List Pending × ℕ)
  cons_pending p (err e) = err e
  cons_pending p (ok (ps, next)) = ok (p ∷ ps, next)

  -- The items are routed and submitted one after the other; the slots and generations are those of
  -- the beginning.
  unfoldable pub submit_all :
      List (ChoiceWorkItem J)
      → Dict String Slot
      → WorkerPool
      → ℕ
      → ℕ
      → LeaseRegistry
      → Result RouteError (List Pending × ℕ) × (ℕ × LeaseRegistry)
  unfolding branch_worker_slots
  submit_all [] holder_slots pool next request_id leases = (ok ([], next), (request_id, leases))
  submit_all (w ∷ work_items) holder_slots pool next request_id leases =
      let (routed, leases') =
        route_choice_work_item w leases (branch_worker_slots pool) pool.worker_generations next
          (Dict.get holder_slots w.work_id) in
      elim routed [
        | err e ↦ (err e, (request_id, leases'))
        | ok route ↦
            let (rest, after) =
              submit_all work_items holder_slots pool route.next_bootstrap_index (request_id + 1)
                leases' in
            (
              cons_pending
                  (record {
                    request_id = request_id + 1;
                    work_item = w;
                    slot = route.slot;
                    execution_mode = route.execution_mode;
                  })
                  rest,
              after,
            )
      ]

  pub record Collected : Type 0 where
    pub results_by_work_id : Dict String (BranchResult J)
    pub pool : WorkerPool
    pub leases : LeaseRegistry

  abbrev find : ℕ → List Pending → Option Pending
  find request_id [] = none
  find request_id (p ∷ ps) =
      let later = find request_id ps in if p.request_id == request_id then some p else later

  discard : ℕ → List Pending → List Pending
  discard request_id [] = []
  discard request_id (p ∷ ps) =
      let rest = discard request_id ps in if p.request_id == request_id then rest else p ∷ rest

  fault_result : Pending → Option ℕ → String → BranchResult J
  fault_result p worker_generation fault_kind = record {
    is_success = false;
    work_item = p.work_item;
    execution_mode = p.execution_mode;
    worker_slot = p.slot;
    worker_generation = worker_generation;
    established_lease = none;
    fault_kind = some fault_kind;
  }

  unfoldable pub respawn_all : List Slot → WorkerPool → LeaseRegistry → List Event → Wait Respawned
  unfolding respawn_worker
  respawn_all [] pool leases events =
      gives (record { pool = pool; leases = leases; events = events })
  respawn_all (slot ∷ slots) pool leases events = elim (respawn_worker slot pool leases events) [
    | waits ↦ waits
    | fails e pool' leases' ↦ fails e pool' leases'
    | gives r ↦ respawn_all slots r.pool r.leases r.events
  ]

  has_slot : List Slot → Slot → Bool
  has_slot [] s = false
  has_slot (t ∷ slots) s = let rest = has_slot slots s in if same_slot t s then true else rest

  -- The slots of the requests that are left, each once.
  hung_slots : List Pending → List Slot
  unfolding has_slot
  hung_slots [] = []
  hung_slots (p ∷ ps) =
      let rest = hung_slots ps in if has_slot rest p.slot then rest else p.slot ∷ rest

  -- The faults are made with the generations from before the respawns.
  fault_all :
      List Pending → Dict Slot ℕ → Dict String (BranchResult J) → Dict String (BranchResult J)
  unfolding fault_result
  fault_all [] generations results = results
  fault_all (p ∷ ps) generations results = fault_all ps generations (
      Dict.put results p.work_item.work_id
        (fault_result p (Dict.get generations p.slot) "task_timeout"))

  hung : List Pending → Collected → Wait Respawned → Wait Collected
  unfolding fault_all
  hung remaining c waits = waits
  hung remaining c (fails e pool leases) = fails e pool leases
  hung remaining c (gives r) = gives (record {
    results_by_work_id = fault_all remaining c.pool.worker_generations c.results_by_work_id;
    pool = r.pool;
    leases = r.leases;
  })

  -- What is hung gives faults, after which no request remains.
  hang : List Pending → List Event → Collected → Wait Collected
  unfolding respawn_all hung_slots hung
  hang remaining events c =
      hung remaining c (respawn_all (hung_slots remaining) c.pool c.leases events)

  -- `while remaining_request_ids`. A message for another request is discarded; one of a worker's start
  -- has no three parts.
  unfoldable pub collect : List Event → List Pending → Collected → Wait Collected
  unfolding hang discard
  collect events [] c = gives c
  collect [] (p ∷ remaining) c = waits
  collect (timed_out ∷ events) (p ∷ remaining) c = hang (p ∷ remaining) events c
  collect (started s ∷ events) (p ∷ remaining) c = fails bad_message c.pool c.leases
  collect (startup_fault s ∷ events) (p ∷ remaining) c = fails bad_message c.pool c.leases
  collect (answered request_id result ∷ events) (p ∷ remaining) c =
      elim (find request_id (p ∷ remaining)) [
        | none ↦ collect events (p ∷ remaining) c
        | some q ↦ collect events (discard request_id (p ∷ remaining)) (record c {
          results_by_work_id = Dict.put c.results_by_work_id q.work_item.work_id result;
        })
      ]

  abbrev keep_lease : Bool → Option Lease → LeaseRegistry → LeaseRegistry
  keep_lease true (some lease) leases = set leases lease
  keep_lease _ _ leases = leases

  abbrev drop_leases : Bool → Slot → LeaseRegistry → LeaseRegistry
  drop_leases true slot leases = leases
  drop_leases false slot leases = invalidate_worker_all_generations leases slot

  update_leases : BranchResult J → String → LeaseRegistry → LeaseRegistry
  update_leases result context_id leases =
      drop_leases result.is_success result.worker_slot
        (keep_lease result.is_success result.established_lease (invalidate leases context_id))

  -- The results in the order of the items; `none` is the `KeyError` for a missing one.
  unfoldable pub finish :
      List (ChoiceWorkItem J)
      → Dict String (BranchResult J)
      → LeaseRegistry
      → Option (List (BranchResult J) × LeaseRegistry)
  unfolding update_leases
  finish [] results leases = some ([], leases)
  finish (w ∷ work_items) results leases = elim (Dict.get results w.work_id) [
    | none ↦ none
    | some result ↦ elim (finish work_items results (update_leases result w.context_id leases)) [
      | none ↦ none
      | some (rest, leases') ↦ some (result ∷ rest, leases')
    ]
  ]

  pub data Dispatched : Type 0 where
    not_routed : RouteError → Dispatched
    waiting missing_result : Dispatched
    raised : WaitError → WorkerPool → LeaseRegistry → Dispatched
    finished : List (BranchResult J) → WorkerPool → LeaseRegistry → Dispatched

  finished_with : ℕ → WorkerPool → Option (List (BranchResult J) × LeaseRegistry) → Dispatched
  finished_with next pool none = missing_result
  finished_with next pool (some (results, leases)) =
      finished results (record pool { next_bootstrap_index = next }) leases

  after_collect : List (ChoiceWorkItem J) → ℕ → Wait Collected → Dispatched
  unfolding finished_with finish
  after_collect work_items next waits = waiting
  after_collect work_items next (fails e pool leases) = raised e pool leases
  after_collect work_items next (gives c) =
      finished_with next c.pool (finish work_items c.results_by_work_id c.leases)

  after_submit :
      List (ChoiceWorkItem J)
      → WorkerPool
      → List Event
      → Result RouteError (List Pending × ℕ) × (ℕ × LeaseRegistry)
      → Dispatched
  unfolding after_collect
  after_submit work_items pool events (err e, rest) = not_routed e
  after_submit work_items pool events (ok (pending, next), (request_id, leases)) =
      after_collect work_items next (
        collect events pending (record {
          results_by_work_id = [];
          pool = record pool { next_request_id = request_id };
          leases = leases;
        }))

  unfoldable pub dispatch_choice_work_items :
      List (ChoiceWorkItem J)
      → LeaseRegistry
      → WorkerPool
      → Dict String Slot
      → List Event
      → Dispatched
  unfolding after_submit submit_all
  dispatch_choice_work_items work_items leases pool holder_slots events =
      after_submit work_items pool events (
        submit_all work_items holder_slots pool pool.next_bootstrap_index pool.next_request_id
          leases)
