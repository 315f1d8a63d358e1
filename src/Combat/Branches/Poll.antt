-- ===== src/Combat/Branches/Poll.antt =====
-- Combat/search/branch_manager.py: `poll`, over the list of what the result queue gives: a result, or
-- nothing until the time that is then read. The time that is read after a request was submitted is the
-- parameter `submitted_at`. A result holds no work item here, so that giving it back the caller's own
-- changes nothing.
pub mod Exclusive
pub mod Tracks
pub mod Steps
pub mod Ends
pub mod Admits
pub mod Events
pub mod Complete
pub mod Examples
use sts2_rl.Prelude.{
  ℕ, ◌+◌, ◌==◌, String, Bool, true, false, ◌&&◌, Option, none, some, List, [], ◌∷◌, Result, ok, err,
  if◌then◌else◌, ◌>>=◌, leb,
}
use sts2_rl.Prelude.Dict
use sts2_rl.Prelude.Dict.{Dict}
use sts2_rl.Prelude.Key.{str_key, nat_key}
use sts2_rl.Api.Dto.{member}
use sts2_rl.Combat.Pool.{
  WorkItem, BranchResult, BranchError, unknown_branch, unknown_worker, unknown_request, not_queued,
  no_work_item, bad_timeout, nothing_routed, fault_result, respawn_worker, Pool, LeaseRegistry,
}
use sts2_rl.Combat.Branches.{BranchState, is_dropped, BranchRecord, BranchManager, Records, finish}
use sts2_rl.Combat.Branches.Cancel.{cancel_branches}
use sts2_rl.Combat.Branches.Release.{release_branches}
use sts2_rl.Combat.Branches.Dispatch.{Poll, Step, and_then, is_queued, dispatch_available}

pub data Event (R : Type 0) : Type 0 where
  received : ℕ → BranchResult R → Event R
  timed_out : ℕ → Event R

unfoldable pub expired : Dict ℕ ℕ → ℕ → List ℕ
expired [] now = []
expired ((w, deadline) ∷ deadlines) now =
    let rest = expired deadlines now in if leb deadline now then w ∷ rest else rest

-- What `poll` gives: the results, or nothing while it waits for more than the events that are given.
abbrev pub Polled : Type 0 → Type 0 → Type 0
Polled J R = Result BranchError (Option (Dict String (BranchResult R))) × BranchManager J R

abbrev pub is_empty {ℓ} : {A : Type ℓ} → List A → Bool
is_empty [] = true
is_empty (x ∷ xs) = false

abbrev pub start : {R : Type 0} → List String → Poll R
start ids = record {
  waiting = ids;
  running_by_request = [];
  request_workers = [];
  worker_requests = [];
  worker_deadlines = [];
  results = [];
}

-- The request is over, and its worker is free.
unfoldable pub settle : {R : Type 0} → ℕ → ℕ → Poll R → Poll R
settle request_id worker_id p = record p {
  running_by_request = Dict.remove p.running_by_request request_id;
  request_workers = Dict.remove p.request_workers request_id;
  worker_requests = Dict.remove p.worker_requests worker_id;
  worker_deadlines = Dict.remove p.worker_deadlines worker_id;
}

unfoldable pub first_error :
    Result BranchError (Dict String BranchState)
    → Result BranchError (Dict String BranchState)
    → BranchError
    → BranchError
first_error cancelling (err e) raised = e
first_error (err e) (ok out) raised = e
first_error (ok visited) (ok out) raised = raised

module _ {J R : Type 0} where
  queued_ids : Records J R → List String
  queued_ids [] = []
  queued_ids ((id, r) ∷ records) =
      let rest = queued_ids records in if is_queued r.state then id ∷ rest else rest

  unfoldable pub check_queued : String → Option (BranchRecord J R) → Result BranchError (Unit {0})
  check_queued id none = err (unknown_branch id)
  check_queued id (some r) = if is_queued r.state then ok tt else err (not_queued id)

  unfoldable pub check_ids :
      Records J R → List String → List String → Result BranchError (List String)
  unfolding check_queued
  check_ids records seen [] = ok []
  check_ids records seen (id ∷ ids) = elim (member id seen) [
    | true ↦ check_ids records seen ids
    | false ↦ check_queued id (Dict.get records id) >>= λ _.
        check_ids records (id ∷ seen) ids >>= λ rest. ok (id ∷ rest)
  ]

  unfoldable pub poll_branch_ids :
      Records J R → Option (List String) → Result BranchError (List String)
  unfolding queued_ids check_ids
  poll_branch_ids records none = ok (queued_ids records)
  poll_branch_ids records (some ids) = check_ids records [] ids

  unfoldable pub forget_branch : ℕ → BranchManager J R → BranchManager J R
  forget_branch request_id m = record m {
    branch_by_request = Dict.remove m.branch_by_request request_id;
  }

  unfoldable pub finished :
      Result BranchError (BranchManager J R)
      → String
      → BranchResult R
      → Poll R
      → BranchManager J R
      → Step J R
  finished (err e) id result p m = (err e, m)
  finished (ok m') id result p m = (ok (record p { results = Dict.put p.results id result }), m')

  unfoldable pub fault_of :
      Result BranchError (Pool × LeaseRegistry)
      → ℕ
      → String
      → BranchRecord J R
      → Poll R
      → BranchManager J R
      → Step J R
  unfolding finished finish fault_result
  fault_of (err e) worker_id id r p m = (err e, m)
  fault_of (ok (pool, leases)) worker_id id r p m =
      let fault =
        fault_result r.execution_mode worker_id (Dict.get m.pool.workers worker_id)
          "task_timeout" in
      let m' = record m { pool = pool; leases = leases } in
      finished (finish m' id r fault) id fault p m'

  unfoldable pub time_out :
      Option (WorkItem J) → ℕ → String → BranchRecord J R → Poll R → BranchManager J R → Step J R
  unfolding fault_of
  time_out none worker_id id r p m = (err (no_work_item id), m)
  time_out (some work_item) worker_id id r p m =
      fault_of (respawn_worker m.pool m.leases worker_id) worker_id id r p m

  unfoldable pub expire_one : ℕ → ℕ → String → Poll R → BranchManager J R → Step J R
  unfolding settle forget_branch time_out
  expire_one worker_id request_id id p m =
      let p' = settle request_id worker_id p in
      let m' = forget_branch request_id m in
      elim (Dict.get m'.records id) [
        | none ↦ (err (unknown_branch id), m')
        | some r ↦ elim (is_dropped r.state) [
          | true ↦ (ok p', m')
          | false ↦ time_out r.work_item worker_id id r p' m'
        ]
      ]

  unfoldable pub expire : List ℕ → Poll R → BranchManager J R → Step J R
  unfolding and_then expire_one
  expire [] p m = (ok p, m)
  expire (w ∷ ws) p m = elim (Dict.get p.worker_requests w) [
    | none ↦ (err (unknown_worker w), m)
    | some request_id ↦ elim (Dict.get p.running_by_request request_id) [
      | none ↦ (err (unknown_request request_id), m)
      | some id ↦ and_then (expire_one w request_id id p m) (λ p' m'. expire ws p' m')
    ]
  ]

  unfoldable pub receive_one :
      ℕ → ℕ → String → BranchResult R → Poll R → BranchManager J R → Step J R
  unfolding settle forget_branch finished finish
  receive_one worker_id request_id id result p m =
      let p' = settle request_id worker_id p in
      let m' = forget_branch request_id m in
      elim (Dict.get m'.records id) [
        | none ↦ (err (unknown_branch id), m')
        | some r ↦ elim (is_dropped r.state) [
          | true ↦ (ok p', m')
          | false ↦ finished (finish m' id r result) id result p' m'
        ]
      ]

  unfoldable pub known_of : Records J R → List String → List String
  known_of records [] = []
  known_of records (id ∷ ids) = elim (Dict.get records id) [
    | none ↦ known_of records ids
    | some r ↦ id ∷ known_of records ids
  ]

  -- `_quarantine_poll_branches`, and the error that is then seen.
  unfoldable pub quarantine :
      List String → BranchError → BranchManager J R → BranchError × BranchManager J R
  unfolding cancel_branches release_branches known_of first_error
  quarantine ids raised m = elim (known_of m.records ids) [
    | [] ↦ (raised, m)
    | id ∷ rest ↦
        let (cancelling, m') = cancel_branches m (id ∷ rest) in
        let (releasing, m'') = release_branches m' (id ∷ rest) in
        (first_error cancelling releasing raised, m'')
  ]

module _ {J R : Type 0} (deadline : ℕ → ℕ) where
  unfoldable pub receive : ℕ → BranchResult R → Poll R → BranchManager J R → Step J R
  unfolding and_then receive_one dispatch_available
  receive request_id result p m = elim (Dict.get p.running_by_request request_id) [
    | none ↦ (ok p, m)
    | some id ↦ elim (Dict.get p.request_workers request_id) [
      | none ↦ (err (unknown_request request_id), m)
      | some w ↦
          and_then (receive_one w request_id id result p m)
            (λ p' m'. dispatch_available deadline p' m')
    ]
  ]

  unfoldable pub handle : Event R → Poll R → BranchManager J R → Step J R
  unfolding receive expire expired and_then dispatch_available
  handle (received request_id result) p m = receive request_id result p m
  handle (timed_out now) p m =
      and_then (expire (expired p.worker_deadlines now) p m)
        (λ p' m'. dispatch_available deadline p' m')

  -- With no live request every worker is free, and a branch that waits must be sent.
  unfoldable pub ensure_running : Poll R → BranchManager J R → Step J R
  unfolding and_then dispatch_available
  ensure_running p m =
      if is_empty p.running_by_request
      then and_then (dispatch_available deadline p m) (λ p' m'.
        if is_empty p'.running_by_request then (err nothing_routed, m') else (ok p', m'))
      else (ok p, m)

  unfoldable pub poll_loop : List (Event R) → Poll R → BranchManager J R → Polled J R
  unfolding ensure_running handle and_then
  poll_loop [] p m =
      if is_empty p.waiting && is_empty p.running_by_request
      then (ok (some p.results), m)
      else and_then (ensure_running p m) (λ p' m'. (ok none, m'))
  poll_loop (event ∷ events) p m = elim (is_empty p.waiting && is_empty p.running_by_request) [
    | true ↦ (ok (some p.results), m)
    | false ↦
        and_then (ensure_running p m)
          (λ p' m'. and_then (handle event p' m') (λ p'' m''. poll_loop events p'' m''))
  ]

  unfoldable pub poll_all : List (Event R) → List String → BranchManager J R → Polled J R
  unfolding poll_loop dispatch_available and_then
  poll_all events ids m =
      and_then (dispatch_available deadline (start ids) m) (λ p' m'. poll_loop events p' m')

module _ {J R : Type 0} where
  unfoldable pub guarded : List String → Polled J R → Polled J R
  unfolding quarantine
  guarded ids (ok answer, m) = (ok answer, m)
  guarded ids (err e, m) = let (raised, m') = quarantine ids e m in (err raised, m')

  unfoldable pub poll :
      ℕ → (ℕ → ℕ) → List (Event R) → Option (List String) → BranchManager J R → Polled J R
  unfolding poll_branch_ids poll_all guarded
  poll timeout submitted_at events branch_ids m =
      if leb timeout 0 then (err bad_timeout, m) else elim (poll_branch_ids m.records branch_ids) [
        | err e ↦ (err e, m)
        | ok ids ↦
            guarded ids (poll_all (λ request_id. submitted_at request_id + timeout) events ids m)
      ]
