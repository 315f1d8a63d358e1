-- ===== src/Combat/Branches/Dispatch.antt =====
-- Combat/search/branch_manager.py: `_dispatch_available` of `poll`, which gives every free worker a
-- waiting branch. The deadline of a request, which is
-- the time that is read after it was submitted with the timeout added, is the parameter `deadline`.
pub mod Exclusive
pub mod Counts
pub mod Ends
use sts2_rl.Prelude.{
  ℕ, zero, suc, ◌+◌, ◌==◌, String, Bool, true, false, ◌&&◌, ◌||◌, not, Option, none, some, List, [],
  ◌∷◌, Result, ok, err, if◌then◌else◌, length,
}
use sts2_rl.Prelude.Dict
use sts2_rl.Prelude.Dict.{Dict}
use sts2_rl.Prelude.Key.{str_key, nat_key}
use sts2_rl.Combat.Pool.{
  Lease, LeaseRegistry, WorkItem, BranchResult, Route, lease_of, lease_holds, route_work_item,
  submit, Pool, worker_ids, BranchError, unknown_branch, no_work_item, unroutable, too_many_rounds,
}
use sts2_rl.Combat.Branches.{BranchState, queued, running, BranchRecord, BranchManager}
use sts2_rl.Combat.Branches.Release.{remove_first}

-- The local tables of `poll`.
pub record Poll (R : Type 0) : Type 0 where
  pub waiting : List String
  pub running_by_request : Dict ℕ String
  pub request_workers : Dict ℕ ℕ
  pub worker_requests : Dict ℕ ℕ
  pub worker_deadlines : Dict ℕ ℕ
  pub results : Dict String (BranchResult R)

-- The rest of a statement that may have raised, which finds the manager as it was left.
unfoldable pub and_then {ℓ} :
    {A B : Type 0} {M : Type ℓ}
    → Result BranchError A × M
    → (A → M → Result BranchError B × M)
    → Result BranchError B × M
and_then (err e, m) next = (err e, m)
and_then (ok a, m) next = next a m

unfoldable pub elem : ℕ → List ℕ → Bool
elem w [] = false
elem w (v ∷ ws) = w == v || elem w ws

abbrev pub has_key : Option ℕ → Bool
has_key none = false
has_key (some request_id) = true

unfoldable pub free_of : Dict ℕ ℕ → List ℕ → List ℕ
free_of worker_requests [] = []
free_of worker_requests (w ∷ ws) =
    let rest = free_of worker_requests ws in
    if has_key (Dict.get worker_requests w) then rest else w ∷ rest

abbrev pub is_queued : BranchState → Bool
is_queued queued = true
is_queued _ = false

-- Its lease is valid, and the holder is busy.
is_busy : {J : Type 0} → WorkItem J → Option Lease → Dict ℕ ℕ → List ℕ → Bool
is_busy work_item none generations free = false
is_busy work_item (some lease) generations free =
    lease_holds work_item lease (Dict.get generations lease.worker_id)
    && not (elem lease.worker_id free)

unfoldable pub is_deferred : {J : Type 0} → WorkItem J → LeaseRegistry → Dict ℕ ℕ → List ℕ → Bool
unfolding is_busy
is_deferred work_item leases generations free =
    is_busy work_item (lease_of work_item work_item.work_kind leases) generations free

unfoldable pub started : {R : Type 0} → (ℕ → ℕ) → String → ℕ → ℕ → Poll R → Poll R
started deadline id request_id worker_id p = record p {
  waiting = remove_first p.waiting id;
  running_by_request = Dict.put p.running_by_request request_id id;
  request_workers = Dict.put p.request_workers request_id worker_id;
  worker_requests = Dict.put p.worker_requests worker_id request_id;
  worker_deadlines = Dict.put p.worker_deadlines worker_id (deadline request_id);
}

abbrev pub Scan : Type 0 → Type 0 → Type 0
Scan J R = Result BranchError (Bool × Poll R) × BranchManager J R

abbrev pub Step : Type 0 → Type 0 → Type 0
Step J R = Result BranchError (Poll R) × BranchManager J R

unfoldable pub running_record :
    {J R : Type 0} → BranchRecord J R → ℕ → Route → Pool → BranchRecord J R
running_record r request_id route pool = record r {
  state = running;
  worker_id = some route.worker_id;
  worker_generation = Dict.get pool.workers route.worker_id;
  request_id = some request_id;
  execution_mode = some route.execution_mode;
}

module _ {J R : Type 0} (deadline : ℕ → ℕ) where
  unfoldable pub send :
      Result BranchError (ℕ × Pool)
      → String
      → BranchRecord J R
      → Route
      → LeaseRegistry
      → Poll R
      → BranchManager J R
      → Scan J R
  unfolding running_record started
  send (err e) id r route leases p m = (err e, m)
  send (ok (request_id, pool)) id r route leases p m = (
    ok (true, started deadline id request_id route.worker_id p),
    record m {
      pool = pool;
      leases = leases;
      next_bootstrap_index = route.next_bootstrap_index;
      records = Dict.put m.records id (running_record r request_id route pool);
      branch_by_request = Dict.put m.branch_by_request request_id id;
    },
  )

  -- Where routing or submitting raises, the leases and the index are put back.
  unfoldable pub dispatch_routed :
      Result BranchError Route × LeaseRegistry
      → List ℕ
      → String
      → BranchRecord J R
      → Poll R
      → BranchManager J R
      → Scan J R
  unfolding send
  dispatch_routed (err e, leases) free id r p m = (err e, m)
  dispatch_routed (ok route, leases) free id r p m =
      if elem route.worker_id free
      then send (submit m.pool route.worker_id) id r route leases p m
      else (err unroutable, m)

  -- The scan of the branches that wait, which ends with the first one that is sent.
  unfoldable pub scan : List String → List ℕ → Poll R → BranchManager J R → Scan J R
  unfolding dispatch_routed is_deferred
  scan [] free p m = (ok (false, p), m)
  scan (id ∷ ids) free p m = elim (Dict.get m.records id) [
    | none ↦ (err (unknown_branch id), m)
    | some r ↦ elim (is_queued r.state) [
      | false ↦ scan ids free (record p { waiting = remove_first p.waiting id }) m
      | true ↦ elim r.work_item [
        | none ↦ (err (no_work_item id), m)
        | some work_item ↦ elim (is_deferred work_item m.leases m.pool.workers free) [
          | true ↦ scan ids free p m
          | false ↦
              dispatch_routed
                (route_work_item work_item m.leases free m.pool.workers m.next_bootstrap_index) free
                id r p m
        ]
      ]
    ]
  ]

  -- `while waiting`, with a number of rounds.
  unfoldable pub dispatch_rounds : ℕ → Poll R → BranchManager J R → Step J R
  unfolding and_then scan free_of
  dispatch_rounds zero p m = (err too_many_rounds, m)
  dispatch_rounds (suc rounds) p m = elim p.waiting [
    | [] ↦ (ok p, m)
    | id ∷ ids ↦ elim (free_of p.worker_requests (worker_ids m.pool)) [
      | [] ↦ (ok p, m)
      | w ∷ ws ↦
          and_then (scan p.waiting (w ∷ ws) p m)
            (λ s m'. elim s.0 [ false ↦ (ok s.1, m') | true ↦ dispatch_rounds rounds s.1 m' ])
    ]
  ]

  -- A round sends a branch and takes it from those that wait.
  unfoldable pub dispatch_available : Poll R → BranchManager J R → Step J R
  unfolding dispatch_rounds
  dispatch_available p m = dispatch_rounds (length p.waiting + 1) p m
