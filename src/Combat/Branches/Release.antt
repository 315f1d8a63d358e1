-- ===== src/Combat/Branches/Release.antt =====
-- Combat/search/branch_manager.py: releasing branches, which leaves of each its id and its links.
pub mod Modify
pub mod Ends
pub mod Refines
pub mod Close
use sts2_rl.Prelude.{
  ℕ, zero, suc, ◌+◌, String, Bool, true, false, ◌&&◌, ◌||◌, not, Option, none, some, List, [], ◌∷◌,
  Result, ok, err, if◌then◌else◌, str_eq, ◌>>=◌, map,
}
use sts2_rl.Prelude.Dict
use sts2_rl.Prelude.Dict.{Dict}
use sts2_rl.Prelude.Totals
use sts2_rl.Prelude.Key.{str_key}
use sts2_rl.Combat.Pool.{BranchError, unknown_branch, too_many_rounds}
use sts2_rl.Combat.Branches.{
  BranchState, queued, running, completed, cancelled, faulted, released, is_released, BranchRecord,
  BranchManager, Records, update,
}
use sts2_rl.Combat.Branches.Cancel.{cancel_one, cancel_branches, established, forget}

-- `list.remove` with its `ValueError` passed over: the first one goes.
unfoldable pub remove_first : List String → String → List String
remove_first [] id = []
remove_first (c ∷ cs) id = if str_eq c id then cs else c ∷ remove_first cs id

abbrev pub is_leaf : List String → Bool
is_leaf [] = true
is_leaf (c ∷ cs) = false

-- `_TERMINAL_STATES`
abbrev pub is_terminal : BranchState → Bool
is_terminal queued = false
is_terminal running = false
is_terminal _ = true

abbrev pub parent_count : Option String → ℕ
parent_count none = 0
parent_count (some parent) = 1

module _ {J R : Type 0} where
  -- A change of a record, which every place that holds it sees.
  unfoldable pub modify : String → (BranchRecord J R → BranchRecord J R) → Records J R → Records J R
  modify id f records = elim (Dict.get records id) [
    | none ↦ records
    | some r ↦ Dict.put records id (f r)
  ]

  abbrev pub orphan : BranchRecord J R → BranchRecord J R
  orphan r = record r { parent_branch_id = none }

  abbrev pub without_child : String → BranchRecord J R → BranchRecord J R
  without_child id r = record r { child_branch_ids = remove_first r.child_branch_ids id }

  -- The parent that the loop goes on with.
  abbrev pub parent_of : BranchRecord J R → Option String
  parent_of r =
      if is_released r.state && is_leaf r.child_branch_ids then r.parent_branch_id else none

  -- `_prune_released_leaf_from_parent`, with a number of rounds.
  unfoldable pub prune : ℕ → String → Records J R → Result BranchError (Records J R)
  unfolding modify
  prune zero id records = err too_many_rounds
  prune (suc rounds) id records = elim (Dict.get records id) [
    | none ↦ err (unknown_branch id)
    | some r ↦ elim (parent_of r) [
      | none ↦ ok records
      | some parent ↦ elim (Dict.get records parent) [
        | none ↦ ok (modify id orphan records)
        | some p ↦ prune rounds parent (modify id orphan (modify parent (without_child id) records))
      ]
    ]
  ]

  abbrev is_retained : Option (BranchRecord J R) → Bool
  is_retained none = false
  is_retained (some r) = not (is_released r.state) || not (is_leaf r.child_branch_ids)

  unfoldable pub retained : Records J R → List String → List String
  retained records [] = []
  retained records (c ∷ cs) =
      let rest = retained records cs in if is_retained (Dict.get records c) then c ∷ rest else rest

  abbrev pub emptied : BranchRecord J R → BranchRecord J R
  emptied r = record r {
    work_item = none;
    worker_id = none;
    worker_generation = none;
    request_id = none;
    execution_mode = none;
    result = none;
  }

  abbrev pub with_children : List String → BranchRecord J R → BranchRecord J R
  with_children cs r = record r { child_branch_ids = cs }

  unfoldable pub has_parent : String → BranchRecord J R → ℕ
  has_parent id r = parent_count r.parent_branch_id

  -- A round takes a parent away from a record.
  unfoldable pub prune_all : String → Records J R → Result BranchError (Records J R)
  unfolding prune Totals.total has_parent
  prune_all id records = prune (Totals.total has_parent records + 1) id records

  -- `_compact_released_record`
  unfoldable pub compact :
      String → BranchRecord J R → Records J R → Result BranchError (Records J R)
  unfolding prune_all retained modify
  compact id r records =
      let dropped = modify id emptied records in
      prune_all id (modify id (with_children (retained dropped r.child_branch_ids)) dropped)

  abbrev pub release_record : BranchRecord J R → BranchRecord J R
  release_record r = record r { state = released }

  unfoldable pub with_records : BranchManager J R → Records J R → BranchManager J R
  with_records m records = record m { records = records }

  -- A branch that is not released is given up first: cancelled, or only without its lease.
  unfoldable pub give_up :
      BranchManager J R
      → String
      → BranchRecord J R
      → Result BranchError BranchState × BranchManager J R
  unfolding forget cancel_one
  give_up m id r =
      if is_terminal r.state
      then (ok r.state, record m { leases = forget m.leases (established r.result) })
      else cancel_one m id r

  unfoldable pub mark_released :
      BranchManager J R
      → String
      → BranchRecord J R
      → Result BranchError (Unit {0}) × BranchManager J R
  unfolding give_up modify with_records
  mark_released m id r =
      if is_released r.state
      then (ok tt, m)
      else let (answer, m') = give_up m id r in
        elim answer [
          | err e ↦ (err e, m')
          | ok state ↦ (ok tt, with_records m' (modify id release_record m'.records))
        ]

  -- The round of `release_branches` for one branch.
  unfoldable pub release_one :
      BranchManager J R
      → String
      → BranchRecord J R
      → Result BranchError (Unit {0}) × BranchManager J R
  unfolding mark_released compact with_records
  release_one m id r =
      let (answer, m') = mark_released m id r in
      elim answer [
        | err e ↦ (err e, m')
        | ok done ↦ elim (compact id r m'.records) [
          | err e ↦ (err e, m')
          | ok records ↦ (ok tt, with_records m' records)
        ]
      ]

  -- The statuses, all of them `released`, from those that there are.
  unfoldable pub release_from :
      Dict String BranchState
      → BranchManager J R
      → List String
      → Result BranchError (Dict String BranchState) × BranchManager J R
  unfolding release_one
  release_from statuses m [] = (ok statuses, m)
  release_from statuses m (id ∷ ids) = elim (Dict.get m.records id) [
    | none ↦ (err (unknown_branch id), m)
    | some r ↦
        let (answer, m') = release_one m id r in
        elim answer [
          | err e ↦ (err e, m')
          | ok done ↦ release_from (Dict.put statuses id released) m' ids
        ]
  ]

  unfoldable pub release_branches :
      BranchManager J R
      → List String
      → Result BranchError (Dict String BranchState) × BranchManager J R
  unfolding release_from
  release_branches m ids = release_from [] m ids

  unfoldable pub close_all : BranchManager J R → Result BranchError (Unit {0}) × BranchManager J R
  unfolding cancel_branches release_branches
  close_all m =
      let ids = map (λ e. e.0) m.records in
      let (visited, m') = cancel_branches m ids in
      elim visited [
        | err e ↦ (err e, m')
        | ok states ↦
            let (statuses, m'') = release_branches m' ids in
            elim statuses [ err e ↦ (err e, m'') | ok states' ↦ (ok tt, m'') ]
      ]
