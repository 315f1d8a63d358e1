-- ===== src/Api/Identifiers/Hypotheses.antt =====
-- `RngHypothesisTable` of API/identifiers.py. A validated `rng_id` and a rollback marker, which
-- is a length, are natural numbers.
pub mod Numbering
pub mod Rollback
use sts2_rl.Prelude.{
  ℕ, zero, suc, ◌+◌, ◌-◌, String, Bool, true, false, Option, none, some, List, [], ◌∷◌, Result, ok,
  ℕ_discrete, err, ltb, ◌==◌, if◌then◌else◌, length,
}
use sts2_rl.Prelude.Dict
use sts2_rl.Prelude.Dict.{Dict}
use sts2_rl.Prelude.Key.{Key, str_discrete}

pub record RngKey : Type 0 where
  pub parent_branch_id : String
  pub decision_point_id : String
  pub rng_id : ℕ

pub record ParentDecisionKey : Type 0 where
  pub parent_branch_id : String
  pub decision_point_id : String

unfoldable pub RngKey-discrete : Discrete RngKey
unfolding str_discrete ℕ_discrete
RngKey-discrete = hlevel (str_discrete, ℕ_discrete)

unfoldable pub ParentDecisionKey-discrete : Discrete ParentDecisionKey
unfolding str_discrete
ParentDecisionKey-discrete = hlevel str_discrete

instance abbrev pub rng_key : Key RngKey
rng_key = record { same = RngKey-discrete }

instance abbrev pub parent_decision_key : Key ParentDecisionKey
parent_decision_key = record { same = ParentDecisionKey-discrete }

pub record RngHypothesisTable : Type 0 where
  pub index_by_key : Dict RngKey ℕ
  pub next_index : Dict ParentDecisionKey ℕ

abbrev pub empty_table : RngHypothesisTable
empty_table = record { index_by_key = []; next_index = [] }

abbrev pub parent_of : RngKey → ParentDecisionKey
parent_of k = record {
  parent_branch_id = k.parent_branch_id;
  decision_point_id = k.decision_point_id;
}

-- `self._next_index_by_parent_decision.get(key, 0)`
abbrev pub or_zero : Option ℕ → ℕ
or_zero none = 0
or_zero (some n) = n

allocate : Option ℕ → RngHypothesisTable → RngKey → ℕ × RngHypothesisTable
allocate (some index) t k = (index, t)
allocate none t k =
    let next = or_zero (Dict.get t.next_index (parent_of k)) in
    (
      next,
      record {
        index_by_key = Dict.put t.index_by_key k next;
        next_index = Dict.put t.next_index (parent_of k) (next + 1);
      },
    )

unfoldable pub hypothesis_index_for : RngHypothesisTable → RngKey → ℕ × RngHypothesisTable
unfolding allocate
hypothesis_index_for t k = allocate (Dict.get t.index_by_key k) t k

-- The allocations of a batch, in their order.
unfoldable pub allocate_all : RngHypothesisTable → List RngKey → RngHypothesisTable
allocate_all t [] = t
allocate_all t (k ∷ ks) = allocate_all (hypothesis_index_for t k).1 ks

unfoldable pub snapshot : RngHypothesisTable → ℕ
snapshot t = length t.index_by_key

-- `dict.popitem()`: the newest entry and the rest. The caller has seen that there is one.
unfoldable pub popitem : Dict RngKey ℕ → Option ((RngKey × ℕ) × Dict RngKey ℕ)
popitem [] = none
popitem (e ∷ m) = elim (popitem m) [
  | none ↦ some (e, [])
  | some (last, rest) ↦ some (last, e ∷ rest)
]

-- One round of the loop of `restore`.
rewind : Option ((RngKey × ℕ) × Dict RngKey ℕ) → RngHypothesisTable → RngHypothesisTable
rewind none t = t
rewind (some ((k, index), rest)) t = record {
  index_by_key = rest;
  next_index =
      if index == 0
      then Dict.remove t.next_index (parent_of k)
      else Dict.put t.next_index (parent_of k) index;
}

undo : RngHypothesisTable → RngHypothesisTable
unfolding popitem rewind
undo t = rewind (popitem t.index_by_key) t

-- `while len(self._index_by_key) > snapshot`: each round removes one entry, so the difference of
-- the lengths is the number of rounds.
undo_all : ℕ → RngHypothesisTable → RngHypothesisTable
unfolding undo
undo_all zero t = t
undo_all (suc n) t = undo_all n (undo t)

pub data RollbackError : Type 0 where
  outside_history : RollbackError

unfoldable pub restore : RngHypothesisTable → ℕ → Result RollbackError RngHypothesisTable
unfolding undo_all
restore t marker =
    if ltb (length t.index_by_key) marker
    then err outside_history
    else ok (undo_all (length t.index_by_key - marker) t)
