-- ===== src/Api/EventRng/Examples.antt =====
-- A hypothesis of a state that is a number, for two branches.
use sts2_rl.Prelude.{ℕ, String, ◌≡◌, ◌≢◌, refl, true, false, some, List, [], ◌∷◌, ok, eq_iff}
use sts2_rl.Prelude.Dict
use sts2_rl.Prelude.Pyset
use sts2_rl.Prelude.Key.{nat_key, str_key, str_discrete}
use sts2_rl.Api.Identifiers.Hypotheses.{RngKey, rng_key, RngKey-discrete}
use sts2_rl.Api.EventRng.{
  EventRngHypothesisRegistry, is_live, commit_branch, release_branch, snapshot_generations,
  restore_generations,
}
use sts2_rl.Api.EventRng.Lifecycle.{
  IsValid, Operation, commit, release, release_decision, history, history-IsValid,
}
use sts2_rl.Api.EventRng.Undo.{IsSame, shared_hypothesis_kept, commit_undone}

abbrev key : RngKey
key = record { parent_branch_id = "root"; decision_point_id = "d-root-000001"; rng_id = 7 }

abbrev empty_registry : EventRngHypothesisRegistry ℕ
empty_registry = record { entries = []; branch_refs_by_key = []; generation_counts = [] }

abbrev shared : EventRngHypothesisRegistry ℕ
shared = record {
  entries = (key, record { state = 5; generation = 1 }) ∷ [];
  branch_refs_by_key = (key, "b" ∷ "a" ∷ []) ∷ [];
  generation_counts = (key, 1) ∷ [];
}

empty-IsValid : IsValid empty_registry
unfolding Dict.get
empty-IsValid = record { live = λ j. refl; referred = λ j h. cc h }

not_live : is_live empty_registry key ≡ false
unfolding is_live Dict.get
not_live = refl

abbrev calls : List (Operation ℕ)
calls =
    commit key 5 "a"
    ∷ commit key 6 "x"
    ∷ commit key 5 "b"
    ∷ release key "a"
    ∷ release_decision "root" "d-root-000002"
    ∷ []

history-IsValid_example : IsValid (history calls empty_registry)
history-IsValid_example = history-IsValid calls empty_registry empty-IsValid

shared_refs : Dict.get shared.branch_refs_by_key key ≡ some ("b" ∷ "a" ∷ [])
unfolding Dict.get RngKey-discrete
shared_refs = refl

has_a : Pyset.has {K = String} ("b" ∷ "a" ∷ []) "a" ≡ true
unfolding Pyset.has str_discrete
has_a = refl

abbrev a_branch : String
a_branch = "a"

b_is_not_a : "b" ≢ a_branch
b_is_not_a = λ e. cc ((eq_iff "b" "a").1 e)

shared_hypothesis_kept_example : (release_branch shared key "b").entries ≡ shared.entries
shared_hypothesis_kept_example =
    shared_hypothesis_kept shared key ("b" ∷ "a" ∷ []) "b" "a" shared_refs has_a b_is_not_a

commit_undone_example :
    (q : EventRngHypothesisRegistry ℕ) × (p : EventRngHypothesisRegistry ℕ) × (commit_branch
        empty_registry key 5 "a"
      ≡ ok q)
    × (restore_generations
          (release_branch q key "a")
          (snapshot_generations empty_registry (key ∷ []))
        ≡ (ok tt, p))
    × IsSame p empty_registry
commit_undone_example = commit_undone empty_registry key 5 "a" empty-IsValid not_live
