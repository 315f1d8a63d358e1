-- ===== src/Combat/Aggregation.antt =====
-- Combat/search/fault_taxonomy.py: the aggregation of a plain round's results, and the commit
-- decision; the one over hypotheses is in Rounds. The numbers of Python are the parameter `floats`;
-- a score is never NaN. An entry that is FinalSuccess has a score, which its constructor checks. The
-- diagnostics are left out.
pub mod Best
pub mod Rounds
pub mod Commit
pub mod Counting
pub mod Samples
pub mod Coverage
pub mod Examples
use sts2_rl.Prelude.{
  ℕ, ◌-◌, ◌==◌, String, Bool, true, false, ◌&&◌, ◌||◌, not, Option, none, some, List, [], ◌∷◌,
  Result, ok, err, if◌then◌else◌, length, map, str_eq, ltb, ◌>>=◌, raise_if,
}
use sts2_rl.Prelude.Dict
use sts2_rl.Prelude.Dict.{Dict}
use sts2_rl.Prelude.Key.{str_key}
use sts2_rl.Api.Dto.{member}
use sts2_rl.Api.Masking.Keys.{codes}

pub record Floats : Type 1 where
  pub Score : Type 0
  pub less : Score → Score → Bool
  pub zero_score : Score
  pub plus : Score → Score → Score
  pub times : ℕ → Score → Score
  pub over : Score → ℕ → Score
  pub Fraction : Type 0
  pub in_unit : Fraction → Bool
  pub ceil_share : ℕ → Fraction → ℕ

unfoldable pub codes_lt : List ℕ → List ℕ → Bool
codes_lt [] [] = false
codes_lt [] (b ∷ bs) = true
codes_lt (a ∷ rest) [] = false
codes_lt (a ∷ rest) (b ∷ bs) = ltb a b || (a == b && codes_lt rest bs)

-- Texts by their code points.
unfoldable pub text_lt : String → String → Bool
unfolding codes_lt
text_lt s t = codes_lt (codes s) (codes t)

-- `sorted`, by what comes first.
unfoldable pub insert_by : {A : Type 0} → (A → A → Bool) → A → List A → List A
insert_by lt x [] = x ∷ []
insert_by lt x (y ∷ ys) = if lt y x then y ∷ insert_by lt x ys else x ∷ y ∷ ys

unfoldable pub sort_by : {A : Type 0} → (A → A → Bool) → List A → List A
unfolding insert_by
sort_by lt [] = []
sort_by lt (x ∷ xs) = insert_by lt x (sort_by lt xs)

pub data AggregationError : Type 0 where
  bad_fraction no_semantic_action : AggregationError
  non_final : List String → AggregationError
  empty_max : String → AggregationError

pub data WorkItemState (S : Type 0) : Type 0 where
  running retrying final_fault : WorkItemState S
  final_success : S → WorkItemState S

abbrev pub is_final : {S : Type 0} → WorkItemState S → Bool
is_final running = false
is_final retrying = false
is_final _ = true

abbrev pub is_nil {ℓ} : {A : Type ℓ} → List A → Bool
is_nil [] = true
is_nil (x ∷ xs) = false

module _ (floats : Floats) (A G : Type 0) where
  pub record Entry : Type 0 where
    pub status : String
    pub root_action_key : String
    pub hypothesis_id : Option String
    pub work_id : String
    pub work_item_state : WorkItemState floats.Score
    pub semantic_action : Option A
    pub target_index : Option ℕ
    pub target_enemy_index : Option ℕ
    pub result_signature : Option G

  -- A successful entry with its score.
  abbrev pub Sample : Type 0
  Sample = floats.Score × Entry

  pub record RootActionAggregation : Type 0 where
    pub root_action_key : String
    pub aggregate_score : floats.Score
    pub representative_entry : Entry
    pub valid_sample_count : ℕ
    pub total_hypotheses : ℕ
    pub missing_sample_count : ℕ
    pub filled_score : Option floats.Score

  pub record AggregationResult : Type 0 where
    pub viable_actions : List RootActionAggregation
    pub best_action : Option RootActionAggregation

  non_final_ids : List Entry → List String
  non_final_ids [] = []
  non_final_ids (e ∷ entries) =
      let rest = non_final_ids entries in
      if is_final e.work_item_state then rest else e.work_id ∷ rest

  unfoldable pub require_final : List Entry → Result AggregationError (Unit {0})
  unfolding non_final_ids
  require_final entries =
      let ids = non_final_ids entries in if is_nil ids then ok tt else err (non_final ids)

  unfoldable pub add_success : WorkItemState floats.Score → Entry → List Sample → List Sample
  add_success (final_success score) e samples =
      if str_eq e.status "success" then (score, e) ∷ samples else samples
  add_success _ e samples = samples

  unfoldable pub success_entries : List Entry → List Sample
  unfolding add_success
  success_entries [] = []
  success_entries (e ∷ entries) = add_success e.work_item_state e (success_entries entries)

  abbrev pub first : List RootActionAggregation → Option RootActionAggregation
  first [] = none
  first (x ∷ xs) = some x

  abbrev pub result_of : List RootActionAggregation → AggregationResult
  result_of viable = record { viable_actions = viable; best_action = first viable }

  -- `(-float(score), root_action_key, work_id)`
  unfoldable pub plain_lt : Sample → Sample → Bool
  unfolding text_lt
  plain_lt (s, d) (t, e) =
      floats.less t s
      || (not (floats.less s t)
          && (text_lt d.root_action_key e.root_action_key
              || (not (text_lt e.root_action_key d.root_action_key)
                  && text_lt d.work_id e.work_id)))

  abbrev pub plain_action : Sample → RootActionAggregation
  plain_action (s, e) = record {
    root_action_key = e.root_action_key;
    aggregate_score = s;
    representative_entry = e;
    valid_sample_count = 1;
    total_hypotheses = 1;
    missing_sample_count = 0;
    filled_score = none;
  }

  unfoldable pub aggregate_plain_results : List Entry → Result AggregationError AggregationResult
  unfolding require_final success_entries plain_lt sort_by
  aggregate_plain_results entries = require_final entries >>= λ _.
      ok (result_of (map plain_action (sort_by plain_lt (success_entries entries))))

  pub record PlannedStep : Type 0 where
    pub semantic_action : A
    pub target_index : Option ℕ
    pub target_enemy_index : Option ℕ
    pub expected_signature : Option G

  pub data CommitDecision : Type 0 where
    evaluation_failure : CommitDecision
    main_fault : String → CommitDecision
    search_success : List PlannedStep → CommitDecision

  unfoldable pub commit_entry : Entry → Option A → Bool → Result AggregationError CommitDecision
  commit_entry e none hypothesis_involved = err no_semantic_action
  commit_entry e (some action) hypothesis_involved = ok (
      search_success (
        record {
          semantic_action = action;
          target_index = e.target_index;
          target_enemy_index = e.target_enemy_index;
          expected_signature = if hypothesis_involved then none else e.result_signature;
        }
        ∷ []))

  unfoldable pub commit_best :
      Option RootActionAggregation → Bool → Bool → Result AggregationError CommitDecision
  unfolding commit_entry
  commit_best none hypothesis_involved main_holds = ok evaluation_failure
  commit_best (some best) hypothesis_involved main_holds =
      let e = best.representative_entry in
      if main_holds
      then commit_entry e e.semantic_action hypothesis_involved
      else ok (main_fault "main_invariant")

  -- What `verify_main_invariant` answers is given.
  unfoldable pub build_commit_decision :
      AggregationResult → Bool → Bool → Result AggregationError CommitDecision
  unfolding commit_best
  build_commit_decision aggregation hypothesis_involved main_holds =
      commit_best aggregation.best_action hypothesis_involved main_holds
