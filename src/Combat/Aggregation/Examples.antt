-- ===== src/Combat/Aggregation/Examples.antt =====
-- Two successful entries and a fault, with natural numbers for scores.
use sts2_rl.Prelude.Key.{str_discrete}
use sts2_rl.Prelude.Dict.{put}
use sts2_rl.Prelude.Dict.{get}
use sts2_rl.Api.Dto.{member}
use sts2_rl.Prelude.{
  ℕ, ◌+◌, ◌*◌, ◌/◌, ◌≤◌, ◌≡◌, refl, arith, String, true, false, none, some, List, [], ◌∷◌, Result,
  ok, err, ltb, inl,
}
use sts2_rl.Combat.Aggregation.{
  Floats, Entry, Sample, WorkItemState, final_success, final_fault, AggregationError,
  AggregationResult, RootActionAggregation, aggregate_plain_results, build_commit_decision,
  PlannedStep, search_success, success_entries,
}
use sts2_rl.Combat.Aggregation.Rounds.{aggregate_hypothesis_results}
use sts2_rl.Combat.Aggregation.Best.{In}
use sts2_rl.Combat.Aggregation.Commit.{IsOrdered, plain_commits_best}
use sts2_rl.Combat.Aggregation.Coverage.{viable_is_covered}
use sts2_rl.Combat.Aggregation.Counting.{IsCount, any, names}
use sts2_rl.Combat.Aggregation.Samples.{tried}

abbrev floats : Floats
floats = record {
  Score = ℕ;
  less = ltb;
  zero_score = 0;
  plus = λ a b. a + b;
  times = λ n a. n * a;
  over = λ a n. a / n;
  Fraction = ℕ;
  in_unit = λ percent. ltb percent 101;
  ceil_share = λ total percent. (total * percent + 99) / 100;
}

ordered : IsOrdered floats
ordered = record {
  asymmetric = λ a b h. ground (arith, h);
  negatively_transitive = λ a b c h k. ground (arith, h, k);
}

abbrev entry : String → String → String → WorkItemState ℕ → Entry floats String ℕ
entry root id status state = record {
  status = status;
  root_action_key = root;
  hypothesis_id = some "h1";
  work_id = id;
  work_item_state = state;
  semantic_action = some root;
  target_index = none;
  target_enemy_index = none;
  result_signature = some 0;
}

abbrev better_entry : Entry floats String ℕ
better_entry = entry "defend" "w2" "success" (final_success 5)

abbrev entries : List (Entry floats String ℕ)
entries =
    entry "strike" "w1" "success" (final_success 3)
    ∷ better_entry
    ∷ entry "end" "w3" "timeout" final_fault
    ∷ []

abbrev or_nothing :
    Result AggregationError (AggregationResult floats String ℕ) → AggregationResult floats String ℕ
or_nothing (ok result) = result
or_nothing (err e) = record { viable_actions = []; best_action = none }

abbrev plain : AggregationResult floats String ℕ
plain = or_nothing (aggregate_plain_results floats String ℕ entries)

abbrev step : PlannedStep floats String ℕ
step = record {
  semantic_action = "defend";
  target_index = none;
  target_enemy_index = none;
  expected_signature = some 0;
}

aggregated : aggregate_plain_results floats String ℕ entries ≡ ok plain
unfolding aggregate_plain_results
aggregated = refl

defend_committed :
    build_commit_decision floats String ℕ plain false true ≡ ok (search_success (step ∷ []))
unfolding build_commit_decision aggregate_plain_results
defend_committed = refl

plain_commits_best_example :
    (x : Sample floats String ℕ) × In x (success_entries floats String ℕ entries)
    × (x.1.semantic_action ≡ some "defend")
    × ((y : Sample floats String ℕ)
        → In y (success_entries floats String ℕ entries)
        → ltb x.0 y.0 ≡ false)
    × (true ≡ true)
plain_commits_best_example =
    plain_commits_best floats ordered String ℕ entries plain false true step aggregated
      defend_committed

abbrev over_hypotheses : AggregationResult floats String ℕ
over_hypotheses = or_nothing (aggregate_hypothesis_results floats String ℕ 50 entries)

abbrev defend_action : RootActionAggregation floats String ℕ
defend_action = record {
  root_action_key = "defend";
  aggregate_score = 5;
  representative_entry = better_entry;
  valid_sample_count = 1;
  total_hypotheses = 1;
  missing_sample_count = 0;
  filled_score = none;
}

aggregated_over : aggregate_hypothesis_results floats String ℕ 50 entries ≡ ok over_hypotheses
unfolding aggregate_hypothesis_results member get put str_discrete
aggregated_over = refl

defend_is_viable : In defend_action over_hypotheses.viable_actions
unfolding aggregate_hypothesis_results member get put str_discrete
defend_is_viable = inl refl

viable_is_covered_example :
    (1 ≤ 1)
    × IsCount defend_action.total_hypotheses
        (λ id. any (λ (e : Entry floats String ℕ). names id e.hypothesis_id) entries)
    × IsCount defend_action.valid_sample_count
        (λ id. any (tried floats String ℕ defend_action.root_action_key id) entries)
    × ((best : RootActionAggregation floats String ℕ) × (over_hypotheses.best_action ≡ some best)
        × (ltb best.aggregate_score 5 ≡ false))
viable_is_covered_example =
    viable_is_covered floats String ℕ ordered 50 entries over_hypotheses defend_action
      aggregated_over defend_is_viable
