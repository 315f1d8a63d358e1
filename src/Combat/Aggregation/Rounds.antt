-- ===== src/Combat/Aggregation/Rounds.antt =====
-- Combat/search/fault_taxonomy.py: `aggregate_hypothesis_results`.
use sts2_rl.Prelude.{
  ℕ, ◌-◌, ◌==◌, String, Bool, ◌&&◌, ◌||◌, not, Option, none, some, List, [], ◌∷◌, Result, ok, err,
  if◌then◌else◌, length, map, ltb, ◌>>=◌, raise_if,
}
use sts2_rl.Prelude.Dict
use sts2_rl.Prelude.Dict.{Dict}
use sts2_rl.Prelude.Key.{str_key}
use sts2_rl.Api.Dto.{member}
use sts2_rl.Combat.Aggregation.{
  Floats, text_lt, sort_by, AggregationError, bad_fraction, empty_max, Entry, Sample,
  RootActionAggregation, AggregationResult, require_final, success_entries, result_of,
}

unfoldable pub distinct : List String → List String
distinct [] = []
distinct (x ∷ xs) = let rest = distinct xs in if member x rest then rest else x ∷ rest

module _ (floats : Floats) (A G : Type 0) where
  unfoldable pub hypotheses_of : List (Entry floats A G) → List String
  hypotheses_of [] = []
  hypotheses_of (e ∷ entries) = elim e.hypothesis_id [
    | none ↦ hypotheses_of entries
    | some id ↦ id ∷ hypotheses_of entries
  ]

  worst_of : floats.Score → List (Sample floats A G) → floats.Score
  worst_of worst [] = worst
  worst_of worst ((s, e) ∷ samples) = worst_of (if floats.less s worst then s else worst) samples

  abbrev pub Samples : Type 0
  Samples = Dict String (Sample floats A G)

  abbrev pub or_no_samples : Option Samples → Samples
  or_no_samples none = []
  or_no_samples (some samples) = samples

  unfoldable pub better :
      Option (Sample floats A G) → Sample floats A G → Samples → String → Samples
  better none x samples id = Dict.put samples id x
  better (some (t, d)) (s, e) samples id =
      if floats.less t s then Dict.put samples id (s, e) else samples

  -- The best sample of each hypothesis, by the root actions.
  unfoldable pub by_root_hypothesis :
      List (Sample floats A G) → Dict String Samples → Dict String Samples
  unfolding better
  by_root_hypothesis [] by_root = by_root
  by_root_hypothesis ((s, e) ∷ samples) by_root = elim e.hypothesis_id [
    | none ↦ by_root_hypothesis samples by_root
    | some id ↦
        let per_root = or_no_samples (Dict.get by_root e.root_action_key) in
        by_root_hypothesis samples
          (Dict.put by_root e.root_action_key (better (Dict.get per_root id) (s, e) per_root id))
  ]

  sum_scores : floats.Score → Samples → floats.Score
  sum_scores sum [] = sum
  sum_scores sum ((id, (s, e)) ∷ samples) = sum_scores (floats.plus sum s) samples

  -- `max` by `(float(score), work_id)`, the first of equals.
  representative : Sample floats A G → Samples → Sample floats A G
  unfolding text_lt
  representative top [] = top
  representative (s, d) ((id, (t, e)) ∷ samples) =
      representative
        (if floats.less s t || (not (floats.less t s) && text_lt d.work_id e.work_id)
          then (t, e)
          else (s, d))
        samples

  unfoldable pub action_of :
      String → Samples → Sample floats A G → ℕ → floats.Score → RootActionAggregation floats A G
  unfolding sum_scores representative
  action_of root samples top total worst =
      let missing = total - length samples in
      record {
        root_action_key = root;
        aggregate_score =
            floats.over
              (floats.plus (sum_scores floats.zero_score samples) (floats.times missing worst))
              total;
        representative_entry = (representative top samples).1;
        valid_sample_count = length samples;
        total_hypotheses = total;
        missing_sample_count = missing;
        filled_score = if missing == 0 then none else some worst;
      }

  unfoldable pub with_action :
      (RootActionAggregation floats A G)
      → Result AggregationError (List (RootActionAggregation floats A G))
      → Result AggregationError (List (RootActionAggregation floats A G))
  with_action x rest = rest >>= λ xs. ok (x ∷ xs)

  -- Where no sample is asked for, the maximum of no samples raises.
  unfoldable pub covered :
      String
      → Samples
      → ℕ
      → floats.Score
      → Result AggregationError (List (RootActionAggregation floats A G))
      → Result AggregationError (List (RootActionAggregation floats A G))
  unfolding with_action action_of
  covered root [] total worst rest = err (empty_max root)
  covered root ((id, top) ∷ samples) total worst rest =
      with_action (action_of root ((id, top) ∷ samples) top total worst) rest

  unfoldable pub viable_of :
      Dict String Samples
      → ℕ
      → ℕ
      → floats.Score
      → List String
      → Result AggregationError (List (RootActionAggregation floats A G))
  unfolding covered
  viable_of by_root required total worst [] = ok []
  viable_of by_root required total worst (root ∷ roots) =
      let rest = viable_of by_root required total worst roots in
      let samples = or_no_samples (Dict.get by_root root) in
      if ltb (length samples) required then rest else covered root samples total worst rest

  -- `(-aggregate_score, root_action_key)`
  unfoldable pub hypothesis_lt :
      RootActionAggregation floats A G → RootActionAggregation floats A G → Bool
  unfolding text_lt
  hypothesis_lt x y =
      floats.less y.aggregate_score x.aggregate_score
      || (not (floats.less x.aggregate_score y.aggregate_score)
          && text_lt x.root_action_key y.root_action_key)

  roots_of : List (Entry floats A G) → List String
  roots_of entries = map (λ e. e.root_action_key) entries

  -- The viable actions of a round whose worst score is among `worst` and the samples'.
  unfoldable pub round_viable :
      floats.Fraction
      → List (Entry floats A G)
      → ℕ
      → floats.Score
      → List (Sample floats A G)
      → Result AggregationError (List (RootActionAggregation floats A G))
  unfolding viable_of by_root_hypothesis worst_of sort_by text_lt distinct roots_of
  round_viable fraction entries total worst samples =
      viable_of (by_root_hypothesis samples []) (floats.ceil_share total fraction) total
        (worst_of worst samples) (sort_by text_lt (distinct (roots_of entries)))

  unfoldable pub aggregate_samples :
      floats.Fraction
      → List (Entry floats A G)
      → ℕ
      → List (Sample floats A G)
      → Result AggregationError (AggregationResult floats A G)
  unfolding round_viable hypothesis_lt sort_by
  aggregate_samples fraction entries total [] = ok (result_of floats A G [])
  aggregate_samples fraction entries total ((s, e) ∷ samples) =
      if total == 0
      then ok (result_of floats A G [])
      else round_viable fraction entries total s ((s, e) ∷ samples) >>= λ viable.
          ok (result_of floats A G (sort_by hypothesis_lt viable))

  unfoldable pub aggregate_hypothesis_results :
      floats.Fraction
      → List (Entry floats A G)
      → Result AggregationError (AggregationResult floats A G)
  unfolding require_final success_entries hypotheses_of distinct aggregate_samples
  aggregate_hypothesis_results fraction entries =
      raise_if (not (floats.in_unit fraction)) bad_fraction >>= λ _.
      require_final floats A G entries >>= λ _.
      aggregate_samples fraction entries (length (distinct (hypotheses_of entries)))
        (success_entries floats A G entries)
