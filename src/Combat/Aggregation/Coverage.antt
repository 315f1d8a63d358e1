-- ===== src/Combat/Aggregation/Coverage.antt =====
-- The root actions that a round over hypotheses takes into account.
use sts2_rl.Prelude.{
  if_all, ℕ, ◌≤◌, ◌==◌, ◌≡◌, refl, sym, subst, arith, String, Bool, true, false, not, some, List,
  [], ◌∷◌, Result, ok, err, inl, inr, >>=-eq-ok, ok_inj, length, ltb, raise_if,
}
use sts2_rl.Prelude.Dict
use sts2_rl.Prelude.Dict.{Dict}
use sts2_rl.Prelude.Key.{str_key}
use sts2_rl.Combat.Aggregation.{
  Floats, sort_by, AggregationError, Entry, Sample, RootActionAggregation, AggregationResult,
  require_final, success_entries, result_of, first, bad_fraction,
}
use sts2_rl.Combat.Aggregation.Rounds.{
  Samples, or_no_samples, with_action, action_of, covered, viable_of, hypothesis_lt, round_viable,
  aggregate_samples, aggregate_hypothesis_results, distinct, hypotheses_of, by_root_hypothesis,
}
use sts2_rl.Combat.Aggregation.Counting.{IsCount, any, names}
use sts2_rl.Combat.Aggregation.Samples.{tried, ByRoot, view, hypotheses-IsCount, samples-IsCount}
use sts2_rl.Combat.Aggregation.Best.{
  In, AtLeast, Descends, first-AtLeast, sort_by-Descends, sort_by-In,
}
use sts2_rl.Combat.Aggregation.Commit.{IsOrdered, not_less_self, key_true, key_false}

module _ (floats : Floats) (A G : Type 0) where
  abbrev Action : Type 0
  Action = RootActionAggregation floats A G

  module _ (by_root : ByRoot floats A G) where
    -- An action has as many samples as are asked for, those of its root.
    abbrev IsCovered : ℕ → ℕ → Action → Type 0
    IsCovered required total x =
        (required ≤ x.valid_sample_count)
        × (x.total_hypotheses ≡ total)
        × (x.valid_sample_count ≡ length (view floats A G by_root x.root_action_key))

    abbrev AllCovered : ℕ → ℕ → Result AggregationError (List Action) → Type 0
    AllCovered required total (ok xs) = (x : Action) → In x xs → IsCovered required total x
    AllCovered required total (err e) = Unit

    with_action-AllCovered :
        (required total : ℕ) (x : Action) (rest : Result AggregationError (List Action))
        → IsCovered required total x
        → AllCovered required total rest
        → AllCovered required total (with_action floats A G x rest)
    unfolding with_action
    with_action-AllCovered required total x (err e) c h = tt
    with_action-AllCovered required total x (ok xs) c h =
        λ z m. elim m [ inl p ↦ subst (IsCovered required total) (sym p) c | inr q ↦ h z q ]

    covered-AllCovered :
        (required total : ℕ) (root : String) (samples : Samples floats A G) (worst : floats.Score)
        (rest : Result AggregationError (List Action))
        → required ≤ length samples
        → length samples ≡ length (view floats A G by_root root)
        → AllCovered required total rest
        → AllCovered required total (covered floats A G root samples total worst rest)
    unfolding covered action_of
    covered-AllCovered required total root [] worst rest le same h = tt
    covered-AllCovered required total root ((id, top) ∷ samples) worst rest le same h =
        with_action-AllCovered required total
          (action_of floats A G root ((id, top) ∷ samples) top total worst) rest (le, refl, same) h

    viable_of-AllCovered :
        (required total : ℕ) (worst : floats.Score) (roots : List String)
        → AllCovered required total (viable_of floats A G by_root required total worst roots)
    unfolding viable_of
    viable_of-AllCovered required total worst [] = λ x m. elim m [ ]
    viable_of-AllCovered required total worst (root ∷ roots) =
        let samples = or_no_samples floats A G (Dict.get by_root root) in
        let rest = viable_of-AllCovered required total worst roots in
        if_all (AllCovered required total) (ltb (length samples) required) _ _ (λ c. rest)
          (λ c.
            covered-AllCovered required total root samples worst _ (ground (arith, c)) refl rest)

  module _ (ordered : IsOrdered floats) where
    abbrev aggregate : Action → floats.Score
    aggregate x = x.aggregate_score

    abbrev by_aggregate : Action → Action → Bool
    by_aggregate x y = hypothesis_lt floats A G x y

    aggregate-before :
        (x y : Action) → by_aggregate x y ≡ true → AtLeast floats.less aggregate by_aggregate x y
    unfolding hypothesis_lt
    aggregate-before x y h =
        elim (key_true (floats.less y.aggregate_score x.aggregate_score)
          (floats.less x.aggregate_score y.aggregate_score) _ h) [
            | inl p ↦ ordered.asymmetric y.aggregate_score x.aggregate_score p
            | inr q ↦ q
          ]

    aggregate-after :
        (x y : Action) → by_aggregate x y ≡ false → AtLeast floats.less aggregate by_aggregate y x
    unfolding hypothesis_lt
    aggregate-after x y h =
        key_false (floats.less y.aggregate_score x.aggregate_score)
          (floats.less x.aggregate_score y.aggregate_score) _ h

    sorted-Descends :
        (xs : List Action) → Descends floats.less aggregate by_aggregate (sort_by by_aggregate xs)
    sorted-Descends xs =
        sort_by-Descends floats.less aggregate by_aggregate
          (λ a b c.
            ordered.negatively_transitive a.aggregate_score b.aggregate_score c.aggregate_score)
          aggregate-before aggregate-after xs

    -- What holds of the viable actions of an aggregation.
    abbrev Ranked :
        floats.Fraction → ℕ → List (Sample floats A G) → AggregationResult floats A G → Type 0
    Ranked fraction total samples r =
        (x : Action)
        → In x r.viable_actions
        → IsCovered (by_root_hypothesis floats A G samples []) (floats.ceil_share total fraction)
            total x
          × ((best : Action) × (r.best_action ≡ some best)
              × (floats.less best.aggregate_score x.aggregate_score ≡ false))

    first_of :
        (x : Action) (xs : List Action)
        → Descends floats.less aggregate by_aggregate xs
        → In x xs
        → (best : Action) × (first floats A G xs ≡ some best)
          × (floats.less best.aggregate_score x.aggregate_score ≡ false)
    first_of x [] d h = elim h [ ]
    first_of x (b ∷ xs) d h = (
      b,
      refl,
      first-AtLeast floats.less aggregate by_aggregate b x xs
          (λ z. not_less_self floats ordered z.aggregate_score) d h,
    )

    result_of-Ranked :
        (fraction : floats.Fraction) (total : ℕ) (samples : List (Sample floats A G))
        (viable : List Action)
        → ((x : Action)
            → In x viable
            → IsCovered
                (by_root_hypothesis floats A G samples [])
                (floats.ceil_share total fraction)
                total
                x)
        → Ranked fraction total samples (result_of floats A G (sort_by by_aggregate viable))
    result_of-Ranked fraction total samples viable all x h = (
      all x (sort_by-In floats.less aggregate by_aggregate x viable h),
      first_of x (sort_by by_aggregate viable) (sorted-Descends viable) h,
    )

    none_viable :
        (fraction : floats.Fraction) (total : ℕ) (samples : List (Sample floats A G))
        → Ranked fraction total samples (result_of floats A G [])
    none_viable fraction total samples x h = elim h [ ]

    round_viable-AllCovered :
        (fraction : floats.Fraction) (entries : List (Entry floats A G)) (total : ℕ)
        (worst : floats.Score) (samples : List (Sample floats A G))
        → AllCovered
            (by_root_hypothesis floats A G samples [])
            (floats.ceil_share total fraction)
            total
            (round_viable floats A G fraction entries total worst samples)
    unfolding round_viable
    round_viable-AllCovered fraction entries total worst samples =
        viable_of-AllCovered (by_root_hypothesis floats A G samples [])
          (floats.ceil_share total fraction) total _ _

    aggregate_samples-Ranked :
        (fraction : floats.Fraction) (entries : List (Entry floats A G)) (total : ℕ)
        (samples : List (Sample floats A G)) (r : AggregationResult floats A G)
        → aggregate_samples floats A G fraction entries total samples ≡ ok r
        → Ranked fraction total samples r
    unfolding aggregate_samples
    aggregate_samples-Ranked fraction entries total [] r =
        λ h. subst (Ranked fraction total []) (ok_inj h) (none_viable fraction total [])
    aggregate_samples-Ranked fraction entries total ((s, e) ∷ samples) r =
        let all = (s, e) ∷ samples in
        if_all
          (λ (o : Result AggregationError (AggregationResult floats A G)).
            o ≡ ok r → Ranked fraction total all r)
          (total == 0) _ _
          (λ c h. subst (Ranked fraction total all) (ok_inj h) (none_viable fraction total all))
          (λ c h.
            let (viable, v, f) =
              >>=-eq-ok (round_viable floats A G fraction entries total s all) _ h in
            subst (Ranked fraction total all) (ok_inj f) (
              result_of-Ranked fraction total all viable (
                subst
                  (AllCovered (by_root_hypothesis floats A G all [])
                    (floats.ceil_share total fraction) total)
                  v (round_viable-AllCovered fraction entries total s all))))

    -- A root action is viable after a round over hypotheses only with samples of at least the share
    -- of the hypotheses that is asked for, and no viable one has a greater score than the best one. The
    -- hypotheses are those that the entries name, each counted once; the samples are counted by the
    -- hypotheses, each once, in which an entry of that root action succeeded.
    pub viable_is_covered :
        (fraction : floats.Fraction) (entries : List (Entry floats A G))
        (r : AggregationResult floats A G) (x : Action)
        → aggregate_hypothesis_results floats A G fraction entries ≡ ok r
        → In x r.viable_actions
        → (floats.ceil_share x.total_hypotheses fraction ≤ x.valid_sample_count)
          × IsCount x.total_hypotheses
              (λ id. any (λ (e : Entry floats A G). names id e.hypothesis_id) entries)
          × IsCount x.valid_sample_count (λ id. any (tried floats A G x.root_action_key id) entries)
          × ((best : Action) × (r.best_action ≡ some best)
              × (floats.less best.aggregate_score x.aggregate_score ≡ false))
    unfolding aggregate_hypothesis_results
    viable_is_covered fraction entries r x h m =
        let (u, e, f) = >>=-eq-ok (raise_if (not (floats.in_unit fraction)) bad_fraction) _ h in
        let (v, g, k) = >>=-eq-ok (require_final floats A G entries) _ f in
        let total = length (distinct (hypotheses_of floats A G entries)) in
        let ((le, all, sampled), best) =
          aggregate_samples-Ranked fraction entries total (success_entries floats A G entries) r k x
            m in
        (
          subst (λ n. floats.ceil_share n fraction ≤ x.valid_sample_count) (sym all) le,
          subst
              (λ n.
                IsCount n (λ id. any (λ (e : Entry floats A G). names id e.hypothesis_id) entries))
              (sym all) (hypotheses-IsCount floats A G entries),
          subst (λ n. IsCount n (λ id. any (tried floats A G x.root_action_key id) entries))
              (sym sampled) (samples-IsCount floats A G entries x.root_action_key),
          best,
        )
