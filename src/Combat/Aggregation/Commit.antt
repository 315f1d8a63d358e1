-- ===== src/Combat/Aggregation/Commit.antt =====
-- What is committed after a round, and which root actions are viable.
use sts2_rl.Prelude.{
  ◌≡◌, ◌⊎◌, refl, sym, ap, subst, Bool, true, false, ◌&&◌, ◌||◌, not, Option, none, some, List, [],
  ◌∷◌, map, Result, ok, inl, inr, Bool-cases, >>=-eq-ok, ok_inj,
}
use sts2_rl.Prelude.Key.{str_key}
use sts2_rl.Combat.Aggregation.{
  Floats, sort_by, AggregationError, Entry, Sample, AggregationResult, require_final,
  success_entries, first, plain_lt, plain_action, aggregate_plain_results, PlannedStep,
  CommitDecision, search_success, commit_entry, commit_best, build_commit_decision,
}
use sts2_rl.Combat.Aggregation.Best.{
  In, AtLeast, Descends, first-AtLeast, sort_by-Descends, sort_by-In, In-sort_by,
}

-- Floats that are not NaN, by `<`.
pub record IsOrdered (floats : Floats) : Type 0 where
  pub asymmetric : (a b : floats.Score) → floats.less a b ≡ true → floats.less b a ≡ false
  pub negatively_transitive :
      (a b c : floats.Score)
      → floats.less a b ≡ false
      → floats.less b c ≡ false
      → floats.less a c ≡ false

pub key_true : (a b c : Bool) → (a || (not b && c)) ≡ true → (a ≡ true) ⊎ (b ≡ false)
key_true true b c h = inl refl
key_true false true c h = cc h
key_true false false c h = inr refl

pub key_false : (a b c : Bool) → (a || (not b && c)) ≡ false → a ≡ false
key_false true b c h = cc h
key_false false b c h = refl

pub not_less_self :
    (floats : Floats) (ordered : IsOrdered floats) (a : floats.Score) → floats.less a a ≡ false
not_less_self floats ordered a = elim (Bool-cases (floats.less a a)) [
  | inl e ↦ ordered.asymmetric a a e
  | inr e ↦ e
]

module _ (floats : Floats) (ordered : IsOrdered floats) (A G : Type 0) where
  abbrev score : Sample floats A G → floats.Score
  score x = x.0

  abbrev by_score : Sample floats A G → Sample floats A G → Bool
  by_score x y = plain_lt floats A G x y

  plain-before :
      (x y : Sample floats A G) → by_score x y ≡ true → AtLeast floats.less score by_score x y
  unfolding plain_lt
  plain-before (s, d) (t, e) h = elim (key_true (floats.less t s) (floats.less s t) _ h) [
    | inl p ↦ ordered.asymmetric t s p
    | inr q ↦ q
  ]

  plain-after :
      (x y : Sample floats A G) → by_score x y ≡ false → AtLeast floats.less score by_score y x
  unfolding plain_lt
  plain-after (s, d) (t, e) h = key_false (floats.less t s) (floats.less s t) _ h

  -- The samples in the order of a plain round.
  ranked : List (Entry floats A G) → List (Sample floats A G)
  ranked entries = sort_by by_score (success_entries floats A G entries)

  -- The first of the ranked samples is beaten by none.
  first-best :
      (entries : List (Entry floats A G)) (x : Sample floats A G) (xs : List (Sample floats A G))
      → ranked entries ≡ x ∷ xs
      → (y : Sample floats A G) → In y (success_entries floats A G entries)
      → floats.less x.0 y.0 ≡ false
  unfolding ranked
  first-best entries x xs e y h =
      let sorted =
        sort_by-Descends floats.less score by_score
          (λ a b c. ordered.negatively_transitive a.0 b.0 c.0) plain-before plain-after
          (success_entries floats A G entries) in
      let here =
        subst (In y) e
          (In-sort_by floats.less score by_score y (success_entries floats A G entries) h) in
      first-AtLeast floats.less score by_score x y xs (λ z. not_less_self floats ordered z.0)
        (subst (Descends floats.less score by_score) e sorted) here

  abbrev action_in : Result AggregationError (CommitDecision floats A G) → Option A
  action_in (ok (search_success (step ∷ steps))) = some step.semantic_action
  action_in _ = none

  commit_entry-action :
      (e : Entry floats A G) (o : Option A) (hypothesis_involved : Bool)
      (step : PlannedStep floats A G)
      → commit_entry floats A G e o hypothesis_involved ≡ ok (search_success (step ∷ []))
      → o ≡ some step.semantic_action
  unfolding commit_entry
  commit_entry-action e none hypothesis_involved step h = cc h
  commit_entry-action e (some action) hypothesis_involved step h = ap action_in h

  committed :
      (entries : List (Entry floats A G)) (hypothesis_involved main_holds : Bool)
      (step : PlannedStep floats A G) (xs : List (Sample floats A G))
      → ranked entries ≡ xs
      → commit_best floats A G
          (first floats A G (map (plain_action floats A G) xs))
          hypothesis_involved
          main_holds
        ≡ ok (search_success (step ∷ []))
      → (x : Sample floats A G) × In x (success_entries floats A G entries)
        × (x.1.semantic_action ≡ some step.semantic_action)
        × ((y : Sample floats A G)
            → In y (success_entries floats A G entries)
            → floats.less x.0 y.0 ≡ false)
        × (main_holds ≡ true)
  unfolding commit_best ranked
  committed entries hypothesis_involved main_holds step [] e h = cc h
  committed entries hypothesis_involved true step (x ∷ xs) e h = (
    x,
    sort_by-In floats.less score by_score x (success_entries floats A G entries)
        (subst (In x) (sym e) (inl refl)),
    commit_entry-action x.1 x.1.semantic_action hypothesis_involved step h,
    first-best entries x xs e,
    refl,
  )
  committed entries hypothesis_involved false step (x ∷ xs) e h = cc h

  -- A plain round commits only while the main state is unchanged, and the one step that it commits is
  -- the action of a successful entry of the round whose score no successful entry of it exceeds.
  pub plain_commits_best :
      (entries : List (Entry floats A G)) (result : AggregationResult floats A G)
      (hypothesis_involved main_holds : Bool) (step : PlannedStep floats A G)
      → aggregate_plain_results floats A G entries ≡ ok result
      → build_commit_decision floats A G result hypothesis_involved main_holds
        ≡ ok (search_success (step ∷ []))
      → (x : Sample floats A G) × In x (success_entries floats A G entries)
        × (x.1.semantic_action ≡ some step.semantic_action)
        × ((y : Sample floats A G)
            → In y (success_entries floats A G entries)
            → floats.less x.0 y.0 ≡ false)
        × (main_holds ≡ true)
  unfolding aggregate_plain_results build_commit_decision ranked
  plain_commits_best entries result hypothesis_involved main_holds step h k =
      let (u, e, f) = >>=-eq-ok (require_final floats A G entries) _ h in
      committed entries hypothesis_involved main_holds step (ranked entries) refl (
        subst
          (λ (r : AggregationResult floats A G).
            commit_best floats A G r.best_action hypothesis_involved main_holds
            ≡ ok (search_success (step ∷ [])))
          (sym (ok_inj f)) k)
