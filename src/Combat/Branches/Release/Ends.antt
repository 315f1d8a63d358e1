-- ===== src/Combat/Branches/Release/Ends.antt =====
-- Taking released leaves out of the links ends.
use sts2_rl.Prelude.{
  if_all, ℕ, zero, suc, ◌+◌, ◌<◌, ◌≡◌, ◌≢◌, refl, sym, ap, ◌∙◌, arith, String, Bool, true, false,
  ◌&&◌, Option, none, some, List, [], ◌∷◌, Result, err, inl, inr, Option-cases, Result-cases,
  if◌then◌else◌,
}
use sts2_rl.Prelude.Dict
use sts2_rl.Prelude.Dict.{Dict}
use sts2_rl.Prelude.Totals
use sts2_rl.Prelude.Key.{str_key}
use sts2_rl.Combat.Pool.{BranchError, too_many_rounds}
use sts2_rl.Combat.Branches.{
  BranchState, is_released, released, BranchRecord, BranchManager, Records,
}
use sts2_rl.Combat.Branches.Cancel.{Outcome, cancel_one}
use sts2_rl.Combat.Branches.Cancel.Steps.{cancel_one-refuses}
use sts2_rl.Combat.Branches.Release.{
  modify, orphan, without_child, parent_of, is_leaf, is_terminal, parent_count, prune, has_parent,
  prune_all, compact, give_up, mark_released, release_one, release_from,
}
use sts2_rl.Combat.Branches.Release.Modify.{total-modify, modify_known, read-modify}

if-some :
    {A : Type 0} (b : Bool) (o : Option A) (a : A) → (if b then o else none) ≡ some a → o ≡ some a
if-some true o a h = h
if-some false o a h = cc h

module _ {J R : Type 0} where
  abbrev parent_in : Option (BranchRecord J R) → Option String
  parent_in none = none
  parent_in (some r) = r.parent_branch_id

  parent_of-some :
      (r : BranchRecord J R) (parent : String)
      → parent_of r ≡ some parent
      → r.parent_branch_id ≡ some parent
  parent_of-some r parent h =
      if-some (is_released r.state && is_leaf r.child_branch_ids) r.parent_branch_id parent h

  -- A round takes one parent out.
  total-orphan :
      (id parent : String) (records : Records J R) (r : BranchRecord J R)
      → Dict.get records id ≡ some r
      → r.parent_branch_id ≡ some parent
      → Totals.total has_parent (modify id orphan (modify parent (without_child id) records)) + 1
        ≡ Totals.total has_parent records
  unfolding has_parent
  total-orphan id parent records r g h =
      let removed = modify parent (without_child id) records in
      let kept = read-modify parent_in parent id (without_child id) records (λ x. refl) in
      elim (Option-cases (Dict.get removed id)) [
        | inl e ↦ cc (ap parent_in g, h, kept, ap parent_in e)
        | inr (x, e) ↦ rw (modify_known id orphan removed x e) (
            omega (
              arith,
              Totals.total-put has_parent removed id x (orphan x) e,
              total-modify has_parent parent (without_child id) records (λ y. refl),
              ap parent_count (ap parent_in (sym e) ∙ kept ∙ ap parent_in g ∙ h),
            ))
      ]

  pub prune-Ends :
      (rounds : ℕ) (id : String) (records : Records J R)
      → Totals.total has_parent records < rounds
      → prune rounds id records ≢ err too_many_rounds
  unfolding prune
  prune-Ends zero id records lt = omega arith
  prune-Ends (suc rounds) id records lt = elim (Option-cases (Dict.get records id)) [
    | inl e ↦ rw (e, prune) (λ h. cc h)
    | inr (r, g) ↦
        rw (g, prune)
          (elim (Option-cases (parent_of r)) [
            | inl e ↦ rw e (λ h. cc h)
            | inr (parent, e) ↦ rw e (elim (Option-cases (Dict.get records parent)) [
              | inl f ↦ rw f (λ h. cc h)
              | inr (p, f) ↦ rw f (
                  prune-Ends rounds parent
                    (modify id orphan (modify parent (without_child id) records))
                    (omega (arith, total-orphan id parent records r g (parent_of-some r parent e))))
            ])
          ])
  ]

  compact-Ends :
      (id : String) (r : BranchRecord J R) (records : Records J R)
      → compact id r records ≢ err too_many_rounds
  unfolding compact prune_all
  compact-Ends id r records = prune-Ends _ id _ (omega arith)

  give_up-Ends :
      (m : BranchManager J R) (id : String) (r : BranchRecord J R)
      → Dict.get m.records id ≡ some r
      → (give_up m id r).0 ≢ err too_many_rounds
  unfolding give_up
  give_up-Ends m id r g =
      if_all (λ (o : Outcome J R). o.0 ≢ err too_many_rounds) (is_terminal r.state) _
        (cancel_one m id r) (λ c h. cc h)
        (λ c h. (cancel_one-refuses m id r too_many_rounds g h).0 refl)

  mark_released-Ends :
      (m : BranchManager J R) (id : String) (r : BranchRecord J R)
      → Dict.get m.records id ≡ some r
      → (mark_released m id r).0 ≢ err too_many_rounds
  unfolding mark_released
  mark_released-Ends m id r g =
      if_all (λ (o : Result BranchError (Unit {0}) × BranchManager J R). o.0 ≢ err too_many_rounds)
        (is_released r.state) _ _ (λ c h. cc h)
        (λ c. elim (Result-cases (give_up m id r).0) [
          | inr (e, f) ↦ rw f (λ h. give_up-Ends m id r g (cc (f, h)))
          | inl (state, f) ↦ rw f (λ h. cc h)
        ])

  release_one-Ends :
      (m : BranchManager J R) (id : String) (r : BranchRecord J R)
      → Dict.get m.records id ≡ some r
      → (release_one m id r).0 ≢ err too_many_rounds
  unfolding release_one
  release_one-Ends m id r g = elim (Result-cases (mark_released m id r).0) [
    | inr (e, f) ↦ rw (f, release_one) (λ h. mark_released-Ends m id r g (cc (f, h)))
    | inl (done, f) ↦
        rw (f, release_one)
          (elim (Result-cases (compact id r (mark_released m id r).1.records)) [
            | inr (e, c) ↦
                rw c (λ h. compact-Ends id r (mark_released m id r).1.records (cc (c, h)))
            | inl (records, c) ↦ rw c (λ h. cc h)
          ])
  ]

  pub release_from-Ends :
      (statuses : Dict String BranchState) (m : BranchManager J R) (ids : List String)
      → (release_from statuses m ids).0 ≢ err too_many_rounds
  unfolding release_from
  release_from-Ends statuses m [] = λ h. cc h
  release_from-Ends statuses m (id ∷ ids) = elim (Option-cases (Dict.get m.records id)) [
    | inl e ↦ rw (e, release_from) (λ h. cc h)
    | inr (r, g) ↦
        rw (g, release_from)
          (elim (Result-cases (release_one m id r).0) [
            | inr (e, f) ↦ rw f (λ h. release_one-Ends m id r g (cc (f, h)))
            | inl (done, f) ↦
                rw f (release_from-Ends (Dict.put statuses id released) (release_one m id r).1 ids)
          ])
  ]
