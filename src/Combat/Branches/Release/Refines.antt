-- ===== src/Combat/Branches/Release/Refines.antt =====
-- What releasing branches does to their statuses, which is all that is known of a branch from outside.
use sts2_rl.Prelude.{
  if_all, ℕ, zero, suc, ◌≡◌, ◌≢◌, refl, sym, ap, ◌∙◌, arith, String, Bool, true, false, Option,
  none, some, List, [], ◌∷◌, Result, ok, err, inl, inr, Option-cases, Result-cases, Bool-cases,
  ok_inj, or_raise, if◌then◌else◌, str_eq, eq_iff,
}
use sts2_rl.Prelude.Dict
use sts2_rl.Prelude.Dict.{Dict}
use sts2_rl.Prelude.Key.{str_key, str_discrete}
use sts2_rl.Api.Dto.{member}
use sts2_rl.Combat.Pool.{BranchError, released_branch, no_result}
use sts2_rl.Combat.Branches.{
  BranchState, is_released, released, BranchRecord, BranchManager, Records, get_branch_result,
}
use sts2_rl.Combat.Branches.Cancel.{Outcome, cancel_one}
use sts2_rl.Combat.Branches.Cancel.Steps.{Drops, cancel_one-Drops}
use sts2_rl.Combat.Branches.Release.{
  modify, orphan, without_child, parent_of, emptied, with_children, release_record, with_records,
  retained, prune, prune_all, compact, is_terminal, give_up, mark_released, release_one,
  release_from, release_branches,
}
use sts2_rl.Combat.Branches.Release.Modify.{
  state_in, status_of, read-modify, get-modify_self, get-modify_other,
}

-- The specification: the branches asked for are released, and the others are as they were.
unfoldable pub after_release :
    List String → (String → Option BranchState) → String → Option BranchState
after_release ids before j = if member j ids then some released else before j

is_released-eq : (s : BranchState) → is_released s ≡ true → s ≡ released
is_released-eq released h = refl
is_released-eq _ h = cc h

after_release-step :
    (id : String) (ids : List String) (before between : String → Option BranchState) (j : String)
    → between id ≡ some released
    → (id ≢ j → between j ≡ before j)
    → after_release ids between j ≡ after_release (id ∷ ids) before j
unfolding after_release member
after_release-step id ids before between j self other = elim (str_discrete id j) [
  | yes p ↦ ground (arith, (eq_iff j id).1 (sym p), sym (ap between p) ∙ self)
  | no n ↦ elim (Bool-cases (str_eq j id)) [
    | inl e ↦ absurd (n (sym ((eq_iff j id).0 e)))
    | inr e ↦ ground (arith, e, other n)
  ]
]

pub if_true : {A : Type 0} (b : Bool) (x y : A) → b ≡ true → (if b then x else y) ≡ x
if_true true x y h = refl
if_true false x y h = cc h

abbrev is_released_in : Option BranchState → Bool
is_released_in none = false
is_released_in (some s) = is_released s

module _ {J R : Type 0} where
  status-modify :
      (id : String) (f : BranchRecord J R → BranchRecord J R) (records : Records J R)
      → ((r : BranchRecord J R) → (f r).state ≡ r.state)
      → (j : String) → status_of (modify id f records) j ≡ status_of records j
  unfolding status_of
  status-modify id f records keeps j =
      read-modify state_in id j f records (λ r. ap (λ s. some s) (keeps r))

  prune-status :
      (rounds : ℕ) (id : String) (records records' : Records J R)
      → prune rounds id records ≡ ok records'
      → (j : String) → status_of records' j ≡ status_of records j
  unfolding prune
  prune-status zero id records records' = λ h j. cc h
  prune-status (suc rounds) id records records' = elim (Option-cases (Dict.get records id)) [
    | inl e ↦ rw (e, prune) (λ h j. cc h)
    | inr (r, g) ↦
        rw (g, prune)
          (elim (Option-cases (parent_of r)) [
            | inl e ↦ rw e (λ h j. ap (λ d. status_of d j) (sym (ok_inj h)))
            | inr (parent, e) ↦ rw e (elim (Option-cases (Dict.get records parent)) [
              | inl f ↦ rw f (λ h j.
                  ap (λ d. status_of d j) (sym (ok_inj h))
                  ∙ status-modify id orphan records (λ x. refl) j)
              | inr (p, f) ↦ rw f (λ h j.
                  prune-status rounds parent
                    (modify id orphan (modify parent (without_child id) records)) records' h j
                  ∙ status-modify id orphan (modify parent (without_child id) records) (λ x. refl) j
                  ∙ status-modify parent (without_child id) records (λ x. refl) j)
            ])
          ])
  ]

  compact-status :
      (id : String) (r : BranchRecord J R) (records records' : Records J R)
      → compact id r records ≡ ok records'
      → (j : String) → status_of records' j ≡ status_of records j
  unfolding compact prune_all
  compact-status id r records records' h j =
      let dropped = modify id emptied records in
      prune-status _ id _ records' h j
      ∙ status-modify id (with_children (retained dropped r.child_branch_ids)) dropped (λ x. refl) j
      ∙ status-modify id emptied records (λ x. refl) j

  -- `id` is known, and the others are as they were.
  abbrev KnownAfter : Records J R → String → Records J R → Type 0
  KnownAfter records id records' =
      ((x : BranchRecord J R) × (Dict.get records' id ≡ some x))
      × ((j : String) → id ≢ j → Dict.get records' j ≡ Dict.get records j)

  Drops-KnownAfter :
      (m m' : BranchManager J R) (id : String) (r : BranchRecord J R)
      → Drops m id r m'
      → KnownAfter m.records id m'.records
  Drops-KnownAfter m m' id r d = (
    (d.last, rw d.stored (Dict.get-put_self m.records id d.last)),
    λ j n. rw d.stored (Dict.get-put_other m.records id j d.last n),
  )

  give_up-KnownAfter :
      (m : BranchManager J R) (id : String) (r : BranchRecord J R) (s : BranchState)
      → Dict.get m.records id ≡ some r
      → (give_up m id r).0 ≡ ok s
      → KnownAfter m.records id (give_up m id r).1.records
  unfolding give_up
  give_up-KnownAfter m id r s g =
      if_all (λ (o : Outcome J R). o.0 ≡ ok s → KnownAfter m.records id o.1.records)
        (is_terminal r.state) _ (cancel_one m id r) (λ c h. ((r, g), λ j n. refl))
        (λ c h. Drops-KnownAfter m (cancel_one m id r).1 id r (cancel_one-Drops m id r s g h))

  -- `id` is released, and the others have the status that they had.
  abbrev ReleasedAfter : Records J R → String → Records J R → Type 0
  ReleasedAfter records id records' =
      (status_of records' id ≡ some released)
      × ((j : String) → id ≢ j → status_of records' j ≡ status_of records j)

  released-ReleasedAfter :
      (records records' : Records J R) (id : String)
      → KnownAfter records id records'
      → ReleasedAfter records id (modify id release_record records')
  unfolding status_of
  released-ReleasedAfter records records' id ((x, g), others) = (
    ap state_in (get-modify_self id release_record records' x g),
    λ j n. ap state_in (get-modify_other id j release_record records' n ∙ others j n),
  )

  mark_released-ReleasedAfter :
      (m : BranchManager J R) (id : String) (r : BranchRecord J R) (done : Unit {0})
      → Dict.get m.records id ≡ some r
      → (mark_released m id r).0 ≡ ok done
      → ReleasedAfter m.records id (mark_released m id r).1.records
  unfolding mark_released with_records status_of
  mark_released-ReleasedAfter m id r done g =
      if_all
        (λ (o : Result BranchError (Unit {0}) × BranchManager J R).
          o.0 ≡ ok done → ReleasedAfter m.records id o.1.records)
        (is_released r.state) _ _
        (λ c h. (ap state_in g ∙ ap (λ s. some s) (is_released-eq r.state c), λ j n. refl))
        (λ c. elim (Result-cases (give_up m id r).0) [
          | inr (e, f) ↦ rw f (λ h. cc h)
          | inl (s, f) ↦ rw f (λ h.
              released-ReleasedAfter m.records (give_up m id r).1.records id
                (give_up-KnownAfter m id r s g f))
        ])

  release_one-ReleasedAfter :
      (m : BranchManager J R) (id : String) (r : BranchRecord J R) (done : Unit {0})
      → Dict.get m.records id ≡ some r
      → (release_one m id r).0 ≡ ok done
      → ReleasedAfter m.records id (release_one m id r).1.records
  unfolding release_one with_records
  release_one-ReleasedAfter m id r done g = elim (Result-cases (mark_released m id r).0) [
    | inr (e, f) ↦ rw (f, release_one) (λ h. cc h)
    | inl (d, f) ↦
        rw (f, release_one)
          (let (self, others) = mark_released-ReleasedAfter m id r d g f in
            elim (Result-cases (compact id r (mark_released m id r).1.records)) [
              | inr (e, c) ↦ rw c (λ h. cc h)
              | inl (records, c) ↦ rw c (λ h.
                  let same = compact-status id r (mark_released m id r).1.records records c in
                  (same id ∙ self, λ j n. same j ∙ others j n))
            ])
  ]

  release_from-status :
      (statuses out : Dict String BranchState) (m : BranchManager J R) (ids : List String)
      → (release_from statuses m ids).0 ≡ ok out
      → (j : String)
      → status_of (release_from statuses m ids).1.records j
        ≡ after_release ids (status_of m.records) j
  unfolding release_from after_release member
  release_from-status statuses out m [] = λ h j. refl
  release_from-status statuses out m (id ∷ ids) = elim (Option-cases (Dict.get m.records id)) [
    | inl e ↦ rw (e, release_from) (λ h j. cc h)
    | inr (r, g) ↦
        rw (g, release_from)
          (elim (Result-cases (release_one m id r).0) [
            | inr (e, f) ↦ rw f (λ h j. cc h)
            | inl (done, f) ↦ rw f (λ h j.
                let m' = (release_one m id r).1 in
                let (self, others) = release_one-ReleasedAfter m id r done g f in
                release_from-status (Dict.put statuses id released) out m' ids h j
                ∙ after_release-step id ids (status_of m.records) (status_of m'.records) j self
                    (others j))
          ])
  ]

  -- Releasing branches, where it does not raise, releases just those that are asked for: afterwards
  -- each of them has the status `released`, and every other branch, the parents and the children
  -- of the released ones included, has the status that it had or is as unknown as it was.
  pub release_branches-status :
      (m : BranchManager J R) (ids : List String) (out : Dict String BranchState)
      → (release_branches m ids).0 ≡ ok out
      → (j : String)
      → status_of (release_branches m ids).1.records j ≡ after_release ids (status_of m.records) j
  unfolding release_branches
  release_branches-status m ids out h j = release_from-status [] out m ids h j

  unread :
      (m : BranchManager J R) (id : String)
      → status_of m.records id ≡ some released
      → get_branch_result m id ≡ err (released_branch id)
  unfolding get_branch_result status_of
  unread m id h = elim (Option-cases (Dict.get m.records id)) [
    | inl e ↦ cc (ap state_in e, h)
    | inr (r, e) ↦
        rw (e, get_branch_result)
          (if_true (is_released r.state) (err (released_branch id))
            (or_raise r.result (no_result id)) (ap is_released_in (ap state_in (sym e) ∙ h)))
  ]

  -- A branch that was released has no result any more: reading it raises, whatever it had.
  pub released_unread :
      (m : BranchManager J R) (ids : List String) (out : Dict String BranchState) (id : String)
      → (release_branches m ids).0 ≡ ok out
      → member id ids ≡ true
      → get_branch_result (release_branches m ids).1 id ≡ err (released_branch id)
  unfolding after_release
  released_unread m ids out id h k =
      unread (release_branches m ids).1 id
        (release_branches-status m ids out h id ∙ if_true (member id ids) _ _ k)
