-- ===== src/Combat/Branches/Release/Close.antt =====
-- Combat/search/branch_manager.py: what closing leaves of the branches.
use sts2_rl.Prelude.{
  ◌≡◌, ◌≢◌, refl, ◌∙◌, arith, String, true, Option, none, some, [], ◌∷◌, map, ok, err, ◌⊎◌, inl,
  inr, Option-cases, Result-cases, eq_iff,
}
use sts2_rl.Prelude.Dict
use sts2_rl.Prelude.Key.{str_key}
use sts2_rl.Api.Dto.{member}
use sts2_rl.Combat.Pool.{BranchError, too_many_rounds}
use sts2_rl.Combat.Branches.{BranchState, released, BranchRecord, BranchManager, Records}
use sts2_rl.Combat.Branches.Cancel.{cancel_branches}
use sts2_rl.Combat.Branches.Cancel.Ends.{cancel_branches-Ends}
use sts2_rl.Combat.Branches.Release.{release_branches, close_all}
use sts2_rl.Combat.Branches.Release.Ends.{release_from-Ends}
use sts2_rl.Combat.Branches.Release.Modify.{status_of}
use sts2_rl.Combat.Branches.Release.Refines.{after_release, if_true, release_branches-status}

-- A branch that had a status has the status `released` now.
abbrev pub IsClosed : Option BranchState → Option BranchState → Type 0
IsClosed none after = Unit
IsClosed (some before) after = after ≡ some released

module _ {J R : Type 0} where
  member-keys :
      (records : Records J R) (id : String) (r : BranchRecord J R)
      → Dict.get records id ≡ some r
      → member id (map (λ e. e.0) records) ≡ true
  unfolding member Dict.get
  member-keys [] id r h = cc h
  member-keys ((key, x) ∷ records) id r h =
      ground (arith, member-keys records id r, eq_iff id key, h)

  released-IsClosed :
      (m m' : BranchManager J R) (out : Dict.Dict String BranchState) (id : String)
      → (release_branches m' (map (λ e. e.0) m.records)).0 ≡ ok out
      → IsClosed
          (status_of m.records id)
          (status_of (release_branches m' (map (λ e. e.0) m.records)).1.records id)
  unfolding status_of after_release
  released-IsClosed m m' out id h = elim (Option-cases (Dict.get m.records id)) [
    | inl e ↦ rw e tt
    | inr (r, e) ↦ rw e (
        release_branches-status m' (map (λ e. e.0) m.records) out h id
        ∙ if_true (member id (map (λ e. e.0) m.records)) _ _ (member-keys m.records id r e))
  ]

  -- Closing ends without running out of rounds in either loop, over any table of records, links that
  -- go round in a cycle included. Where it does not refuse, every branch that the table had, whatever
  -- its status was, is released afterwards.
  pub close_all-Ends :
      (m : BranchManager J R)
      → ((e : BranchError) × ((close_all m).0 ≡ err e) × (e ≢ too_many_rounds))
        ⊎ (((close_all m).0 ≡ ok tt)
            × ((id : String)
                → IsClosed (status_of m.records id) (status_of (close_all m).1.records id)))
  unfolding close_all release_branches
  close_all-Ends m =
      let ids = map (λ e. e.0) m.records in
      elim (Result-cases (cancel_branches m ids).0) [
        | inr (e, f) ↦
            rw (f, close_all) (inl (e, refl, λ h. cancel_branches-Ends m ids (cc (f, h))))
        | inl (states, f) ↦
            rw (f, close_all)
              (elim (Result-cases (release_branches (cancel_branches m ids).1 ids).0) [
                | inr (e, k) ↦ rw k (
                    inl (
                      e,
                      refl,
                      λ h. release_from-Ends [] (cancel_branches m ids).1 ids (cc (k, h)),
                    ))
                | inl (out, k) ↦
                    rw k (inr (refl, λ id. released-IsClosed m (cancel_branches m ids).1 out id k))
              ])
      ]
