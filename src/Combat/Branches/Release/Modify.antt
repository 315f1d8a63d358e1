-- ===== src/Combat/Branches/Release/Modify.antt =====
-- Changing one record: what is read afterwards, and the sums over the records.
use sts2_rl.Prelude.{
  ℕ, ◌≡◌, ◌≢◌, refl, sym, ap, arith, String, Option, none, some, inl, inr, Option-cases,
}
use sts2_rl.Prelude.Dict
use sts2_rl.Prelude.Totals
use sts2_rl.Prelude.Key.{str_key, str_discrete}
use sts2_rl.Combat.Branches.{BranchState, BranchRecord, Records}
use sts2_rl.Combat.Branches.Release.{modify}

module _ {J R : Type 0} where
  abbrev pub state_in : Option (BranchRecord J R) → Option BranchState
  state_in none = none
  state_in (some r) = some r.state

  -- What is known of a branch from outside.
  unfoldable pub status_of : Records J R → String → Option BranchState
  status_of records id = state_in (Dict.get records id)

  pub modify_known :
      (id : String) (f : BranchRecord J R → BranchRecord J R) (records : Records J R)
      (r : BranchRecord J R)
      → Dict.get records id ≡ some r
      → modify id f records ≡ Dict.put records id (f r)
  unfolding modify
  modify_known id f records r g = rw (g, modify) refl

  pub modify_unknown :
      (id : String) (f : BranchRecord J R → BranchRecord J R) (records : Records J R)
      → Dict.get records id ≡ none
      → modify id f records ≡ records
  unfolding modify
  modify_unknown id f records g = rw (g, modify) refl

  pub get-modify_self :
      (id : String) (f : BranchRecord J R → BranchRecord J R) (records : Records J R)
      (r : BranchRecord J R)
      → Dict.get records id ≡ some r
      → Dict.get (modify id f records) id ≡ some (f r)
  get-modify_self id f records r g =
      rw (modify_known id f records r g) (Dict.get-put_self records id (f r))

  pub get-modify_other :
      (id j : String) (f : BranchRecord J R → BranchRecord J R) (records : Records J R)
      → id ≢ j
      → Dict.get (modify id f records) j ≡ Dict.get records j
  get-modify_other id j f records ne = elim (Option-cases (Dict.get records id)) [
    | inl e ↦ rw (modify_unknown id f records e) refl
    | inr (r, e) ↦ rw (modify_known id f records r e) (Dict.get-put_other records id j (f r) ne)
  ]

  -- A change that keeps a property of each record that it meets keeps it of what is read.
  pub read-modify {ℓ} :
      {A : Type ℓ} (read : Option (BranchRecord J R) → A) (id j : String)
      (f : BranchRecord J R → BranchRecord J R) (records : Records J R)
      → ((r : BranchRecord J R) → read (some (f r)) ≡ read (some r))
      → read (Dict.get (modify id f records) j) ≡ read (Dict.get records j)
  read-modify read id j f records keeps = elim (str_discrete id j) [
    | yes p ↦ elim (Option-cases (Dict.get records id)) [
      | inl e ↦ rw (modify_unknown id f records e) refl
      | inr (r, e) ↦ rw (sym p, get-modify_self id f records r e, e) (keeps r)
    ]
    | no n ↦ ap read (get-modify_other id j f records n)
  ]

  pub total-modify :
      (w : String → BranchRecord J R → ℕ) (id : String) (f : BranchRecord J R → BranchRecord J R)
      (records : Records J R)
      → ((r : BranchRecord J R) → w id (f r) ≡ w id r)
      → Totals.total w (modify id f records) ≡ Totals.total w records
  total-modify w id f records keeps = elim (Option-cases (Dict.get records id)) [
    | inl e ↦ rw (modify_unknown id f records e) refl
    | inr (r, e) ↦
        rw (modify_known id f records r e)
          (omega (arith, Totals.total-put w records id r (f r) e, keeps r))
  ]
