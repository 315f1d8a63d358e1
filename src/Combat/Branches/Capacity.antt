-- ===== src/Combat/Branches/Capacity.antt =====
-- The bound on the branches that are queued or running.
use sts2_rl.Prelude.{
  ℕ, ◌+◌, ◌≤◌, ◌≡◌, refl, ap, ◌∙◌, arith, String, Bool, true, false, Option, none, some, List, [],
  ◌∷◌, ok, err, length, inl, inr, Option-cases, >>=-eq-ok, ok_inj, subst, ltb, if◌then◌else◌,
}
use sts2_rl.Prelude.Dict
use sts2_rl.Prelude.Totals
use sts2_rl.Prelude.Key.{str_key}
use sts2_rl.Combat.Pool.{limit_exceeded}
use sts2_rl.Combat.Branches.{
  BranchRecord, BranchManager, Records, Entries, active_weight, active_branch_count, check_parents,
  new_records, add_records, add_child, link, link_children, submit_many,
}

if_ok :
    {E A : Type 0} (b : Bool) (e : E) (x y : A)
    → (if b then err e else ok x) ≡ ok y
    → (b ≡ false) × (x ≡ y)
if_ok true e x y h = cc h
if_ok false e x y h = (refl, ok_inj h)

length-new_records :
    {J : Type 0} (R : Type 0) (serial : ℕ) (entries : Entries J)
    → length {A = BranchRecord J R} (new_records serial entries) ≡ length entries
unfolding new_records
length-new_records R serial [] = refl
length-new_records R serial ((item, parent) ∷ entries) =
    omega (arith, length-new_records R (serial + 1) entries)

module _ {J R : Type 0} where
  abbrev active : Records J R → ℕ
  active records = Totals.total active_weight records

  active_weight_le : (id : String) (r : BranchRecord J R) → active_weight id r ≤ 1
  unfolding active_weight
  active_weight_le id r = ground arith

  active-add_records :
      (rs : List (BranchRecord J R)) (records : Records J R)
      → active (add_records rs records) ≤ active records + length rs
  unfolding add_records
  active-add_records [] records = omega arith
  active-add_records (r ∷ rs) records = omega (
    arith,
    active-add_records rs (Dict.put records r.branch_id r),
    Totals.total-put_le active_weight records r.branch_id r,
    active_weight_le r.branch_id r,
  )

  active-link :
      (parent : Option String) (id : String) (records : Records J R)
      → active (link parent id records) ≡ active records
  unfolding link add_child active_weight
  active-link none id records = refl
  active-link (some parent) id records = elim (Option-cases (Dict.get records parent)) [
    | inl e ↦ rw (e, add_child) refl
    | inr (p, e) ↦
        rw (e, add_child) (omega (arith, Totals.total-put active_weight records parent p _ e))
  ]

  active-link_children :
      (rs : List (BranchRecord J R)) (records : Records J R)
      → active (link_children rs records) ≡ active records
  unfolding link_children
  active-link_children [] records = refl
  active-link_children (r ∷ rs) records =
      active-link_children rs (link r.parent_branch_id r.branch_id records)
      ∙ active-link r.parent_branch_id r.branch_id records

  -- A batch of branches is accepted only where the branches that are then queued or running are no
  -- more than the limit, which the batch does not change.
  pub submit_many_bounded :
      (m m' : BranchManager J R) (entries : Entries J) (ids : List String)
      → submit_many m entries ≡ ok (ids, m')
      → (active_branch_count m' ≤ m'.max_branches) × (m'.max_branches ≡ m.max_branches)
  unfolding submit_many active_branch_count
  submit_many_bounded m m' entries ids h =
      let (u, e, f) = >>=-eq-ok (check_parents entries m.records) _ h in
      let rs = new_records {J = J} {R = R} m.next_serial entries in
      let (fits, same) =
        if_ok (ltb m.max_branches (active_branch_count m + length entries)) limit_exceeded _
          (ids, m') f in
      subst
        (λ (n : BranchManager J R).
          (active_branch_count n ≤ n.max_branches) × (n.max_branches ≡ m.max_branches))
        (ap (λ p. p.1) same)
        (
          ground (
            arith,
            fits,
            active-link_children rs (add_records rs m.records),
            active-add_records rs m.records,
            length-new_records R m.next_serial entries,
          ),
          refl,
        )
