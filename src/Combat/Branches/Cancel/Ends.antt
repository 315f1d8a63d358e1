-- ===== src/Combat/Branches/Cancel/Ends.antt =====
-- The rounds that cancelling gives to its loop are enough, cycles of links included.
use sts2_rl.Prelude.{
  ℕ, zero, suc, ◌+◌, ◌≤◌, ◌≡◌, ◌≢◌, sym, ap, arith, String, Option, none, some, List, [], ◌∷◌, err,
  length, inl, inr, Option-cases, Result-cases,
}
use sts2_rl.Prelude.Dict
use sts2_rl.Prelude.Dict.{Dict}
use sts2_rl.Prelude.Totals
use sts2_rl.Prelude.Key.{str_key, str_discrete}
use sts2_rl.Combat.Pool.{too_many_rounds}
use sts2_rl.Combat.Branches.{BranchState, BranchRecord, BranchManager, Records}
use sts2_rl.Combat.Branches.Cancel.{push, cancel_one, cancel_loop, child_weight, cancel_branches}
use sts2_rl.Combat.Branches.Cancel.Steps.{Drops, cancel_one-Drops, cancel_one-refuses}

pub length-push : (ids stack : List String) → length (push ids stack) ≡ length ids + length stack
unfolding push
length-push [] stack = omega arith
length-push (id ∷ ids) stack = omega (arith, length-push ids (id ∷ stack))

unseen : Option BranchState → List String → ℕ
unseen none cs = length cs
unseen (some s) cs = 0

unseen_le :
    (visited : Dict String BranchState) (id : String) (s : BranchState) (j : String)
    (cs : List String)
    → unseen (Dict.get (Dict.put visited id s) j) cs ≤ unseen (Dict.get visited j) cs
unfolding unseen
unseen_le visited id s j cs = elim (str_discrete id j) [
  | yes p ↦ rw (sym p, Dict.get-put_self visited id s) (omega arith)
  | no n ↦ rw (Dict.get-put_other visited id j s n) (omega arith)
]

module _ {J R : Type 0} where
  -- The children that the loop has yet to push.
  weight : Dict String BranchState → String → BranchRecord J R → ℕ
  weight visited id r = unseen (Dict.get visited id) r.child_branch_ids

  weight_le :
      (visited : Dict String BranchState) (id : String) (s : BranchState) (j : String)
      (r : BranchRecord J R)
      → weight (Dict.put visited id s) j r ≤ weight visited j r
  unfolding weight unseen
  weight_le visited id s j r = unseen_le visited id s j r.child_branch_ids

  weight_visited :
      (visited : Dict String BranchState) (id : String) (s : BranchState) (r : BranchRecord J R)
      → weight (Dict.put visited id s) id r ≡ 0
  unfolding weight unseen
  weight_visited visited id s r =
      ap (λ o. unseen o r.child_branch_ids) (Dict.get-put_self visited id s)

  weight_new :
      (visited : Dict String BranchState) (id : String) (r : BranchRecord J R)
      → Dict.get visited id ≡ none
      → weight visited id r ≡ length r.child_branch_ids
  unfolding weight unseen
  weight_new visited id r h = ap (λ o. unseen o r.child_branch_ids) h

  -- A visit takes the children that it pushes out of the weight.
  weight-visit :
      (visited : Dict String BranchState) (id : String) (s : BranchState) (m m' : BranchManager J R)
      (r : BranchRecord J R)
      → Dict.get visited id ≡ none
      → Dict.get m.records id ≡ some r
      → Drops m id r m'
      → Totals.total (weight (Dict.put visited id s)) m'.records + length r.child_branch_ids
        ≤ Totals.total (weight visited) m.records
  weight-visit visited id s m m' r new g d =
      let put = Totals.total-put (weight (Dict.put visited id s)) m.records id r d.last g in
      rw d.stored (
        omega (
          arith,
          put,
          weight_visited visited id s r,
          weight_visited visited id s d.last,
          weight_new visited id r new,
          Totals.total-dropped (weight (Dict.put visited id s)) (weight visited) m.records id r
              (weight_le visited id s) (weight_visited visited id s) g,
        ))

  cancel_loop-Ends :
      (rounds : ℕ) (stack : List String) (visited : Dict String BranchState) (m : BranchManager J R)
      → length stack + Totals.total (weight visited) m.records ≤ rounds
      → (cancel_loop rounds stack visited m).0 ≢ err too_many_rounds
  unfolding cancel_loop
  cancel_loop-Ends rounds [] visited m le = λ h. cc h
  cancel_loop-Ends zero (id ∷ stack) visited m le = omega arith
  cancel_loop-Ends (suc rounds) (id ∷ stack) visited m le =
      elim (Option-cases (Dict.get visited id)) [
        | inr (s, e) ↦ rw (e, cancel_loop) (cancel_loop-Ends rounds stack visited m (omega arith))
        | inl new ↦
            rw (new, cancel_loop)
              (elim (Option-cases (Dict.get m.records id)) [
                | inl e ↦ rw e (λ h. cc h)
                | inr (r, g) ↦ rw g (elim (Result-cases (cancel_one m id r).0) [
                  | inl (s, e) ↦ rw e (
                      cancel_loop-Ends rounds (push r.child_branch_ids stack)
                        (Dict.put visited id s) (cancel_one m id r).1
                        (omega (
                          arith,
                          length-push r.child_branch_ids stack,
                          weight-visit visited id s m (cancel_one m id r).1 r new g
                              (cancel_one-Drops m id r s g e),
                        )))
                  | inr (x, e) ↦ rw e (λ h. (cancel_one-refuses m id r x g e).0 (cc h))
                ])
              ])
      ]

  weight_start :
      (records : Records J R) → Totals.total (weight []) records ≤ Totals.total child_weight records
  unfolding weight unseen child_weight Dict.get
  weight_start records = Totals.total-le (weight []) child_weight (λ id r. omega arith) records

  -- Cancelling does not run out of rounds: each branch is visited once, so that at most the ids asked
  -- for and the children of all the records are pushed, whatever the links are.
  pub cancel_branches-Ends :
      (m : BranchManager J R) (ids : List String) → (cancel_branches m ids).0 ≢ err too_many_rounds
  unfolding cancel_branches
  cancel_branches-Ends m ids =
      cancel_loop-Ends (length ids + Totals.total child_weight m.records) (push ids []) [] m
        (omega (arith, length-push ids [], weight_start m.records))
