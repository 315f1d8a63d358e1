-- ===== src/Combat/Branches/Cancel/Subtree.antt =====
-- Cancelling reaches every branch below those that are asked for.
use sts2_rl.Prelude.{
  ℕ, zero, suc, ◌≡◌, ◌≢◌, refl, sym, ap, ◌∙◌, String, Bool, true, false, ◌||◌, Option, none, some,
  List, [], ◌∷◌, ok, inl, inr, Option-cases, Result-cases, ok_inj, subst,
}
use sts2_rl.Prelude.Dict
use sts2_rl.Prelude.Dict.{Dict}
use sts2_rl.Prelude.Key.{str_key, str_discrete}
use sts2_rl.Api.Dto.{member}
use sts2_rl.Combat.Branches.{BranchState, is_dropped, BranchRecord, BranchManager, Records}
use sts2_rl.Combat.Branches.Cancel.{push, cancel_one, cancel_loop, cancel_branches}
use sts2_rl.Combat.Branches.Cancel.Seen.{
  is_known, seen, or_left, or_right, member-push, seen-put_other, pop_seen, pop_new, seen_nil,
  pop_start,
}
use sts2_rl.Combat.Branches.Cancel.Steps.{Drops, cancel_one-Drops}

module _ {J R : Type 0} where
  abbrev drop_in : Option (BranchRecord J R) → Bool
  drop_in none = false
  drop_in (some r) = is_dropped r.state

  -- The branch is cancelled or released.
  unfoldable pub is_dropped_in : Records J R → String → Bool
  is_dropped_in records id = drop_in (Dict.get records id)

  abbrev children_in : Option (BranchRecord J R) → List String
  children_in none = []
  children_in (some r) = r.child_branch_ids

  unfoldable pub children_of : Records J R → String → List String
  children_of records id = children_in (Dict.get records id)

  -- `b` is `a` or a branch below it.
  pub data Below (records : Records J R) : String → String → Type 0 where
    self : {a : String} → Below records a a
    child :
        {a c b : String}
        → member c (children_of records a) ≡ true
        → Below records c b
        → Below records a b

  -- Between rounds: what has been visited is dropped, and its children have been visited or wait.
  record Inv (visited : Dict String BranchState) (stack : List String) (m : BranchManager J R)
      : Type 0 where
    all_dropped : (id : String) → seen visited id ≡ true → is_dropped_in m.records id ≡ true
    children_wait :
        (id c : String)
        → seen visited id ≡ true
        → member c (children_of m.records id) ≡ true
        → (seen visited c || member c stack) ≡ true

  Drops-self :
      (m m' : BranchManager J R) (id : String) (r : BranchRecord J R)
      → Drops m id r m'
      → is_dropped_in m'.records id ≡ true
  unfolding is_dropped_in
  Drops-self m m' id r d =
      rw d.stored (ap drop_in (Dict.get-put_self m.records id d.last) ∙ d.is_last)

  Drops-other :
      (m m' : BranchManager J R) (id j : String) (r : BranchRecord J R)
      → Drops m id r m'
      → id ≢ j
      → is_dropped_in m'.records j ≡ is_dropped_in m.records j
  unfolding is_dropped_in
  Drops-other m m' id j r d n =
      rw d.stored (ap drop_in (Dict.get-put_other m.records id j d.last n))

  Drops-children :
      (m m' : BranchManager J R) (id j : String) (r : BranchRecord J R)
      → Drops m id r m'
      → Dict.get m.records id ≡ some r
      → children_of m'.records j ≡ children_of m.records j
  unfolding children_of
  Drops-children m m' id j r d g = elim (str_discrete id j) [
    | yes p ↦
        rw (d.stored, sym p)
          (ap children_in (Dict.get-put_self m.records id d.last)
            ∙ d.same_children
            ∙ ap children_in (sym g))
    | no n ↦ rw d.stored (ap children_in (Dict.get-put_other m.records id j d.last n))
  ]

  skip-Inv :
      (visited : Dict String BranchState) (id : String) (stack : List String)
      (m : BranchManager J R)
      → seen visited id ≡ true
      → Inv visited (id ∷ stack) m
      → Inv visited stack m
  unfolding member
  skip-Inv visited id stack m h inv = record {
    all_dropped = inv.all_dropped;
    children_wait = λ j c v k. pop_seen visited id stack c h (inv.children_wait j c v k);
  }

  visit-Inv :
      (visited : Dict String BranchState) (id : String) (stack : List String)
      (m m' : BranchManager J R) (r : BranchRecord J R) (s : BranchState)
      → Dict.get m.records id ≡ some r
      → Drops m id r m'
      → Inv visited (id ∷ stack) m
      → Inv (Dict.put visited id s) (push r.child_branch_ids stack) m'
  unfolding member children_of
  visit-Inv visited id stack m m' r s g d inv = record {
    all_dropped = λ j v. elim (str_discrete id j) [
      | yes p ↦ ap (is_dropped_in m'.records) (sym p) ∙ Drops-self m m' id r d
      | no n ↦
          Drops-other m m' id j r d n
          ∙ inv.all_dropped j (sym (seen-put_other visited id j s n) ∙ v)
    ];
    children_wait = λ j c v k. elim (str_discrete id j) [
      | yes p ↦
          or_right (seen (Dict.put visited id s) c) (member c (push r.child_branch_ids stack)) (
            member-push c r.child_branch_ids stack
            ∙ or_left (member c r.child_branch_ids) (member c stack) (
                ap (member c) (
                  ap children_in (sym g)
                  ∙ ap (children_of m.records) p
                  ∙ sym (Drops-children m m' id j r d g))
                ∙ k))
      | no n ↦ pop_new visited id s r.child_branch_ids stack c (
          inv.children_wait j c (sym (seen-put_other visited id j s n) ∙ v)
            (ap (member c) (sym (Drops-children m m' id j r d g)) ∙ k))
    ];
  }

  -- What a finished loop leaves: the final table has the links of the first one, and what was seen or
  -- waited is in the answer.
  record Finished (visited : Dict String BranchState) (stack : List String) (m : BranchManager J R)
      (out : Dict String BranchState) (m' : BranchManager J R) : Type 0 where
    closed : Inv out [] m'
    same_links : (j : String) → children_of m'.records j ≡ children_of m.records j
    all_seen : (j : String) → (seen visited j || member j stack) ≡ true → seen out j ≡ true

  cancel_loop-Finished :
      (rounds : ℕ) (stack : List String) (visited out : Dict String BranchState)
      (m : BranchManager J R)
      → Inv visited stack m
      → (cancel_loop rounds stack visited m).0 ≡ ok out
      → Finished visited stack m out (cancel_loop rounds stack visited m).1
  unfolding cancel_loop seen
  cancel_loop-Finished rounds [] visited out m inv = λ h.
      subst (λ o. Finished visited [] m o m) (ok_inj h)
        (record { closed = inv; same_links = λ j. refl; all_seen = seen_nil visited })
  cancel_loop-Finished zero (id ∷ stack) visited out m inv = λ h. cc h
  cancel_loop-Finished (suc rounds) (id ∷ stack) visited out m inv =
      elim (Option-cases (Dict.get visited id)) [
        | inr (s, e) ↦
            rw (e, cancel_loop)
              (λ h.
                let f =
                  cancel_loop-Finished rounds stack visited out m
                    (skip-Inv visited id stack m (ap is_known e) inv) h in
                record {
                  closed = f.closed;
                  same_links = f.same_links;
                  all_seen = λ j k. f.all_seen j (pop_seen visited id stack j (ap is_known e) k);
                })
        | inl new ↦
            rw (new, cancel_loop)
              (elim (Option-cases (Dict.get m.records id)) [
                | inl e ↦ rw e (λ h. cc h)
                | inr (r, g) ↦ rw g (elim (Result-cases (cancel_one m id r).0) [
                  | inr (x, e) ↦ rw e (λ h. cc h)
                  | inl (s, e) ↦ rw e (λ h.
                      let m' = (cancel_one m id r).1 in
                      let d = cancel_one-Drops m id r s g e in
                      let f =
                        cancel_loop-Finished rounds (push r.child_branch_ids stack)
                          (Dict.put visited id s) out m'
                          (visit-Inv visited id stack m m' r s g d inv) h in
                      record {
                        closed = f.closed;
                        same_links = λ j. f.same_links j ∙ Drops-children m m' id j r d g;
                        all_seen =
                            λ j k. f.all_seen j (pop_new visited id s r.child_branch_ids stack j k);
                      })
                ])
              ])
      ]

  start-Inv : (ids : List String) (m : BranchManager J R) → Inv [] ids m
  unfolding seen Dict.get
  start-Inv ids m = record { all_dropped = λ id h. cc h; children_wait = λ id c h k. cc h }

  Below-seen :
      (m m' : BranchManager J R) (out : Dict String BranchState)
      → Inv out [] m'
      → ((j : String) → children_of m'.records j ≡ children_of m.records j)
      → (a b : String) → Below m.records a b
      → seen out a ≡ true
      → seen out b ≡ true
  Below-seen m m' out inv same a _ self h = h
  Below-seen m m' out inv same a b (child {c = c} k below) h =
      Below-seen m m' out inv same c b below
        (seen_nil out c (inv.children_wait a c h (ap (member c) (same a) ∙ k)))

  -- Where cancelling does not raise, every branch that is asked for and every branch below one of
  -- them, by any number of links, is cancelled or released afterwards, and has the children it had.
  pub cancelled_subtree :
      (m : BranchManager J R) (ids : List String) (out : Dict String BranchState) (a b : String)
      → (cancel_branches m ids).0 ≡ ok out
      → member a ids ≡ true
      → Below m.records a b
      → (is_dropped_in (cancel_branches m ids).1.records b ≡ true)
        × (children_of (cancel_branches m ids).1.records b ≡ children_of m.records b)
  unfolding cancel_branches
  cancelled_subtree m ids out a b h k below =
      let f = cancel_loop-Finished _ (push ids []) [] out m (start-Inv (push ids []) m) h in
      (
        f.closed.all_dropped b (
            Below-seen m (cancel_branches m ids).1 out f.closed f.same_links a b below
              (f.all_seen a (pop_start ids a k))),
        f.same_links b,
      )
