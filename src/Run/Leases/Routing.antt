-- ===== src/Run/Leases/Routing.antt =====
-- Where a work item is sent.
use sts2_rl.Prelude.{
  ℕ, ◌≡◌, inl, inr, refl, sym, ap, subst, ◌∙◌, arith, String, true, false, Option, none, some, List,
  Result, ok, err, eq_iff, Bool-cases, Option-cases, ok_inj,
}
use sts2_rl.Prelude.Dict
use sts2_rl.Prelude.Key.{str_key}
use sts2_rl.Run.Leases.{
  Slot, same_slot, slot_key, Lease, LeaseRegistry, continuation, sub_branch, bootstrap_step,
  holder_step, ChoiceWorkItem, is_valid_for, RouteError, Route, route_holder, after_holder,
  after_choice, route_by, route_choice_work_item, holds_lease, choose_bootstrap_slot, holder_of,
}
use sts2_rl.Run.Leases.Registry.{all_generations-gone, holds_lease-get}

after_choice-free :
    (leases leases' : LeaseRegistry) (chosen : Result RouteError (Slot × ℕ)) (r : Route)
    → after_choice leases chosen ≡ (ok r, leases')
    → (r.execution_mode ≡ bootstrap_step)
      × ((c : String) (l : Lease)
          → Dict.get leases' c ≡ some l
          → same_slot l.worker_slot r.slot ≡ false)
unfolding after_choice
after_choice-free leases leases' (err e) r h = absurd (cc (ap (λ x. x.0) h))
after_choice-free leases leases' (ok (slot, next)) r h =
    let route = ok_inj (ap (λ x. x.0) h) in
    let kept = ap (λ x. x.1) h in
    (
      ap (λ (x : Route). x.execution_mode) (sym route),
      λ c l e.
          subst (λ (s : Slot). same_slot l.worker_slot s ≡ false) (ap (λ (x : Route). x.slot) route)
            (elim (Bool-cases (holds_lease leases slot)) [
              | inl y ↦
                  all_generations-gone leases slot c l (ap (λ m. Dict.get m c) (rw y at kept) ∙ e)
              | inr n ↦
                  holds_lease-get leases slot c l n (ap (λ m. Dict.get m c) (rw n at kept) ∙ e)
            ]),
    )

after_holder-ok :
    (leases leases' : LeaseRegistry) (o : Option Lease) (m : Result RouteError Route) (r : Route)
    → after_holder leases o m ≡ (ok r, leases')
    → (m ≡ ok r) × (leases' ≡ leases)
unfolding after_holder
after_holder-ok leases leases' o (ok q) r h = (ap (λ x. x.0) h, ap (λ x. x.1) (sym h))
after_holder-ok leases leases' o (err e) r h = absurd (cc (ap (λ x. x.0) h))

module _ {J : Type 0} where
  -- A sub-branch is bootstrapped on a worker that no lease of the registry names any more.
  pub bootstrap_slot_is_free :
      (w : ChoiceWorkItem J) (leases leases' : LeaseRegistry) (slots : List Slot)
      (generations : Dict.Dict Slot ℕ) (next : ℕ) (holder : Option Slot) (r : Route) (c : String)
      (l : Lease)
      → w.work_kind ≡ sub_branch
      → route_choice_work_item w leases slots generations next holder ≡ (ok r, leases')
      → Dict.get leases' c ≡ some l
      → same_slot l.worker_slot r.slot ≡ false
  unfolding route_choice_work_item route_by
  bootstrap_slot_is_free w leases leases' slots generations next holder r c l kind h e =
      (after_choice-free leases leases' (choose_bootstrap_slot slots leases next) r (
          subst (λ k. route_by k w leases slots generations next holder ≡ (ok r, leases')) kind
            h)).1
        c l e

  valid_generation :
      (lease : Lease) (w : ChoiceWorkItem J) (n : ℕ)
      → is_valid_for lease w n ≡ true
      → (lease.worker_generation ≡ n) × (lease.context_id ≡ w.context_id)
  unfolding is_valid_for
  valid_generation lease w n h = ground (arith, h, eq_iff lease.context_id w.context_id)

  route_holder-valid :
      (w : ChoiceWorkItem J) (o : Option Lease) (s : Option Slot) (generations : Dict.Dict Slot ℕ)
      (next : ℕ) (r : Route)
      → route_holder w o s generations next ≡ ok r
      → (lease : Lease) × (o ≡ some lease)
        × (r.execution_mode ≡ holder_step)
        × (r.expected_lease ≡ some lease)
        × (lease.context_id ≡ w.context_id)
        × (Dict.get generations r.slot ≡ some lease.worker_generation)
        × (s ≡ some r.slot)
  unfolding route_holder
  route_holder-valid w none none generations next r h = absurd (cc h)
  route_holder-valid w none (some slot) generations next r h = absurd (cc h)
  route_holder-valid w (some lease) none generations next r h = absurd (cc h)
  route_holder-valid w (some lease) (some slot) generations next r h =
      elim (Option-cases (Dict.get generations slot)) [
        | inl e ↦ absurd (cc (rw (route_holder, e) at h))
        | inr (n, e) ↦ elim (Bool-cases (is_valid_for lease w n)) [
          | inl y ↦
              let route = ok_inj (rw (route_holder, e, y) at h) in
              let (same, context) = valid_generation lease w n y in
              (
                lease,
                refl,
                ap (λ (x : Route). x.execution_mode) (sym route),
                ap (λ (x : Route). x.expected_lease) (sym route),
                context,
                ap (λ (x : Route). Dict.get generations x.slot) (sym route)
                    ∙ e
                    ∙ ap (λ m. some m) (sym same),
                ap (λ (x : Route). some x.slot) route,
              )
          | inr f ↦ absurd (cc (rw (route_holder, e, f) at h))
        ]
      ]

  -- A continuation is sent only under the lease that is registered for its context, to the pinned
  -- slot or else to the lease's own, and only while that slot's worker is of the generation that
  -- the lease was given by.
  continuation_needs_lease :
      (w : ChoiceWorkItem J) (leases leases' : LeaseRegistry) (slots : List Slot)
      (generations : Dict.Dict Slot ℕ) (next : ℕ) (holder : Option Slot) (r : Route)
      → w.work_kind ≡ continuation
      → route_choice_work_item w leases slots generations next holder ≡ (ok r, leases')
      → (lease : Lease) × (Dict.get leases w.context_id ≡ some lease)
        × (r.execution_mode ≡ holder_step)
        × (r.expected_lease ≡ some lease)
        × (lease.context_id ≡ w.context_id)
        × (Dict.get generations r.slot ≡ some lease.worker_generation)
        × (holder_of holder (some lease) ≡ some r.slot)
        × (leases' ≡ leases)
  unfolding route_choice_work_item route_by
  continuation_needs_lease w leases leases' slots generations next holder r kind h =
      let o = Dict.get leases w.context_id in
      let (routed, same) =
        after_holder-ok leases leases' o (route_holder w o (holder_of holder o) generations next) r
          (subst (λ k. route_by k w leases slots generations next holder ≡ (ok r, leases')) kind
            h) in
      let (lease, found, mode, expected, context, generation, slot) =
        route_holder-valid w o (holder_of holder o) generations next r routed in
      (
        lease,
        found,
        mode,
        expected,
        context,
        generation,
        ap (holder_of holder) (sym found) ∙ slot,
        same,
      )
