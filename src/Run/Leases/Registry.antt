-- ===== src/Run/Leases/Registry.antt =====
-- What is left in the registry after an invalidation.
use sts2_rl.Prelude.{
  ℕ, ◌==◌, ◌≡◌, inl, inr, refl, sym, ◌∙◌, arith, String, Bool, true, false, ◌&&◌, none, some, List,
  [], ◌∷◌, Bool-cases, Option-cases,
}
use sts2_rl.Prelude.Dict
use sts2_rl.Prelude.Dict.{get-remove}
use sts2_rl.Prelude.Key.{str_key, str_discrete}
use sts2_rl.Run.Leases.{
  Slot, Slot-discrete, same_slot, Lease, LeaseRegistry, pop_where, invalidate_worker_generation,
  invalidate_worker_all_generations, holds_lease,
}

pub same_slot_refl : (s : Slot) → same_slot s s ≡ true
same_slot_refl s =
    elim (Slot-discrete s s) as (λ d. (elim d [ yes _ ↦ true | no _ ↦ false ]) ≡ true) [
      | yes e ↦ refl
      | no n ↦ absurd (n refl)
    ]

pop_where-sub :
    (drop : Lease → Bool) (items : List (String × Lease)) (leases : LeaseRegistry) (c : String)
    (l : Lease)
    → Dict.get (pop_where drop items leases) c ≡ some l
    → Dict.get leases c ≡ some l
unfolding pop_where
pop_where-sub drop [] leases c l h = h
pop_where-sub drop ((k, m) ∷ items) leases c l h = elim (Bool-cases (drop m)) [
  | inl y ↦ ground (
    arith,
    get-remove leases k c,
    pop_where-sub drop items (Dict.remove leases k) c l (rw y at h),
  )
  | inr n ↦ pop_where-sub drop items leases c l (rw n at h)
]

pop_where-none :
    (drop : Lease → Bool) (items : List (String × Lease)) (leases : LeaseRegistry) (c : String)
    → Dict.get leases c ≡ none
    → Dict.get (pop_where drop items leases) c ≡ none
pop_where-none drop items leases c e =
    elim (Option-cases (Dict.get (pop_where drop items leases) c)) [
      | inl h ↦ h
      | inr (l, h) ↦ absurd (cc (sym e ∙ pop_where-sub drop items leases c l h))
    ]

pop_where-gone :
    (drop : Lease → Bool) (items : List (String × Lease)) (leases : LeaseRegistry) (c : String)
    (l : Lease)
    → Dict.get items c ≡ some l
    → drop l ≡ true
    → Dict.get (pop_where drop items leases) c ≡ none
unfolding pop_where Dict.get
pop_where-gone drop [] leases c l e d = absurd (cc e)
pop_where-gone drop ((k, m) ∷ items) leases c l e d = elim (str_discrete k c) [
  | yes same ↦
      let first : m ≡ l = ground (arith, e, same) in
      rw (first, d)
        (pop_where-none drop items (Dict.remove leases k) c
          (ground (arith, get-remove leases k c, same)))
  | no ne ↦ elim (Bool-cases (drop m)) [
    | inl y ↦ rw y (pop_where-gone drop items (Dict.remove leases k) c l (ground (arith, e, ne)) d)
    | inr n ↦ rw n (pop_where-gone drop items leases c l (ground (arith, e, ne)) d)
  ]
]

-- A lease that is left was there before and is not one that was to be dropped.
pop_where-keeps :
    (drop : Lease → Bool) (leases : LeaseRegistry) (c : String) (l : Lease)
    → Dict.get (pop_where drop leases leases) c ≡ some l
    → (Dict.get leases c ≡ some l) × (drop l ≡ false)
pop_where-keeps drop leases c l h =
    let before = pop_where-sub drop leases leases c l h in
    (
      before,
      elim (Bool-cases (drop l)) [
        | inl y ↦ absurd (cc (sym (pop_where-gone drop leases leases c l before y) ∙ h))
        | inr n ↦ n
      ],
    )

-- When a worker slot is respawned, no lease of its old generation is left, and no lease appears
-- that was not there.
generation_is_invalidated :
    (leases : LeaseRegistry) (slot : Slot) (generation : ℕ) (c : String) (l : Lease)
    → Dict.get (invalidate_worker_generation leases slot generation) c ≡ some l
    → (Dict.get leases c ≡ some l)
      × ((same_slot l.worker_slot slot && (l.worker_generation == generation)) ≡ false)
unfolding invalidate_worker_generation
generation_is_invalidated leases slot generation c l h =
    pop_where-keeps (λ m. same_slot m.worker_slot slot && (m.worker_generation == generation))
      leases c l h

pub all_generations-gone :
    (leases : LeaseRegistry) (slot : Slot) (c : String) (l : Lease)
    → Dict.get (invalidate_worker_all_generations leases slot) c ≡ some l
    → same_slot l.worker_slot slot ≡ false
unfolding invalidate_worker_all_generations
all_generations-gone leases slot c l h =
    (pop_where-keeps (λ m. same_slot m.worker_slot slot) leases c l h).1

pub holds_lease-get :
    (leases : LeaseRegistry) (slot : Slot) (c : String) (l : Lease)
    → holds_lease leases slot ≡ false
    → Dict.get leases c ≡ some l
    → same_slot l.worker_slot slot ≡ false
unfolding holds_lease Dict.get
holds_lease-get [] slot c l h e = absurd (cc e)
holds_lease-get ((k, m) ∷ leases) slot c l h e = elim (str_discrete k c) [
  | yes same ↦ (let first : m ≡ l = ground (arith, e, same) in ground (arith, h, first))
  | no ne ↦ holds_lease-get leases slot c l (ground (arith, h)) (ground (arith, e, ne))
]
