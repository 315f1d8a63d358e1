-- ===== src/Run/Picks/Sound.antt =====
-- What is picked is among what was offered.
use sts2_rl.Prelude.{
  ℕ, zero, suc, ◌≡◌, ◌⊎◌, inl, inr, refl, sym, subst, String, Bool, true, false, not, some, List,
  [], ◌∷◌, ok, str_eq, get_elem?, Bool-cases, List-cases, Option-cases, ok_inj,
}
use sts2_rl.Run.{Action, Room}
use sts2_rl.Run.Picks.{
  filter, first_of_type, preferred, action_type_preference_order, pick_from, pick_default_action,
  excludes, pool_of, head, zero_index_room_picker, pick_room,
}

-- `x` is an entry of the list.
abbrev pub In : {A : Type 0} → A → List A → Type 0
In x xs = (i : ℕ) × (get_elem? xs i ≡ some x)

some_inj : {A : Type 0} {a b : A} → some a ≡ some b → a ≡ b
some_inj e = cc

In-tail : {A : Type 0} (x y : A) (xs : List A) → In x xs → In x (y ∷ xs)
In-tail x y xs (i, e) = (suc i, e)

In-first :
    {A : Type 0} (P : A → Type 0) (xs ys : List A) (x y : A)
    → P y
    → ((z : A) → In z xs → In z ys × P z)
    → In x (y ∷ xs)
    → In x (y ∷ ys) × P x
In-first P xs ys x y h rest (zero, f) = ((0, f), subst P (some_inj f) h)
In-first P xs ys x y h rest (suc j, f) = let (found, k) = rest x (j, f) in (In-tail x y ys found, k)

pub In-filter :
    {A : Type 0} (keep : A → Bool) (xs : List A) (x : A)
    → In x (filter keep xs)
    → In x xs × (keep x ≡ true)
unfolding filter
In-filter keep [] x (i, e) = absurd (cc e)
In-filter keep (y ∷ xs) x (i, e) = elim (Bool-cases (keep y)) [
  | inl k ↦
      In-first (λ z. keep z ≡ true) (filter keep xs) xs x y k (λ z h. In-filter keep xs z h)
        (i, rw k at e)
  | inr n ↦ let (found, k) = In-filter keep xs x (i, rw n at e) in (In-tail x y xs found, k)
]

first_of_type-In :
    (t : String) (pool : List Action) (a : Action) → first_of_type t pool ≡ some a → In a pool
unfolding first_of_type
first_of_type-In t [] a e = absurd (cc e)
first_of_type-In t (b ∷ pool) a e = elim (Bool-cases (str_eq b.action_type t)) [
  | inl y ↦ (0, rw y at e)
  | inr n ↦ In-tail a b pool (first_of_type-In t pool a (rw n at e))
]

preferred-In :
    (order : List String) (first : Action) (pool : List Action)
    → In first pool
    → In (preferred order first pool) pool
unfolding preferred
preferred-In [] first pool h = h
preferred-In (t ∷ order) first pool h = elim (Option-cases (first_of_type t pool)) [
  | inl e ↦ rw (preferred, e) (preferred-In order first pool h)
  | inr (a, e) ↦ rw (preferred, e) (first_of_type-In t pool a e)
]

pick_from-In : (pool : List Action) (a : Action) → pick_from pool ≡ ok a → In a pool
unfolding pick_from
pick_from-In [] a e = absurd (cc e)
pick_from-In (b ∷ pool) a e =
    subst (λ x. In x (b ∷ pool)) (ok_inj e)
      (preferred-In action_type_preference_order b (b ∷ pool) (0, refl))

-- The default picker returns one of the legal actions, an available one unless none is.
pick_default_action-In :
    (legal_actions : List Action) (a : Action)
    → pick_default_action legal_actions ≡ ok a
    → In a legal_actions
      × ((a.is_available ≡ true) ⊎ (filter (λ b. b.is_available) legal_actions ≡ []))
unfolding pick_default_action
pick_default_action-In legal_actions a e =
    elim (List-cases (filter (λ b. b.is_available) legal_actions)) [
      | inl none_available ↦
          (pick_from-In legal_actions a (rw none_available at e), inr none_available)
      | inr (b, rest, some_available) ↦
          let found =
            In-filter (λ c. c.is_available) legal_actions a
              (subst (In a) (sym some_available)
                (pick_from-In (b ∷ rest) a (rw some_available at e))) in
          (found.0, inl found.1)
    ]

pick_from-total : (a : Action) (pool : List Action) → (b : Action) × (pick_from (a ∷ pool) ≡ ok b)
unfolding pick_from
pick_from-total a pool = (preferred action_type_preference_order a (a ∷ pool), refl)

-- The default picker finds an action whenever there is a legal one.
pub pick_default_action-total :
    (a : Action) (legal_actions : List Action)
    → (b : Action) × (pick_default_action (a ∷ legal_actions) ≡ ok b)
unfolding pick_default_action
pick_default_action-total a legal_actions =
    elim (List-cases (filter (λ b. b.is_available) (a ∷ legal_actions))) [
      | inl e ↦ rw e (pick_from-total a legal_actions)
      | inr (b, rest, e) ↦ rw e (pick_from-total b rest)
    ]

head-In : {A : Type 0} (xs : List A) (x : A) → head xs ≡ some x → In x xs
head-In [] x e = absurd (cc e)
head-In (y ∷ xs) x e = (0, e)

not-true : (b : Bool) → not b ≡ true → b ≡ false
not-true true h = cc
not-true false h = refl

pool_of-In :
    (rooms : List Room) (excluded : List ℕ) (r : Room)
    → In r (pool_of rooms excluded)
    → In r rooms × (excludes excluded r.room_id ≡ false)
unfolding pool_of
pool_of-In rooms excluded r h =
    let (found, k) = In-filter (λ x. not (excludes excluded x.room_id)) rooms r h in
    (found, not-true _ k)

-- Both room pickers return a room of the map that is not excluded, and the default one returns a
-- treasure room only if every room that is not excluded is one.
room_pickers_sound :
    (rooms : List Room) (excluded : List ℕ) (r z : Room)
    → pick_room rooms excluded ≡ some r
    → zero_index_room_picker rooms excluded ≡ some z
    → In r rooms
      × (excludes excluded r.room_id ≡ false)
      × ((str_eq r.point_type "Treasure" ≡ false)
          ⊎ (filter (λ x. not (str_eq x.point_type "Treasure")) (pool_of rooms excluded) ≡ []))
      × In z rooms
      × (excludes excluded z.room_id ≡ false)
unfolding pick_room zero_index_room_picker
room_pickers_sound rooms excluded r z p q =
    let (z_in, z_free) = pool_of-In rooms excluded z (head-In (pool_of rooms excluded) z q) in
    elim (List-cases
      (filter (λ x. not (str_eq x.point_type "Treasure")) (pool_of rooms excluded))) [
        | inl e ↦
            let (r_in, r_free) =
              pool_of-In rooms excluded r (head-In (pool_of rooms excluded) r (rw e at p)) in
            (r_in, r_free, inr e, z_in, z_free)
        | inr (x, rest, e) ↦
            let (r_pool, r_kept) =
              In-filter (λ y. not (str_eq y.point_type "Treasure")) (pool_of rooms excluded) r
                (subst (In r) (sym e) (head-In (x ∷ rest) r (rw e at p))) in
            let (r_in, r_free) = pool_of-In rooms excluded r r_pool in
            (r_in, r_free, inl (not-true _ r_kept), z_in, z_free)
      ]
