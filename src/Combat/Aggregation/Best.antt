-- ===== src/Combat/Aggregation/Best.antt =====
-- What sorting by a descending score gives.
use sts2_rl.Prelude.{
  ◌≡◌, ◌⊎◌, sym, subst, Bool, true, false, List, [], ◌∷◌, inl, inr, Bool-cases, All,
}
use sts2_rl.Combat.Aggregation.{insert_by, sort_by}

abbrev pub In : {A : Type 0} → A → List A → Type 0
In x [] = ⊥
In x (y ∷ ys) = (x ≡ y) ⊎ In x ys

module _ {A S : Type 0} (less : S → S → Bool) (score : A → S) (lt : A → A → Bool) where
  -- `x` has at least the score of `y`.
  abbrev pub AtLeast : A → A → Type 0
  AtLeast x y = less (score x) (score y) ≡ false

  abbrev pub Descends : List A → Type 0
  Descends [] = Unit
  Descends (x ∷ xs) = All (AtLeast x) xs × Descends xs

  All-In : (P : A → Type 0) (y : A) (xs : List A) → All P xs → In y xs → P y
  All-In P y [] a h = elim h [ ]
  All-In P y (z ∷ xs) a (inl p) = subst P (sym p) a.0
  All-In P y (z ∷ xs) a (inr q) = All-In P y xs a.1 q

  -- The first one of a descending list has at least the score of any.
  pub first-AtLeast :
      (x y : A) (xs : List A)
      → ((z : A) → AtLeast z z)
      → Descends (x ∷ xs)
      → In y (x ∷ xs)
      → AtLeast x y
  first-AtLeast x y xs self d (inl p) = subst (AtLeast x) (sym p) (self x)
  first-AtLeast x y xs self d (inr q) = All-In (AtLeast x) y xs d.0 q

  module _ (trans : (x y z : A) → AtLeast x y → AtLeast y z → AtLeast x z)
      (before : (x y : A) → lt x y ≡ true → AtLeast x y)
      (after : (x y : A) → lt x y ≡ false → AtLeast y x) where
    All-trans : (x y : A) (xs : List A) → AtLeast x y → All (AtLeast y) xs → All (AtLeast x) xs
    All-trans x y [] h a = tt
    All-trans x y (z ∷ xs) h a = (trans x y z h a.0, All-trans x y xs h a.1)

    All-insert_by :
        (z x : A) (xs : List A)
        → AtLeast z x
        → All (AtLeast z) xs
        → All (AtLeast z) (insert_by lt x xs)
    unfolding insert_by
    All-insert_by z x [] h a = (h, tt)
    All-insert_by z x (y ∷ ys) h a = elim (Bool-cases (lt y x)) [
      | inl e ↦ rw e (a.0, All-insert_by z x ys h a.1)
      | inr e ↦ rw e (h, a)
    ]

    insert_by-Descends : (x : A) (xs : List A) → Descends xs → Descends (insert_by lt x xs)
    unfolding insert_by
    insert_by-Descends x [] d = (tt, tt)
    insert_by-Descends x (y ∷ ys) d = elim (Bool-cases (lt y x)) [
      | inl e ↦ rw e (All-insert_by y x ys (before y x e) d.0, insert_by-Descends x ys d.1)
      | inr e ↦ rw e ((after y x e, All-trans x y ys (after y x e) d.0), d)
    ]

    pub sort_by-Descends : (xs : List A) → Descends (sort_by lt xs)
    unfolding sort_by
    sort_by-Descends [] = tt
    sort_by-Descends (x ∷ xs) = insert_by-Descends x (sort_by lt xs) (sort_by-Descends xs)

  insert_by-In : (z x : A) (xs : List A) → In z (insert_by lt x xs) → In z (x ∷ xs)
  unfolding insert_by
  insert_by-In z x [] = λ h. h
  insert_by-In z x (y ∷ ys) = elim (Bool-cases (lt y x)) [
    | inl e ↦
        rw (e, insert_by)
          (λ h. elim h [
            | inl p ↦ inr (inl p)
            | inr q ↦ elim (insert_by-In z x ys q) [ inl p ↦ inl p | inr r ↦ inr (inr r) ]
          ])
    | inr e ↦ rw (e, insert_by) (λ h. h)
  ]

  In-insert_by : (z x : A) (xs : List A) → In z (x ∷ xs) → In z (insert_by lt x xs)
  unfolding insert_by
  In-insert_by z x [] = λ h. h
  In-insert_by z x (y ∷ ys) = elim (Bool-cases (lt y x)) [
    | inl e ↦
        rw (e, insert_by)
          (λ h. elim h [
            | inl p ↦ inr (In-insert_by z x ys (inl p))
            | inr (inl p) ↦ inl p
            | inr (inr q) ↦ inr (In-insert_by z x ys (inr q))
          ])
    | inr e ↦ rw (e, insert_by) (λ h. h)
  ]

  -- Sorting keeps what is in the list.
  pub sort_by-In : (z : A) (xs : List A) → In z (sort_by lt xs) → In z xs
  unfolding sort_by
  sort_by-In z [] h = h
  sort_by-In z (x ∷ xs) h = elim (insert_by-In z x (sort_by lt xs) h) [
    | inl p ↦ inl p
    | inr q ↦ inr (sort_by-In z xs q)
  ]

  pub In-sort_by : (z : A) (xs : List A) → In z xs → In z (sort_by lt xs)
  unfolding sort_by
  In-sort_by z [] h = h
  In-sort_by z (x ∷ xs) (inl p) = In-insert_by z x (sort_by lt xs) (inl p)
  In-sort_by z (x ∷ xs) (inr q) = In-insert_by z x (sort_by lt xs) (inr (In-sort_by z xs q))
