-- ===== src/Combat/Branches/Dispatch/Counts.antt =====
-- How often a branch waits, and what taking it out leaves.
use sts2_rl.Prelude.{
  ℕ, ◌+◌, ◌≤◌, ◌≡◌, refl, ap, arith, String, Bool, true, false, List, [], ◌∷◌, inl, inr, Bool-cases,
  length, str_eq, eq_iff,
}
use sts2_rl.Prelude.Key.{str_key, nat_key}
use sts2_rl.Combat.Branches.Release.{remove_first}

abbrev pub one_if : Bool → ℕ
one_if true = 1
one_if false = 0

unfoldable pub count : String → List String → ℕ
count x [] = 0
count x (y ∷ ys) = one_if (str_eq y x) + count x ys

-- `ids` are among those that wait, each as often as it is there.
abbrev pub Sub : List String → List String → Type 0
Sub ids waiting = (x : String) → count x ids ≤ count x waiting

str_eq_refl : (s : String) → str_eq s s ≡ true
str_eq_refl s = (eq_iff s s).1 refl

pub count-remove_first :
    (id x : String) (waiting : List String)
    → 1 ≤ count id waiting
    → count x (remove_first waiting id) + one_if (str_eq id x) ≡ count x waiting
unfolding count remove_first
count-remove_first id x [] h = omega arith
count-remove_first id x (c ∷ cs) h = elim (Bool-cases (str_eq c id)) [
  | inl e ↦ rw e (omega (arith, ap (λ y. one_if (str_eq y x)) ((eq_iff c id).0 e)))
  | inr e ↦ rw e (omega (arith, count-remove_first id x cs (omega (arith, h, ap one_if e))))
]

pub length-remove_first :
    (id : String) (waiting : List String)
    → 1 ≤ count id waiting
    → length (remove_first waiting id) + 1 ≡ length waiting
unfolding count remove_first
length-remove_first id [] h = omega arith
length-remove_first id (c ∷ cs) h = elim (Bool-cases (str_eq c id)) [
  | inl e ↦ rw e (omega arith)
  | inr e ↦ rw e (omega (arith, length-remove_first id cs (omega (arith, h, ap one_if e))))
]

pub head_waits :
    (id : String) (ids waiting : List String) → Sub (id ∷ ids) waiting → 1 ≤ count id waiting
unfolding count
head_waits id ids waiting sub = omega (arith, sub id, ap one_if (str_eq_refl id))

pub tail-Sub : (id : String) (ids waiting : List String) → Sub (id ∷ ids) waiting → Sub ids waiting
unfolding count
tail-Sub id ids waiting sub x = omega (arith, sub x)

pub removed-Sub :
    (id : String) (ids waiting : List String)
    → Sub (id ∷ ids) waiting
    → Sub ids (remove_first waiting id)
unfolding count
removed-Sub id ids waiting sub x =
    omega (arith, sub x, count-remove_first id x waiting (head_waits id ids waiting sub))
