-- ===== src/Combat/Aggregation/Counting.antt =====
-- Texts counted once each: `distinct`, and the keys of a dictionary.
use sts2_rl.Prelude.{
  ℕ, ◌≡◌, refl, arith, String, Bool, true, false, ◌||◌, Option, none, some, List, [], ◌∷◌, map,
  length, str_eq, eq_iff, Bool-cases, inl, inr,
}
use mathlib.Core.Logic.{if_pos, if_neg}
use sts2_rl.Prelude.Dict
use sts2_rl.Prelude.Dict.{Dict, get-put}
use sts2_rl.Prelude.Key.{str_key, str_discrete}
use sts2_rl.Api.Dto.{member}
use sts2_rl.Combat.Aggregation.Rounds.{distinct}

-- No text occurs twice.
abbrev pub IsDistinct : List String → Type 0
IsDistinct [] = Unit
IsDistinct (x ∷ xs) = (member x xs ≡ false) × IsDistinct xs

-- The number of the texts that pass a test.
abbrev pub IsCount : ℕ → (String → Bool) → Type 0
IsCount n test =
    (ids : List String) × IsDistinct ids
    × ((id : String) → member id ids ≡ test id)
    × (n ≡ length ids)

abbrev pub any : {A : Type 0} → (A → Bool) → List A → Bool
any test [] = false
any test (x ∷ xs) = test x || any test xs

abbrev pub names : String → Option String → Bool
names id none = false
names id (some x) = str_eq id x

pub member-distinct : (id : String) (xs : List String) → member id (distinct xs) ≡ member id xs
unfolding member distinct
member-distinct id [] = refl
member-distinct id (x ∷ xs) =
    ground (arith, member-distinct id xs, member-distinct x xs, eq_iff id x)

pub distinct-IsDistinct : (xs : List String) → IsDistinct (distinct xs)
unfolding distinct
distinct-IsDistinct [] = tt
distinct-IsDistinct (x ∷ xs) = elim (Bool-cases (member x (distinct xs))) [
  | inl y ↦ rw y (distinct-IsDistinct xs)
  | inr n ↦ rw n (n, distinct-IsDistinct xs)
]

abbrev pub keys : {V : Type 0} → Dict String V → List String
keys m = map (λ e. e.0) m

pub member-keys-put :
    {V : Type 0} (m : Dict String V) (k id : String) (v : V)
    → member id (keys (Dict.put m k v)) ≡ str_eq id k || member id (keys m)
unfolding member Dict.put
member-keys-put [] k id v = refl
member-keys-put ((j, w) ∷ m) k id v =
    ground (arith, member-keys-put m k id v, eq_iff id k, eq_iff id j)

pub keys-put-IsDistinct :
    {V : Type 0} (m : Dict String V) (k : String) (v : V)
    → IsDistinct (keys m)
    → IsDistinct (keys (Dict.put m k v))
unfolding member Dict.put
keys-put-IsDistinct [] k v d = (refl, tt)
keys-put-IsDistinct ((j, w) ∷ m) k v d = elim (str_discrete j k) [
  | yes p ↦ rw (if_pos (str_discrete j k) p) d
  | no n ↦
      rw (if_neg (str_discrete j k) n)
        (ground (arith, member-keys-put m k j v, eq_iff j k, d.0), keys-put-IsDistinct m k v d.1)
]

pub member-keys-get :
    {V : Type 0} (m : Dict String V) (k : String) (v : V)
    → Dict.get m k ≡ some v
    → member k (keys m) ≡ true
unfolding member Dict.get
member-keys-get [] k v h = cc h
member-keys-get ((j, w) ∷ m) k v h = ground (arith, member-keys-get m k v, eq_iff k j, h)
