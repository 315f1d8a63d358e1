-- ===== src/Prelude/Dict.antt =====
-- Python's `dict`: an association list in insertion order. `put` keeps the place of a known key.
use Prim.Native.Nat.{◌+◌, ◌≤◌}
use mathlib.Core.Path.{◌≡◌, refl}
use mathlib.Core.Logic.{◌≢◌, ite}
use mathlib.Core.List.{List, [], ◌∷◌, ◌++◌}
use mathlib.Core.Option.{Option, none, some}
use native.Mathlib.Omega.{arith}
use sts2_rl.Prelude.Lists.{length}
use sts2_rl.Prelude.Key.{Key}

abbrev pub Dict {ℓ} : Type ℓ → Type ℓ → Type ℓ
Dict K V = List (K × V)

module _ {ℓ} {K V : Type ℓ} ⦃key : Key K⦄ where
  -- d.get(k)
  unfoldable pub get : Dict K V → K → Option V
  get [] k = none
  get ((j, v) ∷ m) k = ite (key.same j k) (some v) (get m k)

  -- d[k] = v
  unfoldable pub put : Dict K V → K → V → Dict K V
  put [] k v = (k, v) ∷ []
  put ((j, w) ∷ m) k v = ite (key.same j k) ((j, v) ∷ m) ((j, w) ∷ put m k v)

  -- d.pop(k, None)
  unfoldable pub remove : Dict K V → K → Dict K V
  remove [] k = []
  remove ((j, w) ∷ m) k = ite (key.same j k) (remove m k) ((j, w) ∷ remove m k)

  pub get-put :
      (m : Dict K V) (k j : K) (v : V) → get (put m k v) j ≡ ite (key.same k j) (some v) (get m j)
  unfolding get put
  get-put [] k j v = refl
  get-put ((i, w) ∷ m) k j v = ground (arith, get-put m k j v)

  pub get-put_self : (m : Dict K V) (k : K) (v : V) → get (put m k v) k ≡ some v
  get-put_self m k v = ground (arith, get-put m k k v)

  pub get-put_other : (m : Dict K V) (k j : K) (v : V) → k ≢ j → get (put m k v) j ≡ get m j
  get-put_other m k j v ne = ground (arith, get-put m k j v)

  pub get-remove : (m : Dict K V) (k j : K) → get (remove m k) j ≡ ite (key.same k j) none (get m j)
  unfolding get remove
  get-remove [] k j = ground arith
  get-remove ((i, w) ∷ m) k j = ground (arith, get-remove m k j)

  pub get-remove_self : (m : Dict K V) (k : K) → get (remove m k) k ≡ none
  get-remove_self m k = ground (arith, get-remove m k k)

  pub get-remove_other : (m : Dict K V) (k j : K) → k ≢ j → get (remove m k) j ≡ get m j
  get-remove_other m k j ne = ground (arith, get-remove m k j)

  -- A new key goes to the end.
  pub put_fresh : (m : Dict K V) (k : K) (v : V) → get m k ≡ none → put m k v ≡ m ++ (k, v) ∷ []
  unfolding get put
  put_fresh [] k v h = refl
  put_fresh ((i, w) ∷ m) k v h = ground (arith, put_fresh m k v)

  pub length-put-le : (m : Dict K V) (k : K) (v : V) → length (put m k v) ≤ length m + 1
  unfolding put
  length-put-le [] k v = omega arith
  length-put-le ((i, w) ∷ m) k v = ground (arith, length-put-le m k v)

  pub length-put_known :
      (m : Dict K V) (k : K) (u v : V) → get m k ≡ some u → length (put m k v) ≡ length m
  unfolding get put
  length-put_known [] k u v h = cc
  length-put_known ((i, w) ∷ m) k u v h = ground (arith, length-put_known m k u v)

  pub get-none-remove : (m : Dict K V) (k : K) → get m k ≡ none → remove m k ≡ m
  unfolding get remove
  get-none-remove [] k h = refl
  get-none-remove ((i, w) ∷ m) k h = ground (arith, get-none-remove m k)

  -- Removing a key that was just added gives the dictionary back.
  pub remove-put : (m : Dict K V) (k : K) (v : V) → get m k ≡ none → remove (put m k v) k ≡ m
  unfolding get put remove
  remove-put [] k v h = ground arith
  remove-put ((i, w) ∷ m) k v h = ground (arith, remove-put m k v)

  -- Putting the old value back undoes a `put` at a known key.
  pub put-put : (m : Dict K V) (k : K) (u v : V) → get m k ≡ some v → put (put m k u) k v ≡ m
  unfolding get put
  put-put [] k u v h = cc
  put-put ((i, w) ∷ m) k u v h = ground (arith, put-put m k u v)

  pub put_same : (m : Dict K V) (k : K) (v : V) → get m k ≡ some v → put m k v ≡ m
  unfolding get put
  put_same [] k v h = cc h
  put_same ((i, w) ∷ m) k v h = ground (arith, put_same m k v)
