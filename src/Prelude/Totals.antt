-- ===== src/Prelude/Totals.antt =====
-- Sums over the entries of a dictionary.
use Prim.Native.Nat.{ℕ, ◌+◌, ◌≤◌}
use mathlib.Core.Path.{◌≡◌}
use mathlib.Core.List.{[], ◌∷◌}
use mathlib.Core.Option.{some}
use native.Mathlib.Omega.{arith}
use sts2_rl.Prelude.Key.{Key}
use sts2_rl.Prelude.Dict
use sts2_rl.Prelude.Dict.{Dict}

module _ {ℓ} {K V : Type ℓ} where
  unfoldable pub total : (K → V → ℕ) → Dict K V → ℕ
  total w [] = 0
  total w ((k, v) ∷ m) = w k v + total w m

  pub total-le :
      (f g : K → V → ℕ) → ((k : K) (v : V) → f k v ≤ g k v) → (m : Dict K V) → total f m ≤ total g m
  unfolding total
  total-le f g le [] = omega arith
  total-le f g le ((k, v) ∷ m) = omega (arith, le k v, total-le f g le m)

module _ {ℓ} {K V : Type ℓ} ⦃key : Key K⦄ where
  -- `put` at a known key exchanges one weight for the other.
  pub total-put :
      (w : K → V → ℕ) (m : Dict K V) (k : K) (u v : V)
      → Dict.get m k ≡ some u
      → total w (Dict.put m k v) + w k u ≡ total w m + w k v
  unfolding total Dict.get Dict.put
  total-put w [] k u v h = cc h
  total-put w ((j, t) ∷ m) k u v h = ground (arith, total-put w m k u v)

  -- Weights that go down everywhere, and to nothing at `k`, lose the weight of the entry at `k`.
  pub total-dropped :
      (f g : K → V → ℕ) (m : Dict K V) (k : K) (v : V)
      → ((j : K) (x : V) → f j x ≤ g j x)
      → ((x : V) → f k x ≡ 0)
      → Dict.get m k ≡ some v
      → total f m + g k v ≤ total g m
  unfolding total Dict.get
  total-dropped f g [] k v le z h = cc h
  total-dropped f g ((j, t) ∷ m) k v le z h =
      ground (arith, le j t, z t, total-dropped f g m k v, total-le f g le m)

  pub total-put_le :
      (w : K → V → ℕ) (m : Dict K V) (k : K) (v : V) → total w (Dict.put m k v) ≤ total w m + w k v
  unfolding total Dict.put
  total-put_le w [] k v = omega arith
  total-put_le w ((j, t) ∷ m) k v = ground (arith, total-put_le w m k v)
