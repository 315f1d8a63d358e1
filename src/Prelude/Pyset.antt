-- ===== src/Prelude/Pyset.antt =====
-- Python's `set`, as the list of its members without order.
use mathlib.Core.Path.{◌≡◌}
use mathlib.Core.Logic.{ite}
use mathlib.Core.List.{List, [], ◌∷◌}
use mathlib.Core.Bool.{Bool, true, false}
use native.Mathlib.Omega.{arith}
use sts2_rl.Prelude.Key.{Key}

module _ {K : Type 0} ⦃key : Key K⦄ where
  -- k in s
  unfoldable pub has : List K → K → Bool
  has [] k = false
  has (j ∷ s) k = ite (key.same j k) true (has s k)

  -- s.add(k)
  unfoldable pub add : List K → K → List K
  add s k = k ∷ s

  -- s.discard(k)
  unfoldable pub discard : List K → K → List K
  discard [] k = []
  discard (j ∷ s) k = ite (key.same j k) (discard s k) (j ∷ discard s k)

  pub has-discard :
      (s : List K) (k j : K) → has (discard s k) j ≡ ite (key.same k j) false (has s j)
  unfolding has discard
  has-discard [] k j = ground arith
  has-discard (i ∷ s) k j = ground (arith, has-discard s k j)
