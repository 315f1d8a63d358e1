-- ===== src/Prelude/Key.antt =====
-- Keys of Python's `dict` and `set`: types whose equality is decided.
use Prim.Native.Nat.{ℕ}
use Prim.Native.String.{String}
use mathlib.Core.Logic.{inl, inr}
use native.Mathlib.Decide.{ℕ_discrete}
use text.Mathlib.Text.{◌==◌}
use text.Mathlib.TextEquality.{eq_iff}
use sts2_rl.Prelude.Tests.{Bool-cases}

pub record Key {ℓ} (K : Type ℓ) : Type ℓ where
  pub same : Discrete K

unfoldable pub str_discrete : Discrete String
unfolding Bool-cases
str_discrete s t = elim (Bool-cases (s == t)) [
  | inl e ↦ yes ((eq_iff s t).0 e)
  | inr e ↦ no (λ p. cc ((eq_iff s t).1 p, e))
]

instance abbrev pub str_key : Key String
str_key = record { same = str_discrete }

instance abbrev pub nat_key : Key ℕ
nat_key = record { same = ℕ_discrete }
