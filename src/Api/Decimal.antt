-- ===== src/Api/Decimal.antt =====
-- Numbers as decimal text, as `f"{n}"` and `f"{n:06d}"` print them. The printing loses nothing.
use Prim.Native.Char.{Char, code}
use Prim.Native.String.{count}
use sts2_rl.Prelude.{
  ℕ, zero, suc, ◌+◌, ◌-◌, ◌*◌, ◌/◌, ◌%◌, ◌<◌, ◌≡◌, refl, sym, ap, ◌∙◌, String, arith, ltb,
  if◌then◌else◌, Bool-cases, inl, inr,
}

digit : ℕ → Char
digit zero = "0"
digit (suc zero) = "1"
digit (suc (suc zero)) = "2"
digit (suc (suc (suc zero))) = "3"
digit (suc (suc (suc (suc zero)))) = "4"
digit (suc (suc (suc (suc (suc zero))))) = "5"
digit (suc (suc (suc (suc (suc (suc zero)))))) = "6"
digit (suc (suc (suc (suc (suc (suc (suc zero))))))) = "7"
digit (suc (suc (suc (suc (suc (suc (suc (suc zero)))))))) = "8"
digit _ = "9"

-- Digits from the last to the first. `suc n` rounds are enough: each divides by ten.
emit : ℕ → ℕ → String → String
emit zero n out = out
emit (suc fuel) n out =
    let rest = emit fuel (n / 10) (String.◌∷◌ (digit (n % 10)) out) in
    if ltb n 10 then String.◌∷◌ (digit n) out else rest

unfoldable pub decimal : ℕ → String
unfolding emit digit
decimal n = emit (suc n) n ""

zeros : ℕ → String → String
zeros zero s = s
zeros (suc k) s = String.◌∷◌ "0" (zeros k s)

unfoldable pub padded : ℕ → String
unfolding decimal zeros
padded n = zeros (6 - count (decimal n)) (decimal n)

-- The number that a text of digits denotes, read from the left.
value_from : ℕ → String → ℕ
value_from acc String.[] = acc
value_from acc (String.◌∷◌ c s) = value_from (acc * 10 + (code c - 48)) s

code-digit : (n : ℕ) → n < 10 → code (digit n) - 48 ≡ n
unfolding digit
code-digit zero h = refl
code-digit (suc zero) h = refl
code-digit (suc (suc zero)) h = refl
code-digit (suc (suc (suc zero))) h = refl
code-digit (suc (suc (suc (suc zero)))) h = refl
code-digit (suc (suc (suc (suc (suc zero))))) h = refl
code-digit (suc (suc (suc (suc (suc (suc zero)))))) h = refl
code-digit (suc (suc (suc (suc (suc (suc (suc zero))))))) h = refl
code-digit (suc (suc (suc (suc (suc (suc (suc (suc zero)))))))) h = refl
code-digit (suc (suc (suc (suc (suc (suc (suc (suc (suc zero))))))))) h = refl
code-digit (suc (suc (suc (suc (suc (suc (suc (suc (suc (suc (n))))))))))) h = absurd (omega arith)

value_from-emit :
    (fuel n : ℕ) (out : String) → n < fuel → value_from 0 (emit fuel n out) ≡ value_from n out
unfolding emit value_from
value_from-emit zero n out h = elim h [ ]
value_from-emit (suc fuel) n out h = elim (Bool-cases (ltb n 10)) [
  | inl small ↦
      rw small (ap (λ (k : ℕ). value_from k out) (omega (arith, code-digit n (ground arith))))
  | inr large ↦ rw large (
      value_from-emit fuel (n / 10) (String.◌∷◌ (digit (n % 10)) out) (ground arith)
      ∙ ap (λ (k : ℕ). value_from k out) (omega (arith, code-digit (n % 10) (omega arith))))
]

value_from-decimal : (n : ℕ) → value_from 0 (decimal n) ≡ n
unfolding decimal value_from
value_from-decimal n = value_from-emit (suc n) n "" (omega arith)

value_from-zeros : (k : ℕ) (s : String) → value_from 0 (zeros k s) ≡ value_from 0 s
unfolding value_from zeros
value_from-zeros zero s = refl
value_from-zeros (suc k) s = value_from-zeros k s

value_from-padded : (n : ℕ) → value_from 0 (padded n) ≡ n
unfolding padded
value_from-padded n = value_from-zeros _ (decimal n) ∙ value_from-decimal n

pub decimal_inj : (m n : ℕ) → decimal m ≡ decimal n → m ≡ n
decimal_inj m n e = sym (value_from-decimal m) ∙ ap (value_from 0) e ∙ value_from-decimal n

pub padded_inj : (m n : ℕ) → padded m ≡ padded n → m ≡ n
padded_inj m n e = sym (value_from-padded m) ∙ ap (value_from 0) e ∙ value_from-padded n

padded_runs : padded 42 ≡ "000042"
unfolding padded
padded_runs = refl
