-- ===== src/Api/Validation/Options/Accepted.antt =====
-- What `_validate_simulation_options` guarantees of the options.
use sts2_rl.Prelude.{
  suc, zero, String, ◌≡◌, refl, subst, true, Option, none, some, List, [], ◌∷◌, All, ok, >>-eq-ok,
  Bool-cases, inl, inr, str_eq, eq_iff, arith,
}
use sts2_rl.Prelude.Dict
use sts2_rl.Prelude.Key.{str_key}
use sts2_rl.Prelude.Int.{pos, negsuc}
use sts2_rl.Api.Value.{Value, null, int, str, dict, Payload, entries, or_null}
use sts2_rl.Api.Dto.{member}
use sts2_rl.Api.Rejected.{a_int}
use sts2_rl.Api.Validation.Options.{
  option_type, supported_stop_conditions, check_option, check_options, check_stop_condition,
  validate_options,
}

-- A limit is missing (`None`) or a positive number.
abbrev pub IsLimit : Value → Type 0
IsLimit null = Unit
IsLimit (int (pos (suc n))) = Unit
IsLimit _ = ⊥

abbrev pub limits : List String
limits = "max_depth" ∷ "max_steps" ∷ "max_time_ms" ∷ "max_hypotheses" ∷ []

abbrev pub IsStop : Option Value → Type 0
IsStop none = Unit
IsStop (some null) = Unit
IsStop (some (str s)) = member s supported_stop_conditions ≡ true
IsStop _ = ⊥

-- The options are missing, or an object whose limits are positive and whose stop condition is known.
abbrev pub AreOptions : Option Value → Type 0
AreOptions none = Unit
AreOptions (some null) = Unit
AreOptions (some (dict fs)) =
    All (λ (e : String × Value). member e.0 limits ≡ true → IsLimit e.1) (entries fs)
    × IsStop (Dict.get (entries fs) "stop_condition")
AreOptions _ = ⊥

limit_type : (key : String) → member key limits ≡ true → option_type key ≡ some a_int
unfolding member
limit_type key m = elim (Bool-cases (str_eq key "stop_condition")) [
  | inl y ↦
      let absent : member "stop_condition" limits ≡ true =
        subst (λ (k : String). member k limits ≡ true) ((eq_iff key "stop_condition").0 y) m in
      absurd (cc absent)
  | inr n ↦ rw (n, m) refl
]

check_option-IsLimit :
    (key : String) (v : Value) → check_option key (some a_int) v ≡ ok tt → IsLimit v
unfolding check_option
check_option-IsLimit key null h = tt
check_option-IsLimit key (int (pos (suc n))) h = tt
check_option-IsLimit key (int (pos zero)) h = cc h
check_option-IsLimit key (int (negsuc n)) h = cc h
check_option-IsLimit key v h = cc h

limits-All :
    (p : Payload)
    → check_options p ≡ ok tt
    → All (λ (e : String × Value). member e.0 limits ≡ true → IsLimit e.1) p
unfolding check_options
limits-All [] h = tt
limits-All ((key, v) ∷ rest) h =
    let (one, others) = >>-eq-ok (check_option key (option_type key) v) _ h in
    (λ m. check_option-IsLimit key v (rw (limit_type key m) at one), limits-All rest others)

check_stop_condition-IsStop :
    (o : Option Value) → check_stop_condition (or_null o) ≡ ok tt → IsStop o
unfolding check_stop_condition
check_stop_condition-IsStop none h = tt
check_stop_condition-IsStop (some null) h = tt
check_stop_condition-IsStop (some (str s)) h = ground (arith, h)
check_stop_condition-IsStop (some v) h = cc h

pub options_of : (o : Option Value) → validate_options (or_null o) ≡ ok tt → AreOptions o
unfolding validate_options
options_of none h = tt
options_of (some null) h = tt
options_of (some (dict fs)) h =
    let (limited, stop) = >>-eq-ok (check_options (entries fs)) _ h in
    (
      limits-All (entries fs) limited,
      check_stop_condition-IsStop (Dict.get (entries fs) "stop_condition") stop,
    )
options_of (some v) h = cc h
