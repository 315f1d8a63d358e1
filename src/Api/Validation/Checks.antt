-- ===== src/Api/Validation/Checks.antt =====
-- What the single checks of API/validation.py guarantee.
use sts2_rl.Prelude.{
  ℕ, suc, zero, String, ◌≡◌, ◌≢◌, refl, ap, ◌∙◌, subst, Bool, true, false, ◌||◌, not, none, some,
  List, [], ◌∷◌, All, ok, >>=-eq-ok, raise_if, raise_if-eq-ok, str_eq, eq_iff,
}
use sts2_rl.Prelude.Dict
use sts2_rl.Prelude.Key.{str_key}
use sts2_rl.Prelude.Int.{ℤ, pos, negsuc, is_positive}
use sts2_rl.Api.Value.{Value, Items, Fields, bool, int, str, list, dict, Payload, entries, items}
use sts2_rl.Api.Dto.{root_branch_id}
use sts2_rl.Api.Require.{require, HasText, IsText, require-str, require-int}
use sts2_rl.Api.Rejected.{a_str, a_int}
use sts2_rl.Api.Validation.{
  is_missing, is_bad_god_mode, check_config, any_bad_id, check_branch_ids, is_root_rng,
  check_commit, check_emulate,
}
use sts2_rl.Api.Validation.Options.{validate_simulation_options}
use sts2_rl.Api.Validation.Options.Accepted.{AreOptions, options_of}

raised : {E : Type 0} (b : Bool) (e : E) → raise_if b e ≡ ok tt → b ≡ false
raised false e h = refl
raised true e h = cc h

god_mode_of : (v : Value) → is_bad_god_mode (some v) ≡ false → (b : Bool) × (v ≡ bool b)
god_mode_of (bool b) h = (b, refl)
god_mode_of v h = cc h

or-false : (a b : Bool) → a || b ≡ false → (a ≡ false) × (b ≡ false)
or-false false b h = (refl, h)
or-false true b h = cc h

pub config-IsConfig :
    (p config : Payload) (fs : Fields)
    → Dict.get p "instance_config" ≡ some (dict fs)
    → config ≡ entries fs
    → check_config config ≡ ok tt
    → (gs : Fields) × (Dict.get p "instance_config" ≡ some (dict gs))
      × (Dict.get (entries gs) "instance_type" ≢ none)
      × ((v : Value) → Dict.get (entries gs) "god_mode" ≡ some v → (b : Bool) × (v ≡ bool b))
unfolding check_config
config-IsConfig p config fs found same h =
    let (typed, h₁) = raise_if-eq-ok (is_missing (Dict.get config "instance_type")) _ _ h in
    let god = raised (is_bad_god_mode (Dict.get config "god_mode")) _ h₁ in
    (fs, found, λ e. cc (rw (same, e) at typed), λ v e. god_mode_of v (rw (same, e) at god))

any_bad_id-All :
    (vs : List Value)
    → any_bad_id vs ≡ false
    → All (λ (v : Value). (s : String) × (v ≡ str s) × (s ≢ "")) vs
unfolding any_bad_id
any_bad_id-All [] h = tt
any_bad_id-All (str s ∷ vs) h =
    let (named, others) = or-false (str_eq s "") (any_bad_id vs) h in
    ((s, refl, λ e. cc (named, (eq_iff s "").1 e)), any_bad_id-All vs others)
any_bad_id-All (v ∷ vs) h = cc h

pub branch_ids-AreIds :
    (p : Payload) (ids : List Value) (vs : Items)
    → Dict.get p "branch_ids" ≡ some (list vs)
    → ids ≡ items vs
    → check_branch_ids ids ≡ ok tt
    → (ws : Items) × (Dict.get p "branch_ids" ≡ some (list ws))
      × (items ws ≢ [])
      × All (λ (v : Value). (s : String) × (v ≡ str s) × (s ≢ "")) (items ws)
unfolding check_branch_ids
branch_ids-AreIds p [] vs found same h = cc h
branch_ids-AreIds p (v ∷ ids) vs found same h =
    let good = raised (any_bad_id (v ∷ ids)) _ h in
    (
      vs,
      found,
      λ e. cc (same ∙ e),
      subst (λ (l : List Value). All (λ (w : Value). (s : String) × (w ≡ str s) × (s ≢ "")) l) same
          (any_bad_id-All (v ∷ ids) good),
    )

root_rng : (z : ℤ) → not (is_root_rng z) ≡ false → z ≡ pos zero
root_rng (pos zero) h = refl
root_rng (pos (suc n)) h = cc h
root_rng (negsuc n) h = cc h

positive_rng : (z : ℤ) → not (is_positive z) ≡ false → (n : ℕ) × (z ≡ pos (suc n))
positive_rng (pos zero) h = cc h
positive_rng (pos (suc n)) h = (n, refl)
positive_rng (negsuc n) h = cc h

pub not-false : (b : Bool) → not b ≡ false → b ≡ true
not-false true h = refl
not-false false h = cc h

pub commit_fields :
    (p : Payload)
    → check_commit p ≡ ok tt
    → HasText p "branch_id" root_branch_id
      × (Dict.get p "rng_id" ≡ some (int (pos zero)))
      × IsText p "decision_point_id"
      × IsText p "action_id"
unfolding check_commit
commit_fields p h =
    let (b, e₁, h₁) = >>=-eq-ok (require p "branch_id" a_str) _ h in
    let (root, h₂) = raise_if-eq-ok (not (str_eq b root_branch_id)) _ _ h₁ in
    let (z, e₃, h₃) = >>=-eq-ok (require p "rng_id" a_int) _ h₂ in
    let (rng, h₄) = raise_if-eq-ok (not (is_root_rng z)) _ _ h₃ in
    let (d, e₅, h₅) = >>=-eq-ok (require p "decision_point_id" a_str) _ h₄ in
    let (a, e₆, h₆) = >>=-eq-ok (require p "action_id" a_str) _ h₅ in
    (
      subst (HasText p "branch_id") ((eq_iff b root_branch_id).0 (not-false _ root))
          (require-str p "branch_id" b e₁),
      require-int p "rng_id" z e₃ ∙ ap (λ (y : ℤ). some (int y)) (root_rng z rng),
      (d, require-str p "decision_point_id" d e₅),
      (a, require-str p "action_id" a e₆),
    )

pub emulate_fields :
    (p : Payload)
    → check_emulate p ≡ ok tt
    → IsText p "parent_branch_id"
      × IsText p "branch_id"
      × ((n : ℕ) × (Dict.get p "rng_id" ≡ some (int (pos (suc n)))))
      × IsText p "decision_point_id"
      × IsText p "action_id"
      × AreOptions (Dict.get p "simulation_options")
unfolding check_emulate validate_simulation_options
emulate_fields p h =
    let (parent, e₁, h₁) = >>=-eq-ok (require p "parent_branch_id" a_str) _ h in
    let (b, e₂, h₂) = >>=-eq-ok (require p "branch_id" a_str) _ h₁ in
    let (z, e₃, h₃) = >>=-eq-ok (require p "rng_id" a_int) _ h₂ in
    let (rng, h₄) = raise_if-eq-ok (not (is_positive z)) _ _ h₃ in
    let (d, e₅, h₅) = >>=-eq-ok (require p "decision_point_id" a_str) _ h₄ in
    let (a, e₆, h₆) = >>=-eq-ok (require p "action_id" a_str) _ h₅ in
    let (n, positive) = positive_rng z rng in
    (
      (parent, require-str p "parent_branch_id" parent e₁),
      (b, require-str p "branch_id" b e₂),
      (n, require-int p "rng_id" z e₃ ∙ ap (λ (y : ℤ). some (int y)) positive),
      (d, require-str p "decision_point_id" d e₅),
      (a, require-str p "action_id" a e₆),
      options_of (Dict.get p "simulation_options") h₆,
    )
