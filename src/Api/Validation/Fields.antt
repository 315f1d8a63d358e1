-- ===== src/Api/Validation/Fields.antt =====
-- API/validation.py: the fields that each operation wants, and that an accepted payload has them.
use sts2_rl.Prelude.{
  ℕ, suc, zero, String, ◌≡◌, ◌≢◌, refl, ◌>>=◌, subst, Bool, true, false, none, some, List, [], ◌∷◌,
  All, Result, ok, >>=-eq-ok, >>-eq-ok, Bool-cases, inl, inr, str_eq, eq_iff,
}
use sts2_rl.Prelude.Dict
use sts2_rl.Prelude.Key.{str_key}
use sts2_rl.Prelude.Int.{pos}
use sts2_rl.Api.Value.{Value, Items, Fields, bool, int, str, list, dict, Payload, entries, items}
use sts2_rl.Api.Dto.{member, root_branch_id}
use sts2_rl.Api.Require.{require, HasText, IsText, require-str, require-list, require-dict}
use sts2_rl.Api.Rejected.{a_str, a_list, a_dict, Rejection}
use sts2_rl.Api.Validation.{check_operation, check_instance_id}
use sts2_rl.Api.Validation.Options.{validate_simulation_options}
use sts2_rl.Api.Validation.BatchItems.{validate_emulate_actions_items}
use sts2_rl.Api.Validation.BatchItems.Accepted.{AreItems, IsDistinct, batch_accepted}
use sts2_rl.Api.Validation.Options.Accepted.{AreOptions, options_of}
use sts2_rl.Api.Validation.Checks.{
  config-IsConfig, branch_ids-AreIds, commit_fields, emulate_fields,
}

-- The fields of an operation. `close_instance` wants an instance id alone.
pub record HasFields (p : Payload) (operation : String) : Type 0 where
  pub instance_id : operation ≢ "start_instance" → IsText p "instance_id"
  pub config :
      operation ≡ "start_instance"
      → (fs : Fields) × (Dict.get p "instance_config" ≡ some (dict fs))
        × (Dict.get (entries fs) "instance_type" ≢ none)
        × ((v : Value) → Dict.get (entries fs) "god_mode" ≡ some v → (b : Bool) × (v ≡ bool b))
  pub decision : operation ≡ "get_decision" → IsText p "branch_id"
  pub committed :
      operation ≡ "commit_action"
      → HasText p "branch_id" root_branch_id
        × (Dict.get p "rng_id" ≡ some (int (pos zero)))
        × IsText p "decision_point_id"
        × IsText p "action_id"
  pub emulated :
      operation ≡ "emulate_action"
      → IsText p "parent_branch_id"
        × IsText p "branch_id"
        × ((n : ℕ) × (Dict.get p "rng_id" ≡ some (int (pos (suc n)))))
        × IsText p "decision_point_id"
        × IsText p "action_id"
        × AreOptions (Dict.get p "simulation_options")
  pub batch :
      operation ≡ "emulate_actions"
      → ((vs : Items) × (ids : List String) × (Dict.get p "items" ≡ some (list vs))
          × (items vs ≢ [])
          × AreItems (items vs) ids
          × IsDistinct ids)
        × AreOptions (Dict.get p "simulation_options")
  pub branch_ids :
      member operation ("cancel_branches" ∷ "release_branches" ∷ "get_branch_status" ∷ []) ≡ true
      → (vs : Items) × (Dict.get p "branch_ids" ≡ some (list vs))
        × (items vs ≢ [])
        × All (λ (v : Value). (s : String) × (v ≡ str s) × (s ≢ "")) (items vs)

abbrev checked_text : Result Rejection String → Result Rejection (Unit {0})
checked_text s = s >>= λ _. ok tt

text_field : (p : Payload) (f : String) → checked_text (require p f a_str) ≡ ok tt → IsText p f
text_field p f h = let (s, e, rest) = >>=-eq-ok (require p f a_str) _ h in (s, require-str p f s e)

id_field :
    (p : Payload) (operation : String)
    → check_instance_id operation p ≡ ok tt
    → operation ≢ "start_instance"
    → IsText p "instance_id"
unfolding check_instance_id
id_field p operation h other = elim (Bool-cases (str_eq operation "start_instance")) [
  | inl y ↦ absurd (other ((eq_iff operation "start_instance").0 y))
  | inr n ↦ text_field p "instance_id" (rw n at h)
]

config_field :
    (p : Payload)
    → check_operation "start_instance" p ≡ ok tt
    → (fs : Fields) × (Dict.get p "instance_config" ≡ some (dict fs))
      × (Dict.get (entries fs) "instance_type" ≢ none)
      × ((v : Value) → Dict.get (entries fs) "god_mode" ≡ some v → (b : Bool) × (v ≡ bool b))
unfolding check_operation
config_field p h =
    let (config, e, h₁) = >>=-eq-ok (require p "instance_config" a_dict) _ h in
    let (fs, found, same) = require-dict p "instance_config" config e in
    config-IsConfig p config fs found same h₁

batch_fields :
    (p : Payload)
    → check_operation "emulate_actions" p ≡ ok tt
    → ((vs : Items) × (ids : List String) × (Dict.get p "items" ≡ some (list vs))
        × (items vs ≢ [])
        × AreItems (items vs) ids
        × IsDistinct ids)
      × AreOptions (Dict.get p "simulation_options")
unfolding check_operation validate_simulation_options
batch_fields p h =
    let (checked, options) = >>-eq-ok (validate_emulate_actions_items p) _ h in
    (batch_accepted p checked, options_of (Dict.get p "simulation_options") options)

abbrev id_operations : List String
id_operations = "cancel_branches" ∷ "release_branches" ∷ "get_branch_status" ∷ []

-- An operation of the three is no other one.
not_other :
    (operation : String)
    → member operation id_operations ≡ true
    → (other : String) → member other id_operations ≡ false
    → str_eq operation other ≡ false
not_other operation m other o = elim (Bool-cases (str_eq operation other)) [
  | inl y ↦ absurd (
      cc
        (subst (λ (k : String). member k id_operations ≡ true) ((eq_iff operation other).0 y) m, o))
  | inr n ↦ n
]

branch_ids_field :
    (p : Payload) (operation : String)
    → check_operation operation p ≡ ok tt
    → member operation id_operations ≡ true
    → (vs : Items) × (Dict.get p "branch_ids" ≡ some (list vs))
      × (items vs ≢ [])
      × All (λ (v : Value). (s : String) × (v ≡ str s) × (s ≢ "")) (items vs)
unfolding check_operation member
branch_ids_field p operation h m =
    let (ids, e, h₁) = >>=-eq-ok (require p "branch_ids" a_list) _ (
      rw
        (
          not_other operation m "start_instance" refl,
          not_other operation m "get_decision" refl,
          not_other operation m "commit_action" refl,
          not_other operation m "emulate_action" refl,
          not_other operation m "emulate_actions" refl,
          m,
        )
        at h) in
    let (vs, found, same) = require-list p "branch_ids" ids e in
    branch_ids-AreIds p ids vs found same h₁

-- What is accepted has an instance id and its operation's fields.
pub accepted-HasFields :
    (p : Payload) (operation : String)
    → check_instance_id operation p ≡ ok tt
    → check_operation operation p ≡ ok tt
    → HasFields p operation
unfolding check_operation
accepted-HasFields p operation i f =
    let at_operation : (o : String) → operation ≡ o → check_operation o p ≡ ok tt =
      λ o e. subst (λ (x : String). check_operation x p ≡ ok tt) e f in
    record {
      instance_id = id_field p operation i;
      config = λ e. config_field p (at_operation _ e);
      decision = λ e. text_field p "branch_id" (at_operation "get_decision" e);
      committed = λ e. commit_fields p (at_operation "commit_action" e);
      emulated = λ e. emulate_fields p (at_operation "emulate_action" e);
      batch = λ e. batch_fields p (at_operation _ e);
      branch_ids = λ m. branch_ids_field p operation f m;
    }
