-- ===== src/Api/Validation/BatchItems.antt =====
-- `_validate_emulate_actions_items` of API/validation.py.
pub mod Accepted
use sts2_rl.Prelude.{
  ℕ, ◌+◌, String, Bool, true, false, Option, none, some, List, [], ◌∷◌, Result, ok, err, ◌>>=◌,
  ◌>>◌, raise_if, str_eq, if◌then◌else◌,
}
use sts2_rl.Prelude.Dict
use sts2_rl.Prelude.Key.{str_key}
use sts2_rl.Prelude.Int.{is_positive}
use sts2_rl.Api.Value.{Value, null, bool, int, float, str, list, dict, Payload, entries, or_null}
use sts2_rl.Api.Dto.{member}
use sts2_rl.Api.Require.{require}
use sts2_rl.Api.Rejected.{
  a_list, Rejection, reject, no_items, item_not_object, duplicate_branch, bad_item_rng,
  bad_item_field,
}

-- `isinstance(value, str) and value`
check_item_text : ℕ → String → Value → Result Rejection String
check_item_text index f (str s) =
    if str_eq s "" then err (reject (bad_item_field index f)) else ok s
check_item_text index f v = err (reject (bad_item_field index f))

check_item_rng : ℕ → Value → Result Rejection (Unit {0})
check_item_rng index (int z) = if is_positive z then ok tt else err (reject (bad_item_rng index))
check_item_rng index v = err (reject (bad_item_rng index))

item_text : ℕ → Payload → String → Result Rejection String
unfolding check_item_text
item_text index item f = check_item_text index f (or_null (Dict.get item f))

-- The checks on one object; the result is its branch id.
check_item : ℕ → Payload → Result Rejection String
unfolding item_text check_item_rng
check_item index item = do
  _ ← item_text index item "parent_branch_id"
  branch_id ← item_text index item "branch_id"
  _ ← item_text index item "decision_point_id"
  _ ← item_text index item "action_id"
  check_item_rng index (or_null (Dict.get item "rng_id"))
  ok branch_id

-- The object that an entry must be.
as_object : ℕ → Value → Result Rejection Payload
as_object index (dict fs) = ok (entries fs)
as_object index v = err (reject (item_not_object index))

-- The loop, with the branch ids seen so far.
check_items : ℕ → List String → List Value → Result Rejection (Unit {0})
unfolding as_object check_item
check_items index seen [] = ok tt
check_items index seen (v ∷ vs) = do
  item ← as_object index v
  branch_id ← check_item index item
  raise_if (member branch_id seen) (reject (duplicate_branch index))
  check_items (index + 1) (branch_id ∷ seen) vs

is_empty : List Value → Bool
is_empty [] = true
is_empty (v ∷ vs) = false

unfoldable pub validate_emulate_actions_items : Payload → Result Rejection (Unit {0})
unfolding check_items is_empty
validate_emulate_actions_items payload = do
  entries ← require payload "items" a_list
  raise_if (is_empty entries) (reject no_items)
  check_items 0 [] entries
