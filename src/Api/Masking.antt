-- ===== src/Api/Masking.antt =====
-- API/masking.py: what the emulator's state shows to training. A Python object is a JSON value. The
-- scrub recurses on fuel, since what it does to a pending choice is no part of the choice: `need` is
-- enough.
pub mod Keys
pub mod Choice
pub mod Pending
pub mod Cards
pub mod Hidden
pub mod Fuel
mod Examples
use sts2_rl.Prelude.{
  ℕ, zero, suc, ◌+◌, String, Bool, true, false, ◌&&◌, ◌||◌, not, Option, none, some, List, [], ◌∷◌,
  ◌++◌, map, Result, ok, err, ◌>>=◌, ◌>>◌, raise_if, str_eq, if◌then◌else◌, leb,
}
use sts2_rl.Prelude.Dict
use sts2_rl.Prelude.Key.{str_key}
use sts2_rl.Api.Dto.{member}
use sts2_rl.Api.Value.{
  Value, Items, Fields, nil, cons, end, field, null, bool, int, float, str, list, dict, Payload,
  items, of_items, entries, of_entries, or_null,
}
use sts2_rl.Api.Masking.Keys.{
  is_forbidden_key, multiset_pile_keys, delete_keys, allowlisted_metrics_extras_info_keys,
  is_metrics_key,
}
use sts2_rl.Api.Masking.Pending.{public_choice}
use sts2_rl.Api.Masking.Cards.{Python, CardError, multiset_of}

abbrev pub dto_version : String
dto_version = "emulator-fca2f06"

abbrev pub mask_version : String
mask_version = "1.2"

-- An error of a pile, no fuel, and the `RuntimeError` of `build_masked_emulator_dto`.
pub data MaskError : Type 0 where
  in_pile : CardError → MaskError
  too_deep both_terminal : MaskError

-- Fuel for `scrub`: the depth, with three more levels for what a pending choice is replaced by.
abbrev pub larger : ℕ → ℕ → ℕ
larger a b = if leb a b then b else a

abbrev pub extra_depth : String → ℕ
extra_depth key = if str_eq key "pendingChoice" then 3 else 0

unfoldable mutual
  pub need : Value → ℕ
  need null = 1
  need (bool b) = 1
  need (int z) = 1
  need (float x) = 1
  need (str s) = 1
  need (list vs) = 1 + need_items vs
  need (dict fs) = 1 + need_fields fs

  pub need_items : Items → ℕ
  need_items nil = 0
  need_items (cons v vs) = larger (need v) (need_items vs)

  pub need_fields : Fields → ℕ
  need_fields end = 0
  need_fields (field key v fs) = larger (need v + extra_depth key) (need_fields fs)

-- `Scrub` is the scrub itself, one level down.
abbrev pub Scrub : Type 0
Scrub = Value → Result MaskError Value

cons_item : Result MaskError Value → Result MaskError Items → Result MaskError Items
cons_item (err e) rest = err e
cons_item (ok v) (err e) = err e
cons_item (ok v) (ok vs) = ok (cons v vs)

-- A field is left out, or its value is replaced.
cons_field :
    String → Result MaskError (Option Value) → Result MaskError Fields → Result MaskError Fields
cons_field key (err e) rest = err e
cons_field key (ok v) (err e) = err e
cons_field key (ok none) (ok fs) = ok fs
cons_field key (ok (some v)) (ok fs) = ok (field key v fs)

keep : Result MaskError Value → Result MaskError (Option Value)
keep (err e) = err e
keep (ok v) = ok (some v)

keep_pile : Result CardError Value → Result MaskError (Option Value)
keep_pile (err e) = err (in_pile e)
keep_pile (ok v) = ok (some v)

as_list : Result MaskError Items → Result MaskError Value
as_list (err e) = err e
as_list (ok vs) = ok (list vs)

as_dict : Result MaskError Fields → Result MaskError Value
as_dict (err e) = err e
as_dict (ok fs) = ok (dict fs)

scrub_items : Scrub → Items → Result MaskError Items
unfolding cons_item
scrub_items scrub nil = ok nil
scrub_items scrub (cons v vs) = cons_item (scrub v) (scrub_items scrub vs)

-- {k: _scrub(v) for k, v in value.items() if k in allowlist}
scrub_allowed : Scrub → Fields → Result MaskError Fields
unfolding cons_field keep member
scrub_allowed scrub end = ok end
scrub_allowed scrub (field key v fs) =
    cons_field key
      (if member key allowlisted_metrics_extras_info_keys then keep (scrub v) else ok none)
      (scrub_allowed scrub fs)

scrub_value : Scrub → Bool → Value → Result MaskError Value
unfolding as_dict scrub_allowed
scrub_value scrub true (dict fs) = as_dict (scrub_allowed scrub fs)
scrub_value scrub _ v = scrub v

module _ (python : Python) where
  scrub_field : Scrub → String → Value → Result MaskError (Option Value)
  unfolding keep keep_pile scrub_value member
  scrub_field scrub key value =
      if is_forbidden_key key
      then ok none
      else if member key delete_keys
      then ok none
      else if member key multiset_pile_keys
      then keep_pile (multiset_of python value)
      else if str_eq key "pendingChoice"
      then keep (scrub (dict (of_entries (public_choice value))))
      else keep (scrub_value scrub (is_metrics_key key) value)

  scrub_fields : Scrub → Fields → Result MaskError Fields
  unfolding cons_field scrub_field
  scrub_fields scrub end = ok end
  scrub_fields scrub (field key v fs) =
      cons_field key (scrub_field scrub key v) (scrub_fields scrub fs)

  scrub_node : Scrub → Value → Result MaskError Value
  unfolding as_list as_dict scrub_items scrub_fields
  scrub_node scrub (dict fs) = as_dict (scrub_fields scrub fs)
  scrub_node scrub (list vs) = as_list (scrub_items scrub vs)
  scrub_node scrub v = ok v

  -- `_scrub`
  unfoldable pub scrub : ℕ → Value → Result MaskError Value
  unfolding scrub_node
  scrub zero v = err too_deep
  scrub (suc n) v = scrub_node (scrub n) v

  unfoldable pub mask_public_fragment : Value → Result MaskError Value
  unfolding scrub need
  mask_public_fragment value = scrub (need value) value

  -- masked.update(other)
  update : Payload → Payload → Payload
  update m [] = m
  update m ((key, v) ∷ other) = update (Dict.put m key v) other

  contents : Value → Payload
  contents (dict fs) = entries fs
  contents _ = []

  unfoldable pub is_true : Value → Bool
  is_true (bool b) = b
  is_true _ = false

  unfoldable pub flag : Payload → String → Bool
  unfolding is_true
  flag m key = is_true (or_null (Dict.get m key))

  has : Payload → String → Bool
  has m key = elim (Dict.get m key) [ none ↦ false | some v ↦ true ]

  no_actions : Payload → Payload
  no_actions m = Dict.put m "legal_actions" (list nil)

  actions_cleared : Payload → Payload
  unfolding flag has no_actions
  actions_cleared m =
      if flag m "terminal"
      then no_actions m
      else if flag m "run_terminal" && has m "legal_actions"
      then no_actions m
      else m

  stamped : Payload → Payload
  stamped m =
      Dict.put (Dict.put m "dto_version" (str dto_version)) "mask_version" (str mask_version)

  -- The stamps on a masked state that was updated with the masked extra.
  finished : Payload → Result MaskError Payload
  unfolding flag actions_cleared stamped
  finished m =
      if flag m "terminal" && flag m "run_terminal"
      then err both_terminal
      else ok (stamped (actions_cleared m))

  -- `extra` is empty when it is left out.
  unfoldable pub build_masked_emulator_dto : Fields → Fields → Result MaskError Payload
  unfolding mask_public_fragment contents update finished
  build_masked_emulator_dto raw_state extra = mask_public_fragment (dict raw_state) >>= λ masked.
      mask_public_fragment (dict extra) >>= λ more.
      finished (update (contents masked) (contents more))

  module _ (str_of : Value → String) where
    with_text_id : Option Value → Payload → Payload
    with_text_id none action = action
    with_text_id (some id) action = Dict.put action "action_id" (str (str_of id))

    -- The masked action, its `action_id` as `str()` gives it.
    mask_action : Value → Result MaskError Value
    unfolding mask_public_fragment contents with_text_id
    mask_action action = mask_public_fragment action >>= λ scrubbed. ok (
        dict (
          of_entries (with_text_id (Dict.get (contents scrubbed) "action_id") (contents scrubbed))))

    unfoldable pub mask_legal_actions : List Value → Result MaskError (List Value)
    unfolding mask_action
    mask_legal_actions [] = ok []
    mask_legal_actions (action ∷ actions) =
        mask_action action >>= λ masked. mask_legal_actions actions >>= λ rest. ok (masked ∷ rest)
