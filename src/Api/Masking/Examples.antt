-- ===== src/Api/Masking/Examples.antt =====
-- A state with a seed, a pile of two equal cards, and a pending choice.
use sts2_rl.Prelude.{
  ◌≡◌, ◌≢◌, refl, true, false, none, some, [], ◌∷◌, ok, err, ℕ_discrete, Bool-cases,
}
use sts2_rl.Prelude.Dict
use sts2_rl.Prelude.Key.{str_key, str_discrete}
use sts2_rl.Prelude.Int.{pos, ℤ_discrete}
use sts2_rl.Api.Dto.{member}
use sts2_rl.Api.Value.{
  Value, Items, Fields, nil, cons, end, field, null, bool, int, str, list, dict, Payload, items,
  entries, of_entries, of_items,
}
use sts2_rl.Api.Masking.Keys.{is_forbidden_key, is_metrics_key, lower, starts_with}
use sts2_rl.Api.Masking.Choice.{
  read, normalize_choice_semantics, safe_source_effect_id, semantics_fields, valid_token,
}
use sts2_rl.Api.Masking.Pending.{
  is_known, public_choice, choice_fields, normalize_pending_choice, all_distinct, disjoint,
}
use sts2_rl.Api.Masking.Pending.Identity.{IsIdentified, known_choice-IsIdentified}
use sts2_rl.Api.Masking.Cards.{
  Python, CardKey, Tallies, nothing, number, text, CardState, multiset_of, tallies_of, count_entry,
  is_truthy, CardKey-discrete, Scalar-discrete, bump, card_key, card_state, count_all, count_card,
  hash_part, insert_sorted, public_enchantment, publish, sort, tuple_lt,
}
use sts2_rl.Api.Masking.{
  too_deep, actions_cleared, as_dict, as_list, cons_field, cons_item, contents, finished, flag, has,
  is_true, keep, keep_pile, mask_public_fragment, need, no_actions, scrub, scrub_allowed,
  scrub_field, scrub_fields, scrub_items, scrub_node, scrub_value, stamped, update,
  build_masked_emulator_dto,
}
use sts2_rl.Api.Masking.Hidden.Published.{CleanPayload, masked_state-Clean}
use sts2_rl.Api.Masking.Fuel.{mask_public_fragment-Ends}

-- Floats are integers here, and a number's text is not read.
abbrev python : Python
python = record {
  integral = λ x. some (pos x);
  truncated = λ x. some (pos x);
  int_of_text = λ s. none;
  typed_repr = λ v. [];
}

abbrev strike : Value
strike = dict (field "id" (str "strike") (field "cost" (int (pos 1)) end))

abbrev raw_choice : Fields
raw_choice =
    field "choiceSemantics"
      (dict (field "version" (int (pos 1)) (field "operation" (str "discard") end)))
      (field "selectedCount" (int (pos 1)) (
        field "selectedOptionIds" (list (cons (str "a") nil))
          (field "options" (list (cons (dict (field "optionId" (str "b") end)) nil)) end)))

abbrev pile : Items
pile = cons strike (cons strike nil)

abbrev raw_state : Fields
raw_state = field "runSeed" (int (pos 7)) (
    field "drawPile" (list pile)
      (field "pendingChoice" (dict raw_choice) (field "terminal" (bool true) end)))

abbrev masked_card : Value
masked_card = dict (
    field "id" (str "strike") (
      field "type" null (
        field "rarity" null (
          field "cost" (int (pos 1)) (
            field "targetType" null (
              field "upgraded" (bool false) (
                field "upgradeLevel" (int (pos 0)) (
                  field "tinkerTimeType" null (
                    field "tinkerTimeRider" null
                      (field "enchantment" null (field "count" (int (pos 2)) end)))))))))))

abbrev masked_choice : Value
masked_choice = dict (
    field "selectedCount" (int (pos 1)) (
      field "selectedOptionIds" (list (cons (str "a") nil)) (
        field "options" (list (cons (dict (field "optionId" (str "b") end)) nil)) (
          field "choiceSemantics"
            (dict (field "version" (int (pos 1)) (field "operation" (str "discard") end))) end))))

abbrev masked_state : Payload
masked_state =
    ("drawPile", list (cons masked_card nil))
    ∷ ("pendingChoice", masked_choice)
    ∷ ("terminal", bool true)
    ∷ ("legal_actions", list nil)
    ∷ ("dto_version", str "emulator-fca2f06")
    ∷ ("mask_version", str "1.2")
    ∷ []

masked : build_masked_emulator_dto python raw_state end ≡ ok masked_state
unfolding build_masked_emulator_dto is_forbidden_key is_metrics_key multiset_of tallies_of
    count_entry is_truthy CardKey-discrete Scalar-discrete bump card_key card_state count_all
    count_card hash_part insert_sorted public_enchantment publish sort tuple_lt items entries
    of_entries of_items public_choice choice_fields normalize_pending_choice all_distinct disjoint
    read normalize_choice_semantics safe_source_effect_id semantics_fields valid_token
    actions_cleared as_dict as_list cons_field cons_item contents finished flag has is_true keep
    keep_pile mask_public_fragment need no_actions scrub scrub_allowed scrub_field scrub_fields
    scrub_items scrub_node scrub_value stamped update Dict.get Dict.put Dict.remove str_discrete
    ℕ_discrete ℤ_discrete Bool-cases member lower starts_with
masked = refl

masked_state-Clean_example : CleanPayload masked_state
masked_state-Clean_example = masked_state-Clean python raw_state end masked_state masked

mask_public_fragment-Ends_example : mask_public_fragment python (dict raw_state) ≢ err too_deep
mask_public_fragment-Ends_example = mask_public_fragment-Ends python (dict raw_state)

meaning_is_known : is_known (normalize_pending_choice (entries raw_choice)).choice_semantics ≡ true
unfolding items entries of_entries of_items public_choice choice_fields normalize_pending_choice
    all_distinct disjoint read normalize_choice_semantics safe_source_effect_id semantics_fields
    valid_token Dict.get Dict.put Dict.remove str_discrete ℕ_discrete ℤ_discrete Bool-cases member
    lower starts_with
meaning_is_known = refl

known_choice-IsIdentified_example : IsIdentified (normalize_pending_choice (entries raw_choice))
known_choice-IsIdentified_example = known_choice-IsIdentified (entries raw_choice) meaning_is_known

abbrev strike_key : CardKey
strike_key =
    text "strike"
    ∷ nothing
    ∷ nothing
    ∷ number (pos 1)
    ∷ nothing
    ∷ number (pos 0)
    ∷ number (pos 0)
    ∷ nothing
    ∷ nothing
    ∷ nothing
    ∷ nothing
    ∷ nothing
    ∷ []

abbrev strike_state : CardState
strike_state = record {
  id = str "strike";
  type = null;
  rarity = null;
  cost = int (pos 1);
  target_type = null;
  upgraded = false;
  upgrade_level = pos 0;
  tinker_time_type = null;
  tinker_time_rider = null;
  enchanted = false;
  enchantment_id = null;
  enchantment_amount = null;
  enchantment_status = null;
}

abbrev tallies : Tallies python
tallies = (strike_key, record { representative = strike_state; count = 2 }) ∷ []
