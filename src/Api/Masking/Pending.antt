-- ===== src/Api/Masking/Pending.antt =====
-- `normalize_pending_choice` of API/choice_card_semantics.py. A result is a record, whose optional
-- fields are those that the source may leave out; `choice_fields` is the `dict`.
pub mod Identity
pub mod Depth
use sts2_rl.Prelude.{
  ℕ, String, Bool, true, false, ◌&&◌, ◌||◌, not, Option, none, some, List, [], ◌∷◌, ◌++◌, str_eq,
  ◌==◌, if◌then◌else◌, length, map,
}
use sts2_rl.Prelude.Dict
use sts2_rl.Prelude.Key.{str_key}
use sts2_rl.Prelude.Int.{pos}
use sts2_rl.Api.Dto.{member}
use sts2_rl.Api.Value.{
  Value, null, bool, int, float, str, list, dict, Payload, items, of_items, entries, of_entries,
}
use sts2_rl.Api.Masking.Choice.{
  Semantics, unknown_semantics, nonnegative_int_or_none, valid_token, safe_source_effect_id, read,
  normalize_choice_semantics, optional, semantics_fields,
}

pub record PublicChoice : Type 0 where
  pub choice_type : Option String
  pub scope : Option String
  pub scenario_restorable : Option Bool
  pub min_select : Option ℕ
  pub max_select : Option ℕ
  pub selected_count : Option ℕ
  pub selected_option_ids : Option (List String)
  pub options : Option (List Payload)
  pub choice_semantics : Semantics
  pub source_effect_id : Option String

text_or_none : Value → Option String
text_or_none (str s) = some s
text_or_none _ = none

bool_field : Value → Option Bool
bool_field (bool b) = some b
bool_field _ = none

-- The ids that are valid, and whether all are.
add_id : Option String → List String × Bool → List String × Bool
add_id none (ids, valid) = (ids, false)
add_id (some id) (ids, valid) = (id ∷ ids, valid)

read_ids : List Value → List String × Bool
unfolding add_id
read_ids [] = ([], true)
read_ids (v ∷ vs) = add_id (valid_token v) (read_ids vs)

selected_of : Value → Option (List String) × Bool
unfolding read_ids
selected_of (list vs) = let (ids, valid) = read_ids (items vs) in (some ids, valid)
selected_of _ = (none, false)

-- The options, the valid ids among theirs, and whether all are options with a valid id.
pub record Options : Type 0 where
  pub options : List Payload
  pub option_ids : List String
  pub valid : Bool

add_option : Payload → Option String → Options → Options
add_option option none rest = record rest {
  options = Dict.remove option "optionId" ∷ rest.options;
  valid = false;
}
add_option option (some id) rest = record rest {
  options = option ∷ rest.options;
  option_ids = id ∷ rest.option_ids;
}

read_option : Value → Options → Options
unfolding add_option read
read_option (dict fs) rest =
    add_option (entries fs) (valid_token (read (entries fs) "optionId")) rest
read_option _ rest = record rest { valid = false }

read_options : List Value → Options
unfolding read_option
read_options [] = record { options = []; option_ids = []; valid = true }
read_options (v ∷ vs) = read_option v (read_options vs)

options_of : Value → Option (List Payload) × Options
unfolding read_options
options_of (list vs) = let read_all = read_options (items vs) in (some read_all.options, read_all)
options_of _ = (none, record { options = []; option_ids = []; valid = false })

-- `len(set(ids)) == len(ids)`
unfoldable pub all_distinct : List String → Bool
all_distinct [] = true
all_distinct (id ∷ ids) = not (member id ids) && all_distinct ids

-- `set(ids).isdisjoint(others)`
unfoldable pub disjoint : List String → List String → Bool
disjoint [] others = true
disjoint (id ∷ ids) others = not (member id others) && disjoint ids others

ids_or_none : Option (List String) → List String
ids_or_none none = []
ids_or_none (some ids) = ids

counts : Option ℕ → List String → Bool
counts none ids = false
counts (some n) ids = n == length ids

abbrev pub is_known : Semantics → Bool
is_known s = not (str_eq s.operation "unknown")

choice_of : Payload → Option (List String) × Bool → Option (List Payload) × Options → PublicChoice
unfolding text_or_none bool_field ids_or_none counts all_distinct disjoint read
choice_of m (selected, selected_valid) (options, read_all) =
    let selected_ids = ids_or_none selected in
    let selected_count = nonnegative_int_or_none (read m "selectedCount") in
    let identity_valid =
      selected_valid
      && (read_all.valid
          && (counts selected_count selected_ids
              && (all_distinct selected_ids
                  && (all_distinct read_all.option_ids
                      && disjoint selected_ids read_all.option_ids)))) in
    let raw_semantics = normalize_choice_semantics (read m "choiceSemantics") in
    let semantics = if identity_valid then raw_semantics else unknown_semantics in
    record {
      choice_type = text_or_none (read m "choiceType");
      scope = text_or_none (read m "scope");
      scenario_restorable = bool_field (read m "scenarioRestorable");
      min_select = nonnegative_int_or_none (read m "minSelect");
      max_select = nonnegative_int_or_none (read m "maxSelect");
      selected_count = selected_count;
      selected_option_ids = selected;
      options = options;
      choice_semantics = semantics;
      source_effect_id =
          if is_known semantics then safe_source_effect_id (read m "sourceEffectId") else none;
    }

unfoldable pub normalize_pending_choice : Payload → PublicChoice
unfolding choice_of selected_of options_of read
normalize_pending_choice m =
    choice_of m (selected_of (read m "selectedOptionIds")) (options_of (read m "options"))

abbrev pub number : ℕ → Value
number n = int (pos n)

abbrev pub texts : List String → Value
texts ids = list (of_items (map str ids))

abbrev pub objects : List Payload → Value
objects options = list (of_items (map (λ o. dict (of_entries o)) options))

unfoldable pub choice_fields : PublicChoice → Payload
choice_fields c =
    optional "choiceType" str c.choice_type
    ++ (optional "scope" str c.scope
        ++ (optional "scenarioRestorable" bool c.scenario_restorable
            ++ (optional "minSelect" number c.min_select
                ++ (optional "maxSelect" number c.max_select
                    ++ (optional "selectedCount" number c.selected_count
                        ++ (optional "selectedOptionIds" texts c.selected_option_ids
                            ++ (optional "options" objects c.options
                                ++ ((
                                  "choiceSemantics",
                                  dict (of_entries (semantics_fields c.choice_semantics)),
                                )
                                    ∷ optional "sourceEffectId" str c.source_effect_id))))))))

-- What the masking publishes for a `pendingChoice`: an empty object for what is no `dict`.
unfoldable pub public_choice : Value → Payload
public_choice (dict fs) = choice_fields (normalize_pending_choice (entries fs))
public_choice _ = []
