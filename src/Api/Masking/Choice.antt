-- ===== src/Api/Masking/Choice.antt =====
-- API/choice_card_semantics.py: the public view of a pending choice.
use sts2_rl.Prelude.{
  ℕ, String, Bool, true, false, ◌&&◌, ◌||◌, not, Option, none, some, List, [], ◌∷◌, ◌++◌, Result,
  ok, err, ◌>>=◌, str_eq, leb, ltb, ◌==◌, if◌then◌else◌, length,
}
use sts2_rl.Prelude.Dict
use sts2_rl.Prelude.Dict.{Dict}
use sts2_rl.Prelude.Key.{str_key}
use sts2_rl.Prelude.Int.{pos}
use sts2_rl.Api.Dto.{member}
use sts2_rl.Api.Value.{Value, null, bool, int, str, dict, Payload, entries, or_null}
use sts2_rl.Api.Masking.Keys.{codes, starts_with}

abbrev pub choice_semantics_version : ℕ
choice_semantics_version = 1

abbrev pub choice_operations : List String
choice_operations =
    "gain" ∷ "discard" ∷ "exhaust" ∷ "upgrade" ∷ "retrieve" ∷ "play" ∷ "replay" ∷ "remove"
    ∷ "transform" ∷ "unknown" ∷ []

abbrev pub choice_effects : List String
choice_effects = "move" ∷ "modify" ∷ "play" ∷ "replace" ∷ []

abbrev pub choice_zones : List String
choice_zones =
    "hand" ∷ "draw" ∷ "draw_pile" ∷ "discard" ∷ "discard_pile" ∷ "exhaust" ∷ "exhaust_pile" ∷ "play"
    ∷ "play_pile" ∷ "deck" ∷ "master_deck" ∷ "reward" ∷ "generated" ∷ "none" ∷ "unknown" ∷ []

abbrev pub choice_modifiers : List String
choice_modifiers = "upgrade" ∷ []

-- The `ValueError` inside `normalize_choice_semantics`.
pub data EnumError : Type 0 where
  invalid_value : EnumError

-- A semantics is published as a record: `unknown`, or an operation with what is known of it.
pub record Semantics : Type 0 where
  pub operation : String
  pub effect : Option String
  pub source_zone : Option String
  pub destination_zone : Option String
  pub modifier : Option String
  pub order_matters : Option Bool
  pub replacement_allowed : Option Bool

abbrev pub unknown_semantics : Semantics
unknown_semantics = record {
  operation = "unknown";
  effect = none;
  source_zone = none;
  destination_zone = none;
  modifier = none;
  order_matters = none;
  replacement_allowed = none;
}

abbrev pub nonnegative_int_or_none : Value → Option ℕ
nonnegative_int_or_none (int (pos n)) = some n
nonnegative_int_or_none _ = none

is_alphanumeric : ℕ → Bool
is_alphanumeric c =
    (leb b'0' c && leb c b'9') || ((leb b'A' c && leb c b'Z') || (leb b'a' c && leb c b'z'))

is_token_code : ℕ → Bool
unfolding is_alphanumeric
is_token_code c =
    is_alphanumeric c || (c == b'.' || (c == b'_' || (c == b':' || (c == b'/' || c == b'-'))))

all_token : List ℕ → Bool
unfolding is_token_code
all_token [] = true
all_token (c ∷ cs) = is_token_code c && all_token cs

is_token : List ℕ → Bool
unfolding is_alphanumeric all_token
is_token [] = false
is_token (c ∷ cs) = is_alphanumeric c && (all_token cs && leb (length cs) 127)

-- The text of a valid token.
unfoldable pub valid_token : Value → Option String
unfolding is_token
valid_token (str s) = if is_token (codes s) then some s else none
valid_token _ = none

is_public_source : String → Bool
is_public_source s =
    starts_with (codes "card:") (codes s) && ltb (length (codes "card:")) (length (codes s))

safe_source : Option String → Option String
unfolding is_public_source
safe_source none = none
safe_source (some s) = if is_public_source s then some s else none

unfoldable pub safe_source_effect_id : Value → Option String
unfolding safe_source
safe_source_effect_id value = safe_source (valid_token value)

enum_or_none : Value → List String → Result EnumError (Option String)
enum_or_none null allowed = ok none
enum_or_none (str s) allowed = if member s allowed then ok (some s) else err invalid_value
enum_or_none _ allowed = err invalid_value

bool_or_none : Value → Result EnumError (Option Bool)
bool_or_none null = ok none
bool_or_none (bool b) = ok (some b)
bool_or_none _ = err invalid_value

unfoldable pub read : Payload → String → Value
read m key = or_null (Dict.get m key)

-- The body of the `try`.
known_semantics : String → Payload → Result EnumError Semantics
unfolding enum_or_none bool_or_none read
known_semantics operation m = enum_or_none (read m "effect") choice_effects >>= λ effect.
    enum_or_none (read m "sourceZone") choice_zones >>= λ source_zone.
    enum_or_none (read m "destinationZone") choice_zones >>= λ destination_zone.
    enum_or_none (read m "modifier") choice_modifiers >>= λ modifier.
    bool_or_none (read m "orderMatters") >>= λ order_matters.
    bool_or_none (read m "replacementAllowed") >>= λ replacement_allowed. ok (record {
      operation = operation;
      effect = effect;
      source_zone = source_zone;
      destination_zone = destination_zone;
      modifier = modifier;
      order_matters = order_matters;
      replacement_allowed = replacement_allowed;
    })

or_unknown : Result EnumError Semantics → Semantics
or_unknown (ok s) = s
or_unknown (err e) = unknown_semantics

semantics_of : Value → Value → Payload → Semantics
unfolding known_semantics or_unknown
semantics_of (int (pos version)) (str operation) m =
    if version == choice_semantics_version
      && (member operation choice_operations && not (str_eq operation "unknown"))
    then or_unknown (known_semantics operation m)
    else unknown_semantics
semantics_of _ _ m = unknown_semantics

unfoldable pub normalize_choice_semantics : Value → Semantics
unfolding semantics_of read
normalize_choice_semantics (dict fs) =
    semantics_of (read (entries fs) "version") (read (entries fs) "operation") (entries fs)
normalize_choice_semantics _ = unknown_semantics

-- A field that is there if its value is.
abbrev pub optional {ℓ} : {A : Type ℓ} → String → (A → Value) → Option A → Payload
optional key f none = []
optional key f (some a) = (key, f a) ∷ []

unfoldable pub semantics_fields : Semantics → Payload
semantics_fields s =
    ("version", int (pos choice_semantics_version))
    ∷ ("operation", str s.operation)
    ∷ (optional "effect" str s.effect
        ++ (optional "sourceZone" str s.source_zone
            ++ (optional "destinationZone" str s.destination_zone
                ++ (optional "modifier" str s.modifier
                    ++ (optional "orderMatters" bool s.order_matters
                        ++ optional "replacementAllowed" bool s.replacement_allowed)))))
