-- ===== src/Api/Masking/Pending/Identity.antt =====
-- A pending choice that is published with a known meaning has a sound identity.
use sts2_rl.Prelude.{
  ℕ, ◌≡◌, refl, arith, String, Bool, true, false, ◌&&◌, Option, none, some, List, [], ◌∷◌, length,
  if◌then◌else◌,
}
use sts2_rl.Prelude.Dict
use sts2_rl.Prelude.Key.{str_key}
use sts2_rl.Api.Value.{Value, str, list, dict, Payload, items, entries}
use sts2_rl.Api.Masking.Choice.{
  Semantics, nonnegative_int_or_none, valid_token, read, unknown_semantics,
}
use sts2_rl.Api.Masking.Pending.{
  PublicChoice, Options, add_option, read_option, read_options, options_of, selected_of, counts,
  all_distinct, disjoint, ids_or_none, is_known, choice_of, normalize_pending_choice,
}

-- Every option has its id.
abbrev pub Identified : List Payload → List String → Type 0
Identified [] [] = Unit
Identified (o ∷ options) (id ∷ ids) =
    (Dict.get o "optionId" ≡ some (str id)) × Identified options ids
Identified _ _ = ⊥

valid_token-eq : (v : Value) (id : String) → valid_token v ≡ some id → v ≡ str id
unfolding valid_token
valid_token-eq (str s) id h = ground arith
valid_token-eq _ id h = cc h

read-str :
    (m : Payload) (id : String) → read m "optionId" ≡ str id → Dict.get m "optionId" ≡ some (str id)
unfolding read
read-str m id h = ground (arith, h)

add_option-Identified :
    (o : Payload) (token : Option String) (rest : Options)
    → valid_token (read o "optionId") ≡ token
    → (rest.valid ≡ true → Identified rest.options rest.option_ids)
    → (add_option o token rest).valid ≡ true
    → Identified (add_option o token rest).options (add_option o token rest).option_ids
unfolding add_option
add_option-Identified o none rest e keep h = cc h
add_option-Identified o (some id) rest e keep h =
    (read-str o id (valid_token-eq (read o "optionId") id e), keep h)

read_options-Identified :
    (vs : List Value)
    → (read_options vs).valid ≡ true
    → Identified (read_options vs).options (read_options vs).option_ids
unfolding read_options read_option
read_options-Identified [] h = tt
read_options-Identified (dict fs ∷ vs) h =
    add_option-Identified (entries fs) (valid_token (read (entries fs) "optionId"))
      (read_options vs) refl (read_options-Identified vs) h
read_options-Identified (_ ∷ vs) h = cc h

-- What makes the identity of a choice sound: the selected ids are there, as many as counted, the
-- ids are distinct, each option has its own, and none is selected.
abbrev pub IsIdentified : PublicChoice → Type 0
IsIdentified c =
    (ids : List String) × (opts : List Payload) × (option_ids : List String)
    × (c.selected_option_ids ≡ some ids)
    × (c.options ≡ some opts)
    × (c.selected_count ≡ some (length ids))
    × Identified opts option_ids
    × (all_distinct ids ≡ true)
    × (all_distinct option_ids ≡ true)
    × (disjoint ids option_ids ≡ true)

selected_of-valid :
    (v : Value) → (selected_of v).1 ≡ true → (ids : List String) × ((selected_of v).0 ≡ some ids)
unfolding selected_of
selected_of-valid (list vs) h = (_, refl)
selected_of-valid _ h = cc h

options_of-valid :
    (v : Value)
    → (options_of v).1.valid ≡ true
    → ((options_of v).0 ≡ some (options_of v).1.options)
      × Identified (options_of v).1.options (options_of v).1.option_ids
unfolding options_of
options_of-valid (list vs) h = (refl, read_options-Identified (items vs) h)
options_of-valid _ h = cc h

if_known :
    (b : Bool) (s : Semantics) → is_known (if b then s else unknown_semantics) ≡ true → b ≡ true
if_known true s h = refl
if_known false s h = cc h

six :
    (a b c d e f : Bool)
    → (a && (b && (c && (d && (e && f))))) ≡ true
    → (a ≡ true) × (b ≡ true) × (c ≡ true) × (d ≡ true) × (e ≡ true) × (f ≡ true)
six a b c d e f h = ground arith

choice_of-valid :
    (m : Payload) (s : Option (List String) × Bool) (o : Option (List Payload) × Options)
    → is_known (choice_of m s o).choice_semantics ≡ true
    → (s.1 ≡ true)
      × (o.1.valid ≡ true)
      × (counts (nonnegative_int_or_none (read m "selectedCount")) (ids_or_none s.0) ≡ true)
      × (all_distinct (ids_or_none s.0) ≡ true)
      × (all_distinct o.1.option_ids ≡ true)
      × (disjoint (ids_or_none s.0) o.1.option_ids ≡ true)
unfolding choice_of
choice_of-valid m s o h = six s.1 o.1.valid _ _ _ _ (if_known _ _ h)

counts-eq : (n : Option ℕ) (ids : List String) → counts n ids ≡ true → n ≡ some (length ids)
unfolding counts
counts-eq none ids h = cc h
counts-eq (some n) ids h = ground arith

-- A pending choice that is published with a known operation has a sound identity; any other is
-- published as unknown.
pub known_choice-IsIdentified :
    (m : Payload)
    → is_known (normalize_pending_choice m).choice_semantics ≡ true
    → IsIdentified (normalize_pending_choice m)
unfolding normalize_pending_choice choice_of ids_or_none
known_choice-IsIdentified m h =
    let (sv, ov, count, ids_distinct, options_distinct, apart) =
      choice_of-valid m (selected_of (read m "selectedOptionIds")) (options_of (read m "options"))
        h in
    let (ids, e) = selected_of-valid (read m "selectedOptionIds") sv in
    let (f, identified) = options_of-valid (read m "options") ov in
    (
      ids,
      (options_of (read m "options")).1.options,
      (options_of (read m "options")).1.option_ids,
      e,
      f,
      rw e at (counts-eq (nonnegative_int_or_none (read m "selectedCount")) _ count),
      identified,
      rw e at ids_distinct,
      options_distinct,
      rw e at apart,
    )
