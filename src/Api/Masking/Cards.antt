-- ===== src/Api/Masking/Cards.antt =====
-- `_multiset_of` of API/masking.py: a pile of cards as counts of equal public states. What Python
-- does with floats and with the text of a number is not modelled: it comes in as `Python`.
pub mod Counts
use sts2_rl.Prelude.{
  ℕ, ◌+◌, String, Bool, true, false, ◌&&◌, ◌||◌, not, Option, none, some, List, [], ◌∷◌, map,
  Result, ok, err, ◌>>=◌, ite, ltb, ◌==◌, if◌then◌else◌, ℕ_discrete,
}
use sts2_rl.Prelude.Key.{Key, str_discrete}
use sts2_rl.Prelude.Int.{ℤ, pos, negsuc, ℤ_discrete}
use sts2_rl.Api.Value.{
  Value, Items, Fields, nil, cons, end, field, null, bool, int, float, str, list, dict, Payload,
  items, of_items, entries, of_entries, or_null,
}
use sts2_rl.Api.Masking.Choice.{read}

-- The integer that a float equals, what `int()` gives for a float and for a text, and the code points
-- of f"{type(x).__name__}:{x!r}".
pub record Python : Type 0 where
  pub integral : ℕ → Option ℤ
  pub truncated : ℕ → Option ℤ
  pub int_of_text : String → Option ℤ
  pub typed_repr : Value → List ℕ

-- A value that has no hash, an `upgradeLevel` that is no number, and an enchantment that is no
-- object.
pub data CardError : Type 0 where
  unhashable bad_level bad_enchantment : CardError

-- What Python compares and hashes: True equals 1, and 1.0 does.
pub data Scalar : Type 0 where
  nothing : Scalar
  number : ℤ → Scalar
  fraction : ℕ → Scalar
  text : String → Scalar

unfoldable pub Scalar-discrete : Discrete Scalar
unfolding ℤ_discrete ℕ_discrete str_discrete
Scalar-discrete = hlevel (ℤ_discrete, ℕ_discrete, str_discrete)

unfoldable pub CardKey-discrete : Discrete (List Scalar)
unfolding Scalar-discrete
CardKey-discrete = hlevel Scalar-discrete

abbrev pub CardKey : Type 0
CardKey = List Scalar

-- The public fields of a card. `enchanted` says that the enchantment is an object.
pub record CardState : Type 0 where
  pub id : Value
  pub type : Value
  pub rarity : Value
  pub cost : Value
  pub target_type : Value
  pub upgraded : Bool
  pub upgrade_level : ℤ
  pub tinker_time_type : Value
  pub tinker_time_rider : Value
  pub enchanted : Bool
  pub enchantment_id : Value
  pub enchantment_amount : Value
  pub enchantment_status : Value

is_zero : Option ℤ → Bool
is_zero none = false
is_zero (some (pos n)) = n == 0
is_zero (some (negsuc n)) = false

module _ (python : Python) where
  -- bool(v)
  unfoldable pub is_truthy : Value → Bool
  unfolding is_zero
  is_truthy null = false
  is_truthy (bool b) = b
  is_truthy (int z) = not (is_zero (some z))
  is_truthy (float x) = not (is_zero (python.integral x))
  is_truthy (str String.[]) = false
  is_truthy (str (String.◌∷◌ c s)) = true
  is_truthy (list nil) = false
  is_truthy (list (cons v vs)) = true
  is_truthy (dict end) = false
  is_truthy (dict (field k v fs)) = true

  or_bad_level : Option ℤ → Result CardError ℤ
  or_bad_level none = err bad_level
  or_bad_level (some z) = ok z

  -- int(v)
  int_of : Value → Result CardError ℤ
  unfolding or_bad_level
  int_of (bool true) = ok (pos 1)
  int_of (bool false) = ok (pos 0)
  int_of (int z) = ok z
  int_of (float x) = or_bad_level (python.truncated x)
  int_of (str s) = or_bad_level (python.int_of_text s)
  int_of _ = err bad_level

  -- int(v or 0)
  pub level_of : Value → Result CardError ℤ
  unfolding int_of
  level_of v = if is_truthy v then int_of v else ok (pos 0)

  -- `entry.get("enchantment") or {}`, where only an object has a `get`.
  pub enchantment_of : Value → Result CardError Payload
  enchantment_of (dict fs) = ok (entries fs)
  enchantment_of v = if is_truthy v then err bad_enchantment else ok []

  abbrev pub is_dict : Value → Bool
  is_dict (dict fs) = true
  is_dict _ = false

  unfoldable pub card_state : Payload → Result CardError CardState
  unfolding level_of enchantment_of
  card_state entry = level_of (read entry "upgradeLevel") >>= λ upgrade_level.
      enchantment_of (read entry "enchantment") >>= λ enchantment. ok (record {
        id = read entry "id";
        type = read entry "type";
        rarity = read entry "rarity";
        cost = read entry "cost";
        target_type = read entry "targetType";
        upgraded = is_truthy (read entry "upgraded");
        upgrade_level = upgrade_level;
        tinker_time_type = read entry "tinkerTimeType";
        tinker_time_rider = read entry "tinkerTimeRider";
        enchanted = is_dict (read entry "enchantment");
        enchantment_id = read enchantment "id";
        enchantment_amount = read enchantment "amount";
        enchantment_status = read enchantment "status";
      })

  abbrev pub parts : CardState → List Value
  parts c =
      c.id
      ∷ c.type
      ∷ c.rarity
      ∷ c.cost
      ∷ c.target_type
      ∷ bool c.upgraded
      ∷ int c.upgrade_level
      ∷ c.tinker_time_type
      ∷ c.tinker_time_rider
      ∷ c.enchantment_id
      ∷ c.enchantment_amount
      ∷ c.enchantment_status
      ∷ []

  or_fraction : ℕ → Option ℤ → Scalar
  or_fraction x none = fraction x
  or_fraction x (some z) = number z

  unfoldable pub hash_part : Value → Result CardError Scalar
  unfolding or_fraction
  hash_part null = ok nothing
  hash_part (bool true) = ok (number (pos 1))
  hash_part (bool false) = ok (number (pos 0))
  hash_part (int z) = ok (number z)
  hash_part (float x) = ok (or_fraction x (python.integral x))
  hash_part (str s) = ok (text s)
  hash_part (list vs) = err unhashable
  hash_part (dict fs) = err unhashable

  -- `_card_identity_key`
  unfoldable pub card_key : List Value → Result CardError CardKey
  unfolding hash_part
  card_key [] = ok []
  card_key (v ∷ vs) = hash_part v >>= λ s. card_key vs >>= λ key. ok (s ∷ key)

  -- A distinct card: the first that had its key, and how many have.
  pub record Tally : Type 0 where
    pub representative : CardState
    pub count : ℕ

  abbrev pub Tallies : Type 0
  Tallies = List (CardKey × Tally)

  -- counts[key] += 1; representatives.setdefault(key, entry)
  unfoldable pub bump : Tallies → CardKey → CardState → Tallies
  bump [] key card = (key, record { representative = card; count = 1 }) ∷ []
  bump ((j, t) ∷ tallies) key card =
      ite (CardKey-discrete j key) ((j, record t { count = t.count + 1 }) ∷ tallies)
        ((j, t) ∷ bump tallies key card)

  abbrev pub is_null : Value → Bool
  is_null null = true
  is_null _ = false

  unfoldable pub count_card : Payload → Tallies → Result CardError Tallies
  unfolding card_state card_key
  count_card entry tallies =
      card_state entry >>= λ card. card_key (parts card) >>= λ key. ok (bump tallies key card)

  -- An entry that is no object, or has no id, is skipped.
  unfoldable pub count_entry : Value → Tallies → Result CardError Tallies
  unfolding count_card
  count_entry (dict fs) tallies =
      if is_null (read (entries fs) "id") then ok tallies else count_card (entries fs) tallies
  count_entry _ tallies = ok tallies

  unfoldable pub count_all : List Value → Tallies → Result CardError Tallies
  count_all [] tallies = ok tallies
  count_all (v ∷ vs) tallies = count_entry v tallies >>= count_all vs

  -- Texts and tuples of texts by their code points.
  text_lt : List ℕ → List ℕ → Bool
  text_lt [] [] = false
  text_lt [] (b ∷ bs) = true
  text_lt (a ∷ as') [] = false
  text_lt (a ∷ as') (b ∷ bs) = ltb a b || (a == b && text_lt as' bs)

  unfoldable pub tuple_lt : List Value → List Value → Bool
  unfolding text_lt
  tuple_lt [] [] = false
  tuple_lt [] (w ∷ ws) = true
  tuple_lt (v ∷ vs) [] = false
  tuple_lt (v ∷ vs) (w ∷ ws) =
      let a = python.typed_repr v in
      let b = python.typed_repr w in text_lt a b || (not (text_lt b a) && tuple_lt vs ws)

  unfoldable pub insert_sorted : CardKey × Tally → Tallies → Tallies
  insert_sorted x [] = x ∷ []
  insert_sorted x (y ∷ ys) =
      if tuple_lt (parts y.1.representative) (parts x.1.representative)
      then y ∷ insert_sorted x ys
      else x ∷ y ∷ ys

  -- `sorted(counts, key=_sort_key)`
  unfoldable pub sort : Tallies → Tallies
  sort [] = []
  sort (x ∷ xs) = insert_sorted x (sort xs)

  unfoldable pub public_enchantment : CardState → Value
  public_enchantment c =
      if c.enchanted
      then dict (
          of_entries (
            ("id", c.enchantment_id)
            ∷ ("amount", c.enchantment_amount)
            ∷ ("status", c.enchantment_status)
            ∷ []))
      else null

  unfoldable pub publish : CardKey × Tally → Value
  unfolding public_enchantment
  publish (key, t) =
      let c = t.representative in
      dict (
        of_entries (
          ("id", c.id)
          ∷ ("type", c.type)
          ∷ ("rarity", c.rarity)
          ∷ ("cost", c.cost)
          ∷ ("targetType", c.target_type)
          ∷ ("upgraded", bool c.upgraded)
          ∷ ("upgradeLevel", int c.upgrade_level)
          ∷ ("tinkerTimeType", c.tinker_time_type)
          ∷ ("tinkerTimeRider", c.tinker_time_rider)
          ∷ ("enchantment", public_enchantment c)
          ∷ ("count", int (pos t.count))
          ∷ []))

  -- The distinct cards of a pile in the order in which they are published.
  unfoldable pub tallies_of : Value → Result CardError Tallies
  unfolding sort count_all
  tallies_of (list vs) = count_all (items vs) [] >>= λ tallies. ok (sort tallies)
  tallies_of _ = ok []

  unfoldable pub multiset_of : Value → Result CardError Value
  unfolding publish
  multiset_of pile = tallies_of pile >>= λ tallies. ok (list (of_items (map publish tallies)))
