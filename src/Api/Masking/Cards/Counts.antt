-- ===== src/Api/Masking/Cards/Counts.antt =====
-- A published pile says how many cards there are of each public state, and not their order.
use sts2_rl.Prelude.{
  ℕ, ◌+◌, Option, none, some, List, [], ◌∷◌, Result, ok, ◌>>=◌, ite, if◌then◌else◌,
}
use sts2_rl.Api.Value.{Value, Payload, bool, int, dict, entries}
use sts2_rl.Api.Masking.Choice.{read}
use sts2_rl.Api.Masking.Cards.{
  Python, CardError, CardKey, CardKey-discrete, Tallies, is_null, level_of, enchantment_of,
  is_truthy, hash_part,
}

module _ (python : Python) where
  -- How many cards the tallies give to a key.
  abbrev pub total : Tallies python → CardKey → ℕ
  total [] key = 0
  total ((j, t) ∷ tallies) key = ite (CardKey-discrete j key) t.count 0 + total tallies key

  -- How many tallies have a key.
  abbrev pub number_of : Tallies python → CardKey → ℕ
  number_of [] key = 0
  number_of ((j, t) ∷ tallies) key = ite (CardKey-discrete j key) 1 0 + number_of tallies key

  abbrev hashed : Value → Result CardError CardKey → Result CardError CardKey
  hashed v rest = hash_part python v >>= λ s. rest >>= λ key. ok (s ∷ key)

  -- What equal cards agree in: the twelve public fields, read from the entry.
  pub public_key : Payload → Result CardError CardKey
  public_key entry = level_of python (read entry "upgradeLevel") >>= λ level.
      enchantment_of python (read entry "enchantment") >>= λ enchantment. hashed (read entry "id") (
        hashed (read entry "type") (
          hashed (read entry "rarity") (
            hashed (read entry "cost") (
              hashed (read entry "targetType") (
                hashed (bool (is_truthy python (read entry "upgraded"))) (
                  hashed (int level) (
                    hashed (read entry "tinkerTimeType") (
                      hashed (read entry "tinkerTimeRider") (
                        hashed (read enchantment "id") (
                          hashed (read enchantment "amount")
                            (hashed (read enchantment "status") (ok []))))))))))))

  -- The key of an entry that counts as a card.
  abbrev pub key_of : Value → Result CardError (Option CardKey)
  key_of (dict fs) =
      if is_null python (read (entries fs) "id")
      then ok none
      else public_key (entries fs) >>= λ key. ok (some key)
  key_of _ = ok none

  abbrev pub is_key : CardKey → Result CardError (Option CardKey) → ℕ
  is_key key (ok (some j)) = ite (CardKey-discrete j key) 1 0
  is_key key _ = 0

  -- How many cards of a pile have a key.
  pub occurrences : List Value → CardKey → ℕ
  occurrences [] key = 0
  occurrences (v ∷ vs) key = is_key key (key_of v) + occurrences vs key
