-- ===== src/Api/Masking/Hidden/Piles.antt =====
-- A published pile has no hidden key: each of its fields is part of a key that was hashed.
use sts2_rl.Prelude.{
  ◌≡◌, refl, subst, Bool, true, false, List, [], ◌∷◌, map, ok, >>=-eq-ok, ok_inj, All, Bool-cases,
  inl, inr, if_pos, if_neg, if◌then◌else◌,
}
use sts2_rl.Api.Dto.{member}
use sts2_rl.Api.Value.{Value, list, dict, items, of_items, entries, of_entries}
use sts2_rl.Api.Masking.Keys.{is_forbidden_key, is_hidden_key}
use sts2_rl.Api.Masking.Choice.{read}
use sts2_rl.Api.Masking.Cards.{
  Python, Scalar, CardKey, CardKey-discrete, CardState, card_state, parts, hash_part, card_key,
  Tally, Tallies, bump, is_null, count_card, count_entry, count_all, insert_sorted, tuple_lt, sort,
  public_enchantment, publish, tallies_of, multiset_of,
}
use sts2_rl.Api.Masking.Hidden.{Clean, CleanItems}

module _ (python : Python) where
  hash_part-Clean : (v : Value) (s : Scalar) → hash_part python v ≡ ok s → Clean v
  unfolding hash_part Clean
  hash_part-Clean (list vs) s h = absurd (cc h)
  hash_part-Clean (dict fs) s h = absurd (cc h)
  hash_part-Clean _ s h = tt

  card_key-Clean : (vs : List Value) (key : CardKey) → card_key python vs ≡ ok key → All Clean vs
  unfolding card_key
  card_key-Clean [] key h = tt
  card_key-Clean (v ∷ vs) key h =
      let (s, e, f) = >>=-eq-ok (hash_part python v) _ h in
      let (rest, g, i) = >>=-eq-ok (card_key python vs) _ f in
      (hash_part-Clean v s e, card_key-Clean vs rest g)

  abbrev Known : CardKey × Tally python → Type 0
  Known x = All Clean (parts python x.1.representative)

  bump-Known :
      (tallies : Tallies python) (key : CardKey) (card : CardState)
      → All Clean (parts python card)
      → All Known tallies
      → All Known (bump python tallies key card)
  unfolding bump
  bump-Known [] key card c k = (c, tt)
  bump-Known ((j, t) ∷ tallies) key card c (k, ks) = elim (CardKey-discrete j key) [
    | yes p ↦ rw (if_pos _ p) (k, ks)
    | no p ↦ rw (if_neg _ p) (k, bump-Known tallies key card c ks)
  ]

  count_entry-Known :
      (v : Value) (tallies m : Tallies python)
      → count_entry python v tallies ≡ ok m
      → All Known tallies
      → All Known m
  unfolding count_entry count_card
  count_entry-Known (dict fs) tallies m h ks =
      elim (Bool-cases (is_null python (read (entries fs) "id"))) [
        | inl y ↦ subst (All Known) (ok_inj (rw y at h)) ks
        | inr n ↦
            let (card, e, f) = >>=-eq-ok (card_state python (entries fs)) _ (rw n at h) in
            let (key, g, i) = >>=-eq-ok (card_key python (parts python card)) _ f in
            subst (All Known) (ok_inj i)
              (bump-Known tallies key card (card_key-Clean (parts python card) key g) ks)
      ]
  count_entry-Known _ tallies m h ks = subst (All Known) (ok_inj h) ks

  count_all-Known :
      (vs : List Value) (tallies m : Tallies python)
      → count_all python vs tallies ≡ ok m
      → All Known tallies
      → All Known m
  unfolding count_all
  count_all-Known [] tallies m h ks = subst (All Known) (ok_inj h) ks
  count_all-Known (v ∷ vs) tallies m h ks =
      let (n, e, f) = >>=-eq-ok (count_entry python v tallies) _ h in
      count_all-Known vs n m f (count_entry-Known v tallies n e ks)

  if-Known :
      (b : Bool) (xs ys : Tallies python)
      → All Known xs
      → All Known ys
      → All Known (if b then xs else ys)
  if-Known true xs ys kx ky = kx
  if-Known false xs ys kx ky = ky

  insert_sorted-Known :
      (x : CardKey × Tally python) (xs : Tallies python)
      → Known x
      → All Known xs
      → All Known (insert_sorted python x xs)
  unfolding insert_sorted
  insert_sorted-Known x [] k ks = (k, tt)
  insert_sorted-Known x (y ∷ ys) k ks =
      if-Known (tuple_lt python (parts python y.1.representative) (parts python x.1.representative))
        (y ∷ insert_sorted python x ys) (x ∷ y ∷ ys) (ks.0, insert_sorted-Known x ys k ks.1) (k, ks)

  sort-Known : (xs : Tallies python) → All Known xs → All Known (sort python xs)
  unfolding sort
  sort-Known [] ks = tt
  sort-Known (x ∷ xs) ks = insert_sorted-Known x (sort python xs) ks.0 (sort-Known xs ks.1)

  public_enchantment-Clean :
      (c : CardState)
      → Clean c.enchantment_id
      → Clean c.enchantment_amount
      → Clean c.enchantment_status
      → Clean (public_enchantment python c)
  unfolding public_enchantment Clean of_entries is_hidden_key is_forbidden_key member
  public_enchantment-Clean c i a s = elim (Bool-cases c.enchanted) [
    | inl y ↦ rw y (refl, i, (refl, a, (refl, s, tt)))
    | inr n ↦ rw n tt
  ]

  publish-Clean : (x : CardKey × Tally python) → Known x → Clean (publish python x)
  unfolding publish Clean of_entries is_hidden_key is_forbidden_key member
  publish-Clean (key, t) k =
      let (
        id,
        (
          type,
          (
            rarity,
            (cost, (target, (up, (level, (tinker, (rider, (e_id, (e_amount, (e_status, _))))))))),
          ),
        ),
      ) =
        k in
      (
        refl,
        id,
        (
          refl,
          type,
          (
            refl,
            rarity,
            (
              refl,
              cost,
              (
                refl,
                target,
                (
                  refl,
                  tt,
                  (
                    refl,
                    tt,
                    (
                      refl,
                      tinker,
                      (
                        refl,
                        rider,
                        (
                          refl,
                          public_enchantment-Clean t.representative e_id e_amount e_status,
                          (refl, tt, tt),
                        ),
                      ),
                    ),
                  ),
                ),
              ),
            ),
          ),
        ),
      )

  publish-All-Clean :
      (xs : Tallies python) → All Known xs → CleanItems (of_items (map (publish python) xs))
  unfolding of_items Clean
  publish-All-Clean [] ks = tt
  publish-All-Clean (x ∷ xs) ks = (publish-Clean x ks.0, publish-All-Clean xs ks.1)

  pub multiset_of-Clean : (v w : Value) → multiset_of python v ≡ ok w → Clean w
  unfolding multiset_of tallies_of Clean of_items
  multiset_of-Clean (list vs) w h =
      let (sorted, e, f) = >>=-eq-ok (tallies_of python (list vs)) _ h in
      let (m, g, i) = >>=-eq-ok (count_all python (items vs) []) _ e in
      subst Clean (ok_inj f) (
        publish-All-Clean sorted
          (subst (All Known) (ok_inj i) (sort-Known m (count_all-Known (items vs) [] m g tt))))
  multiset_of-Clean _ w h = subst Clean (ok_inj h) tt
