-- ===== src/Api/Masking/Hidden.antt =====
-- No hidden key is left anywhere in what is published.
pub mod Piles
pub mod Published
use sts2_rl.Prelude.{
  ℕ, zero, suc, ◌≡◌, refl, sym, ap, subst, ◌∙◌, arith, String, Bool, true, false, ◌&&◌, Option,
  none, some, List, [], ◌∷◌, Result, ok, err, Bool-cases, Option-cases, Result-cases, inl, inr, ◌⊎◌,
  ok_inj, >>=-eq-ok, str_eq, if◌then◌else◌, ◌||◌,
}
use sts2_rl.Prelude.Dict
use sts2_rl.Prelude.Dict.{Dict}
use sts2_rl.Prelude.Key.{str_key}
use sts2_rl.Api.Dto.{member}
use sts2_rl.Api.Value.{
  Value, Items, Fields, nil, cons, end, field, null, bool, int, float, str, list, dict, Payload,
  items, of_items, entries, of_entries, or_null,
}
use sts2_rl.Api.Masking.Keys.{
  is_forbidden_key, is_hidden_key, delete_keys, multiset_pile_keys, is_metrics_key,
}
use sts2_rl.Api.Masking.Cards.{Python, CardError, multiset_of}
use sts2_rl.Api.Masking.Pending.{public_choice}
use sts2_rl.Api.Masking.{
  MaskError, Scrub, cons_item, cons_field, keep, keep_pile, as_list, as_dict, scrub_items,
  scrub_allowed, scrub_value, scrub_field, scrub_fields, scrub_node, scrub, need,
  mask_public_fragment, update, contents, finished, stamped, actions_cleared, no_actions,
  build_masked_emulator_dto,
}

-- No object at any depth has a hidden key.
unfoldable mutual
  pub Clean : Value → Type 0
  Clean null = Unit
  Clean (bool b) = Unit
  Clean (int z) = Unit
  Clean (float x) = Unit
  Clean (str s) = Unit
  Clean (list vs) = CleanItems vs
  Clean (dict fs) = CleanFields fs

  pub CleanItems : Items → Type 0
  CleanItems nil = Unit
  CleanItems (cons v vs) = Clean v × CleanItems vs

  pub CleanFields : Fields → Type 0
  CleanFields end = Unit
  CleanFields (field key v fs) = (is_hidden_key key ≡ false) × Clean v × CleanFields fs

-- Whatever a scrub gives is clean.
abbrev Cleans : Scrub → Type 0
Cleans f = (v w : Value) → f v ≡ ok w → Clean w

cons_item-Clean :
    (r : Result MaskError Value) (rest : Result MaskError Items) (vs : Items)
    → ((w : Value) → r ≡ ok w → Clean w)
    → ((ws : Items) → rest ≡ ok ws → CleanItems ws)
    → cons_item r rest ≡ ok vs
    → CleanItems vs
unfolding cons_item Clean
cons_item-Clean (err e) rest vs hv hs h = absurd (cc h)
cons_item-Clean (ok v) (err e) vs hv hs h = absurd (cc h)
cons_item-Clean (ok v) (ok ws) vs hv hs h = subst CleanItems (ok_inj h) (hv v refl, hs ws refl)

cons_field-Clean :
    (key : String) (r : Result MaskError (Option Value)) (rest : Result MaskError Fields)
    (fs : Fields)
    → ((w : Value) → r ≡ ok (some w) → (is_hidden_key key ≡ false) × Clean w)
    → ((gs : Fields) → rest ≡ ok gs → CleanFields gs)
    → cons_field key r rest ≡ ok fs
    → CleanFields fs
unfolding cons_field Clean
cons_field-Clean key (err e) rest fs hv hs h = absurd (cc h)
cons_field-Clean key (ok v) (err e) fs hv hs h = absurd (cc h)
cons_field-Clean key (ok none) (ok gs) fs hv hs h = subst CleanFields (ok_inj h) (hs gs refl)
cons_field-Clean key (ok (some v)) (ok gs) fs hv hs h =
    let (hidden, clean) = hv v refl in subst CleanFields (ok_inj h) (hidden, clean, hs gs refl)

keep-Clean :
    (r : Result MaskError Value)
    → ((w : Value) → r ≡ ok w → Clean w)
    → (w : Value) → keep r ≡ ok (some w)
    → Clean w
unfolding keep
keep-Clean (err e) hr w h = absurd (cc h)
keep-Clean (ok v) hr w h = hr w (cc h)

keep_pile-Clean :
    (r : Result CardError Value)
    → ((w : Value) → r ≡ ok w → Clean w)
    → (w : Value) → keep_pile r ≡ ok (some w)
    → Clean w
unfolding keep_pile
keep_pile-Clean (err e) hr w h = absurd (cc h)
keep_pile-Clean (ok v) hr w h = hr w (cc h)

as_dict-Clean :
    (r : Result MaskError Fields)
    → ((fs : Fields) → r ≡ ok fs → CleanFields fs)
    → (w : Value) → as_dict r ≡ ok w
    → Clean w
unfolding as_dict Clean
as_dict-Clean (err e) hr w h = absurd (cc h)
as_dict-Clean (ok fs) hr w h = subst Clean (ok_inj h) (hr fs refl)

as_list-Clean :
    (r : Result MaskError Items)
    → ((vs : Items) → r ≡ ok vs → CleanItems vs)
    → (w : Value) → as_list r ≡ ok w
    → Clean w
unfolding as_list Clean
as_list-Clean (err e) hr w h = absurd (cc h)
as_list-Clean (ok vs) hr w h = subst Clean (ok_inj h) (hr vs refl)

scrub_items-Clean :
    (f : Scrub) → Cleans f → (vs ws : Items) → scrub_items f vs ≡ ok ws → CleanItems ws
unfolding scrub_items Clean
scrub_items-Clean f c nil ws h = subst CleanItems (ok_inj h) tt
scrub_items-Clean f c (cons v vs) ws h =
    cons_item-Clean (f v) (scrub_items f vs) ws (c v) (scrub_items-Clean f c vs) h

-- The allowlist is empty.
scrub_allowed-Clean : (f : Scrub) (fs gs : Fields) → scrub_allowed f fs ≡ ok gs → CleanFields gs
unfolding scrub_allowed Clean
scrub_allowed-Clean f end gs h = subst CleanFields (ok_inj h) tt
scrub_allowed-Clean f (field key v fs) gs h =
    cons_field-Clean key (ok none) (scrub_allowed f fs) gs (λ w e. absurd (cc e))
      (scrub_allowed-Clean f fs) h

scrub_value-Clean : (f : Scrub) (metrics : Bool) → Cleans f → Cleans (scrub_value f metrics)
unfolding scrub_value
scrub_value-Clean f true c (dict fs) w h =
    as_dict-Clean (scrub_allowed f fs) (scrub_allowed-Clean f fs) w h
scrub_value-Clean f true c v w h = c v w h
scrub_value-Clean f false c v w h = c v w h

field_choice :
    (a b p q : Bool) (r s t : Result MaskError (Option Value)) (w : Value)
    → (if a then ok none else if b then ok none else if p then r else if q then s else t)
      ≡ ok (some w)
    → ((a || b) ≡ false) × ((r ≡ ok (some w)) ⊎ ((s ≡ ok (some w)) ⊎ (t ≡ ok (some w))))
field_choice true b p q r s t w h = cc h
field_choice false true p q r s t w h = cc h
field_choice false false true q r s t w h = (refl, inl h)
field_choice false false false true r s t w h = (refl, inr (inl h))
field_choice false false false false r s t w h = (refl, inr (inr h))

module _ (python : Python) (piles : (v w : Value) → multiset_of python v ≡ ok w → Clean w) where
  scrub_field-Clean :
      (f : Scrub)
      → Cleans f
      → (key : String) (v w : Value) → scrub_field python f key v ≡ ok (some w)
      → (is_hidden_key key ≡ false) × Clean w
  unfolding scrub_field is_hidden_key
  scrub_field-Clean f c key v w h =
      let (shown, which) =
        field_choice (is_forbidden_key key) (member key delete_keys) (member key multiset_pile_keys)
          (str_eq key "pendingChoice") _ _ _ w h in
      (
        shown,
        elim which [
          | inl e ↦ keep_pile-Clean (multiset_of python v) (piles v) w e
          | inr (inl e) ↦
              keep-Clean (f (dict (of_entries (public_choice v))))
                (c (dict (of_entries (public_choice v)))) w e
          | inr (inr e) ↦
              keep-Clean (scrub_value f (is_metrics_key key) v)
                (scrub_value-Clean f (is_metrics_key key) c v) w e
        ],
      )

  scrub_fields-Clean :
      (f : Scrub) → Cleans f → (fs gs : Fields) → scrub_fields python f fs ≡ ok gs → CleanFields gs
  unfolding scrub_fields Clean
  scrub_fields-Clean f c end gs h = subst CleanFields (ok_inj h) tt
  scrub_fields-Clean f c (field key v fs) gs h =
      cons_field-Clean key (scrub_field python f key v) (scrub_fields python f fs) gs
        (scrub_field-Clean f c key v) (scrub_fields-Clean f c fs) h

  scrub_node-Clean : (f : Scrub) → Cleans f → Cleans (scrub_node python f)
  unfolding scrub_node Clean
  scrub_node-Clean f c (dict fs) w h =
      as_dict-Clean (scrub_fields python f fs) (scrub_fields-Clean f c fs) w h
  scrub_node-Clean f c (list vs) w h =
      as_list-Clean (scrub_items f vs) (scrub_items-Clean f c vs) w h
  scrub_node-Clean f c v w h = subst Clean (ok_inj h) tt

  scrub-Clean : (n : ℕ) → Cleans (scrub python n)
  unfolding scrub
  scrub-Clean zero v w h = absurd (cc h)
  scrub-Clean (suc n) v w h = scrub_node-Clean (scrub python n) (scrub-Clean n) v w h
