-- ===== src/Api/Masking/Fuel.antt =====
-- The fuel that `mask_public_fragment` gives to the scrub is enough.
use sts2_rl.Prelude.{
  ℕ, zero, suc, ◌+◌, ◌≤◌, ◌≡◌, ◌≢◌, refl, arith, String, Bool, true, false, Option, none, some,
  Result, ok, err, str_eq, if◌then◌else◌, Bool-cases, inl, inr,
}
use sts2_rl.Prelude.Key.{str_key}
use sts2_rl.Api.Dto.{member}
use sts2_rl.Api.Value.{Value, Items, Fields, nil, cons, end, field, list, dict, of_entries}
use sts2_rl.Api.Masking.Keys.{is_forbidden_key, is_metrics_key, multiset_pile_keys, delete_keys}
use sts2_rl.Api.Masking.Pending.{public_choice}
use sts2_rl.Api.Masking.Pending.Depth.{need-public_choice}
use sts2_rl.Api.Masking.Cards.{Python, CardError, multiset_of}
use sts2_rl.Api.Masking.{
  MaskError, too_deep, extra_depth, need, need_items, need_fields, Scrub, cons_item, cons_field,
  keep, keep_pile, as_list, as_dict, scrub_items, scrub_allowed, scrub_value, scrub_field,
  scrub_fields, scrub_node, scrub, mask_public_fragment,
}

-- A result that is not for want of fuel.
abbrev Ends : {A : Type 0} → Result MaskError A → Type 0
Ends r = r ≢ err too_deep

-- `f` ends on every value that needs no more than `n`.
abbrev EndsTo : ℕ → Scrub → Type 0
EndsTo n f = (v : Value) → need v ≤ n → Ends (f v)

cons_item-Ends :
    (r : Result MaskError Value) (rest : Result MaskError Items)
    → Ends r
    → Ends rest
    → Ends (cons_item r rest)
unfolding cons_item
cons_item-Ends (err e) rest hr hs = λ h. hr (cc h)
cons_item-Ends (ok v) (err e) hr hs = λ h. hs (cc h)
cons_item-Ends (ok v) (ok vs) hr hs = λ h. cc h

cons_field-Ends :
    (key : String) (r : Result MaskError (Option Value)) (rest : Result MaskError Fields)
    → Ends r
    → Ends rest
    → Ends (cons_field key r rest)
unfolding cons_field
cons_field-Ends key (err e) rest hr hs = λ h. hr (cc h)
cons_field-Ends key (ok v) (err e) hr hs = λ h. hs (cc h)
cons_field-Ends key (ok none) (ok fs) hr hs = λ h. cc h
cons_field-Ends key (ok (some v)) (ok fs) hr hs = λ h. cc h

keep-Ends : (r : Result MaskError Value) → Ends r → Ends (keep r)
unfolding keep
keep-Ends (err e) hr = λ h. hr (cc h)
keep-Ends (ok v) hr = λ h. cc h

keep_pile-Ends : (r : Result CardError Value) → Ends (keep_pile r)
unfolding keep_pile
keep_pile-Ends (err e) = λ h. cc h
keep_pile-Ends (ok v) = λ h. cc h

as_list-Ends : (r : Result MaskError Items) → Ends r → Ends (as_list r)
unfolding as_list
as_list-Ends (err e) hr = λ h. hr (cc h)
as_list-Ends (ok vs) hr = λ h. cc h

as_dict-Ends : (r : Result MaskError Fields) → Ends r → Ends (as_dict r)
unfolding as_dict
as_dict-Ends (err e) hr = λ h. hr (cc h)
as_dict-Ends (ok fs) hr = λ h. cc h

if-Ends :
    {A : Type 0} (b : Bool) (r s : Result MaskError A)
    → Ends r
    → (b ≡ false → Ends s)
    → Ends (if b then r else s)
if-Ends true r s hr hs = hr
if-Ends false r s hr hs = hs refl

scrub_items-Ends :
    (f : Scrub) (n : ℕ) → EndsTo n f → (vs : Items) → need_items vs ≤ n → Ends (scrub_items f vs)
unfolding scrub_items need
scrub_items-Ends f n c nil le = λ h. cc h
scrub_items-Ends f n c (cons v vs) le =
    cons_item-Ends (f v) (scrub_items f vs) (c v (ground arith))
      (scrub_items-Ends f n c vs (ground arith))

scrub_allowed-Ends : (f : Scrub) (fs : Fields) → Ends (scrub_allowed f fs)
unfolding scrub_allowed
scrub_allowed-Ends f end = λ h. cc h
scrub_allowed-Ends f (field key v fs) =
    cons_field-Ends key (ok none) (scrub_allowed f fs) (λ h. cc h) (scrub_allowed-Ends f fs)

scrub_value-Ends :
    (f : Scrub) (metrics : Bool) (v : Value) → Ends (f v) → Ends (scrub_value f metrics v)
unfolding scrub_value
scrub_value-Ends f true (dict fs) h = as_dict-Ends (scrub_allowed f fs) (scrub_allowed-Ends f fs)
scrub_value-Ends f true v h = h
scrub_value-Ends f false v h = h

module _ (python : Python) where
  scrub_field-Ends :
      (f : Scrub) (n : ℕ)
      → EndsTo n f
      → (key : String) (v : Value) → need v + extra_depth key ≤ n
      → Ends (scrub_field python f key v)
  unfolding scrub_field
  scrub_field-Ends f n c key v le =
      if-Ends (is_forbidden_key key) (ok none) _ (λ h. cc h)
        (λ _.
          if-Ends (member key delete_keys) (ok none) _ (λ h. cc h)
            (λ _.
              if-Ends (member key multiset_pile_keys) (keep_pile (multiset_of python v)) _
                (keep_pile-Ends (multiset_of python v))
                (λ _. elim (Bool-cases (str_eq key "pendingChoice")) [
                  | inl y ↦ rw y (
                      keep-Ends (f (dict (of_entries (public_choice v)))) (
                        c (dict (of_entries (public_choice v)))
                          (omega (arith, need-public_choice v, rw y at le))))
                  | inr no_choice ↦ rw no_choice (
                      keep-Ends (scrub_value f (is_metrics_key key) v)
                        (scrub_value-Ends f (is_metrics_key key) v (c v (omega (arith, le)))))
                ])))

  scrub_fields-Ends :
      (f : Scrub) (n : ℕ)
      → EndsTo n f
      → (fs : Fields) → need_fields fs ≤ n
      → Ends (scrub_fields python f fs)
  unfolding scrub_fields need
  scrub_fields-Ends f n c end le = λ h. cc h
  scrub_fields-Ends f n c (field key v fs) le =
      cons_field-Ends key (scrub_field python f key v) (scrub_fields python f fs)
        (scrub_field-Ends f n c key v (ground arith)) (scrub_fields-Ends f n c fs (ground arith))

  scrub_node-Ends :
      (f : Scrub) (n : ℕ) → EndsTo n f → (v : Value) → need v ≤ suc n → Ends (scrub_node python f v)
  unfolding scrub_node need
  scrub_node-Ends f n c (dict fs) le =
      as_dict-Ends (scrub_fields python f fs) (scrub_fields-Ends f n c fs (omega (arith, le)))
  scrub_node-Ends f n c (list vs) le =
      as_list-Ends (scrub_items f vs) (scrub_items-Ends f n c vs (omega (arith, le)))
  scrub_node-Ends f n c v le = λ h. cc h

  need_positive : (v : Value) → 1 ≤ need v
  unfolding need
  need_positive (dict fs) = omega arith
  need_positive v = omega arith

  scrub-Ends : (n : ℕ) → EndsTo n (scrub python n)
  unfolding scrub
  scrub-Ends zero v le = absurd (omega (arith, need_positive v, le))
  scrub-Ends (suc n) v le = scrub_node-Ends (scrub python n) n (scrub-Ends n) v le

  -- Masking ends on every value: the fuel that it has, the depth and three levels for each pending
  -- choice, is never used up.
  pub mask_public_fragment-Ends : (v : Value) → mask_public_fragment python v ≢ err too_deep
  unfolding mask_public_fragment
  mask_public_fragment-Ends v = scrub-Ends (need v) v (omega arith)
