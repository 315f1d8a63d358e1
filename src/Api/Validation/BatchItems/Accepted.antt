-- ===== src/Api/Validation/BatchItems/Accepted.antt =====
-- What `_validate_emulate_actions_items` guarantees of a batch.
use sts2_rl.Prelude.{
  ℕ, zero, suc, ◌+◌, String, ◌≡◌, ◌≢◌, refl, subst, ◌∙◌, false, Option, none, some, List, [], ◌∷◌,
  All, ok, >>=-eq-ok, >>-eq-ok, raise_if-eq-ok, eq_iff, arith,
}
use sts2_rl.Prelude.Dict
use sts2_rl.Prelude.Key.{str_key}
use sts2_rl.Prelude.Int.{pos, negsuc}
use sts2_rl.Api.Value.{Value, Items, int, str, list, dict, Payload, Fields, entries, or_null, items}
use sts2_rl.Api.Dto.{member}
use sts2_rl.Api.Require.{require, IsText, require-list}
use sts2_rl.Api.Rejected.{a_list}
use sts2_rl.Api.Validation.BatchItems.{
  check_item_text, check_item_rng, item_text, check_item, check_items, is_empty,
  validate_emulate_actions_items,
}

-- One entry: an object with four non-empty texts and a positive `rng_id`.
pub record IsItem (item : Payload) (branch_id : String) : Type 0 where
  pub parent : IsText item "parent_branch_id"
  pub branch : Dict.get item "branch_id" ≡ some (str branch_id)
  pub branch_named : branch_id ≢ ""
  pub decision : IsText item "decision_point_id"
  pub action : IsText item "action_id"
  pub rng : (n : ℕ) × (Dict.get item "rng_id" ≡ some (int (pos (suc n))))

-- The entries, one by one, are items with the given branch ids.
abbrev pub AreItems : List Value → List String → Type 0
AreItems [] [] = Unit
AreItems (v ∷ vs) (id ∷ ids) =
    ((fs : Fields) × (v ≡ dict fs) × IsItem (entries fs) id) × AreItems vs ids
AreItems _ _ = ⊥

-- No id occurs twice.
abbrev pub IsDistinct : List String → Type 0
IsDistinct [] = Unit
IsDistinct (id ∷ ids) = (member id ids ≡ false) × IsDistinct ids

text_of :
    (index : ℕ) (f : String) (o : Option Value) (s : String)
    → check_item_text index f (or_null o) ≡ ok s
    → (o ≡ some (str s)) × (s ≢ "")
unfolding check_item_text
text_of index f none s e = cc
text_of index f (some (str t)) s e = ground (arith, eq_iff t "")
text_of index f (some v) s e = cc

item_text-eq-ok :
    (index : ℕ) (item : Payload) (f s : String)
    → item_text index item f ≡ ok s
    → (Dict.get item f ≡ some (str s)) × (s ≢ "")
unfolding item_text
item_text-eq-ok index item f s e = text_of index f (Dict.get item f) s e

rng_of :
    (index : ℕ) (o : Option Value)
    → check_item_rng index (or_null o) ≡ ok tt
    → (n : ℕ) × (o ≡ some (int (pos (suc n))))
unfolding check_item_rng
rng_of index none e = cc
rng_of index (some (int (pos (suc n)))) e = (n, refl)
rng_of index (some (int (pos zero))) e = cc
rng_of index (some (int (negsuc n))) e = cc
rng_of index (some v) e = cc

check_item-IsItem :
    (index : ℕ) (item : Payload) (id : String) → check_item index item ≡ ok id → IsItem item id
unfolding check_item
check_item-IsItem index item id h =
    let (p, e₁, h₁) = >>=-eq-ok (item_text index item "parent_branch_id") _ h in
    let (b, e₂, h₂) = >>=-eq-ok (item_text index item "branch_id") _ h₁ in
    let (d, e₃, h₃) = >>=-eq-ok (item_text index item "decision_point_id") _ h₂ in
    let (a, e₄, h₄) = >>=-eq-ok (item_text index item "action_id") _ h₃ in
    let (r, h₅) = >>-eq-ok (check_item_rng index (or_null (Dict.get item "rng_id"))) _ h₄ in
    let same : b ≡ id = cc in
    let branch_id = item_text-eq-ok index item "branch_id" b e₂ in
    record {
      parent = (p, item_text-eq-ok index item "parent_branch_id" p e₁);
      branch = cc (branch_id.0, same);
      branch_named = λ q. branch_id.1 (same ∙ q);
      decision = (d, item_text-eq-ok index item "decision_point_id" d e₃);
      action = (a, item_text-eq-ok index item "action_id" a e₄);
      rng = rng_of index (Dict.get item "rng_id") r;
    }

-- No id of the list is among the ids seen.
abbrev Avoids : List String → List String → Type 0
Avoids seen ids = All (λ id. member id seen ≡ false) ids

Avoids-tail :
    (id : String) (seen ids : List String)
    → Avoids (id ∷ seen) ids
    → Avoids seen ids × (member id ids ≡ false)
unfolding member
Avoids-tail id seen [] h = (tt, refl)
Avoids-tail id seen (x ∷ ids) h =
    ground (arith, Avoids-tail id seen ids h.1, eq_iff x id, eq_iff id x)

check_items-AreItems :
    (index : ℕ) (seen : List String) (vs : List Value)
    → check_items index seen vs ≡ ok tt
    → (ids : List String) × AreItems vs ids × IsDistinct ids × Avoids seen ids
unfolding check_items
check_items-AreItems index seen [] h = ([], tt, tt, tt)
check_items-AreItems index seen (dict fs ∷ vs) h =
    let (id, e₁, h₁) = >>=-eq-ok (check_item index (entries fs)) _ h in
    let (new, h₂) = raise_if-eq-ok (member id seen) _ _ h₁ in
    let (ids, a, d, v) = check_items-AreItems (index + 1) (id ∷ seen) vs h₂ in
    let (w, n) = Avoids-tail id seen ids v in
    (id ∷ ids, ((fs, refl, check_item-IsItem index (entries fs) id e₁), a), (n, d), (new, w))
check_items-AreItems index seen (v ∷ vs) h = cc

is_empty-ne-nil : (vs : List Value) → is_empty vs ≡ false → vs ≢ []
unfolding is_empty
is_empty-ne-nil [] h = cc
is_empty-ne-nil (v ∷ vs) h = λ e. cc

-- A batch that is accepted is a non-empty list of objects, each with its parent, its branch id, its
-- decision, its action and a positive `rng_id`, and no branch id occurs twice in it.
pub batch_accepted :
    (payload : Payload)
    → validate_emulate_actions_items payload ≡ ok tt
    → (vs : Items) × (ids : List String) × (Dict.get payload "items" ≡ some (list vs))
      × (items vs ≢ [])
      × AreItems (items vs) ids
      × IsDistinct ids
unfolding validate_emulate_actions_items
batch_accepted payload h =
    let (l, e₁, h₁) = >>=-eq-ok (require payload "items" a_list) _ h in
    let (n, h₂) = raise_if-eq-ok (is_empty l) _ _ h₁ in
    let (vs, found, same) = require-list payload "items" l e₁ in
    let (ids, a, d, v) = check_items-AreItems 0 [] l h₂ in
    (
      vs,
      ids,
      found,
      subst (λ (l' : List Value). l' ≢ []) same (is_empty-ne-nil l n),
      subst (λ (l' : List Value). AreItems l' ids) same a,
      d,
    )
