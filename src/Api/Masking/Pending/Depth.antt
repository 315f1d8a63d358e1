-- ===== src/Api/Masking/Pending/Depth.antt =====
-- A published choice is at most three levels deeper than the choice.
use sts2_rl.Prelude.{
  ℕ, ◌+◌, ◌≤◌, ◌≡◌, refl, subst, arith, String, Option, none, some, List, [], ◌∷◌, ◌++◌, All,
}
use sts2_rl.Prelude.Dict
use sts2_rl.Prelude.Key.{str_key}
use sts2_rl.Prelude.Int.{pos}
use sts2_rl.Api.Value.{
  Value, Items, Fields, nil, cons, end, field, bool, int, str, list, dict, Payload, items, of_items,
  entries, of_entries,
}
use sts2_rl.Api.Masking.Choice.{read, semantics_fields, optional, Semantics}
use sts2_rl.Api.Masking.Pending.{
  PublicChoice, Options, add_option, read_option, read_options, options_of, choice_of,
  public_choice, choice_fields, normalize_pending_choice, objects, texts, number,
}
use sts2_rl.Api.Masking.{larger, extra_depth, need, need_items, need_fields}

-- The fuel for the values of an object.
need_payload : Payload → ℕ
need_payload [] = 0
need_payload ((key, v) ∷ m) = larger (need v + extra_depth key) (need_payload m)

need-entries : (fs : Fields) → need_payload (entries fs) ≡ need_fields fs
unfolding need_payload entries need
need-entries end = refl
need-entries (field key v fs) = ground (arith, need-entries fs)

need-of_entries : (m : Payload) → need_fields (of_entries m) ≡ need_payload m
unfolding need_payload of_entries need
need-of_entries [] = refl
need-of_entries ((key, v) ∷ m) = ground (arith, need-of_entries m)

need-read : (m : Payload) (key : String) → need (read m key) ≤ need_payload m + 1
unfolding need_payload read need Dict.get
need-read [] key = omega arith
need-read ((j, v) ∷ m) key = ground (arith, need-read m key)

need-remove : (m : Payload) (key : String) → need_payload (Dict.remove m key) ≤ need_payload m
unfolding need_payload Dict.remove
need-remove [] key = omega arith
need-remove ((j, v) ∷ m) key = ground (arith, need-remove m key)

need-nil : (k : ℕ) → need_payload [] ≤ k
unfolding need_payload
need-nil k = omega arith

need-cons :
    (key : String) (v : Value) (m : Payload) (k : ℕ)
    → need v + extra_depth key ≤ k
    → need_payload m ≤ k
    → need_payload ((key, v) ∷ m) ≤ k
unfolding need_payload
need-cons key v m k h hs = ground arith

need-append :
    (m n : Payload) (k : ℕ) → need_payload m ≤ k → need_payload n ≤ k → need_payload (m ++ n) ≤ k
unfolding need_payload
need-append [] n k hm hn = hn
need-append ((j, v) ∷ m) n k hm hn = ground (arith, need-append m n k)

need-optional {ℓ} :
    {A : Type ℓ} (key : String) (f : A → Value) (o : Option A) (k : ℕ)
    → ((a : A) → need (f a) + extra_depth key ≤ k)
    → need_payload (optional key f o) ≤ k
unfolding need_payload
need-optional key f none k h = omega arith
need-optional key f (some a) k h = ground (arith, h a)

need-texts : (ids : List String) → need (texts ids) ≤ 2
unfolding need of_items
need-texts [] = omega arith
need-texts (id ∷ ids) = ground (arith, need-texts ids)

need-objects :
    (options : List Payload) (k : ℕ)
    → All (λ o. need_payload o + 1 ≤ k) options
    → need (objects options) ≤ k + 1
unfolding need of_items
need-objects [] k h = omega arith
need-objects (o ∷ options) k (h, hs) = ground (arith, need-of_entries o, need-objects options k hs)

need-semantics : (s : Semantics) → need (dict (of_entries (semantics_fields s))) ≤ 2
unfolding need semantics_fields
need-semantics s =
    let shallow : need_payload (semantics_fields s) ≤ 1 =
      need-cons "version" (int (pos 1)) _ 1 (omega arith) (
        need-cons "operation" (str s.operation) _ 1 (omega arith) (
          need-append (optional "effect" str s.effect) _ 1
            (need-optional "effect" str s.effect 1 (λ a. omega arith))
            (need-append (optional "sourceZone" str s.source_zone) _ 1
              (need-optional "sourceZone" str s.source_zone 1 (λ a. omega arith))
              (need-append (optional "destinationZone" str s.destination_zone) _ 1
                (need-optional "destinationZone" str s.destination_zone 1 (λ a. omega arith))
                (need-append (optional "modifier" str s.modifier) _ 1
                  (need-optional "modifier" str s.modifier 1 (λ a. omega arith))
                  (need-append (optional "orderMatters" bool s.order_matters) _ 1
                    (need-optional "orderMatters" bool s.order_matters 1 (λ a. omega arith))
                    (need-optional "replacementAllowed" bool s.replacement_allowed 1
                      (λ a. omega arith)))))))) in
    omega (arith, need-of_entries (semantics_fields s), shallow)

some_inj : {A : Type 0} {a b : A} → some a ≡ some b → a ≡ b
some_inj e = cc

add_option-All :
    (o : Payload) (token : Option String) (rest : Options) (k : ℕ)
    → need_payload o + 1 ≤ k
    → All (λ p. need_payload p + 1 ≤ k) rest.options
    → All (λ p. need_payload p + 1 ≤ k) (add_option o token rest).options
unfolding add_option
add_option-All o none rest k h hs = (omega (arith, need-remove o "optionId"), hs)
add_option-All o (some id) rest k h hs = (h, hs)

read_options-All :
    (vs : Items) (k : ℕ)
    → need_items vs ≤ k
    → All (λ p. need_payload p + 1 ≤ k) (read_options (items vs)).options
unfolding read_options read_option need items
read_options-All nil k h = tt
read_options-All (cons (dict fs) vs) k h =
    add_option-All (entries fs) _ _ k (ground (arith, need-entries fs))
      (read_options-All vs k (ground arith))
read_options-All (cons _ vs) k h = read_options-All vs k (ground arith)

options_of-need :
    (v : Value) (k : ℕ) (options : List Payload)
    → need v ≤ k + 1
    → (options_of v).0 ≡ some options
    → need (objects options) ≤ k + 1
unfolding options_of need
options_of-need (list vs) k options h e = need-objects options k (
    subst (All (λ p. need_payload p + 1 ≤ k)) (some_inj e)
      (read_options-All vs k (omega (arith, h))))
options_of-need _ k options h e = absurd (cc e)

optional-need :
    (o : Option (List Payload)) (k : ℕ)
    → ((options : List Payload) → o ≡ some options → need (objects options) ≤ k)
    → need_payload (optional "options" objects o) ≤ k
unfolding need_payload
optional-need none k h = omega arith
optional-need (some options) k h = ground (arith, h options refl)

choice_fields-need :
    (c : PublicChoice) (k : ℕ)
    → 2 ≤ k
    → ((options : List Payload) → c.options ≡ some options → need (objects options) ≤ k)
    → need_payload (choice_fields c) ≤ k
unfolding choice_fields need
choice_fields-need c k two h =
    need-append (optional "choiceType" str c.choice_type) _ k
      (need-optional "choiceType" str c.choice_type k (λ a. omega (arith, two)))
      (need-append (optional "scope" str c.scope) _ k
        (need-optional "scope" str c.scope k (λ a. omega (arith, two)))
        (need-append (optional "scenarioRestorable" bool c.scenario_restorable) _ k
          (need-optional "scenarioRestorable" bool c.scenario_restorable k
            (λ a. omega (arith, two)))
          (need-append (optional "minSelect" number c.min_select) _ k
            (need-optional "minSelect" number c.min_select k (λ a. omega (arith, two)))
            (need-append (optional "maxSelect" number c.max_select) _ k
              (need-optional "maxSelect" number c.max_select k (λ a. omega (arith, two)))
              (need-append (optional "selectedCount" number c.selected_count) _ k
                (need-optional "selectedCount" number c.selected_count k (λ a. omega (arith, two)))
                (need-append (optional "selectedOptionIds" texts c.selected_option_ids) _ k
                  (need-optional "selectedOptionIds" texts c.selected_option_ids k
                    (λ a. omega (arith, need-texts a, two)))
                  (need-append (optional "options" objects c.options) _ k
                    (optional-need c.options k h)
                    (need-cons "choiceSemantics"
                      (dict (of_entries (semantics_fields c.choice_semantics))) _ k
                      (omega (arith, need-semantics c.choice_semantics, two))
                      (need-optional "sourceEffectId" str c.source_effect_id k
                        (λ a. omega (arith, two)))))))))))

pub need-public_choice : (v : Value) → need (dict (of_entries (public_choice v))) ≤ need v + 3
unfolding need_payload public_choice need of_entries normalize_pending_choice choice_of
need-public_choice (dict fs) =
    let m = entries fs in
    let c = normalize_pending_choice m in
    let within = λ (options : List Payload) (e : c.options ≡ some options).
      options_of-need (read m "options") (need_fields fs) options
        (omega (arith, need-read m "options", need-entries fs)) e in
    let shallow : need_payload (choice_fields c) ≤ need_fields fs + 3 =
      choice_fields-need c (need_fields fs + 3) (omega arith)
        (λ options e. omega (arith, within options e)) in
    omega (arith, need-of_entries (choice_fields c), shallow)
need-public_choice _ = omega arith
