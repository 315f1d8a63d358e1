-- ===== src/Api/Masking/Hidden/Published.antt =====
-- The masked state as a whole: it has no hidden key, and its terminal flags are consistent.
use sts2_rl.Prelude.{
  ◌≡◌, ◌≢◌, refl, sym, ap, subst, ◌∙◌, arith, String, Bool, true, false, ◌&&◌, some, [], ◌∷◌, ok,
  >>=-eq-ok, ok_inj, All, Bool-cases, inl, inr, if◌then◌else◌, if_pos, if_neg, str_eq, eq_iff,
}
use sts2_rl.Prelude.Dict
use sts2_rl.Prelude.Dict.{get-put_self, get-put_other}
use sts2_rl.Prelude.Key.{str_key}
use sts2_rl.Api.Dto.{member}
use sts2_rl.Api.Value.{Value, Fields, nil, end, field, str, list, dict, Payload, entries, or_null}
use sts2_rl.Api.Masking.Keys.{is_forbidden_key, is_hidden_key}
use sts2_rl.Api.Masking.Cards.{Python}
use sts2_rl.Api.Masking.{
  need, mask_public_fragment, update, contents, is_true, flag, has, finished, stamped,
  actions_cleared, no_actions, build_masked_emulator_dto,
}
use sts2_rl.Api.Masking.Hidden.{Clean, CleanFields, scrub-Clean}
use sts2_rl.Api.Masking.Hidden.Piles.{multiset_of-Clean}

-- No hidden key in the object, nor in any of its values.
abbrev pub CleanPayload : Payload → Type 0
CleanPayload m = All (λ kv. (is_hidden_key kv.0 ≡ false) × Clean kv.1) m

entries-Clean : (fs : Fields) → CleanFields fs → CleanPayload (entries fs)
unfolding entries Clean
entries-Clean end c = tt
entries-Clean (field k v fs) (h, c, cs) = ((h, c), entries-Clean fs cs)

put-Clean :
    (m : Payload) (key : String) (v : Value)
    → is_hidden_key key ≡ false
    → Clean v
    → CleanPayload m
    → CleanPayload (Dict.put m key v)
unfolding Dict.put
put-Clean [] key v h c cs = ((h, c), tt)
put-Clean ((j, w) ∷ m) key v h c ((hj, cj), cs) = elim (str_key.same j key) [
  | yes p ↦ rw (if_pos _ p) ((hj, c), cs)
  | no p ↦ rw (if_neg _ p) ((hj, cj), put-Clean m key v h c cs)
]

differ : (s t : String) → str_eq s t ≡ false → s ≢ t
differ s t h e = cc ((eq_iff s t).1 e, h)

module _ (python : Python) where
  contents-Clean : (v : Value) → Clean v → CleanPayload (contents python v)
  unfolding contents Clean
  contents-Clean (dict fs) c = entries-Clean fs c
  contents-Clean _ c = tt

  update-Clean :
      (m other : Payload)
      → CleanPayload m
      → CleanPayload other
      → CleanPayload (update python m other)
  unfolding update
  update-Clean m [] cm co = cm
  update-Clean m ((key, v) ∷ other) cm ((h, c), cs) =
      update-Clean (Dict.put m key v) other (put-Clean m key v h c cm) cs

  no_actions-Clean : (m : Payload) → CleanPayload m → CleanPayload (no_actions python m)
  unfolding no_actions Clean is_hidden_key is_forbidden_key member
  no_actions-Clean m c = put-Clean m "legal_actions" (list nil) refl tt c

  if-Clean :
      (b : Bool) (m n : Payload)
      → CleanPayload m
      → CleanPayload n
      → CleanPayload (if b then m else n)
  if-Clean true m n cm cn = cm
  if-Clean false m n cm cn = cn

  actions_cleared-Clean : (m : Payload) → CleanPayload m → CleanPayload (actions_cleared python m)
  unfolding actions_cleared
  actions_cleared-Clean m c =
      if-Clean (flag python m "terminal") (no_actions python m)
        (if flag python m "run_terminal" && has python m "legal_actions"
          then no_actions python m
          else m)
        (no_actions-Clean m c)
        (if-Clean (flag python m "run_terminal" && has python m "legal_actions")
          (no_actions python m) m (no_actions-Clean m c) c)

  stamped-Clean : (m : Payload) → CleanPayload m → CleanPayload (stamped python m)
  unfolding stamped Clean is_hidden_key is_forbidden_key member
  stamped-Clean m c = put-Clean _ "mask_version" _ refl tt (put-Clean m "dto_version" _ refl tt c)

  finished-eq-ok :
      (m masked : Payload)
      → finished python m ≡ ok masked
      → ((flag python m "terminal" && flag python m "run_terminal") ≡ false)
        × (masked ≡ stamped python (actions_cleared python m))
  unfolding finished
  finished-eq-ok m masked h =
      elim (Bool-cases (flag python m "terminal" && flag python m "run_terminal")) [
        | inl y ↦ absurd (cc (rw y at h))
        | inr n ↦ (n, sym (ok_inj (rw n at h)))
      ]

  mask_public_fragment-Clean : (v w : Value) → mask_public_fragment python v ≡ ok w → Clean w
  unfolding mask_public_fragment
  mask_public_fragment-Clean v w h = scrub-Clean python (multiset_of-Clean python) (need v) v w h

  -- Whatever the emulator's state and the extra fields hold, no object at any depth of the masked
  -- state has a key that the mask forbids or deletes.
  pub masked_state-Clean :
      (raw_state extra : Fields) (masked : Payload)
      → build_masked_emulator_dto python raw_state extra ≡ ok masked
      → CleanPayload masked
  unfolding build_masked_emulator_dto
  masked_state-Clean raw_state extra masked h =
      let (v, e, f) = >>=-eq-ok (mask_public_fragment python (dict raw_state)) _ h in
      let (w, g, i) = >>=-eq-ok (mask_public_fragment python (dict extra)) _ f in
      let m = update python (contents python v) (contents python w) in
      let (_, same) = finished-eq-ok m masked i in
      subst CleanPayload (sym same) (
        stamped-Clean (actions_cleared python m) (
          actions_cleared-Clean m (
            update-Clean (contents python v) (contents python w)
              (contents-Clean v (mask_public_fragment-Clean (dict raw_state) v e))
              (contents-Clean w (mask_public_fragment-Clean (dict extra) w g)))))

  get-stamped :
      (m : Payload) (key : String)
      → str_eq "dto_version" key ≡ false
      → str_eq "mask_version" key ≡ false
      → Dict.get (stamped python m) key ≡ Dict.get m key
  unfolding stamped
  get-stamped m key d k =
      get-put_other _ "mask_version" key _ (differ "mask_version" key k)
      ∙ get-put_other m "dto_version" key _ (differ "dto_version" key d)

  get-no_actions :
      (m : Payload) (key : String)
      → str_eq "legal_actions" key ≡ false
      → Dict.get (no_actions python m) key ≡ Dict.get m key
  unfolding no_actions
  get-no_actions m key a = get-put_other m "legal_actions" key _ (differ "legal_actions" key a)

  get-actions_cleared :
      (m : Payload) (key : String)
      → str_eq "legal_actions" key ≡ false
      → Dict.get (actions_cleared python m) key ≡ Dict.get m key
  unfolding actions_cleared
  get-actions_cleared m key a = ground (arith, get-no_actions m key a)

  flag_kept :
      (m : Payload) (key : String)
      → str_eq "dto_version" key ≡ false
      → str_eq "mask_version" key ≡ false
      → str_eq "legal_actions" key ≡ false
      → flag python (stamped python (actions_cleared python m)) key ≡ flag python m key
  unfolding flag
  flag_kept m key d k a =
      ap (λ o. is_true python (or_null o))
        (get-stamped (actions_cleared python m) key d k ∙ get-actions_cleared m key a)

  cleared_actions :
      (m : Payload)
      → flag python m "terminal" ≡ true
      → Dict.get (stamped python (actions_cleared python m)) "legal_actions" ≡ some (list nil)
  unfolding actions_cleared no_actions
  cleared_actions m h =
      get-stamped (actions_cleared python m) "legal_actions" refl refl
      ∙ rw h (get-put_self m "legal_actions" (list nil))

  flags_of :
      (m : Payload)
      → (flag python m "terminal" && flag python m "run_terminal") ≡ false
      → ((flag python (stamped python (actions_cleared python m)) "terminal"
            && flag python (stamped python (actions_cleared python m)) "run_terminal")
          ≡ false)
        × (flag python (stamped python (actions_cleared python m)) "terminal" ≡ true
            → Dict.get (stamped python (actions_cleared python m)) "legal_actions"
              ≡ some (list nil))
        × (Dict.get (stamped python (actions_cleared python m)) "dto_version"
            ≡ some (str "emulator-fca2f06"))
        × (Dict.get (stamped python (actions_cleared python m)) "mask_version" ≡ some (str "1.2"))
  unfolding stamped
  flags_of m apart = (
    rw (flag_kept m "terminal" refl refl refl, flag_kept m "run_terminal" refl refl refl) apart,
    λ h. cleared_actions m (sym (flag_kept m "terminal" refl refl refl) ∙ h),
    get-put_other _ "mask_version" "dto_version" _ (differ "mask_version" "dto_version" refl)
        ∙ get-put_self _ "dto_version" (str "emulator-fca2f06"),
    get-put_self _ "mask_version" (str "1.2"),
  )

  -- A masked state is not terminal for the combat and for the run, and one that is terminal for the
  -- combat offers no actions; it has the versions of the contract.
  masked_state_flags :
      (raw_state extra : Fields) (masked : Payload)
      → build_masked_emulator_dto python raw_state extra ≡ ok masked
      → ((flag python masked "terminal" && flag python masked "run_terminal") ≡ false)
        × (flag python masked "terminal" ≡ true → Dict.get masked "legal_actions" ≡ some (list nil))
        × (Dict.get masked "dto_version" ≡ some (str "emulator-fca2f06"))
        × (Dict.get masked "mask_version" ≡ some (str "1.2"))
  unfolding build_masked_emulator_dto
  masked_state_flags raw_state extra masked h =
      let (v, e, f) = >>=-eq-ok (mask_public_fragment python (dict raw_state)) _ h in
      let (w, g, i) = >>=-eq-ok (mask_public_fragment python (dict extra)) _ f in
      let m = update python (contents python v) (contents python w) in
      let (apart, same) = finished-eq-ok m masked i in rw same (flags_of m apart)
