-- ===== src/Combat/Branches/Poll/Admits.antt =====
-- The branches that a poll starts with.
use sts2_rl.Prelude.{
  ◌≡◌, refl, ap, ◌∙◌, arith, String, Bool, true, false, ◌||◌, ◌⊎◌, Option, none, some, List, [],
  ◌∷◌, ok, inl, inr, Bool-cases, >>=-eq-ok, ok_inj, subst, str_eq, eq_iff,
}
use sts2_rl.Prelude.Dict
use sts2_rl.Prelude.Key.{str_key}
use sts2_rl.Api.Dto.{member}
use sts2_rl.Combat.Branches.{BranchRecord, Records}
use sts2_rl.Combat.Branches.Cancel.Seen.{or_left, or_right}
use sts2_rl.Combat.Branches.Release.Modify.{state_in, status_of}
use sts2_rl.Combat.Branches.Dispatch.{is_queued}
use sts2_rl.Combat.Branches.Poll.{check_queued, check_ids}
use sts2_rl.Combat.Branches.Poll.Tracks.{is_queued_in}

or_cases : (a b : Bool) → (a || b) ≡ true → (a ≡ true) ⊎ (b ≡ true)
or_cases true b h = inl refl
or_cases false b h = inr h

or_swap : (a b c : Bool) → ((a || b) || c) ≡ true → (b || (a || c)) ≡ true
or_swap true true c h = refl
or_swap true false c h = refl
or_swap false true c h = refl
or_swap false false c h = h

module _ {J R : Type 0} where
  -- The branches that a poll is asked for are queued, and each is among those that it starts with.
  abbrev pub Admits : Records J R → List String → List String → List String → Type 0
  Admits records seen asked ids =
      ((id : String) → member id asked ≡ true → (member id seen || member id ids) ≡ true)
      × ((id : String) → member id ids ≡ true → is_queued_in (status_of records id) ≡ true)

  check_queued-eq-ok :
      (id : String) (o : Option (BranchRecord J R))
      → check_queued id o ≡ ok tt
      → is_queued_in (state_in o) ≡ true
  unfolding check_queued
  check_queued-eq-ok id none h = cc h
  check_queued-eq-ok id (some r) h = elim (Bool-cases (is_queued r.state)) [
    | inl e ↦ e
    | inr e ↦ ground (arith, e, h)
  ]

  head-Admits :
      (records : Records J R) (seen : List String) (id : String) (asked rest : List String)
      → check_queued id (Dict.get records id) ≡ ok tt
      → Admits records (id ∷ seen) asked rest
      → Admits records seen (id ∷ asked) (id ∷ rest)
  unfolding member status_of
  head-Admits records seen id asked rest e (found, all_queued) = (
    λ x m. elim (or_cases (str_eq x id) (member x asked) m) [
      | inl q ↦
          or_right (member x seen) (str_eq x id || member x rest)
            (or_left (str_eq x id) (member x rest) q)
      | inr q ↦ or_swap (str_eq x id) (member x seen) (member x rest) (found x q)
    ],
    λ x m. elim (or_cases (str_eq x id) (member x rest) m) [
      | inl q ↦
          ap (λ y. is_queued_in (state_in (Dict.get records y))) ((eq_iff x id).0 q)
          ∙ check_queued-eq-ok id (Dict.get records id) e
      | inr q ↦ all_queued x q
    ],
  )

  pub check_ids-Admits :
      (records : Records J R) (seen asked ids : List String)
      → check_ids records seen asked ≡ ok ids
      → Admits records seen asked ids
  unfolding check_ids member
  check_ids-Admits records seen [] ids = λ h. (λ x k. cc k, λ x k. cc (k, ap (member x) (ok_inj h)))
  check_ids-Admits records seen (id ∷ asked) ids = elim (Bool-cases (member id seen)) [
    | inl k ↦
        rw (k, check_ids)
          (λ h.
            let (found, all_queued) = check_ids-Admits records seen asked ids h in
            (
              λ x m. elim (or_cases (str_eq x id) (member x asked) m) [
                | inl e ↦
                    or_left (member x seen) (member x ids)
                      (ap (λ y. member y seen) ((eq_iff x id).0 e) ∙ k)
                | inr e ↦ found x e
              ],
              all_queued,
            ))
    | inr k ↦
        rw (k, check_ids)
          (λ h.
            let (u, e, f) = >>=-eq-ok (check_queued id (Dict.get records id)) _ h in
            let (rest, g, l) = >>=-eq-ok (check_ids records (id ∷ seen) asked) _ f in
            subst (Admits records seen (id ∷ asked)) (ok_inj l) (
              head-Admits records seen id asked rest e
                (check_ids-Admits records (id ∷ seen) asked rest g)))
  ]
