-- ===== src/Run/Drain.antt =====
-- Run/reward_auto_progress.py: taking the potions that the emulator offers as the one trivial action.
use sts2_rl.Prelude.{
  ℕ, zero, suc, ◌≤◌, ◌≡◌, ◌⊎◌, inl, inr, sym, ap, subst, ◌∙◌, arith, String, Bool, true, false,
  ◌&&◌, Option, none, some, List, [], ◌∷◌, ◌++◌, Result, ok, err, str_eq, if◌then◌else◌, ◌==◌,
  length, Bool-cases, List-cases, Result-cases, ok_inj, append_nil, append_assoc,
}
use sts2_rl.Run.{Action}

abbrev pub is_take : Action → Bool
is_take a = a.is_available && str_eq a.action_type "choice_reward_potion_take"

-- The actions that are TAKE and available, in order.
unfoldable pub takes : List Action → List Action
takes [] = []
takes (a ∷ actions) = let rest = takes actions in if is_take a then a ∷ rest else rest

abbrev pub ids : List Action → List ℕ
ids [] = []
ids (a ∷ actions) = a.action_id ∷ ids actions

-- `E` is what a step raises.
pub data DrainError (E : Type 0) : Type 0 where
  not_positive : DrainError E
  multiple_takes : List ℕ → DrainError E
  over_cap : List ℕ → DrainError E
  step_error : E → DrainError E

module _ {S R E : Type 0} (boundary : S → String) (get_legal_actions : S → List Action)
    (step : S → ℕ → Result E R × S) where
  pub record AutoDrainResult : Type 0 where
    pub auto_action_ids : List ℕ
    pub last_step_result : Option R

  abbrev pub at_reward : S → Bool
  at_reward s = str_eq (boundary s) "reward_select"

  -- After the last allowed round.
  at_cap : S → List ℕ → Option R → List Action → Result (DrainError E) AutoDrainResult × S
  at_cap s consumed last [] =
      (ok (record { auto_action_ids = consumed; last_step_result = last }), s)
  at_cap s consumed last (a ∷ more) =
      if at_reward s
      then (err (over_cap consumed), s)
      else (ok (record { auto_action_ids = consumed; last_step_result = last }), s)

  -- The rounds that are left, the ids taken so far, and the last step's result.
  drain : ℕ → S → List ℕ → Option R → Result (DrainError E) AutoDrainResult × S
  unfolding at_cap
  drain zero s consumed last = at_cap s consumed last (takes (get_legal_actions s))
  drain (suc n) s consumed last = elim (at_reward s) [
    | false ↦ (ok (record { auto_action_ids = consumed; last_step_result = last }), s)
    | true ↦ elim (takes (get_legal_actions s)) [
      | [] ↦ (ok (record { auto_action_ids = consumed; last_step_result = last }), s)
      | (a ∷ []) ↦
          (let (result, s') = step s a.action_id in
            elim result [
              | err e ↦ (err (step_error e), s')
              | ok r ↦ drain n s' (consumed ++ a.action_id ∷ []) (some r)
            ])
      | (a ∷ b ∷ more) ↦ (err (multiple_takes (ids (a ∷ b ∷ more))), s)
    ]
  ]

  unfoldable pub drain_trivial_reward_frontier : S → ℕ → Result (DrainError E) AutoDrainResult × S
  unfolding drain
  drain_trivial_reward_frontier s max_auto_actions =
      if max_auto_actions == 0 then (err not_positive, s) else drain max_auto_actions s [] none

  -- The actions, one after the other.
  pub replay : S → List ℕ → S
  replay s [] = s
  replay s (id ∷ more) = replay (step s id).1 more

  -- The state after draining: its taken ids are those consumed before and at most `n` more, which
  -- lead there from `s`, and there is nothing left to take.
  abbrev Drained : ℕ → S → List ℕ → AutoDrainResult → S → Type 0
  Drained n s consumed r s' =
      (taken : List ℕ) × (r.auto_action_ids ≡ consumed ++ taken)
      × (length taken ≤ n)
      × (s' ≡ replay s taken)
      × ((at_reward s' ≡ false) ⊎ (takes (get_legal_actions s') ≡ []))

  stop :
      (n : ℕ) (s s' : S) (consumed : List ℕ) (last : Option R) (r : AutoDrainResult)
      → (at_reward s ≡ false) ⊎ (takes (get_legal_actions s) ≡ [])
      → ◌≡◌ {A = Result (DrainError E) AutoDrainResult × S}
          (ok (record { auto_action_ids = consumed; last_step_result = last }), s)
          (ok r, s')
      → Drained n s consumed r s'
  unfolding replay
  stop n s s' consumed last r done h =
      let same : s ≡ s' = ap (λ x. x.1) h in
      let result = ok_inj (ap (λ x. x.0) h) in
      (
        [],
        ap (λ x. x.auto_action_ids) (sym result) ∙ sym (append_nil consumed),
        omega arith,
        sym same,
        subst (λ t. (at_reward t ≡ false) ⊎ (takes (get_legal_actions t) ≡ [])) same done,
      )

  drain-Drained :
      (n : ℕ) (s s' : S) (consumed : List ℕ) (last : Option R) (r : AutoDrainResult)
      → drain n s consumed last ≡ (ok r, s')
      → Drained n s consumed r s'
  unfolding drain at_cap replay
  drain-Drained zero s s' consumed last r h = elim (List-cases (takes (get_legal_actions s))) [
    | inl e ↦ stop zero s s' consumed last r (inr e) (rw e at h)
    | inr (a, more, e) ↦ elim (Bool-cases (at_reward s)) [
      | inl y ↦ absurd (cc (ap (λ x. x.0) (rw (e, y) at h)))
      | inr n ↦ stop zero s s' consumed last r (inl n) (rw (e, n) at h)
    ]
  ]
  drain-Drained (suc n) s s' consumed last r h = elim (Bool-cases (at_reward s)) [
    | inr no_reward ↦ stop (suc n) s s' consumed last r (inl no_reward) (rw (drain, no_reward) at h)
    | inl y ↦ elim (List-cases (takes (get_legal_actions s))) [
      | inl e ↦ stop (suc n) s s' consumed last r (inr e) (rw (drain, y, e) at h)
      | inr (a, [], e) ↦ elim (Result-cases (step s a.action_id).0) [
        | inl (x, f) ↦
            let (taken, ids, short, there, done) =
              drain-Drained n (step s a.action_id).1 s' (consumed ++ a.action_id ∷ []) (some x) r
                (rw (drain, y, e, f) at h) in
            (
              a.action_id ∷ taken,
              ids ∙ append_assoc consumed (a.action_id ∷ []) taken,
              omega (arith, short),
              there,
              done,
            )
        | inr (x, f) ↦ absurd (cc (ap (λ z. z.0) (rw (drain, y, e, f) at h)))
      ]
      | inr (a, (b ∷ more), e) ↦ absurd (cc (ap (λ z. z.0) (rw (drain, y, e) at h)))
    ]
  ]

  -- A drain that succeeds has taken at most `max_auto_actions` actions, replaying just these
  -- reaches the same state, and in that state no potion is left to take at a reward.
  pub drain_replays :
      (s s' : S) (max_auto_actions : ℕ) (r : AutoDrainResult)
      → drain_trivial_reward_frontier s max_auto_actions ≡ (ok r, s')
      → (length r.auto_action_ids ≤ max_auto_actions)
        × (s' ≡ replay s r.auto_action_ids)
        × ((at_reward s' ≡ false) ⊎ (takes (get_legal_actions s') ≡ []))
  unfolding drain_trivial_reward_frontier
  drain_replays s s' max_auto_actions r h = elim (Bool-cases (max_auto_actions == 0)) [
    | inl z ↦ absurd (cc (ap (λ x. x.0) (rw z at h)))
    | inr n ↦
        let (taken, ids, short, there, done) =
          drain-Drained max_auto_actions s s' [] none r (rw n at h) in
        (
          subst (λ (l : List ℕ). length l ≤ max_auto_actions) (sym ids) short,
          there ∙ ap (replay s) (sym ids),
          done,
        )
  ]
