-- ===== src/Run/Picks/External.antt =====
-- How an external decision is applied.
use sts2_rl.Prelude.{ℕ, ◌≡◌, ◌≢◌, refl, ap, List, [], ◌∷◌, Result, ok, err, ok_inj}
use sts2_rl.Run.{Action, Room}
use sts2_rl.Run.Picks.{
  PickError, filter, only, has_action_id, has_room_id, make_external_action_selector,
  external_action, DecisionId, DecisionId-discrete, ApplyError, stale_decision, called, matched,
  current, apply_external_action, apply_external_room_choice,
}

only-eq-ok : {A : Type 0} (xs : List A) (a : A) → only xs ≡ ok a → xs ≡ a ∷ []
unfolding only
only-eq-ok [] a e = absurd (cc e)
only-eq-ok (x ∷ []) a e = ap (λ y. y ∷ []) (ok_inj e)
only-eq-ok (x ∷ y ∷ more) a e = absurd (cc e)

-- The external selector never substitutes an action: what it returns is the one legal action with
-- the id that was asked for.
external_selector_exact :
    (resolve_action_id : List Action → ℕ) (legal_actions : List Action) (a : Action)
    → make_external_action_selector resolve_action_id legal_actions ≡ ok a
    → filter (has_action_id (resolve_action_id legal_actions)) legal_actions ≡ a ∷ []
unfolding make_external_action_selector external_action
external_selector_exact resolve_action_id [] a e = absurd (cc e)
external_selector_exact resolve_action_id (b ∷ actions) a e = only-eq-ok _ a e

module _ {S R E : Type 0} (decision_id : S → DecisionId) (get_legal_actions : S → List Action)
    (get_map_rooms : S → List Room) (step choose_room : S → ℕ → Result E R × S) where
  current-no :
      {P : Type 0} (d : Dec P) (s : S) (applied : Result (ApplyError E) R × S)
      → (P → ⊥)
      → current decision_id get_legal_actions get_map_rooms step choose_room d s applied
        ≡ (err stale_decision, s)
  unfolding current
  current-no (yes p) s applied ne = absurd (ne p)
  current-no (no _) s applied ne = refl

  -- A decision made for another state than the current one is refused, and neither an action nor a
  -- room choice touches the session then.
  pub stale_is_refused :
      (s : S) (d : DecisionId) (id : ℕ)
      → decision_id s ≢ d
      → (apply_external_action decision_id get_legal_actions get_map_rooms step choose_room s d id
          ≡ (err stale_decision, s))
        × (apply_external_room_choice decision_id get_legal_actions get_map_rooms step choose_room s
              d id
            ≡ (err stale_decision, s))
  unfolding apply_external_action apply_external_room_choice
  stale_is_refused s d id ne = (
    current-no (DecisionId-discrete (decision_id s) d) s
        (matched decision_id get_legal_actions get_map_rooms step choose_room
          (only (filter (has_action_id id) (get_legal_actions s))) s (step s id))
        ne,
    current-no (DecisionId-discrete (decision_id s) d) s
        (matched decision_id get_legal_actions get_map_rooms step choose_room
          (only (filter (has_room_id id) (get_map_rooms s))) s (choose_room s id))
        ne,
  )

  matched-ok :
      {A : Type 0} (m : Result PickError A) (s s' : S) (call : Result E R × S) (r : R)
      → matched decision_id get_legal_actions get_map_rooms step choose_room m s call ≡ (ok r, s')
      → ((a : A) × (m ≡ ok a)) × (call ≡ (ok r, s'))
  unfolding matched called
  matched-ok (err e) s s' call r h = absurd (cc (ap (λ x. x.0) h))
  matched-ok (ok a) s s' (ok q, t) r h = ((a, refl), cc h)
  matched-ok (ok a) s s' (err e, t) r h = absurd (cc (ap (λ x. x.0) h))

  current-ok :
      {P : Type 0} (d : Dec P) (s s' : S) (applied : Result (ApplyError E) R × S) (r : R)
      → current decision_id get_legal_actions get_map_rooms step choose_room d s applied
        ≡ (ok r, s')
      → P × (applied ≡ (ok r, s'))
  unfolding current
  current-ok (yes p) s s' applied r h = (p, h)
  current-ok (no _) s s' applied r h = absurd (cc (ap (λ x. x.0) h))

  -- An action that is applied is applied in the state it was decided for, is the one legal action
  -- with its id, and is one step of the session.
  applied_as_decided :
      (s s' : S) (d : DecisionId) (id : ℕ) (r : R)
      → apply_external_action decision_id get_legal_actions get_map_rooms step choose_room s d id
        ≡ (ok r, s')
      → (decision_id s ≡ d)
        × ((a : Action) × (filter (has_action_id id) (get_legal_actions s) ≡ a ∷ []))
        × (step s id ≡ (ok r, s'))
  unfolding apply_external_action
  applied_as_decided s s' d id r h =
      let (same, applied) = current-ok (DecisionId-discrete (decision_id s) d) s s' _ r h in
      let ((a, found), call) =
        matched-ok (only (filter (has_action_id id) (get_legal_actions s))) s s' _ r applied in
      (same, (a, only-eq-ok _ a found), call)
