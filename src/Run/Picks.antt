-- ===== src/Run/Picks.antt =====
-- Run/whole_run_session.py, Run/execution_mode.py and Run/room_progression_driver.py: who picks the
-- next action or room, and how an external decision is applied.
pub mod Sound
pub mod External
use sts2_rl.Prelude.{
  ℕ, ◌==◌, String, Bool, true, false, not, Option, none, some, List, [], ◌∷◌, Result, ok, err,
  str_eq, if◌then◌else◌,
}
use sts2_rl.Prelude.Key.{Key, str_discrete}
use sts2_rl.Prelude.{ℕ_discrete}
use sts2_rl.Run.{Action, Room}

pub data PickError : Type 0 where
  no_legal_actions not_unique : PickError

-- [x for x in xs if keep(x)]
unfoldable pub filter : {A : Type 0} → (A → Bool) → List A → List A
filter keep [] = []
filter keep (x ∷ xs) = let rest = filter keep xs in if keep x then x ∷ rest else rest

abbrev pub action_type_preference_order : List String
action_type_preference_order =
    "choice_target" ∷ "card" ∷ "potion" ∷ "system" ∷ "choice_shop_leave" ∷ "choice_confirm"
    ∷ "choice_skip" ∷ "choice_reward_skip" ∷ "choice_event_option" ∷ "choice_rest_option"
    ∷ "choice_card" ∷ "choice_reward_card" ∷ "choice_shop_buy_relic" ∷ "choice_event_throw_potion"
    ∷ []

-- `a or b` on lists.
abbrev or_else : {A : Type 0} → List A → List A → List A
or_else [] ys = ys
or_else (x ∷ xs) ys = x ∷ xs

-- The first action of the type.
first_of_type : String → List Action → Option Action
first_of_type action_type [] = none
first_of_type action_type (a ∷ pool) =
    let later = first_of_type action_type pool in
    if str_eq a.action_type action_type then some a else later

-- The two loops, and `pool[0]` after them.
preferred : List String → Action → List Action → Action
unfolding first_of_type
preferred [] first pool = first
preferred (t ∷ order) first pool =
    let later = preferred order first pool in
    elim (first_of_type t pool) [ none ↦ later | some a ↦ a ]

pick_from : List Action → Result PickError Action
unfolding preferred
pick_from [] = err no_legal_actions
pick_from (a ∷ pool) = ok (preferred action_type_preference_order a (a ∷ pool))

unfoldable pub pick_default_action : List Action → Result PickError Action
unfolding pick_from filter
pick_default_action legal_actions =
    pick_from (or_else (filter (λ a. a.is_available) legal_actions) legal_actions)

unfoldable pub zero_index_action : List Action → Result PickError Action
zero_index_action [] = err no_legal_actions
zero_index_action (a ∷ legal_actions) = ok a

-- `if len(matches) != 1: raise …`, then `matches[0]`.
only : {A : Type 0} → List A → Result PickError A
only [] = err not_unique
only (a ∷ []) = ok a
only (a ∷ b ∷ more) = err not_unique

abbrev pub has_action_id : ℕ → Action → Bool
has_action_id id a = a.action_id == id

abbrev has_room_id : ℕ → Room → Bool
has_room_id id r = r.room_id == id

external_action : (List Action → ℕ) → List Action → Result PickError Action
unfolding only filter
external_action resolve_action_id [] = err no_legal_actions
external_action resolve_action_id (a ∷ actions) =
    only (filter (has_action_id (resolve_action_id (a ∷ actions))) (a ∷ actions))

unfoldable pub make_external_action_selector :
    (List Action → ℕ) → List Action → Result PickError Action
unfolding external_action
make_external_action_selector resolve_action_id = external_action resolve_action_id

-- `id in excluded`
abbrev pub excludes : List ℕ → ℕ → Bool
excludes [] id = false
excludes (x ∷ xs) id = let rest = excludes xs id in if x == id then true else rest

unfoldable pub pool_of : List Room → List ℕ → List Room
unfolding filter
pool_of rooms excluded = filter (λ r. not (excludes excluded r.room_id)) rooms

abbrev head : {A : Type 0} → List A → Option A
head [] = none
head (x ∷ xs) = some x

unfoldable pub zero_index_room_picker : List Room → List ℕ → Option Room
unfolding pool_of
zero_index_room_picker rooms excluded = head (pool_of rooms excluded)

unfoldable pub pick_room : List Room → List ℕ → Option Room
unfolding pool_of filter
pick_room rooms excluded =
    let pool = pool_of rooms excluded in
    head (or_else (filter (λ r. not (str_eq r.point_type "Treasure")) pool) pool)

external_room : (List Room → ℕ) → List Room → Result PickError (Option Room)
unfolding only filter
external_room resolve_room_id [] = ok none
external_room resolve_room_id (r ∷ pool) =
    elim (only (filter (has_room_id (resolve_room_id (r ∷ pool))) (r ∷ pool))) [
      | ok room ↦ ok (some room)
      | err e ↦ err e
    ]

unfoldable pub make_external_room_selector :
    (List Room → ℕ) → List Room → List ℕ → Result PickError (Option Room)
unfolding external_room pool_of
make_external_room_selector resolve_room_id rooms excluded =
    external_room resolve_room_id (pool_of rooms excluded)

pub record DecisionId : Type 0 where
  pub seed : String
  pub character_id : String
  pub step_index : ℕ
  pub boundary : String
  pub combat_session_id : Option String

unfoldable pub DecisionId-discrete : Discrete DecisionId
unfolding str_discrete ℕ_discrete
DecisionId-discrete = hlevel (str_discrete, ℕ_discrete)

pub data ApplyError (E : Type 0) : Type 0 where
  stale_decision not_unique_id : ApplyError E
  call_error : E → ApplyError E

-- `E` is what the session's calls raise. An action is applied by `step`, a room by `choose_room`.
module _ {S R E : Type 0} (decision_id : S → DecisionId) (get_legal_actions : S → List Action)
    (get_map_rooms : S → List Room) (step choose_room : S → ℕ → Result E R × S) where
  called : Result E R × S → Result (ApplyError E) R × S
  called (ok r, s) = (ok r, s)
  called (err e, s) = (err (call_error e), s)

  -- Not exactly one match is an error; else the call is made.
  matched : {A : Type 0} → Result PickError A → S → Result E R × S → Result (ApplyError E) R × S
  unfolding called
  matched (err _) s call = (err not_unique_id, s)
  matched (ok _) s call = called call

  -- The session's current decision is the expected one, or the error.
  current : {P : Type 0} → Dec P → S → Result (ApplyError E) R × S → Result (ApplyError E) R × S
  current (no _) s applied = (err stale_decision, s)
  current (yes _) s applied = applied

  unfoldable pub apply_external_action : S → DecisionId → ℕ → Result (ApplyError E) R × S
  unfolding current matched only filter
  apply_external_action s expected_decision_id action_id =
      current (DecisionId-discrete (decision_id s) expected_decision_id) s (
        matched (only (filter (has_action_id action_id) (get_legal_actions s))) s
          (step s action_id))

  unfoldable pub apply_external_room_choice : S → DecisionId → ℕ → Result (ApplyError E) R × S
  unfolding current matched only filter
  apply_external_room_choice s expected_decision_id room_id =
      current (DecisionId-discrete (decision_id s) expected_decision_id) s
        (matched (only (filter (has_room_id room_id) (get_map_rooms s))) s (choose_room s room_id))
