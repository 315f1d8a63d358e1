-- ===== src/Run/Examples.antt =====
-- Draining, picking, routing and dispatching at work.
use sts2_rl.Run.Leases.{holds_lease}
use sts2_rl.Run.Leases.{choose_bootstrap_slot}
use sts2_rl.Run.Leases.{is_valid_for}
use sts2_rl.Run.Leases.{Slot-discrete}
use sts2_rl.Prelude.Key.{str_discrete}
use sts2_rl.Run.Picks.{DecisionId-discrete}
use sts2_rl.Prelude.{
  ℕ, ◌+◌, ◌-◌, ◌≤◌, ◌≡◌, ◌≢◌, ◌⊎◌, refl, ap, String, true, false, none, some, List, [], ◌∷◌, Result,
  ok, length, if◌then◌else◌, ltb,
}
use sts2_rl.Prelude.Dict
use sts2_rl.Prelude.Dict.{Dict}
use sts2_rl.Prelude.Key.{str_key}
use sts2_rl.Run.{Action, Room}
use sts2_rl.Run.Drain.{
  takes, at_reward, AutoDrainResult, drain_trivial_reward_frontier, replay, drain_replays,
}
use sts2_rl.Run.Picks.{
  pick_room, zero_index_room_picker, make_external_action_selector, DecisionId,
  apply_external_action,
}
use sts2_rl.Run.Leases.{
  Slot, main, branch, slot_key, same_slot, Lease, LeaseRegistry, continuation, sub_branch,
  holder_step, bootstrap_step, ChoiceWorkItem, Route, route_choice_work_item,
}
use sts2_rl.Run.Leases.Routing.{bootstrap_slot_is_free}
use sts2_rl.Run.Leases.Dispatch.{WorkerPool, Event, timed_out, started, dispatch_choice_work_items}
use sts2_rl.Run.Leases.Dispatch.Complete.{Ends, dispatch_choice_work_items-Ends}

-- The state is the number of potions that are still offered.
abbrev offered : ℕ → List Action
offered s =
    if ltb 0 s
    then record { action_id = s; action_type = "choice_reward_potion_take"; is_available = true }
      ∷ record { action_id = 0; action_type = "choice_reward_skip"; is_available = true }
      ∷ []
    else record { action_id = 0; action_type = "choice_reward_skip"; is_available = true } ∷ []

abbrev at_reward_select : ℕ → String
at_reward_select s = "reward_select"

abbrev take_one : ℕ → ℕ → Result String ℕ × ℕ
take_one s id = (ok id, s - 1)

abbrev drained : AutoDrainResult at_reward_select offered take_one
drained = record { auto_action_ids = 2 ∷ 1 ∷ []; last_step_result = some 1 }

two_taken : drain_trivial_reward_frontier at_reward_select offered take_one 2 5 ≡ (ok drained, 0)
unfolding drain_trivial_reward_frontier takes
two_taken = refl

drain_replays_example :
    (length drained.auto_action_ids ≤ 5)
    × (0 ≡ replay at_reward_select offered take_one 2 drained.auto_action_ids)
    × ((at_reward at_reward_select offered take_one 0 ≡ false) ⊎ (takes (offered 0) ≡ []))
drain_replays_example = drain_replays at_reward_select offered take_one 2 0 5 drained two_taken

abbrev card : Action
card = record { action_id = 7; action_type = "card"; is_available = true }

abbrev end_turn : Action
end_turn = record { action_id = 8; action_type = "system"; is_available = true }

abbrev legal : List Action
legal = end_turn ∷ card ∷ []

abbrev rooms : List Room
rooms =
    record { room_id = 1; point_type = "Treasure" }
    ∷ record { room_id = 2; point_type = "Monster" }
    ∷ record { room_id = 3; point_type = "Shop" }
    ∷ []

abbrev monster : Room
monster = record { room_id = 2; point_type = "Monster" }

abbrev treasure : Room
treasure = record { room_id = 1; point_type = "Treasure" }

monster_is_picked : pick_room rooms (3 ∷ []) ≡ some monster
unfolding pick_room
monster_is_picked = refl

treasure_is_first : zero_index_room_picker rooms (3 ∷ []) ≡ some treasure
unfolding zero_index_room_picker
treasure_is_first = refl

abbrev ask_7 : List Action → ℕ
ask_7 actions = 7

card_is_selected : make_external_action_selector ask_7 legal ≡ ok card
unfolding make_external_action_selector
card_is_selected = refl

-- The state is the number of steps taken.
abbrev decided : ℕ → DecisionId
decided s = record {
  seed = "18";
  character_id = "Ironclad";
  step_index = s;
  boundary = "stable";
  combat_session_id = none;
}

abbrev always_legal : ℕ → List Action
always_legal s = legal

abbrev same_rooms : ℕ → List Room
same_rooms s = rooms

abbrev advance : ℕ → ℕ → Result String ℕ × ℕ
advance s id = (ok id, s + 1)

card_is_applied :
    apply_external_action decided always_legal same_rooms advance advance 0 (decided 0) 7
    ≡ (ok 7, 1)
unfolding apply_external_action DecisionId-discrete
card_is_applied = refl

moved : decided 1 ≢ decided 0
moved = λ e. cc (ap (λ (d : DecisionId). d.step_index) e)

abbrev held : Lease
held = record {
  worker_slot = branch 0;
  worker_generation = 1;
  pid = 4242;
  context_id = "c";
  combat_session_id = none;
  run_seed = some "7";
  step_signature = "s";
}

abbrev leases : LeaseRegistry
leases = ("c", held) ∷ []

abbrev generations : Dict Slot ℕ
generations = (main, 1) ∷ (branch 0, 1) ∷ (branch 1, 1) ∷ []

abbrev slots : List Slot
slots = branch 0 ∷ branch 1 ∷ []

abbrev follow_up : ChoiceWorkItem ℕ
follow_up = record { work_id = "w1"; context_id = "c"; work_kind = continuation; job = 0 }

abbrev sibling : ChoiceWorkItem ℕ
sibling = record { work_id = "w2"; context_id = "d"; work_kind = sub_branch; job = 0 }

abbrev to_holder : Route
to_holder = record {
  execution_mode = holder_step;
  expected_lease = some held;
  slot = branch 0;
  next_bootstrap_index = 0;
}

abbrev to_other : Route
to_other = record {
  execution_mode = bootstrap_step;
  expected_lease = none;
  slot = branch 1;
  next_bootstrap_index = 1;
}

follow_up_is_routed :
    route_choice_work_item follow_up leases slots generations 0 none ≡ (ok to_holder, leases)
unfolding route_choice_work_item Dict.get str_discrete Slot-discrete is_valid_for
follow_up_is_routed = refl

sibling_is_routed :
    route_choice_work_item sibling leases slots generations 0 none ≡ (ok to_other, leases)
unfolding route_choice_work_item choose_bootstrap_slot holds_lease Slot-discrete
sibling_is_routed = refl

held_is_registered : Dict.get leases "c" ≡ some held
unfolding Dict.get str_discrete
held_is_registered = refl

bootstrap_slot_is_free_example : same_slot held.worker_slot to_other.slot ≡ false
bootstrap_slot_is_free_example =
    bootstrap_slot_is_free sibling leases leases slots generations 0 none to_other "c" held refl
      sibling_is_routed held_is_registered

abbrev pool : WorkerPool
pool = record { worker_generations = generations; next_bootstrap_index = 0; next_request_id = 0 }

-- Nothing comes, then the workers that replace the hung ones start.
abbrev one_replaced : List (Event ℕ)
one_replaced = timed_out ∷ started (branch 0) ∷ started (branch 1) ∷ []

dispatch_choice_work_items-Ends_example :
    Ends ℕ
      (follow_up ∷ sibling ∷ [])
      one_replaced
      (dispatch_choice_work_items ℕ (follow_up ∷ sibling ∷ []) leases pool [] one_replaced)
dispatch_choice_work_items-Ends_example =
    dispatch_choice_work_items-Ends ℕ (follow_up ∷ sibling ∷ []) leases pool [] one_replaced
