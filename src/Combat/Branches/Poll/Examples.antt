-- ===== src/Combat/Branches/Poll/Examples.antt =====
-- A poll of two branches on one worker: the first one times out, and the second one ends.
use sts2_rl.Combat.Branches.Release.Modify.{status_of}
use sts2_rl.Combat.Branches.Poll.Tracks.{IsOver}
use sts2_rl.Combat.Branches.Poll.Complete.{poll_settles}
use sts2_rl.Combat.Branches.Poll.Ends.{poll-Ends}
use sts2_rl.Prelude.{true, ◌≢◌}
use sts2_rl.Prelude.Dict.{Dict}
use sts2_rl.Api.Dto.{member}
use sts2_rl.Combat.Pool.{too_many_rounds, invalidate}
use sts2_rl.Combat.Pool.{invalidate_worker}
use sts2_rl.Combat.Pool.{respawn_worker}
use sts2_rl.Combat.Branches.Release.{remove_first}
use sts2_rl.Prelude.{ℕ_discrete}
use sts2_rl.Combat.Pool.{submit}
use sts2_rl.Combat.Branches.Dispatch.{elem}
use sts2_rl.Combat.Pool.{holds_lease}
use sts2_rl.Combat.Pool.{choose_bootstrap_worker}
use sts2_rl.Combat.Pool.{route_work_item}
use sts2_rl.Prelude.Key.{str_discrete}
use sts2_rl.Prelude.{ℕ, ◌+◌, ◌≡◌, refl, false, String, Option, none, some, List, [], ◌∷◌, ok, err}
use sts2_rl.Prelude.Dict
use sts2_rl.Prelude.Key.{nat_key}
use sts2_rl.Combat.Pool.{success, sub_branch, BranchResult}
use sts2_rl.Combat.Branches.{queued, BranchRecord, BranchManager}
use sts2_rl.Combat.Branches.Dispatch.{Poll, Step, dispatch_available}
use sts2_rl.Combat.Branches.Poll.{Event, received, timed_out, start, handle, poll, Polled}
use sts2_rl.Combat.Branches.Poll.Exclusive.{begun, handled, one_request_per_worker}

abbrev waiting_branch : String → BranchRecord ℕ ℕ
waiting_branch id = record {
  branch_id = id;
  work_item = some (record {
    work_id = id;
    key = record { context_id = "context"; search_hypothesis_id = none };
    work_kind = sub_branch;
    combat_session_id = none;
    step_index = 0;
    decision_result_digest = "digest";
    job = 0;
  });
  state = queued;
  parent_branch_id = none;
  child_branch_ids = [];
  worker_id = none;
  worker_generation = none;
  request_id = none;
  execution_mode = none;
  result = none;
}

abbrev two_waiting : BranchManager ℕ ℕ
two_waiting = record {
  pool = record { workers = (0, 0) ∷ []; next_request_id = 0; closed = false };
  leases = [];
  max_branches = 4;
  records = ("a", waiting_branch "a") ∷ ("b", waiting_branch "b") ∷ [];
  branch_by_request = [];
  next_serial = 2;
  next_bootstrap_index = 0;
}

abbrev deadline : ℕ → ℕ
deadline request_id = request_id + 10

abbrev tables : Step ℕ ℕ → Poll ℕ
tables (ok p, m) = p
tables (err e, m) = start []

abbrev first_round : Step ℕ ℕ
first_round = dispatch_available deadline (start ("a" ∷ "b" ∷ [])) two_waiting

abbrev second_round : Step ℕ ℕ
second_round = handle deadline (timed_out 11) (tables first_round) first_round.1

began : first_round ≡ (ok (tables first_round), first_round.1)
unfolding dispatch_available Dict.get str_discrete route_work_item choose_bootstrap_worker
    holds_lease elem submit ℕ_discrete remove_first Dict.put
began = refl

went_on : second_round ≡ (ok (tables second_round), second_round.1)
unfolding handle Dict.get str_discrete route_work_item choose_bootstrap_worker holds_lease elem
    submit ℕ_discrete remove_first Dict.put respawn_worker Dict.remove invalidate_worker invalidate
went_on = refl

second_on_worker : Dict.get (tables second_round).request_workers 2 ≡ some 0
unfolding Dict.get handle str_discrete route_work_item choose_bootstrap_worker holds_lease elem
    submit ℕ_discrete remove_first Dict.put respawn_worker Dict.remove invalidate_worker invalidate
second_on_worker = refl

one_request_per_worker_example :
    (◌≡◌ {A = ℕ} 2 2) × (Dict.get (tables second_round).worker_requests 0 ≡ some 2)
one_request_per_worker_example =
    one_request_per_worker deadline ("a" ∷ "b" ∷ []) two_waiting (tables second_round)
      second_round.1 2 2 0 (handled (timed_out 11) (begun began) went_on) second_on_worker
      second_on_worker

abbrev ended : BranchResult ℕ
ended = record {
  status = success;
  execution_mode = none;
  worker_id = some 0;
  worker_generation = some 1;
  established_lease = none;
  fault_kind = none;
  body = some 7;
}

-- Nothing comes until 11, and then the second request's result.
abbrev events : List (Event ℕ)
events = timed_out 11 ∷ received 2 ended ∷ []

abbrev asked : Option (List String)
asked = some ("a" ∷ "b" ∷ [])

abbrev clock : ℕ → ℕ
clock request_id = request_id

abbrev results_of : Polled ℕ ℕ → Dict String (BranchResult ℕ)
results_of (ok (some results), m) = results
results_of (ok none, m) = []
results_of (err e, m) = []

abbrev whole : Polled ℕ ℕ
whole = poll 10 clock events asked two_waiting

returned : whole.0 ≡ ok (some (results_of whole))
unfolding poll member Dict.get str_discrete route_work_item choose_bootstrap_worker holds_lease elem
    submit ℕ_discrete remove_first Dict.put respawn_worker Dict.remove invalidate_worker invalidate
returned = refl

b_is_asked : member "b" ("a" ∷ "b" ∷ []) ≡ true
unfolding member
b_is_asked = refl

poll_settles_example : IsOver (results_of whole) (status_of whole.1.records "b") "b"
poll_settles_example =
    poll_settles 10 clock events ("a" ∷ "b" ∷ []) two_waiting (results_of whole) "b" returned
      b_is_asked

poll-Ends_example : (poll 10 clock events asked two_waiting).0 ≢ err too_many_rounds
poll-Ends_example = poll-Ends 10 clock events asked two_waiting
