-- ===== src/Api/Examples.antt =====
-- Requests and identifiers at work.
use sts2_rl.Api.Identifiers.Hypotheses.{ParentDecisionKey-discrete}
use sts2_rl.Api.Identifiers.Hypotheses.{RngKey-discrete}
use sts2_rl.Prelude.{ℕ, ◌≡◌, ◌≢◌, refl, ap, String, some, List, [], ◌∷◌, ok}
use sts2_rl.Prelude.Dict
use sts2_rl.Prelude.Key.{str_key, str_discrete}
use sts2_rl.Prelude.Int.{pos}
use sts2_rl.Api.Value.{
  Items, nil, cons, int, str, list, dict, Fields, Payload, entries, items, of_entries,
}
use sts2_rl.Api.Decimal.{decimal}
use sts2_rl.Api.Dto.{member, request_id_for}
use sts2_rl.Api.Require.{require}
use sts2_rl.Api.Validation.{validate_request}
use sts2_rl.Api.Validation.BatchItems.{validate_emulate_actions_items}
use sts2_rl.Api.Validation.BatchItems.Accepted.{AreItems, IsDistinct, batch_accepted}
use sts2_rl.Api.Validation.Contents.{IsRequest, validate_request-IsRequest}
use sts2_rl.Api.Identifiers.Hypotheses.{
  RngKey, rng_key, parent_decision_key, empty_table, allocate_all, hypothesis_index_for, snapshot,
  restore,
}
use sts2_rl.Api.Identifiers.Hypotheses.Rollback.{restore_undoes_allocations}

abbrev item : String → Payload
item branch_id =
    ("parent_branch_id", str "root")
    ∷ ("branch_id", str branch_id)
    ∷ ("decision_point_id", str "d-root-000001")
    ∷ ("action_id", str "end_turn")
    ∷ ("rng_id", int (pos 1))
    ∷ []

abbrev batch : Payload
batch =
    ("items", list (cons (dict (of_entries (item "x"))) (cons (dict (of_entries (item "y"))) nil)))
    ∷ []

batch_is_accepted : validate_emulate_actions_items batch ≡ ok tt
unfolding validate_emulate_actions_items require Dict.get str_discrete items entries of_entries
    member
batch_is_accepted = refl

batch_accepted_example :
    (vs : Items) × (ids : List String) × (Dict.get batch "items" ≡ some (list vs))
    × (items vs ≢ [])
    × AreItems (items vs) ids
    × IsDistinct ids
batch_accepted_example = batch_accepted batch batch_is_accepted

abbrev request : Payload
request =
    ("schema_version", str "0.8")
    ∷ ("client_session_id", str "a")
    ∷ ("request_seq", int (pos 2))
    ∷ ("request_id", str "a:2")
    ∷ ("operation", str "get_decision")
    ∷ ("instance_id", str "inst-000001")
    ∷ ("branch_id", str "root")
    ∷ []

request_is_accepted : validate_request (dict (of_entries request)) ≡ ok request
unfolding validate_request require Dict.get entries of_entries str_discrete member request_id_for
    decimal
request_is_accepted = refl

validate_request-IsRequest_example :
    (fs : Fields) × (dict (of_entries request) ≡ dict fs)
    × (request ≡ entries fs)
    × ((session : String) × (operation : String) × (seq : ℕ) × IsRequest request session operation
          seq)
validate_request-IsRequest_example =
    validate_request-IsRequest (dict (of_entries request)) request request_is_accepted

abbrev key : ℕ → RngKey
key n = record { parent_branch_id = "root"; decision_point_id = "d-root-000001"; rng_id = n }

has_index : Dict.get (allocate_all empty_table (key 7 ∷ key 9 ∷ [])).index_by_key (key 9) ≡ some 1
unfolding allocate_all Dict.get hypothesis_index_for Dict.put RngKey-discrete
    ParentDecisionKey-discrete
has_index = refl

keys_differ : key 9 ≢ key 7
keys_differ = λ e. cc (ap (λ (k : RngKey). k.rng_id) e)

restore_undoes_allocations_example :
    let t = allocate_all empty_table (key 7 ∷ []) in
    restore (allocate_all t (key 9 ∷ key 7 ∷ [])) (snapshot t) ≡ ok t
restore_undoes_allocations_example = restore_undoes_allocations (key 7 ∷ []) (key 9 ∷ key 7 ∷ [])
