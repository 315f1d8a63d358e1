-- ===== src/Api/Server/Examples.antt =====
-- The server at work: two sessions over toy instances that count the calls made to them.
use sts2_rl.Prelude.{ℕ, ◌≡◌, refl, ◌≢◌, eq_iff, String, none, some, ok, List, [], ◌∷◌, ◌+◌, ◌⊎◌}
use sts2_rl.Prelude.Dict
use sts2_rl.Prelude.Dict.{Dict}
use sts2_rl.Prelude.Key.{str_key, str_discrete}
use sts2_rl.Prelude.Int.{pos}
use sts2_rl.Api.Value.{int, str, dict, Payload, entries, of_entries}
use sts2_rl.Api.Faults.{field_of}
use sts2_rl.Api.Rejected.{Message}
use sts2_rl.Api.Server.Dispatch.{Instances, text_of, instance_id_for, execute_new_request}
use sts2_rl.Api.Server.{Server, new_server, handle_request}
use sts2_rl.Api.Server.Effect.{session_of, number_of, last_of}
use sts2_rl.Api.Server.Isolation.{active_at}
use sts2_rl.Api.Server.Sessions.{serve, sessions_never_share, one_step_per_request}
use sts2_rl.Api.Server.Status.{HasStatus, answer-HasStatus}
use sts2_rl.Api.Server.Correlation.{IsAnswer, handle_request-IsAnswer}
use sts2_rl.Api.Identifiers.Ledger.{SessionLedger, begin, complete}
use sts2_rl.Api.Validation.{check_payload}
use sts2_rl.Api.Require.{require}
use sts2_rl.Api.Dto.{member, request_id_for}
use sts2_rl.Api.Decimal.{decimal, padded}
use sts2_rl.Api.Server.Replay.{handle_request-again}

abbrev completed : Payload
completed = ("status", str "completed") ∷ []

abbrev toy : Instances
toy = record {
  Instance = ℕ;
  instance_type = λ i. "combat";
  create = λ kind id config. ok 0;
  start_instance_response = λ i. (ok (dict (of_entries completed)), i);
  perform = λ i call. (ok (dict (of_entries completed)), i + 1);
  close = λ i. none;
}

abbrev digest : Payload → String
digest p = text_of (field_of p "request_id")

abbrev render : Message → String
render m = "rejected"

abbrev request : String → ℕ → String → String → Payload → Payload
request session n id operation rest =
    ("schema_version", str "0.8")
    ∷ ("client_session_id", str session)
    ∷ ("request_seq", int (pos n))
    ∷ ("request_id", str id)
    ∷ ("operation", str operation)
    ∷ rest

abbrev config : Payload
config = ("instance_type", str "combat") ∷ []

abbrev start_a : Payload
start_a = request "a" 1 "a:1" "start_instance" (("instance_config", dict (of_entries config)) ∷ [])

abbrev start_b : Payload
start_b = request "b" 1 "b:1" "start_instance" (("instance_config", dict (of_entries config)) ∷ [])

abbrev server : Server toy digest render
server = record {
  runtime = record { instances = []; instance_serial = 1 };
  sessions = [];
  max_sessions = 4;
  server_epoch = "e";
}

server_is_new : new_server toy digest render 4 "e" ≡ some server
unfolding new_server
server_is_new = refl

abbrev both : List Payload
both = start_a ∷ start_b ∷ []

abbrev decide_a : Payload
decide_a =
    request "a" 2 "a:2" "get_decision"
      (("instance_id", str "inst-000001") ∷ ("branch_id", str "root") ∷ [])

active_a :
    active_at toy digest render (serve toy digest render server both) "a" ≡ some "inst-000001"
unfolding serve handle_request Dict.get check_payload require str_discrete member request_id_for
    decimal entries of_entries field_of begin Dict.put complete execute_new_request instance_id_for
    padded
active_a = refl

active_b :
    active_at toy digest render (serve toy digest render server both) "b" ≡ some "inst-000002"
unfolding serve handle_request Dict.get check_payload require str_discrete member request_id_for
    decimal entries of_entries field_of begin Dict.put complete execute_new_request instance_id_for
    padded
active_b = refl

-- The third request reaches the instance of its session.
decided :
    Dict.get
      (serve toy digest render server (start_a ∷ start_b ∷ decide_a ∷ [])).runtime.instances
      "inst-000001"
    ≡ some 1
unfolding serve handle_request Dict.get check_payload require str_discrete member request_id_for
    decimal entries of_entries field_of begin Dict.put complete execute_new_request instance_id_for
    padded
decided = refl

a_is_not_b : session_of toy digest render decide_a ≢ "b"
unfolding field_of Dict.get str_discrete
a_is_not_b = λ e. cc ((eq_iff "a" "b").1 e)

names_differ : ◌≢◌ {A = String} "a" "b"
names_differ = λ e. cc ((eq_iff "a" "b").1 e)

handle_request-again_example :
    handle_request toy digest render
      (handle_request toy digest render (serve toy digest render server both) decide_a).1
      decide_a
    ≡ handle_request toy digest render (serve toy digest render server both) decide_a
handle_request-again_example =
    handle_request-again toy digest render (serve toy digest render server both) decide_a

sessions_never_share_example :
    active_at toy digest render (serve toy digest render server both) "b" ≢ some "inst-000001"
sessions_never_share_example =
    sessions_never_share toy digest render 4 "e" server both "a" "b" "inst-000001" server_is_new
      names_differ active_a

one_step_per_request_example :
    ((handle_request toy digest render (serve toy digest render server both) decide_a).1
      ≡ serve toy digest render server both)
    ⊎ ((number_of toy digest render decide_a
          ≡ last_of toy digest render (
              Dict.get
                (serve toy digest render server both).sessions
                (session_of toy digest render decide_a))
            + 1)
        × (last_of toy digest render (
              Dict.get
                (handle_request toy digest render
                  (serve toy digest render server both)
                  decide_a).1.sessions
                (session_of toy digest render decide_a))
            ≡ number_of toy digest render decide_a))
one_step_per_request_example =
    one_step_per_request toy digest render (serve toy digest render server both) decide_a

answer-HasStatus_example :
    HasStatus (handle_request toy digest render (serve toy digest render server both) decide_a).0
answer-HasStatus_example =
    answer-HasStatus toy digest render 4 "e" server both decide_a server_is_new

handle_request-IsAnswer_example :
    ((l : SessionLedger) × (Dict.get
          (serve toy digest render server both).sessions
          (session_of toy digest render decide_a)
        ≡ some l)
      × (l.last_response
          ≡ some
              (handle_request toy digest render (serve toy digest render server both) decide_a).0))
    ⊎ IsAnswer toy digest render
        (serve toy digest render server both).server_epoch
        decide_a
        (handle_request toy digest render (serve toy digest render server both) decide_a).0
handle_request-IsAnswer_example =
    handle_request-IsAnswer toy digest render (serve toy digest render server both) decide_a
