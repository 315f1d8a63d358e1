-- ===== src/Api/Tcp/Examples.antt =====
-- A stream that says hello for one session and then tries another.
use sts2_rl.Api.Dto.{member}
use sts2_rl.Prelude.Key.{str_discrete}
use sts2_rl.Prelude.Dict.{get}
use sts2_rl.Api.Value.{entries}
use sts2_rl.Prelude.{ℕ, ◌+◌, ◌≡◌, ◌⊎◌, refl, String, true, none, List, [], ◌∷◌, Result, ok}
use sts2_rl.Prelude.Key.{str_key}
use sts2_rl.Api.Value.{Value, str, dict, Payload, of_entries}
use sts2_rl.Api.Faults.{field_of}
use sts2_rl.Api.Tcp.{Raw, raw, Stream, handle_client}
use sts2_rl.Api.Tcp.Binding.{Serves, handle_client-Serves}

abbrev parse : Payload → Result String Value
parse p = ok (dict (of_entries p))

-- A handler that counts its calls.
abbrev count : ℕ → Payload → Result String Value × ℕ
count n p = (ok (dict (of_entries p)), n + 1)

abbrev hello : Payload
hello =
    ("transport_operation", str "hello")
    ∷ ("schema_version", str "0.8")
    ∷ ("client_session_id", str "a")
    ∷ []

abbrev of_session : String → Payload
of_session session = ("client_session_id", str session) ∷ []

abbrev reads : List (Raw Payload)
reads =
    raw 10 true (of_session "a")
    ∷ raw 10 true hello
    ∷ raw 10 true (of_session "a")
    ∷ raw 10 true (of_session "b")
    ∷ raw 10 true (of_session "a")
    ∷ []

abbrev begun : Stream parse count
begun = record { hello_session_id = none; handled = 0 }

-- Two of the five lines reach the handler.
two_calls : (handle_client parse count 100 "e" reads begun).1.handled ≡ 2
unfolding handle_client entries of_entries field_of get str_discrete member
two_calls = refl

handle_client-Serves_example :
    (((handle_client parse count 100 "e" reads begun).1.hello_session_id ≡ none)
      × ((handle_client parse count 100 "e" reads begun).1.handled ≡ 0))
    ⊎ ((sid : String) × Serves parse count sid 0 (handle_client parse count 100 "e" reads begun).1)
handle_client-Serves_example = handle_client-Serves parse count 100 "e" reads begun refl
