-- ===== src/Api/Tcp.antt =====
-- API/tcp_server.py: one client stream of newline-delimited JSON in front of the handler. A stream is
-- the list of what its reader gives; the handler's lock makes each call whole.
pub mod Binding
mod Examples
use sts2_rl.Prelude.{
  ℕ, zero, suc, ◌+◌, String, Bool, true, false, ◌&&◌, not, Option, none, some, List, [], ◌∷◌,
  Result, ok, err, ◌>>◌, raise_if, str_eq, leb, if◌then◌else◌,
}
use sts2_rl.Prelude.Dict
use sts2_rl.Prelude.Dict.{Dict}
use sts2_rl.Prelude.Key.{str_key, str_discrete}
use sts2_rl.Prelude.Int.{ℤ, pos, negsuc, is_positive}
use sts2_rl.Api.Value.{Value, null, bool, int, float, str, list, dict, Payload, entries}
use sts2_rl.Api.Dto.{schema_version, member}
use sts2_rl.Api.Faults.{field_of, fault_response}

-- The `ValueError`s of the constructor.
pub data TcpError : Type 0 where
  empty_host bad_port bad_max_message_bytes : TcpError

abbrev is_port : ℤ → Bool
is_port (pos n) = leb n 65535
is_port (negsuc n) = false

unfoldable pub check_tcp_server : String → ℤ → ℤ → Result TcpError (Unit {0})
check_tcp_server host port max_message_bytes = do
  raise_if (str_eq host "") empty_host
  raise_if (not (is_port port)) bad_port
  raise_if (not (is_positive max_message_bytes)) bad_max_message_bytes

-- What `readline` gives: an error when the reader's limit is passed, or a line `B` with its length
-- in bytes and whether it ends with a newline. At the end of the stream the length is 0.
pub data Raw (B : Type 0) : Type 0 where
  overrun : Raw B
  raw : ℕ → Bool → B → Raw B

pub data Line (B : Type 0) : Type 0 where
  finished too_large : Line B
  line : B → Line B

sized : {B : Type 0} → Bool → Bool → B → Line B
sized false newline b = too_large
sized true false b = finished
sized true true b = line b

unfoldable pub read_line : {B : Type 0} → ℕ → Raw B → Line B
unfolding sized
read_line max_message_bytes overrun = too_large
read_line max_message_bytes (raw zero newline b) = finished
read_line max_message_bytes (raw (suc n) newline b) =
    sized (leb (suc n) max_message_bytes) newline b

abbrev pub message_too_large : ℕ → Payload
message_too_large max_message_bytes =
    ("transport_error", str "message_too_large")
    ∷ ("direction", str "request")
    ∷ ("max_message_bytes", int (pos max_message_bytes))
    ∷ []

abbrev pub transport_error : String → String → Payload
transport_error kind error = ("transport_error", str kind) ∷ ("error", str error) ∷ []

abbrev required_keys : List String
required_keys = "transport_operation" ∷ "schema_version" ∷ "client_session_id" ∷ []

-- set(payload) == required_keys
only_required : Payload → Bool
only_required [] = true
only_required ((k, v) ∷ payload) = member k required_keys && only_required payload

abbrev is_present : Payload → String → Bool
is_present payload k = elim (Dict.get payload k) [ none ↦ false | some _ ↦ true ]

has_required : Payload → List String → Bool
has_required payload [] = true
has_required payload (k ∷ ks) = is_present payload k && has_required payload ks

abbrev pub has_text : String → Value → Bool
has_text s (str t) = str_eq t s
has_text s v = false

-- A session that differs from the one that the stream is bound to.
abbrev differs_from : Option String → String → Bool
differs_from none session_id = false
differs_from (some bound) session_id = not (str_eq session_id bound)

bind_session : String → Payload → Option String → String → Payload × Option String
bind_session server_epoch payload current_session_id session_id =
    if not (has_text schema_version (field_of payload "schema_version"))
    then (
      ("transport_error", str "unsupported_schema")
          ∷ ("requested_schema_version", field_of payload "schema_version")
          ∷ ("supported_schema_version", str schema_version)
          ∷ [],
      none,
    )
    else if differs_from current_session_id session_id
    then (
      transport_error "session_mismatch" "one TCP stream may bind only one client_session_id",
      none,
    )
    else (
      ("transport_operation", str "hello")
          ∷ ("schema_version", str schema_version)
          ∷ ("server_epoch", str server_epoch)
          ∷ ("client_session_id", str session_id)
          ∷ [],
      some session_id,
    )

abbrev no_session : Payload × Option String
no_session = (transport_error "invalid_hello" "client_session_id must be a non-empty string", none)

hello_session : String → Payload → Option String → Value → Payload × Option String
unfolding bind_session
hello_session server_epoch payload current_session_id (str session_id) =
    if str_eq session_id ""
    then no_session
    else bind_session server_epoch payload current_session_id session_id
hello_session server_epoch payload current_session_id v = no_session

unfoldable pub handle_hello : String → Payload → Option String → Payload × Option String
unfolding hello_session only_required has_required
handle_hello server_epoch payload current_session_id =
    if only_required payload && has_required payload required_keys
    then hello_session server_epoch payload current_session_id
        (field_of payload "client_session_id")
    else (
      transport_error "invalid_hello"
          "hello must contain exactly transport_operation, schema_version, and client_session_id",
      none,
    )

-- payload == {"transport_operation": "ping"}
abbrev is_ping : Payload → Bool
is_ping ((k, str v) ∷ []) = str_eq k "transport_operation" && str_eq v "ping"
is_ping _ = false

-- `parse` is `json.loads`, with the text of its error. `handler` may raise, with the error's text.
module _ {B H : Type 0} (parse : B → Result String Value)
    (handler : H → Payload → Result String Value × H) where
  pub record Stream : Type 0 where
    pub hello_session_id : Option String
    pub handled : H

  answer_of : Payload → Result String Value → Payload
  answer_of payload (ok (dict fs)) = entries fs
  answer_of payload (ok v) =
      fault_response payload "TypeError: RL handler returned a non-dict response"
  answer_of payload (err error) = fault_response payload error

  call_handler : Stream → Payload → Payload × Stream
  unfolding answer_of
  call_handler s payload =
      let (result, h) = handler s.handled payload in
      (answer_of payload result, record s { handled = h })

  -- API traffic, for the session that the stream is bound to.
  api_traffic : Option String → Stream → Payload → Payload × Stream
  unfolding call_handler
  api_traffic none s payload =
      (transport_error "hello_required" "send transport hello before API traffic", s)
  api_traffic (some session_id) s payload =
      if has_text session_id (field_of payload "client_session_id")
      then call_handler s payload
      else (transport_error "session_mismatch" "API client_session_id differs from stream hello", s)

  abbrev bound : Option String → Option String → Option String
  bound none current = current
  bound (some session_id) current = some session_id

  on_payload : String → Stream → Payload → Payload × Stream
  unfolding handle_hello api_traffic
  on_payload server_epoch s payload =
      if is_ping payload
      then (("transport_operation", str "pong") ∷ ("server_epoch", str server_epoch) ∷ [], s)
      else if has_text "hello" (field_of payload "transport_operation")
      then (let (response, session) = handle_hello server_epoch payload s.hello_session_id in
          (response, record s { hello_session_id = bound session s.hello_session_id }))
      else api_traffic s.hello_session_id s payload

  on_message : String → Stream → Result String Value → Payload × Stream
  unfolding on_payload
  on_message server_epoch s (err error) = (transport_error "invalid_json" error, s)
  on_message server_epoch s (ok (dict fs)) = on_payload server_epoch s (entries fs)
  on_message server_epoch s (ok v) =
      (transport_error "invalid_message" "top-level JSON value must be an object", s)

  -- The responses that are written, and the stream's end. The loop stops at the first line that is
  -- no line.
  unfoldable pub handle_client : ℕ → String → List (Raw B) → Stream → List Payload × Stream
  unfolding read_line on_message
  handle_client max_message_bytes server_epoch [] s = ([], s)
  handle_client max_message_bytes server_epoch (r ∷ reads) s =
      elim (read_line max_message_bytes r) [
        | finished ↦ ([], s)
        | too_large ↦ (message_too_large max_message_bytes ∷ [], s)
        | line b ↦
            let (response, s') = on_message server_epoch s (parse b) in
            let (rest, end) = handle_client max_message_bytes server_epoch reads s' in
            (response ∷ rest, end)
      ]
