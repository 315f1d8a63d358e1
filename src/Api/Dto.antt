-- ===== src/Api/Dto.antt =====
-- API/dto.py: the constants of the wire contract that the model uses, and the request id.
use Prim.Native.String.{◌++◌ as str_append}
use sts2_rl.Prelude.{ℕ, String, Bool, false, ◌||◌, List, [], ◌∷◌, str_eq}
use sts2_rl.Api.Decimal.{decimal}

-- `x in frozenset({…})`
unfoldable pub member : String → List String → Bool
member s [] = false
member s (t ∷ ts) = str_eq s t || member s ts

abbrev pub schema_version : String
schema_version = "0.8"

abbrev pub supported_schema_versions : List String
supported_schema_versions = schema_version ∷ []

abbrev pub operations : List String
operations =
    "start_instance" ∷ "get_decision" ∷ "commit_action" ∷ "emulate_action" ∷ "emulate_actions"
    ∷ "cancel_branches" ∷ "release_branches" ∷ "get_branch_status" ∷ "close_instance" ∷ []

abbrev pub statuses : List String
statuses =
    "completed" ∷ "partial" ∷ "queued" ∷ "running" ∷ "cancelled" ∷ "rejected" ∷ "faulted"
    ∷ "released" ∷ []

abbrev pub root_branch_id : String
root_branch_id = "root"

abbrev pub root_rng_id : ℕ
root_rng_id = 0

-- f"{client_session_id}:{request_seq}"
unfoldable pub request_id_for : String → ℕ → String
request_id_for client_session_id request_seq =
    str_append client_session_id (str_append ":" (decimal request_seq))
