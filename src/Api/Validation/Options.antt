-- ===== src/Api/Validation/Options.antt =====
-- `_validate_simulation_options` of API/validation.py.
pub mod Accepted
use sts2_rl.Prelude.{
  String, Option, none, some, List, [], ◌∷◌, Result, ok, err, ◌>>◌, str_eq, if◌then◌else◌,
}
use sts2_rl.Prelude.Dict
use sts2_rl.Prelude.Key.{str_key}
use sts2_rl.Prelude.Int.{is_positive}
use sts2_rl.Api.Value.{Value, null, int, str, list, dict, Payload, entries, or_null}
use sts2_rl.Api.Dto.{member}
use sts2_rl.Api.Rejected.{
  PyType, a_str, a_int, a_list, a_dict, Rejection, reject, options_not_object, bad_option,
  not_positive, bad_stop_condition,
}

abbrev pub option_type : String → Option PyType
option_type key =
    if str_eq key "stop_condition"
    then some a_str
    else if member key ("max_depth" ∷ "max_steps" ∷ "max_time_ms" ∷ "max_hypotheses" ∷ [])
    then some a_int
    else none

abbrev pub supported_stop_conditions : List String
supported_stop_conditions = "next_decision" ∷ "combat_end" ∷ "room_end" ∷ "run_end" ∷ []

-- One round of the loop over `options.items()`. No option of the table is a list or an object.
unfoldable pub check_option : String → Option PyType → Value → Result Rejection (Unit {0})
check_option key none v = ok tt
check_option key (some t) null = ok tt
check_option key (some a_int) (int z) =
    if is_positive z then ok tt else err (reject (not_positive key))
check_option key (some a_int) v = err (reject (not_positive key))
check_option key (some a_str) (str s) = ok tt
check_option key (some a_list) (list vs) = ok tt
check_option key (some a_dict) (dict fs) = ok tt
check_option key (some t) v = err (reject (bad_option key))

unfoldable pub check_options : Payload → Result Rejection (Unit {0})
unfolding check_option
check_options [] = ok tt
check_options ((key, v) ∷ rest) = do check_option key (option_type key) v; check_options rest

-- A text that passed the loop; any other value that is not `None` is in no set of texts.
unfoldable pub check_stop_condition : Value → Result Rejection (Unit {0})
check_stop_condition null = ok tt
check_stop_condition (str s) =
    if member s supported_stop_conditions then ok tt else err (reject bad_stop_condition)
check_stop_condition v = err (reject bad_stop_condition)

unfoldable pub validate_options : Value → Result Rejection (Unit {0})
unfolding check_options check_stop_condition
validate_options null = ok tt
validate_options (dict fs) = do
  check_options (entries fs)
  check_stop_condition (or_null (Dict.get (entries fs) "stop_condition"))
validate_options v = err (reject (options_not_object "simulation_options"))

-- `payload.get("simulation_options")`, where a missing field reads as `None`.
unfoldable pub validate_simulation_options : Payload → Result Rejection (Unit {0})
unfolding validate_options
validate_simulation_options payload =
    validate_options (or_null (Dict.get payload "simulation_options"))
