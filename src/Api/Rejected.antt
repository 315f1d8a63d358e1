-- ===== src/Api/Rejected.antt =====
-- `RequestRejected`: the errors that the API answers with status "rejected". A message is kept as
-- the values that its text shows, one constructor for each `raise`.
use sts2_rl.Prelude.{ℕ, String, Option, none, some}

pub data PyType : Type 0 where
  a_str a_int a_list a_dict : PyType

pub data Message : Type 0 where
  -- validation.py
  missing is_bool empty : String → Message
  wrong_type : String → PyType → Message
  options_not_object bad_option not_positive : String → Message
  bad_stop_condition no_items : Message
  item_not_object duplicate_branch bad_item_rng : ℕ → Message
  bad_item_field : ℕ → String → Message
  not_object : Message
  bad_schema bad_request_id unknown_operation : String → Message
  bad_seq no_instance_type bad_god_mode : Message
  not_root_branch not_root_rng rng_not_positive no_branch_ids bad_branch_ids : Message
  -- identifiers.py
  seq_reused seq_in_flight : ℕ → Message
  seq_expected : ℕ → ℕ → Message
  branch_used no_active_decision : String → Message
  stale_decision : String → String → String → Message
  -- server.py
  new_session_seq : ℕ → Message
  no_capacity : Message
  owns_instance not_owned unknown_instance unhandled : String → Message
  unsupported_operation : String → Message
  unknown_instance_type : Message

pub record Rejection : Type 0 where
  pub error : Message
  pub fault_kind : Option String

-- `raise RequestRejected(error)`
abbrev pub reject : Message → Rejection
reject m = record { error = m; fault_kind = none }

-- `raise RequestRejected(error, fault_kind=kind)`
abbrev pub reject_as : Message → String → Rejection
reject_as m kind = record { error = m; fault_kind = some kind }
