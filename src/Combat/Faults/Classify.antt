-- ===== src/Combat/Faults/Classify.antt =====
-- What is known of a fault once it has been classified.
use sts2_rl.Prelude.{
  ◌≡◌, inl, inr, refl, sym, subst, arith, String, Bool, true, false, ◌&&◌, Option, none, some, List,
  [], ◌∷◌, Result, ok, err, str_eq, eq_iff, Bool-cases, Option-cases,
}
use sts2_rl.Prelude.Dict
use sts2_rl.Prelude.Dict.{Dict}
use sts2_rl.Prelude.Key.{str_key, str_discrete}
use sts2_rl.Api.Dto.{member}
use sts2_rl.Combat.Faults.{
  Fault, diagnostics, exception, FaultError, branch_fault_kinds, fault_by_exception_type,
  fault_by_diagnostic_kind, decision_log_status_by_fault, looked_up, by_type, by_kind,
  or_action_fault, is_restore_error, classify_diagnostics, classify_exception, carried,
  isinstance_order, classify_fault, worker_reuse_policy,
}

abbrev IsBranchFault : String → Type 0
IsBranchFault k = member k branch_fault_kinds ≡ true

abbrev Sound : Result FaultError String → Type 0
Sound (ok k) = IsBranchFault k
Sound (err e) = Unit

-- Every value of the table is a kind of branch fault.
abbrev valued : Dict String String → Bool
valued [] = true
valued ((k, v) ∷ m) = member v branch_fault_kinds && valued m

get-valued :
    (m : Dict String String) (k v : String)
    → valued m ≡ true
    → Dict.get m k ≡ some v
    → IsBranchFault v
unfolding Dict.get
get-valued [] k v h e = cc e
get-valued ((j, w) ∷ m) k v h e = ground (arith, get-valued m k v)

types_valued : valued fault_by_exception_type ≡ true
unfolding member
types_valued = refl

kinds_valued : valued fault_by_diagnostic_kind ≡ true
unfolding member
kinds_valued = refl

order_valued : valued isinstance_order ≡ true
unfolding member
order_valued = refl

looked_up_sound :
    (m : Dict String String) (o : Option String) (k : String)
    → valued m ≡ true
    → looked_up m o ≡ some k
    → IsBranchFault k
looked_up_sound m none k v e = cc e
looked_up_sound m (some j) k v e = get-valued m j k v e

or_action_fault_sound :
    (t : String) → IsBranchFault (or_action_fault (Dict.get fault_by_exception_type t))
unfolding member
or_action_fault_sound t = elim (Option-cases (Dict.get fault_by_exception_type t)) [
  | inl e ↦ rw e refl
  | inr (k, e) ↦ rw e (get-valued fault_by_exception_type t k types_valued e)
]

by_type-Sound : (o : Option String) → Sound (by_type o)
unfolding by_type
by_type-Sound none = tt
by_type-Sound (some t) = elim (Bool-cases (str_eq t "")) [
  | inl y ↦ rw y tt
  | inr n ↦ rw n (or_action_fault_sound t)
]

by_kind-Sound :
    (m : Option String) (fault_kind exception_type : Option String)
    → ((k : String) → m ≡ some k → IsBranchFault k)
    → Sound (by_kind m fault_kind exception_type)
unfolding by_kind
by_kind-Sound none fault_kind exception_type h = by_type-Sound exception_type
by_kind-Sound (some mapped) fault_kind exception_type h =
    elim (Bool-cases (str_eq mapped "action_fault")) [
      | inl y ↦ elim (Bool-cases (is_restore_error exception_type)) [
        | inl z ↦ rw (y, z) (by_type-Sound exception_type)
        | inr n ↦ rw (y, n) (h mapped refl)
      ]
      | inr n ↦ rw n (h mapped refl)
    ]

classify_diagnostics-Sound :
    (m fault_kind exception_type : Option String)
    → ((k : String) → m ≡ some k → IsBranchFault k)
    → Sound (classify_diagnostics m fault_kind exception_type)
unfolding classify_diagnostics
classify_diagnostics-Sound (some k) fault_kind exception_type h = h k refl
classify_diagnostics-Sound none fault_kind exception_type h =
    by_kind-Sound (looked_up fault_by_diagnostic_kind fault_kind) fault_kind exception_type
      (λ k e. looked_up_sound fault_by_diagnostic_kind fault_kind k kinds_valued e)

carried-Sound : (o : Option String) → Sound (carried o)
unfolding carried
carried-Sound none = tt
carried-Sound (some k) = elim (Bool-cases (member k branch_fault_kinds)) [
  | inl y ↦ rw y y
  | inr n ↦ rw n tt
]

classify_exception-Sound :
    (order : List (String × String)) (classes : List String) (fault_kind : Option String)
    → valued order ≡ true
    → Sound (classify_exception order classes fault_kind)
unfolding classify_exception
classify_exception-Sound [] classes fault_kind v = carried-Sound fault_kind
classify_exception-Sound ((t, k) ∷ order) classes fault_kind v =
    elim (Bool-cases (member t classes)) [
      | inl y ↦ rw y (ground arith)
      | inr n ↦ rw n (classify_exception-Sound order classes fault_kind (ground arith))
    ]

classify_fault-Sound : (x : Fault) → Sound (classify_fault x)
unfolding classify_fault
classify_fault-Sound (diagnostics fault_kind exception_type) =
    classify_diagnostics-Sound (looked_up fault_by_exception_type exception_type) fault_kind
      exception_type
      (λ k e. looked_up_sound fault_by_exception_type exception_type k types_valued e)
classify_fault-Sound (exception classes fault_kind) =
    classify_exception-Sound isinstance_order classes fault_kind order_valued

Sound-ok : (r : Result FaultError String) (k : String) → r ≡ ok k → Sound r → IsBranchFault k
Sound-ok (ok j) k e s = ground (arith, e, s)
Sound-ok (err x) k e s = cc e

policy_of_kind :
    (k : String) → IsBranchFault k → (policy : String) × (worker_reuse_policy k ≡ ok policy)
unfolding worker_reuse_policy
policy_of_kind k h = elim (Bool-cases (str_eq k "validation_rejection")) [
  | inl y ↦ ("reuse_safe", rw y refl)
  | inr n ↦ ("force_restart", rw (n, h) refl)
]

abbrev is_some : {A : Type 0} → Option A → Bool
is_some none = false
is_some (some a) = true

-- Every one of the kinds has an entry in the table.
keyed : Dict String String → List String → Bool
keyed m [] = true
keyed m (k ∷ ks) = is_some (Dict.get m k) && keyed m ks

get-keyed :
    (m : Dict String String) (ks : List String) (k : String)
    → keyed m ks ≡ true
    → member k ks ≡ true
    → is_some (Dict.get m k) ≡ true
unfolding keyed member
get-keyed m [] k h e = cc e
get-keyed m (j ∷ ks) k h e = elim (Bool-cases (str_eq k j)) [
  | inl y ↦ subst (λ i. is_some (Dict.get m i) ≡ true) (sym ((eq_iff k j).0 y)) (ground (arith, h))
  | inr n ↦ get-keyed m ks k (ground (arith, h)) (ground (arith, e, n))
]

entry : {A : Type 0} (o : Option A) → is_some o ≡ true → (a : A) × (o ≡ some a)
entry none h = absurd (cc h)
entry (some a) h = (a, refl)

kinds_keyed : keyed decision_log_status_by_fault branch_fault_kinds ≡ true
unfolding keyed Dict.get str_discrete
kinds_keyed = refl

status_of_kind :
    (k : String)
    → IsBranchFault k
    → (status : String) × (Dict.get decision_log_status_by_fault k ≡ some status)
status_of_kind k h =
    entry _ (get-keyed decision_log_status_by_fault branch_fault_kinds k kinds_keyed h)

-- What classification yields is always a kind of branch fault: its worker policy is defined and
-- it has a status for the decision log, so neither lookup fails on it.
classified_is_handled :
    (x : Fault) (k : String)
    → classify_fault x ≡ ok k
    → (member k branch_fault_kinds ≡ true)
      × ((policy : String) × (worker_reuse_policy k ≡ ok policy))
      × ((status : String) × (Dict.get decision_log_status_by_fault k ≡ some status))
classified_is_handled x k e =
    let h = Sound-ok (classify_fault x) k e (classify_fault-Sound x) in
    (h, policy_of_kind k h, status_of_kind k h)
