-- ===== src/Api/Server/Dispatch/Contract.antt =====
-- What the execution of a request may change.
use sts2_rl.Prelude.{
  ◌+◌, ◌≤◌, ◌<◌, ◌≡◌, ◌⊎◌, inl, inr, refl, String, true, Option, none, some, Result, ok, err, arith,
  Option-cases, Bool-cases, str_eq, eq_iff,
}
use sts2_rl.Prelude.Dict
use sts2_rl.Prelude.Dict.{Dict, get-put, get-remove}
use sts2_rl.Prelude.Key.{str_key}
use sts2_rl.Api.Value.{Value, Payload}
use sts2_rl.Api.Faults.{Exception, field_of}
use sts2_rl.Api.Identifiers.Ledger.{SessionLedger}
use sts2_rl.Api.Server.Dispatch.{
  Instances, Runtime, Outcome, instance_id_for, completed_fields, finish_start, run_start,
  handle_start_instance, handle_close_instance, call_of, is_supported, store, dispatch, on_instance,
  owns, start_owned, execute_new_request, text_of,
}

module _ (given : Instances) where
  open given use {Instance, instance_type, create, start_instance_response, perform, close}

  -- The sequence part of the ledger stays, serial numbers grow, the session keeps its instance,
  -- drops it or gets the one with the current serial number, and no instance changes but the
  -- session's and that one.
  pub record Contract (rt : Runtime given) (l : SessionLedger) (o : Outcome given) : Type 0 where
    pub seq : o.1.1.last_seq ≡ l.last_seq
    pub digest : o.1.1.last_digest ≡ l.last_digest
    pub serial : rt.instance_serial ≤ o.1.0.instance_serial
    pub active :
        (o.1.1.active_instance_id ≡ l.active_instance_id)
        ⊎ (o.1.1.active_instance_id ≡ none)
        ⊎ ((o.1.1.active_instance_id ≡ some (instance_id_for rt.instance_serial))
            × (rt.instance_serial < o.1.0.instance_serial))
    pub others :
        (j : String)
        → (Dict.get o.1.0.instances j ≡ Dict.get rt.instances j)
          ⊎ (l.active_instance_id ≡ some j)
          ⊎ (j ≡ instance_id_for rt.instance_serial)

  finish_start-others :
      (r : Result Exception Value) (instance first : Instance) (id : String) (rt : Runtime given)
      (l : SessionLedger) (j : String)
      → (Dict.get
            (finish_start given r instance id
              (record rt { instances = Dict.put rt.instances id first })
              l).1.0.instances
            j
          ≡ Dict.get rt.instances j)
        ⊎ (j ≡ id)
  unfolding finish_start
  finish_start-others (err e) instance first id rt l j =
      ground
        (arith, get-put rt.instances id j first, get-remove (Dict.put rt.instances id first) id j)
  finish_start-others (ok v) instance first id rt l j =
      elim (Option-cases (completed_fields given v)) [
        | inl e ↦
            rw (e, finish_start)
              (ground (
                arith,
                get-put rt.instances id j first,
                get-remove (Dict.put rt.instances id first) id j,
              ))
        | inr (fs, e) ↦
            rw (e, finish_start)
              (ground (
                arith,
                get-put rt.instances id j first,
                get-put (Dict.put rt.instances id first) id j instance,
              ))
      ]

  finish_start-rest :
      (r : Result Exception Value) (instance : Instance) (id : String) (rt : Runtime given)
      (l : SessionLedger)
      → ((finish_start given r instance id rt l).1.1.last_seq ≡ l.last_seq)
        × ((finish_start given r instance id rt l).1.1.last_digest ≡ l.last_digest)
        × ((finish_start given r instance id rt l).1.0.instance_serial ≡ rt.instance_serial)
        × (((finish_start given r instance id rt l).1.1.active_instance_id ≡ l.active_instance_id)
            ⊎ ((finish_start given r instance id rt l).1.1.active_instance_id ≡ some id))
  unfolding finish_start
  finish_start-rest (err e) instance id rt l = (refl, refl, refl, inl refl)
  finish_start-rest (ok v) instance id rt l = elim (Option-cases (completed_fields given v)) [
    | inl e ↦ rw (e, finish_start) (refl, refl, refl, inl refl)
    | inr (fs, e) ↦ rw (e, finish_start) (refl, refl, refl, inr refl)
  ]

  run_start-Contract :
      (c : Result Exception Instance) (rt : Runtime given) (l : SessionLedger)
      → Contract rt l (
          run_start given c
            (instance_id_for rt.instance_serial)
            (record rt { instance_serial = rt.instance_serial + 1 })
            l)
  unfolding run_start
  run_start-Contract (err e) rt l = record {
    seq = refl;
    digest = refl;
    serial = omega arith;
    active = inl refl;
    others = λ j. inl refl;
  }
  run_start-Contract (ok instance) rt l =
      let (response, instance') = start_instance_response instance in
      let id : String = instance_id_for rt.instance_serial in
      let rt' : Runtime given = record rt { instance_serial = rt.instance_serial + 1 } in
      let (s, d, n, a) =
        finish_start-rest response instance' id
          (record rt' { instances = Dict.put rt.instances id instance }) l in
      record {
        seq = s;
        digest = d;
        serial = omega arith;
        active = elim a [ inl e ↦ inl e | inr e ↦ inr (inr (e, omega arith)) ];
        others = λ j. elim (finish_start-others response instance' instance id rt' l j) [
          | inl e ↦ inl e
          | inr e ↦ inr (inr e)
        ];
      }

  -- An outcome that leaves the runtime and the ledger alone.
  same-Contract :
      (r : Result Exception Value) (rt : Runtime given) (l : SessionLedger)
      → Contract rt l (r, (rt, l))
  same-Contract r rt l = record {
    seq = refl;
    digest = refl;
    serial = omega arith;
    active = inl refl;
    others = λ j. inl refl;
  }

  start_owned-Contract :
      (o : Option String) (payload : Payload) (rt : Runtime given) (l : SessionLedger)
      → Contract rt l (start_owned given o payload rt l)
  unfolding start_owned handle_start_instance
  start_owned-Contract none payload rt l = run_start-Contract _ rt l
  start_owned-Contract (some active) payload rt l = same-Contract _ rt l

  module _ (rt : Runtime given) (l : SessionLedger) (id : String)
      (owned : l.active_instance_id ≡ some id) where
    close-Contract :
        (instance : Instance) → Contract rt l (handle_close_instance given id instance rt l)
    unfolding handle_close_instance
    close-Contract instance = record {
      seq = refl;
      digest = refl;
      serial = omega arith;
      active = inr (inl refl);
      others = λ j. ground (arith, get-remove rt.instances id j);
    }

    store-Contract : (r : Result Exception Value × Instance) → Contract rt l (store given id r rt l)
    unfolding store
    store-Contract (r, instance) = record {
      seq = refl;
      digest = refl;
      serial = omega arith;
      active = inl refl;
      others = λ j. ground (arith, get-put rt.instances id j instance);
    }

    dispatch-Contract :
        (operation : String) (payload : Payload) (instance : Instance)
        → Contract rt l (dispatch given operation payload id instance rt l)
    unfolding dispatch
    dispatch-Contract operation payload instance =
        elim (Bool-cases (is_supported given operation (instance_type instance))) [
          | inl y ↦ elim (Option-cases (call_of given operation payload)) [
            | inl e ↦ rw (y, e, dispatch) (same-Contract _ rt l)
            | inr (call, e) ↦ rw (y, e, dispatch) (store-Contract (perform instance call))
          ]
          | inr n ↦ rw n (same-Contract _ rt l)
        ]

    on_instance-Contract :
        (operation : String) (payload : Payload) (o : Option Instance)
        → Contract rt l (on_instance given operation payload id o rt l)
    unfolding on_instance
    on_instance-Contract operation payload none = same-Contract _ rt l
    on_instance-Contract operation payload (some instance) =
        elim (Bool-cases (str_eq operation "close_instance")) [
          | inl y ↦ rw y (close-Contract instance)
          | inr n ↦ rw n (dispatch-Contract operation payload instance)
        ]

  owns-eq : (o : Option String) (id : String) → owns given o id ≡ true → o ≡ some id
  owns-eq none id h = cc
  owns-eq (some active) id h = ground (arith, eq_iff active id)

  -- Whatever the instances do, executing a request keeps to the contract.
  pub execute-Contract :
      (payload : Payload) (rt : Runtime given) (l : SessionLedger)
      → Contract rt l (execute_new_request given payload rt l)
  unfolding execute_new_request
  execute-Contract payload rt l =
      let operation = text_of (field_of payload "operation") in
      let id = text_of (field_of payload "instance_id") in
      elim (Bool-cases (str_eq operation "start_instance")) [
        | inl y ↦ rw y (start_owned-Contract l.active_instance_id payload rt l)
        | inr n ↦ elim (Bool-cases (owns given l.active_instance_id id)) [
          | inl o ↦
              rw (n, o)
                (on_instance-Contract rt l id (owns-eq l.active_instance_id id o) operation payload
                  (Dict.get rt.instances id))
          | inr o ↦ rw (n, o) (same-Contract _ rt l)
        ]
      ]
