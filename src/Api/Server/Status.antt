-- ===== src/Api/Server/Status.antt =====
-- Every answer has one of the statuses of the protocol.
use sts2_rl.Prelude.{
  ◌≡◌, inl, inr, refl, sym, ap, subst, ◌∙◌, ℕ, String, some, arith, List, [], ◌∷◌, Bool-cases, true,
}
use sts2_rl.Prelude.Dict
use sts2_rl.Prelude.Dict.{get-put}
use sts2_rl.Prelude.Key.{str_key, str_discrete}
use sts2_rl.Api.Value.{Value, null, bool, int, float, str, list, dict, Payload, entries}
use sts2_rl.Api.Dto.{statuses, member}
use sts2_rl.Api.Rejected.{Message, Rejection}
use sts2_rl.Api.Faults.{field_of, fault_response}
use sts2_rl.Api.Identifiers.Ledger.{SessionLedger, complete, new_ledger}
use sts2_rl.Api.Server.Dispatch.{Instances, execute_new_request}
use sts2_rl.Api.Server.{
  Server, new_server, wrap, with_status, invalid_status, rejected_fields, run_new, handle_request,
}
use sts2_rl.Api.Server.Effect.{
  session_of, IsOpened, refused, replayed, executed, handle_request-Effect,
}
use sts2_rl.Api.Server.Correlation.{field_of-put, field_with_instance_id}
use sts2_rl.Api.Server.Sessions.{serve, new_server-sessions}

abbrev pub HasStatus : Payload → Type 0
HasStatus r = (st : String) × (field_of r "status" ≡ str st) × (member st statuses ≡ true)

fault-HasStatus : (p : Payload) (error : String) → HasStatus (fault_response p error)
unfolding fault_response str_discrete member
fault-HasStatus p error = (
  "faulted",
  field_with_instance_id (field_of p "instance_id") _ _ refl ∙ (unfold field_of Dict.get in refl),
  refl,
)

module _ (given : Instances) (digest : Payload → String) (render : Message → String) where
  with_status-HasStatus :
      (p : Payload) (v : Value) → HasStatus (with_status given digest render p v)
  unfolding with_status invalid_status
  with_status-HasStatus p (dict fs) = by_status (field_of (entries fs) "status") refl
    where
      by_status :
          (v : Value)
          → field_of (entries fs) "status" ≡ v
          → HasStatus (with_status given digest render p (dict fs))
      by_status (str st) e = elim (Bool-cases (member st statuses)) [
        | inl m ↦ rw (with_status, e, m) (st, e, m)
        | inr m ↦ rw (with_status, e, m) (fault-HasStatus p _)
      ]
      by_status null e = rw (with_status, e) (fault-HasStatus p _)
      by_status (bool x) e = rw (with_status, e) (fault-HasStatus p _)
      by_status (int x) e = rw (with_status, e) (fault-HasStatus p _)
      by_status (float x) e = rw (with_status, e) (fault-HasStatus p _)
      by_status (list x) e = rw (with_status, e) (fault-HasStatus p _)
      by_status (dict x) e = rw (with_status, e) (fault-HasStatus p _)
  with_status-HasStatus p null = fault-HasStatus p _
  with_status-HasStatus p (bool x) = fault-HasStatus p _
  with_status-HasStatus p (int x) = fault-HasStatus p _
  with_status-HasStatus p (float x) = fault-HasStatus p _
  with_status-HasStatus p (str x) = fault-HasStatus p _
  with_status-HasStatus p (list x) = fault-HasStatus p _

  wrap-HasStatus :
      (epoch : String) (p r : Payload)
      → HasStatus r
      → HasStatus (wrap given digest render epoch p r)
  unfolding wrap
  wrap-HasStatus epoch p r (st, e, m) =
      (st, field_with_instance_id (field_of p "instance_id") _ _ refl ∙ simp (field_of-put, e), m)

  run_new-HasStatus :
      (s : Server given digest render) (p : Payload) (l : SessionLedger) (session : String)
      → HasStatus (run_new given digest render s session p l).0
  unfolding run_new
  run_new-HasStatus s p l session = wrap-HasStatus s.server_epoch p _ (with_status-HasStatus p _)

  refused-HasStatus :
      (epoch : String) (p : Payload) (x : Rejection)
      → HasStatus (wrap given digest render epoch p (rejected_fields given digest render x))
  unfolding rejected_fields str_discrete member
  refused-HasStatus epoch p x =
      wrap-HasStatus epoch p _ ("rejected", (unfold field_of Dict.get in refl), refl)

  -- The response on record, if there is one, has a status.
  abbrev Recorded : Server given digest render → Type 0
  Recorded s =
      (session : String) (l : SessionLedger) (r : Payload)
      → Dict.get s.sessions session ≡ some l
      → l.last_response ≡ some r
      → HasStatus r

  opened-Recorded :
      (s t : Server given digest render) (p : Payload) (l : SessionLedger)
      → IsOpened given digest render s t p l
      → Recorded s
      → Recorded t
  opened-Recorded s t p l o w session l' r k m = elim o.sessions [
    | inl (e, _) ↦ w session l' r (sym (ap (λ d. Dict.get d session) e) ∙ k) m
    | inr (e, _) ↦ elim (str_discrete (session_of given digest render p) session) [
      | yes same ↦ absurd (
          new_has_none (
            ground (
              arith,
              k,
              e,
              same,
              get-put s.sessions (session_of given digest render p) session new_ledger,
            )))
      | no ne ↦
          w session l' r
            (ground (
              arith,
              k,
              e,
              get-put s.sessions (session_of given digest render p) session new_ledger,
            ))
            m
    ]
  ]
    where
      new_has_none : l' ≡ new_ledger → ⊥
      new_has_none same = cc (sym m ∙ ap (λ (x : SessionLedger). x.last_response) same)

  run_new-Recorded :
      (t : Server given digest render) (p : Payload) (l : SessionLedger) (sid : String)
      → Recorded t
      → Recorded (run_new given digest render t sid p l).1
  unfolding run_new complete
  run_new-Recorded t p l sid w session l' r k m =
      let x = execute_new_request given p t.runtime l in
      let answer = (run_new given digest render t sid p l).0 in
      elim (str_discrete sid session) [
        | yes same ↦
            subst HasStatus
              (ground (arith, k, m, get-put t.sessions sid session (complete x.1.1 answer)))
              (run_new-HasStatus t p l sid)
        | no ne ↦
            w session l' r
              (ground (arith, k, get-put t.sessions sid session (complete x.1.1 answer))) m
      ]

  request-HasStatus :
      (s : Server given digest render) (p : Payload)
      → Recorded s
      → HasStatus (handle_request given digest render s p).0
        × Recorded (handle_request given digest render s p).1
  request-HasStatus s p w = elim (handle_request-Effect given digest render s p) [
    | refused x e ↦ rw e (refused-HasStatus s.server_epoch p x, w)
    | replayed l r k m d e ↦ rw e (w (session_of given digest render p) l r k m, w)
    | executed t l o e ↦ rw e (
      run_new-HasStatus t p l (session_of given digest render p),
      run_new-Recorded t p l (session_of given digest render p) (opened-Recorded s t p l o w),
    )
  ]

  serve-Recorded :
      (s : Server given digest render) (ps : List Payload)
      → Recorded s
      → Recorded (serve given digest render s ps)
  unfolding serve
  serve-Recorded s [] w = w
  serve-Recorded s (p ∷ ps) w =
      serve-Recorded (handle_request given digest render s p).1 ps (request-HasStatus s p w).1

  -- Whatever requests a new server has handled, its answer to any further request, a replayed one
  -- included, has one of the statuses of the protocol.
  pub answer-HasStatus :
      (limit : ℕ) (epoch : String) (s : Server given digest render) (ps : List Payload)
      (p : Payload)
      → new_server given digest render limit epoch ≡ some s
      → HasStatus (handle_request given digest render (serve given digest render s ps) p).0
  unfolding Dict.get
  answer-HasStatus limit epoch s ps p e =
      let empty = new_server-sessions given digest render limit epoch s e in
      let none_recorded : Recorded s =
        λ session l r k m. absurd (cc (sym (ap (λ d. Dict.get d session) empty) ∙ k)) in
      (request-HasStatus (serve given digest render s ps) p (serve-Recorded s ps none_recorded)).0
