-- ===== src/Api/Server/Correlation.antt =====
-- Every answer carries the identity of its request.
use sts2_rl.Prelude.{
  ◌≡◌, ◌⊎◌, inl, inr, refl, subst, ◌∙◌, String, some, arith, Bool-cases, str_eq, eq_iff,
  if◌then◌else◌, false,
}
use sts2_rl.Prelude.Dict
use sts2_rl.Prelude.Dict.{get-put}
use sts2_rl.Prelude.Key.{str_key}
use sts2_rl.Api.Value.{Value, null, bool, int, float, str, list, dict, Payload}
use sts2_rl.Api.Dto.{schema_version}
use sts2_rl.Api.Rejected.{Message}
use sts2_rl.Api.Faults.{field_of, with_instance_id}
use sts2_rl.Api.Identifiers.Ledger.{SessionLedger}
use sts2_rl.Api.Server.Dispatch.{Instances}
use sts2_rl.Api.Server.{Server, wrap, run_new, handle_request}
use sts2_rl.Api.Server.Effect.{session_of, refused, replayed, executed, handle_request-Effect}

pub field_of-put :
    (r : Payload) (f g : String) (v : Value)
    → field_of (Dict.put r f v) g ≡ (if str_eq f g then v else field_of r g)
unfolding field_of
field_of-put r f g v = elim (Bool-cases (str_eq f g)) [
  | inl y ↦ ground (arith, y, (eq_iff f g).0 y, get-put r f g v)
  | inr n ↦ ground (arith, n, (eq_iff f g).1, get-put r f g v)
]

pub field_with_instance_id :
    (id : Value) (r : Payload) (g : String)
    → str_eq "instance_id" g ≡ false
    → field_of (with_instance_id id r) g ≡ field_of r g
field_with_instance_id null r g ne = refl
field_with_instance_id (bool b) r g ne = rw (field_of-put, ne) refl
field_with_instance_id (int z) r g ne = rw (field_of-put, ne) refl
field_with_instance_id (float x) r g ne = rw (field_of-put, ne) refl
field_with_instance_id (str x) r g ne = rw (field_of-put, ne) refl
field_with_instance_id (list x) r g ne = rw (field_of-put, ne) refl
field_with_instance_id (dict x) r g ne = rw (field_of-put, ne) refl

module _ (given : Instances) (digest : Payload → String) (render : Message → String) where
  -- The answer `r` names the request `p` and the process that answered.
  abbrev pub IsAnswer : String → Payload → Payload → Type 0
  IsAnswer epoch p r =
      (field_of r "schema_version" ≡ str schema_version)
      × (field_of r "server_epoch" ≡ str epoch)
      × (field_of r "client_session_id" ≡ field_of p "client_session_id")
      × (field_of r "request_seq" ≡ field_of p "request_seq")
      × (field_of r "request_id" ≡ field_of p "request_id")
      × (field_of r "operation" ≡ field_of p "operation")

  wrap-IsAnswer :
      (epoch : String) (p r : Payload) → IsAnswer epoch p (wrap given digest render epoch p r)
  unfolding wrap
  wrap-IsAnswer epoch p r =
      let id = field_of p "instance_id" in
      (
        field_with_instance_id id _ _ refl ∙ simp (field_of-put),
        field_with_instance_id id _ _ refl ∙ simp (field_of-put),
        field_with_instance_id id _ _ refl ∙ simp (field_of-put),
        field_with_instance_id id _ _ refl ∙ simp (field_of-put),
        field_with_instance_id id _ _ refl ∙ simp (field_of-put),
        field_with_instance_id id _ _ refl ∙ simp (field_of-put),
      )

  run_new-IsAnswer :
      (s : Server given digest render) (p : Payload) (l : SessionLedger) (session : String)
      → IsAnswer s.server_epoch p (run_new given digest render s session p l).0
  unfolding run_new
  run_new-IsAnswer s p l session = wrap-IsAnswer s.server_epoch p _

  -- An answer is the one that the session's ledger has on record, or it carries the schema version,
  -- the server's epoch, and the request's session, number, id and operation, whatever the handler
  -- has returned or raised.
  pub handle_request-IsAnswer :
      (s : Server given digest render) (p : Payload)
      → ((l : SessionLedger) × (Dict.get s.sessions (session_of given digest render p) ≡ some l)
          × (l.last_response ≡ some (handle_request given digest render s p).0))
        ⊎ IsAnswer s.server_epoch p (handle_request given digest render s p).0
  handle_request-IsAnswer s p = elim (handle_request-Effect given digest render s p) [
    | refused x e ↦ inr (rw e (wrap-IsAnswer s.server_epoch p _))
    | replayed l r k m d e ↦ inl (l, k, rw e m)
    | executed t l o e ↦ inr (
        rw e (
          subst
            (λ epoch.
              IsAnswer epoch p
                (run_new given digest render t (session_of given digest render p) p l).0)
            o.epoch (run_new-IsAnswer t p l (session_of given digest render p))))
  ]
