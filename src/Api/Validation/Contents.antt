-- ===== src/Api/Validation/Contents.antt =====
-- What `validate_request` guarantees of a request that it accepts.
use sts2_rl.Prelude.{
  ℕ, suc, String, ◌≡◌, refl, sym, ap, subst, ◌∙◌, Bool, true, false, not, some, ok, zero, >>=-eq-ok,
  >>-eq-ok, raise_if-eq-ok, str_eq, eq_iff, arith,
}
use sts2_rl.Prelude.Dict
use sts2_rl.Prelude.Key.{str_key}
use sts2_rl.Prelude.Int.{ℤ, pos, negsuc, is_positive, to_nat}
use sts2_rl.Api.Value.{Value, int, dict, Fields, Payload, entries}
use sts2_rl.Api.Dto.{member, schema_version, supported_schema_versions, operations, request_id_for}
use sts2_rl.Api.Require.{require, HasText, require-str, require-int}
use sts2_rl.Api.Rejected.{a_str, a_int}
use sts2_rl.Api.Validation.{check_payload, check_instance_id, check_operation, validate_request}
use sts2_rl.Api.Validation.Fields.{HasFields, accepted-HasFields}

-- The fields that every request has, and those of its operation.
pub record IsRequest (p : Payload) (session operation : String) (seq : ℕ) : Type 0 where
  pub schema : HasText p "schema_version" schema_version
  pub session_id : HasText p "client_session_id" session
  pub sequence : Dict.get p "request_seq" ≡ some (int (pos (suc seq)))
  pub request_id : HasText p "request_id" (request_id_for session (suc seq))
  pub op : HasText p "operation" operation
  pub known : member operation operations ≡ true
  pub fields : HasFields p operation

not-false : (b : Bool) → not b ≡ false → b ≡ true
not-false true h = refl
not-false false h = cc

pos_of_positive : (z : ℤ) → not (is_positive z) ≡ false → (n : ℕ) × (z ≡ pos (suc n))
pos_of_positive (pos zero) h = cc
pos_of_positive (pos (suc n)) h = (n, refl)
pos_of_positive (negsuc n) h = cc

supported : (s : String) → not (member s supported_schema_versions) ≡ false → s ≡ schema_version
unfolding member
supported s h = ground (arith, eq_iff s schema_version)

expected_id :
    (session id : String) (z : ℤ) (n : ℕ)
    → not (str_eq id (request_id_for session (to_nat z))) ≡ false
    → z ≡ pos (suc n)
    → id ≡ request_id_for session (suc n)
expected_id session id z n h e =
    (eq_iff id _).0 (not-false _ h) ∙ ap (λ (y : ℤ). request_id_for session (to_nat y)) e

check_payload-IsRequest :
    (p : Payload)
    → check_payload p ≡ ok tt
    → (session : String) × (operation : String) × (seq : ℕ) × IsRequest p session operation seq
unfolding check_payload
check_payload-IsRequest p h =
    let (version, e₁, h₁) = >>=-eq-ok (require p "schema_version" a_str) _ h in
    let (v, h₂) = raise_if-eq-ok (not (member version supported_schema_versions)) _ _ h₁ in
    let (session, e₂, h₃) = >>=-eq-ok (require p "client_session_id" a_str) _ h₂ in
    let (z, e₃, h₄) = >>=-eq-ok (require p "request_seq" a_int) _ h₃ in
    let (w, h₅) = raise_if-eq-ok (not (is_positive z)) _ _ h₄ in
    let (id, e₄, h₆) = >>=-eq-ok (require p "request_id" a_str) _ h₅ in
    let (u, h₇) = raise_if-eq-ok (not (str_eq id (request_id_for session (to_nat z)))) _ _ h₆ in
    let (operation, e₅, h₈) = >>=-eq-ok (require p "operation" a_str) _ h₇ in
    let (k, h₉) = raise_if-eq-ok (not (member operation operations)) _ _ h₈ in
    let (i, f) = >>-eq-ok (check_instance_id operation p) (check_operation operation p) h₉ in
    let (n, z_pos) = pos_of_positive z w in
    (
      session,
      operation,
      n,
      record {
        schema =
            subst (HasText p "schema_version") (supported version v) (require-str p _ version e₁);
        session_id = require-str p _ session e₂;
        sequence = require-int p _ z e₃ ∙ ap (λ (y : ℤ). some (int y)) z_pos;
        request_id =
            subst (HasText p "request_id") (expected_id session id z n u z_pos)
              (require-str p _ id e₄);
        op = require-str p _ operation e₅;
        known = not-false _ k;
        fields = accepted-HasFields p operation i f;
      },
    )

-- A request that is accepted is an object, which is handed on unchanged. It has the supported
-- schema version, a non-empty session, a positive sequence number, the request id made of these
-- two, and a known operation. It names an instance unless it starts one, and has its operation's
-- fields: an object with an instance type and no `god_mode` but a bool, to start an instance; a branch
-- id for a decision; the root branch, the root's rng, a decision point and an action, to commit one; two
-- branch ids, a positive rng, a decision point and an action, to emulate one; a non-empty list of such
-- items with distinct branch ids, to emulate several; a non-empty list of non-empty branch ids, to
-- cancel, to release or to ask for a status. What emulates has no simulation options, or an object whose
-- limits are positive and whose stop condition is a known one.
pub validate_request-IsRequest :
    (v : Value) (p : Payload)
    → validate_request v ≡ ok p
    → (fs : Fields) × (v ≡ dict fs)
      × (p ≡ entries fs)
      × ((session : String) × (operation : String) × (seq : ℕ) × IsRequest p session operation seq)
unfolding validate_request
validate_request-IsRequest (dict fs) p h =
    let (c, e) = >>-eq-ok (check_payload (entries fs)) _ h in
    let same : entries fs ≡ p = cc in
    (
      fs,
      refl,
      sym same,
      subst
          (λ (q : Payload).
            (session : String) × (operation : String) × (seq : ℕ) × IsRequest q session operation
              seq)
          same (check_payload-IsRequest (entries fs) c),
    )
validate_request-IsRequest v p h = cc
