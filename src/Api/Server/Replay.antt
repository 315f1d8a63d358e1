-- ===== src/Api/Server/Replay.antt =====
-- Sending a request again.
use sts2_rl.Prelude.{
  ℕ, ◌≡◌, refl, sym, ap, subst, ◌∙◌, String, Bool, true, false, Option, none, some, Result, ok, err,
  arith, Option-cases, inl, inr, leb, ◌==◌, length,
}
use sts2_rl.Prelude.Dict
use sts2_rl.Prelude.Dict.{Dict, get-put}
use sts2_rl.Prelude.Key.{str_key}
use sts2_rl.Api.Value.{Payload}
use sts2_rl.Api.Rejected.{Message, Rejection, reject_as, new_session_seq, no_capacity}
use sts2_rl.Api.Faults.{field_of}
use sts2_rl.Api.Validation.{check_payload}
use sts2_rl.Api.Identifiers.Ledger.{
  SessionLedger, new_ledger, begin, complete, begin_new, begin_again, begin_first,
}
use sts2_rl.Api.Server.Dispatch.{Instances, text_of, execute_new_request}
use sts2_rl.Api.Server.Dispatch.Contract.{execute-Contract}
use sts2_rl.Api.Server.{
  Server, wrap, open_session, run_new, seq_of, after_validation, handle_request, rejected_fields,
  invalid,
}

module _ (given : Instances) (digest : Payload → String) (render : Message → String) where
  abbrev Handled : Type 0
  Handled = Payload × Server given digest render

  -- The same request, sent to the server that is left.
  abbrev Repeats : Payload → Handled → Type 0
  Repeats p h = handle_request given digest render h.1 p ≡ h

  abbrev refusal : Payload → Server given digest render → Rejection → Payload
  refusal p s x = wrap given digest render s.server_epoch p (rejected_fields given digest render x)

  unchanged-Repeats :
      (p : Payload) (s : Server given digest render) (r : Payload)
      → handle_request given digest render s p ≡ (r, s)
      → Repeats p (handle_request given digest render s p)
  unchanged-Repeats p s r e = subst (Repeats p) (sym e) e

  module _ (p : Payload) (valid : check_payload p ≡ ok tt) where
    abbrev sid : String
    sid = text_of (field_of p "client_session_id")

    abbrev number : ℕ
    number = seq_of given digest render (field_of p "request_seq")

    -- A ledger that has the response on record replays it.
    handle_known :
        (s : Server given digest render) (l : SessionLedger) (response : Payload)
        → Dict.get s.sessions sid ≡ some l
        → begin l number (digest p) ≡ ok (some response, l)
        → handle_request given digest render s p ≡ (response, s)
    unfolding handle_request
    handle_known s l response e b = rw (valid, after_validation, e, open_session, b)

    -- Executing a new request, whatever it does, leaves its response on record.
    run_new-Repeats :
        (s : Server given digest render) (l : SessionLedger)
        → l.last_seq ≡ number
        → l.last_digest ≡ some (digest p)
        → Repeats p (run_new given digest render s sid p l)
    unfolding run_new
    run_new-Repeats s l e d =
        let o = execute_new_request given p s.runtime l in
        let c = execute-Contract given p s.runtime l in
        let r = (run_new given digest render s sid p l).0 in
        handle_known (run_new given digest render s sid p l).1 (complete o.1.1 r) r
          (ground (arith, get-put s.sessions sid sid (complete o.1.1 r)))
          (begin_again o.1.1 number (digest p) r (c.seq ∙ e) (c.digest ∙ d))

    -- A session that is there.
    known-Repeats :
        (s : Server given digest render) (l : SessionLedger)
        → Dict.get s.sessions sid ≡ some l
        → (b : Result Rejection (Option Payload × SessionLedger)) → begin l number (digest p) ≡ b
        → Repeats p (handle_request given digest render s p)
    unfolding handle_request
    known-Repeats s l e (err x) b =
        unchanged-Repeats p s (refusal p s x) (rw (valid, after_validation, e, open_session, b))
    known-Repeats s l e (ok (some cached, l')) b =
        unchanged-Repeats p s cached (rw (valid, after_validation, e, open_session, b))
    known-Repeats s l e (ok (none, l')) b =
        let (n, same) = begin_new l l' number (digest p) b in
        let ran : handle_request given digest render s p ≡ run_new given digest render s sid p l' =
          rw (valid, after_validation, e, open_session, b) in
        subst (Repeats p) (sym ran) (
          run_new-Repeats s l' (ap (λ (x : SessionLedger). x.last_seq) same)
            (ap (λ (x : SessionLedger). x.last_digest) same))

    -- A session that is new: its ledger takes number 1.
    first-Repeats :
        (s : Server given digest render)
        → Dict.get s.sessions sid ≡ none
        → (a b : Bool) → (number == 1) ≡ a
        → leb s.max_sessions (length s.sessions) ≡ b
        → Repeats p (handle_request given digest render s p)
    unfolding handle_request
    first-Repeats s e false b one room =
        unchanged-Repeats p s
          (refusal p s (reject_as (new_session_seq number) "session_sequence_gap"))
          (rw (valid, after_validation, e, open_session, one))
    first-Repeats s e true true one room =
        unchanged-Repeats p s (refusal p s (reject_as no_capacity "session_capacity_exceeded"))
          (rw (valid, after_validation, e, open_session, one, room))
    first-Repeats s e true false one room =
        let l : SessionLedger = record new_ledger {
          last_seq = number;
          last_digest = some (digest p);
        } in
        let t : Server given digest render = record s {
          sessions = Dict.put s.sessions sid new_ledger;
        } in
        let ran : handle_request given digest render s p ≡ run_new given digest render t sid p l =
          rw (
            valid,
            after_validation,
            e,
            open_session,
            one,
            room,
            begin_first number (digest p) one,
          ) in
        subst (Repeats p) (sym ran) (run_new-Repeats t l refl refl)

  validated-Repeats :
      (s : Server given digest render) (p : Payload) (v : Result Rejection (Unit {0}))
      → check_payload p ≡ v
      → Repeats p (handle_request given digest render s p)
  unfolding handle_request
  validated-Repeats s p (err x) v =
      unchanged-Repeats p s (refusal p s (invalid given digest render x)) (rw (v, after_validation))
  validated-Repeats s p (ok _) v = elim (Option-cases (Dict.get s.sessions (sid p v))) [
    | inl e ↦ first-Repeats p v s e _ _ refl refl
    | inr (l, e) ↦ known-Repeats p v s l e _ refl
  ]

  -- A retry is idempotent: whatever the request and the state of the server, sending the request
  -- again gives the response that it had, and changes nothing.
  pub handle_request-again :
      (s : Server given digest render) (p : Payload)
      → handle_request given digest render (handle_request given digest render s p).1 p
        ≡ handle_request given digest render s p
  handle_request-again s p = validated-Repeats s p (check_payload p) refl
