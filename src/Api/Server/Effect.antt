-- ===== src/Api/Server/Effect.antt =====
-- The three things that a request can do to the server.
use sts2_rl.Prelude.{
  ℕ, ◌+◌, ◌<◌, ◌≡◌, ◌⊎◌, refl, ap, String, Bool, true, false, Option, none, some, Result, ok, err,
  arith, Option-cases, inl, inr, leb, ◌==◌, length,
}
use sts2_rl.Prelude.Dict
use sts2_rl.Prelude.Key.{str_key}
use sts2_rl.Api.Value.{Payload}
use sts2_rl.Api.Rejected.{Message, Rejection, reject_as, new_session_seq, no_capacity}
use sts2_rl.Api.Faults.{field_of}
use sts2_rl.Api.Validation.{check_payload}
use sts2_rl.Api.Identifiers.Ledger.{
  SessionLedger, new_ledger, begin, begin_new, begin_cached, begin_first,
}
use sts2_rl.Api.Server.Dispatch.{Instances, text_of}
use sts2_rl.Api.Server.{
  Server, wrap, open_session, run_new, seq_of, after_validation, handle_request, rejected_fields,
  invalid,
}

module _ (given : Instances) (digest : Payload → String) (render : Message → String) where
  abbrev pub session_of : Payload → String
  session_of p = text_of (field_of p "client_session_id")

  abbrev pub number_of : Payload → ℕ
  number_of p = seq_of given digest render (field_of p "request_seq")

  abbrev pub active_of : Option SessionLedger → Option String
  active_of none = none
  active_of (some l) = l.active_instance_id

  abbrev pub last_of : Option SessionLedger → ℕ
  last_of none = 0
  last_of (some l) = l.last_seq

  abbrev pub refusal : Payload → Server given digest render → Rejection → Payload
  refusal p s x = wrap given digest render s.server_epoch p (rejected_fields given digest render x)

  -- The server `t` is `s` with the session of `p` there, and `l` is its ledger with the request
  -- begun.
  pub record IsOpened (s t : Server given digest render) (p : Payload) (l : SessionLedger)
      : Type 0 where
    pub runtime : t.runtime ≡ s.runtime
    pub capacity : t.max_sessions ≡ s.max_sessions
    pub epoch : t.server_epoch ≡ s.server_epoch
    pub sessions :
        ((t.sessions ≡ s.sessions)
          × ((l' : SessionLedger) × (Dict.get s.sessions (session_of p) ≡ some l')))
        ⊎ ((t.sessions ≡ Dict.put s.sessions (session_of p) new_ledger)
            × (length s.sessions < s.max_sessions))
    pub active : l.active_instance_id ≡ active_of (Dict.get s.sessions (session_of p))
    pub begun : l.last_seq ≡ number_of p
    pub in_order : number_of p ≡ last_of (Dict.get s.sessions (session_of p)) + 1

  pub data Effect (s : Server given digest render) (p : Payload)
      (h : Payload × Server given digest render) : Type 0 where
    refused : (x : Rejection) → h ≡ (refusal p s x, s) → Effect s p h
    replayed :
        (l : SessionLedger) (r : Payload)
        → Dict.get s.sessions (session_of p) ≡ some l
        → l.last_response ≡ some r
        → l.last_digest ≡ some (digest p)
        → h ≡ (r, s)
        → Effect s p h
    executed :
        (t : Server given digest render) (l : SessionLedger)
        → IsOpened s t p l
        → h ≡ run_new given digest render t (session_of p) p l
        → Effect s p h

  module _ (p : Payload) (valid : check_payload p ≡ ok tt) where
    known-Effect :
        (s : Server given digest render) (l : SessionLedger)
        → Dict.get s.sessions (session_of p) ≡ some l
        → (b : Result Rejection (Option Payload × SessionLedger))
        → begin l (number_of p) (digest p) ≡ b
        → Effect s p (handle_request given digest render s p)
    unfolding handle_request
    known-Effect s l e (err x) b = refused x (rw (valid, after_validation, e, open_session, b))
    known-Effect s l e (ok (some cached, l')) b =
        let (_, d, r, _) = begin_cached l l' (number_of p) (digest p) cached b in
        replayed l cached e r d (rw (valid, after_validation, e, open_session, b))
    known-Effect s l e (ok (none, l')) b =
        let (n, same) = begin_new l l' (number_of p) (digest p) b in
        executed s l'
          (record {
            runtime = refl;
            capacity = refl;
            epoch = refl;
            sessions = inl (refl, (l, e));
            active = ground (arith, same, e);
            begun = ap (λ (x : SessionLedger). x.last_seq) same;
            in_order = ground (arith, n, e);
          })
          (rw (valid, after_validation, e, open_session, b))

    first-Effect :
        (s : Server given digest render)
        → Dict.get s.sessions (session_of p) ≡ none
        → (a b : Bool) → (number_of p == 1) ≡ a
        → leb s.max_sessions (length s.sessions) ≡ b
        → Effect s p (handle_request given digest render s p)
    unfolding handle_request
    first-Effect s e false b one room =
        refused (reject_as (new_session_seq (number_of p)) "session_sequence_gap")
          (rw (valid, after_validation, e, open_session, one))
    first-Effect s e true true one room =
        refused (reject_as no_capacity "session_capacity_exceeded")
          (rw (valid, after_validation, e, open_session, one, room))
    first-Effect s e true false one room =
        executed (record s { sessions = Dict.put s.sessions (session_of p) new_ledger })
          (record new_ledger { last_seq = number_of p; last_digest = some (digest p) })
          (record {
            runtime = refl;
            capacity = refl;
            epoch = refl;
            sessions = inr (refl, ground arith);
            active = ground (arith, e);
            begun = refl;
            in_order = ground (arith, e);
          })
          (rw (
            valid,
            after_validation,
            e,
            open_session,
            one,
            room,
            begin_first (number_of p) (digest p) one,
          ))

  checked-Effect :
      (s : Server given digest render) (p : Payload) (v : Result Rejection (Unit {0}))
      → check_payload p ≡ v
      → Effect s p (handle_request given digest render s p)
  unfolding handle_request
  checked-Effect s p (err x) v = refused (invalid given digest render x) (rw (v, after_validation))
  checked-Effect s p (ok _) v = elim (Option-cases (Dict.get s.sessions (session_of p))) [
    | inl e ↦ first-Effect p v s e _ _ refl refl
    | inr (l, e) ↦ known-Effect p v s l e _ refl
  ]

  -- Every request is refused, answered from the ledger, or executed as the next of its session.
  pub handle_request-Effect :
      (s : Server given digest render) (p : Payload)
      → Effect s p (handle_request given digest render s p)
  handle_request-Effect s p = checked-Effect s p (check_payload p) refl
