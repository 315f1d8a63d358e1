-- ===== src/Api/Server/Isolation.antt =====
-- What a request changes of the table of sessions and of the table of instances.
use text.Mathlib.TextLemmas.{append_cancel_left}
use sts2_rl.Prelude.{
  ℕ, ◌≤◌, ◌<◌, ◌≡◌, ◌≢◌, ◌⊎◌, sym, ap, subst, ◌∙◌, String, Option, none, some, arith, inl, inr,
  length,
}
use sts2_rl.Prelude.Dict
use sts2_rl.Prelude.Dict.{get-put, length-put-le, length-put_known}
use sts2_rl.Prelude.Key.{str_key, str_discrete}
use sts2_rl.Api.Decimal.{padded_inj}
use sts2_rl.Api.Value.{Payload}
use sts2_rl.Api.Rejected.{Message}
use sts2_rl.Api.Identifiers.Ledger.{SessionLedger, new_ledger, complete}
use sts2_rl.Api.Server.Dispatch.{Instances, instance_id_for, execute_new_request}
use sts2_rl.Api.Server.Dispatch.Contract.{execute-Contract}
use sts2_rl.Api.Server.{Server, run_new}
use sts2_rl.Api.Server.Effect.{session_of, number_of, active_of, last_of, IsOpened}

pub instance_id_for_inj : (m n : ℕ) → instance_id_for m ≡ instance_id_for n → m ≡ n
unfolding instance_id_for
instance_id_for_inj m n e = padded_inj m n (append_cancel_left "inst-" _ _ e)

module _ (given : Instances) (digest : Payload → String) (render : Message → String) where
  abbrev pub active_at : Server given digest render → String → Option String
  active_at s session = active_of given digest render (Dict.get s.sessions session)

  -- Every instance that a session holds has a serial number that was given out, and no two
  -- sessions hold one instance.
  pub record IsOwned (s : Server given digest render) : Type 0 where
    pub issued :
        (session id : String)
        → active_at s session ≡ some id
        → (n : ℕ) × (id ≡ instance_id_for n) × (n < s.runtime.instance_serial)
    pub exclusive : (a b id : String) → active_at s a ≡ some id → active_at s b ≡ some id → a ≡ b

  module _ (s t : Server given digest render) (p : Payload) (l : SessionLedger)
      (o : IsOpened given digest render s t p l) where
    -- The server after the execution.
    abbrev pub after : Server given digest render
    after = (run_new given digest render t (session_of given digest render p) p l).1

    opened-get :
        (other : String)
        → session_of given digest render p ≢ other
        → Dict.get t.sessions other ≡ Dict.get s.sessions other
    opened-get other ne = elim o.sessions [
      | inl (e, _) ↦ ap (λ m. Dict.get m other) e
      | inr (e, _) ↦
          ap (λ m. Dict.get m other) e
          ∙ ground (arith, get-put s.sessions (session_of given digest render p) other new_ledger)
    ]

    pub after-get :
        (other : String)
        → session_of given digest render p ≢ other
        → Dict.get after.sessions other ≡ Dict.get s.sessions other
    unfolding run_new
    after-get other ne =
        let x = execute_new_request given p t.runtime l in
        let r = (run_new given digest render t (session_of given digest render p) p l).0 in
        ground (
          arith,
          opened-get other,
          get-put t.sessions (session_of given digest render p) other (complete x.1.1 r),
        )

    pub after-instances :
        (id : String)
        → (Dict.get after.runtime.instances id ≡ Dict.get s.runtime.instances id)
          ⊎ (active_at s (session_of given digest render p) ≡ some id)
          ⊎ (id ≡ instance_id_for s.runtime.instance_serial)
    unfolding run_new
    after-instances id =
        ground (arith, (execute-Contract given p t.runtime l).others id, o.runtime, o.active)

    after-active-other :
        (other id : String)
        → session_of given digest render p ≢ other
        → active_of given digest render (Dict.get after.sessions other) ≡ some id
        → active_at s other ≡ some id
    after-active-other other id ne e = ground (arith, after-get other ne)

    after-active :
        (active_at after (session_of given digest render p)
          ≡ active_at s (session_of given digest render p))
        ⊎ (active_at after (session_of given digest render p) ≡ none)
        ⊎ ((active_at after (session_of given digest render p)
              ≡ some (instance_id_for s.runtime.instance_serial))
            × (s.runtime.instance_serial < after.runtime.instance_serial))
    unfolding run_new complete
    after-active =
        let x = execute_new_request given p t.runtime l in
        let r = (run_new given digest render t (session_of given digest render p) p l).0 in
        ground (
          arith,
          (execute-Contract given p t.runtime l).active,
          get-put t.sessions (session_of given digest render p) (session_of given digest render p)
              (complete x.1.1 r),
          o.runtime,
          o.active,
        )

    after-serial : s.runtime.instance_serial ≤ after.runtime.instance_serial
    unfolding run_new
    after-serial = ground (arith, (execute-Contract given p t.runtime l).serial, o.runtime)

    pub after-last :
        last_of given digest render (Dict.get after.sessions (session_of given digest render p))
        ≡ number_of given digest render p
    unfolding run_new complete
    after-last =
        let x = execute_new_request given p t.runtime l in
        let r = (run_new given digest render t (session_of given digest render p) p l).0 in
        ground (
          arith,
          (execute-Contract given p t.runtime l).seq,
          get-put t.sessions (session_of given digest render p) (session_of given digest render p)
              (complete x.1.1 r),
          o.begun,
        )

    pub after-length : length s.sessions ≤ s.max_sessions → length after.sessions ≤ s.max_sessions
    unfolding run_new
    after-length room =
        let x = execute_new_request given p t.runtime l in
        let r = (run_new given digest render t (session_of given digest render p) p l).0 in
        let v = complete x.1.1 r in
        elim o.sessions [
          | inl (e, (l', k)) ↦
              ground (arith, length-put_known t.sessions (session_of given digest render p) l' v)
          | inr (e, less) ↦ ground (
            arith,
            length-put_known t.sessions (session_of given digest render p) new_ledger v,
            get-put s.sessions (session_of given digest render p) (session_of given digest render p)
                new_ledger,
            length-put-le s.sessions (session_of given digest render p) new_ledger,
          )
        ]

    pub after-issued :
        IsOwned s
        → (session id : String) → active_at after session ≡ some id
        → (n : ℕ) × (id ≡ instance_id_for n) × (n < after.runtime.instance_serial)
    after-issued w session id e = elim (str_discrete (session_of given digest render p) session) [
      | yes same ↦ elim after-active [
        | inl a ↦ later (w.issued session id (ground (arith, a, e, same)))
        | inr (inl a) ↦ ground (arith, a, e, same)
        | inr (inr (a, lt)) ↦ (s.runtime.instance_serial, ground (arith, a, e, same), lt)
      ]
      | no ne ↦ later (w.issued session id (after-active-other session id ne e))
    ]
      where
        later :
            (n : ℕ) × (id ≡ instance_id_for n) × (n < s.runtime.instance_serial)
            → (n : ℕ) × (id ≡ instance_id_for n) × (n < after.runtime.instance_serial)
        later (n, i, lt) = (n, i, omega (arith, after-serial))

    -- The session of the request shares its instance with no other.
    after-alone :
        IsOwned s
        → (other id : String) → session_of given digest render p ≢ other
        → active_at after (session_of given digest render p) ≡ some id
        → active_at after other ≡ some id
        → ⊥
    after-alone w other id ne here there =
        let there' = after-active-other other id ne there in
        elim after-active [
          | inl a ↦
              ne (w.exclusive (session_of given digest render p) other id (sym a ∙ here) there')
          | inr (inl a) ↦ cc (a, here)
          | inr (inr (a, lt)) ↦
              let (n, i, less) = w.issued other id there' in
              omega (arith, instance_id_for_inj n s.runtime.instance_serial (cc (i, a, here)), less)
        ]

    pub after-exclusive :
        IsOwned s
        → (a b id : String) → active_at after a ≡ some id
        → active_at after b ≡ some id
        → a ≡ b
    after-exclusive w a b id x y = elim (str_discrete (session_of given digest render p) a) [
      | yes e ↦ elim (str_discrete (session_of given digest render p) b) [
        | yes f ↦ sym e ∙ f
        | no f ↦
            absurd (after-alone w b id f (subst (λ c. active_at after c ≡ some id) (sym e) x) y)
      ]
      | no e ↦ elim (str_discrete (session_of given digest render p) b) [
        | yes f ↦
            absurd (after-alone w a id e (subst (λ c. active_at after c ≡ some id) (sym f) y) x)
        | no f ↦ w.exclusive a b id (after-active-other a id e x) (after-active-other b id f y)
      ]
    ]
