-- ===== src/Api/Server/Sessions.antt =====
-- The server as a whole, from its construction on: who owns which instance.
use sts2_rl.Prelude.{
  ℕ, ◌+◌, ◌≤◌, ◌≡◌, ◌≢◌, ◌⊎◌, refl, sym, ap, subst, ◌∙◌, String, some, arith, inl, inr, length,
}
use sts2_rl.Prelude.Dict
use sts2_rl.Prelude.Dict.{get-put, length-put-le, length-put_known}
use sts2_rl.Prelude.Key.{str_key}
use sts2_rl.Api.Value.{Payload}
use sts2_rl.Api.Rejected.{Message}
use sts2_rl.Api.Server.Dispatch.{Instances}
use sts2_rl.Api.Server.{Server, run_new, handle_request, new_server}
use sts2_rl.Api.Server.Effect.{
  session_of, number_of, active_of, last_of, refused, replayed, executed, handle_request-Effect,
}
use sts2_rl.Prelude.{List, [], ◌∷◌}
use sts2_rl.Api.Server.Isolation.{
  active_at, IsOwned, after-get, after-issued, after-exclusive, after-length, after-last,
}

module _ (given : Instances) (digest : Payload → String) (render : Message → String) where
  -- The sessions' instances stay apart: if every session's instance has a serial number given out
  -- before and no two sessions hold the same one, that holds after any request.
  pub handle_request-IsOwned :
      (s : Server given digest render) (p : Payload)
      → IsOwned given digest render s
      → IsOwned given digest render (handle_request given digest render s p).1
  handle_request-IsOwned s p w = elim (handle_request-Effect given digest render s p) [
    | refused x e ↦ subst (IsOwned given digest render) (sym (ap (λ h. h.1) e)) w
    | replayed l r k m d e ↦ subst (IsOwned given digest render) (sym (ap (λ h. h.1) e)) w
    | executed t l o e ↦ subst (IsOwned given digest render) (sym (ap (λ h. h.1) e)) (record {
      issued = after-issued given digest render s t p l o w;
      exclusive = after-exclusive given digest render s t p l o w;
    })
  ]

  -- A request has no effect on the ledgers of the other sessions.
  other_sessions_kept :
      (s : Server given digest render) (p : Payload) (other : String)
      → session_of given digest render p ≢ other
      → Dict.get (handle_request given digest render s p).1.sessions other
        ≡ Dict.get s.sessions other
  other_sessions_kept s p other ne = elim (handle_request-Effect given digest render s p) [
    | refused x e ↦ rw e refl
    | replayed l r k m d e ↦ rw e refl
    | executed t l o e ↦ rw e (after-get given digest render s t p l o other ne)
  ]

  request_within_limit :
      (s : Server given digest render) (p : Payload)
      → length s.sessions ≤ s.max_sessions
      → (length (handle_request given digest render s p).1.sessions ≤ s.max_sessions)
        × ((handle_request given digest render s p).1.max_sessions ≡ s.max_sessions)
  unfolding run_new
  request_within_limit s p room = elim (handle_request-Effect given digest render s p) [
    | refused x e ↦ rw e (room, refl)
    | replayed l r k m d e ↦ rw e (room, refl)
    | executed t l o e ↦ rw e (after-length given digest render s t p l o room, o.capacity)
  ]

  -- A request either changes nothing on the server, or carries the number after the last one of
  -- its session, which then is the last one.
  pub one_step_per_request :
      (s : Server given digest render) (p : Payload)
      → ((handle_request given digest render s p).1 ≡ s)
        ⊎ ((number_of given digest render p
              ≡ last_of given digest render (Dict.get s.sessions (session_of given digest render p))
                + 1)
            × (last_of given digest render (
                  Dict.get
                    (handle_request given digest render s p).1.sessions
                    (session_of given digest render p))
                ≡ number_of given digest render p))
  one_step_per_request s p = elim (handle_request-Effect given digest render s p) [
    | refused x e ↦ rw e (inl refl)
    | replayed l r k m d e ↦ rw e (inl refl)
    | executed t l o e ↦ rw e (inr (o.in_order, after-last given digest render s t p l o))
  ]

  -- The server after some requests, the first of the list first.
  unfoldable pub serve : Server given digest render → List Payload → Server given digest render
  serve s [] = s
  serve s (p ∷ ps) = serve (handle_request given digest render s p).1 ps

  pub new_server-sessions :
      (limit : ℕ) (epoch : String) (s : Server given digest render)
      → new_server given digest render limit epoch ≡ some s
      → s.sessions ≡ []
  unfolding new_server
  new_server-sessions limit epoch s e = ground arith

  no_active :
      (s : Server given digest render) (session id : String)
      → s.sessions ≡ []
      → active_at given digest render s session ≡ some id
      → ⊥
  unfolding Dict.get
  no_active s session id e a =
      cc (sym (ap (λ m. active_of given digest render (Dict.get m session)) e) ∙ a)

  new_server-IsOwned :
      (limit : ℕ) (epoch : String) (s : Server given digest render)
      → new_server given digest render limit epoch ≡ some s
      → IsOwned given digest render s
  new_server-IsOwned limit epoch s e =
      let empty = new_server-sessions limit epoch s e in
      record {
        issued = λ session id a. absurd (no_active s session id empty a);
        exclusive = λ a b id x y. absurd (no_active s a id empty x);
      }

  serve-IsOwned :
      (s : Server given digest render) (ps : List Payload)
      → IsOwned given digest render s
      → IsOwned given digest render (serve s ps)
  unfolding serve
  serve-IsOwned s [] w = w
  serve-IsOwned s (p ∷ ps) w =
      serve-IsOwned (handle_request given digest render s p).1 ps (handle_request-IsOwned s p w)

  -- Whatever requests a new server has handled, the instance that one session holds is
  -- held by no other.
  pub sessions_never_share :
      (limit : ℕ) (epoch : String) (s : Server given digest render) (ps : List Payload)
      (a b id : String)
      → new_server given digest render limit epoch ≡ some s
      → a ≢ b
      → active_at given digest render (serve s ps) a ≡ some id
      → active_at given digest render (serve s ps) b ≢ some id
  sessions_never_share limit epoch s ps a b id e ne x y =
      ne ((serve-IsOwned s ps (new_server-IsOwned limit epoch s e)).exclusive a b id x y)

  serve_within_limit :
      (s : Server given digest render) (ps : List Payload)
      → length s.sessions ≤ s.max_sessions
      → length (serve s ps).sessions ≤ s.max_sessions
  unfolding serve
  serve_within_limit s [] room = room
  serve_within_limit s (p ∷ ps) room =
      let (less, same) = request_within_limit s p room in
      subst (λ limit. length (serve (handle_request given digest render s p).1 ps).sessions ≤ limit)
        same
        (serve_within_limit (handle_request given digest render s p).1 ps
          (omega (arith, less, same)))

  -- Whatever requests a new server handles, it has at most `max_sessions` sessions.
  sessions_within_limit :
      (limit : ℕ) (epoch : String) (s : Server given digest render) (ps : List Payload)
      → new_server given digest render limit epoch ≡ some s
      → length (serve s ps).sessions ≤ limit
  unfolding new_server
  sessions_within_limit limit epoch s ps e =
      let empty = new_server-sessions limit epoch s e in
      ground (arith, serve_within_limit s ps (ground (arith, empty)))
