-- ===== src/Api/Tcp/Binding.antt =====
-- A stream serves one session.
use sts2_rl.Prelude.{
  ℕ, ◌≡◌, ◌⊎◌, inl, inr, refl, sym, ap, subst, ◌∙◌, String, true, ◌&&◌, Option, none, some, List,
  [], ◌∷◌, Result, ok, err, str_eq, eq_iff, Bool-cases, Option-cases, All, All-append, ◌++◌,
}
use sts2_rl.Prelude.Key.{str_key}
use sts2_rl.Api.Value.{Value, null, bool, int, float, str, list, dict, Payload, entries}
use sts2_rl.Api.Dto.{schema_version}
use sts2_rl.Api.Faults.{field_of}
use sts2_rl.Api.Tcp.{
  Raw, Line, line, finished, too_large, read_line, has_text, is_ping, only_required, has_required,
  required_keys, bind_session, hello_session, handle_hello, Stream, call_handler, api_traffic,
  bound, on_payload, on_message, handle_client,
}

has_text-eq : (s : String) (v : Value) → has_text s v ≡ true → v ≡ str s
has_text-eq s (str t) h = ap (λ x. str x) ((eq_iff t s).0 h)
has_text-eq s null h = cc
has_text-eq s (bool b) h = cc
has_text-eq s (int z) h = cc
has_text-eq s (float x) h = cc
has_text-eq s (list x) h = cc
has_text-eq s (dict x) h = cc

-- Nothing, or the session that is bound already.
abbrev Keeps : String → Option String → Type 0
Keeps sid o = (o ≡ none) ⊎ (o ≡ some sid)

bind_session-Keeps :
    (epoch : String) (p : Payload) (sid session : String)
    → Keeps sid (bind_session epoch p (some sid) session).1
unfolding bind_session
bind_session-Keeps epoch p sid session =
    elim (Bool-cases (has_text schema_version (field_of p "schema_version"))) [
      | inr n ↦ rw n (inl refl)
      | inl y ↦ elim (Bool-cases (str_eq session sid)) [
        | inl same ↦ rw (y, same) (inr (ap (λ x. some x) ((eq_iff session sid).0 same)))
        | inr other ↦ rw (y, other) (inl refl)
      ]
    ]

hello_session-Keeps :
    (epoch : String) (p : Payload) (sid : String) (v : Value)
    → Keeps sid (hello_session epoch p (some sid) v).1
unfolding hello_session
hello_session-Keeps epoch p sid (str session) = elim (Bool-cases (str_eq session "")) [
  | inl y ↦ rw y (inl refl)
  | inr n ↦ rw n (bind_session-Keeps epoch p sid session)
]
hello_session-Keeps epoch p sid null = inl refl
hello_session-Keeps epoch p sid (bool b) = inl refl
hello_session-Keeps epoch p sid (int z) = inl refl
hello_session-Keeps epoch p sid (float x) = inl refl
hello_session-Keeps epoch p sid (list x) = inl refl
hello_session-Keeps epoch p sid (dict x) = inl refl

handle_hello-Keeps :
    (epoch : String) (p : Payload) (sid : String) → Keeps sid (handle_hello epoch p (some sid)).1
unfolding handle_hello
handle_hello-Keeps epoch p sid =
    elim (Bool-cases (only_required p && has_required p required_keys)) [
      | inl y ↦ rw y (hello_session-Keeps epoch p sid (field_of p "client_session_id"))
      | inr n ↦ rw n (inl refl)
    ]

module _ {B H : Type 0} (parse : B → Result String Value)
    (handler : H → Payload → Result String Value × H) where
  -- The handler's state after it has been called with the payloads, one after the other.
  pub calls : H → List Payload → H
  calls h [] = h
  calls h (p ∷ ps) = calls (handler h p).1 ps

  abbrev pub OfSession : String → List Payload → Type 0
  OfSession sid ps = All (λ p. field_of p "client_session_id" ≡ str sid) ps

  -- The stream is bound to the session, and the handler has been called with requests of that
  -- session only.
  abbrev pub Serves : String → H → Stream parse handler → Type 0
  Serves sid h s =
      (s.hello_session_id ≡ some sid)
      × ((ps : List Payload) × (s.handled ≡ calls h ps) × OfSession sid ps)

  bound-Keeps :
      (sid : String) (o : Option String) → Keeps sid o → bound parse handler o (some sid) ≡ some sid
  bound-Keeps sid none k = refl
  bound-Keeps sid (some x) (inl e) = cc e
  bound-Keeps sid (some x) (inr e) = e

  on_payload-Serves :
      (epoch : String) (s : Stream parse handler) (p : Payload) (sid : String)
      → s.hello_session_id ≡ some sid
      → Serves sid s.handled (on_payload parse handler epoch s p).1
  unfolding on_payload api_traffic call_handler calls
  on_payload-Serves epoch s p sid e = elim (Bool-cases (is_ping p)) [
    | inl y ↦ rw y (e, ([], refl, tt))
    | inr n ↦ elim (Bool-cases (has_text "hello" (field_of p "transport_operation"))) [
      | inl y ↦
          rw (n, y)
            (
              ap (λ o. bound parse handler (handle_hello epoch p o).1 o) e
                  ∙ bound-Keeps sid (handle_hello epoch p (some sid)).1
                      (handle_hello-Keeps epoch p sid),
              ([], refl, tt),
            )
      | inr m ↦ elim (Bool-cases (has_text sid (field_of p "client_session_id"))) [
        | inl y ↦ rw (n, m, e, y) (refl, (p ∷ [], refl, (has_text-eq sid _ y, tt)))
        | inr f ↦ rw (n, m, e, f) (refl, ([], refl, tt))
      ]
    ]
  ]

  on_message-Serves :
      (epoch : String) (s : Stream parse handler) (m : Result String Value) (sid : String)
      → s.hello_session_id ≡ some sid
      → Serves sid s.handled (on_message parse handler epoch s m).1
  unfolding on_message calls
  on_message-Serves epoch s (err x) sid e = (e, ([], refl, tt))
  on_message-Serves epoch s (ok (dict fs)) sid e = on_payload-Serves epoch s (entries fs) sid e
  on_message-Serves epoch s (ok null) sid e = (e, ([], refl, tt))
  on_message-Serves epoch s (ok (bool b)) sid e = (e, ([], refl, tt))
  on_message-Serves epoch s (ok (int z)) sid e = (e, ([], refl, tt))
  on_message-Serves epoch s (ok (float x)) sid e = (e, ([], refl, tt))
  on_message-Serves epoch s (ok (str x)) sid e = (e, ([], refl, tt))
  on_message-Serves epoch s (ok (list x)) sid e = (e, ([], refl, tt))

  calls-append : (h : H) (ps qs : List Payload) → calls h (ps ++ qs) ≡ calls (calls h ps) qs
  unfolding calls
  calls-append h [] qs = refl
  calls-append h (p ∷ ps) qs = calls-append (handler h p).1 ps qs

  Line-cases : (l : Line B) → (l ≡ finished) ⊎ (l ≡ too_large) ⊎ ((b : B) × (l ≡ line b))
  Line-cases finished = inl refl
  Line-cases too_large = inr (inl refl)
  Line-cases (line b) = inr (inr (b, refl))

  Serves-trans :
      (sid : String) (h : H) (s t : Stream parse handler)
      → Serves sid h s
      → Serves sid s.handled t
      → Serves sid h t
  Serves-trans sid h s t (e, (ps, f, a)) (e', (qs, g, b)) = (
    e',
    (
      ps ++ qs,
      g ∙ ap (λ k. calls k qs) f ∙ sym (calls-append h ps qs),
      All-append (λ p. field_of p "client_session_id" ≡ str sid) ps qs a b,
    ),
  )

  client-Serves :
      (limit : ℕ) (epoch : String) (reads : List (Raw B)) (s : Stream parse handler) (sid : String)
      → s.hello_session_id ≡ some sid
      → Serves sid s.handled (handle_client parse handler limit epoch reads s).1
  unfolding handle_client calls
  client-Serves limit epoch [] s sid e = (e, ([], refl, tt))
  client-Serves limit epoch (r ∷ reads) s sid e = elim (Line-cases (read_line limit r)) [
    | inl l ↦ rw (handle_client, l) (e, ([], refl, tt))
    | inr (inl l) ↦ rw (handle_client, l) (e, ([], refl, tt))
    | inr (inr (b, l)) ↦
        let s' = (on_message parse handler epoch s (parse b)).1 in
        let first = on_message-Serves epoch s (parse b) sid e in
        rw (handle_client, l)
          (Serves-trans sid s.handled s' (handle_client parse handler limit epoch reads s').1 first
            (client-Serves limit epoch reads s' sid first.0))
  ]

  on_payload-unbound :
      (epoch : String) (s : Stream parse handler) (p : Payload)
      → s.hello_session_id ≡ none
      → (on_payload parse handler epoch s p).1.handled ≡ s.handled
  unfolding on_payload api_traffic
  on_payload-unbound epoch s p e = elim (Bool-cases (is_ping p)) [
    | inl y ↦ rw y refl
    | inr n ↦ elim (Bool-cases (has_text "hello" (field_of p "transport_operation"))) [
      | inl y ↦ rw (n, y) refl
      | inr m ↦ rw (n, m, e) refl
    ]
  ]

  on_message-unbound :
      (epoch : String) (s : Stream parse handler) (m : Result String Value)
      → s.hello_session_id ≡ none
      → (on_message parse handler epoch s m).1.handled ≡ s.handled
  unfolding on_message
  on_message-unbound epoch s (err x) e = refl
  on_message-unbound epoch s (ok (dict fs)) e = on_payload-unbound epoch s (entries fs) e
  on_message-unbound epoch s (ok null) e = refl
  on_message-unbound epoch s (ok (bool b)) e = refl
  on_message-unbound epoch s (ok (int z)) e = refl
  on_message-unbound epoch s (ok (float x)) e = refl
  on_message-unbound epoch s (ok (str x)) e = refl
  on_message-unbound epoch s (ok (list x)) e = refl

  -- A client stream serves one session: whatever lines it brings, either it has said no valid hello
  -- and the handler has not been called, or it is bound to one session and all the requests that
  -- the handler was called with are of that session.
  pub handle_client-Serves :
      (limit : ℕ) (epoch : String) (reads : List (Raw B)) (s : Stream parse handler)
      → s.hello_session_id ≡ none
      → (((handle_client parse handler limit epoch reads s).1.hello_session_id ≡ none)
          × ((handle_client parse handler limit epoch reads s).1.handled ≡ s.handled))
        ⊎ ((sid : String) × Serves sid s.handled
              (handle_client parse handler limit epoch reads s).1)
  unfolding handle_client
  handle_client-Serves limit epoch [] s e = inl (e, refl)
  handle_client-Serves limit epoch (r ∷ reads) s e = elim (Line-cases (read_line limit r)) [
    | inl l ↦ rw (handle_client, l) (inl (e, refl))
    | inr (inl l) ↦ rw (handle_client, l) (inl (e, refl))
    | inr (inr (b, l)) ↦
        let s' = (on_message parse handler epoch s (parse b)).1 in
        let same : s'.handled ≡ s.handled = on_message-unbound epoch s (parse b) e in
        rw (handle_client, l)
          (subst
            (λ h.
              (((handle_client parse handler limit epoch reads s').1.hello_session_id ≡ none)
                × ((handle_client parse handler limit epoch reads s').1.handled ≡ h))
              ⊎ ((sid : String) × Serves sid h
                    (handle_client parse handler limit epoch reads s').1))
            same
            (elim (Option-cases s'.hello_session_id) [
              | inl unbound ↦ handle_client-Serves limit epoch reads s' unbound
              | inr (sid, f) ↦ inr (sid, client-Serves limit epoch reads s' sid f)
            ]))
  ]
