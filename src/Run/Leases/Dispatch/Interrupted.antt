-- ===== src/Run/Leases/Dispatch/Interrupted.antt =====
-- Which events leave the wait for the answers open, and which ones interrupt it.
use sts2_rl.Prelude.{
  ℕ, ◌+◌, ◌≤◌, ◌≡◌, refl, arith, List, [], ◌∷◌, Bool-cases, Option-cases, inl, inr,
}
use sts2_rl.Run.Leases.{Slot, same_slot, LeaseRegistry}
use sts2_rl.Run.Leases.Dispatch.{
  BranchResult, WorkerPool, WaitError, no_answer, bad_message, did_not_start, Wait, waits, fails,
  gives, Event, timed_out, answered, started, startup_fault, Awaited, starting, refused, ready,
  await_ready, Respawned, respawned, respawn_worker, respawn_all, Pending, Collected, find,
  hung_slots, hung, hang, collect,
}

module _ (J : Type 0) where
  -- How many times nothing came.
  abbrev pub timeouts : List (Event J) → ℕ
  timeouts [] = 0
  timeouts (timed_out ∷ events) = 1 + timeouts events
  timeouts (_ ∷ events) = timeouts events

  -- How many messages tell of a worker's start.
  abbrev pub starts : List (Event J) → ℕ
  starts [] = 0
  starts (started s ∷ events) = 1 + starts events
  starts (startup_fault s ∷ events) = 1 + starts events
  starts (_ ∷ events) = starts events

  -- What there was where a wait raised.
  abbrev pub Cause : WaitError → List (Event J) → Type 0
  Cause no_answer events = 2 ≤ timeouts events
  Cause bad_message events = 1 ≤ timeouts events + starts events
  Cause did_not_start events = (1 ≤ timeouts events) × (1 ≤ starts events)

  -- A wait is open after one timeout at most, and raises for a cause.
  abbrev pub Fair : {A : Type 0} → List (Event J) → Wait A → Type 0
  Fair events waits = timeouts events ≤ 1
  Fair events (fails e pool leases) = Cause e events
  Fair events (gives a) = Unit

  -- The same of a wait that began after a timeout.
  abbrev CauseLater : WaitError → List (Event J) → Type 0
  CauseLater no_answer events = 1 ≤ timeouts events
  CauseLater bad_message events = Unit
  CauseLater did_not_start events = 1 ≤ starts events

  abbrev FairReady : List (Event J) → Awaited J → Type 0
  FairReady events starting = timeouts events ≡ 0
  FairReady events (refused e) = CauseLater e events
  FairReady events (ready rest) = (timeouts rest ≡ timeouts events) × (starts rest ≤ starts events)

  abbrev FairRespawn : List (Event J) → Wait (Respawned J) → Type 0
  FairRespawn events waits = timeouts events ≡ 0
  FairRespawn events (fails e pool leases) = CauseLater e events
  FairRespawn events (gives r) =
      (timeouts r.events ≡ timeouts events) × (starts r.events ≤ starts events)

  grown-FairReady :
      (s : Slot) (events : List (Event J)) (a : Awaited J)
      → FairReady events a
      → FairReady (started s ∷ events) a
  grown-FairReady s events starting h = h
  grown-FairReady s events (refused no_answer) h = h
  grown-FairReady s events (refused bad_message) h = tt
  grown-FairReady s events (refused did_not_start) h = omega (arith, h)
  grown-FairReady s events (ready rest) (h, k) = (h, omega (arith, k))

  await_ready-FairReady :
      (slot : Slot) (events : List (Event J)) → FairReady events (await_ready J slot events)
  unfolding await_ready
  await_ready-FairReady slot [] = refl
  await_ready-FairReady slot (timed_out ∷ events) = omega arith
  await_ready-FairReady slot (answered request_id result ∷ events) = tt
  await_ready-FairReady slot (startup_fault s ∷ events) = omega arith
  await_ready-FairReady slot (started s ∷ events) = elim (Bool-cases (same_slot s slot)) [
    | inl y ↦ rw y (refl, omega arith)
    | inr n ↦ rw n (grown-FairReady s events _ (await_ready-FairReady slot events))
  ]

  respawned-FairRespawn :
      (slot : Slot) (n : ℕ) (pool : WorkerPool) (leases : LeaseRegistry) (events : List (Event J))
      (a : Awaited J)
      → FairReady events a
      → FairRespawn events (respawned J slot n pool leases a)
  unfolding respawned
  respawned-FairRespawn slot n pool leases events starting h = h
  respawned-FairRespawn slot n pool leases events (refused e) h = h
  respawned-FairRespawn slot n pool leases events (ready rest) h = h

  respawn_worker-FairRespawn :
      (slot : Slot) (pool : WorkerPool) (leases : LeaseRegistry) (events : List (Event J))
      → FairRespawn events (respawn_worker J slot pool leases events)
  unfolding respawn_worker
  respawn_worker-FairRespawn slot pool leases events =
      respawned-FairRespawn slot _ _ leases events _ (await_ready-FairReady slot events)

  later-FairRespawn :
      (events rest : List (Event J)) (w : Wait (Respawned J))
      → timeouts rest ≡ timeouts events
      → starts rest ≤ starts events
      → FairRespawn rest w
      → FairRespawn events w
  later-FairRespawn events rest waits t s h = omega (arith, t, h)
  later-FairRespawn events rest (fails no_answer pool leases) t s h = omega (arith, t, h)
  later-FairRespawn events rest (fails bad_message pool leases) t s h = tt
  later-FairRespawn events rest (fails did_not_start pool leases) t s h = omega (arith, s, h)
  later-FairRespawn events rest (gives r) t s (h, k) = (omega (arith, t, h), omega (arith, s, k))

  abbrev and_respawn : List Slot → Wait (Respawned J) → Wait (Respawned J)
  and_respawn slots waits = waits
  and_respawn slots (fails e pool leases) = fails e pool leases
  and_respawn slots (gives r) = respawn_all J slots r.pool r.leases r.events

  and_respawn-FairRespawn :
      (slots : List Slot) (events : List (Event J)) (w : Wait (Respawned J))
      → FairRespawn events w
      → ((r : Respawned J) → FairRespawn r.events (respawn_all J slots r.pool r.leases r.events))
      → FairRespawn events (and_respawn slots w)
  and_respawn-FairRespawn slots events waits h k = h
  and_respawn-FairRespawn slots events (fails e pool leases) h k = h
  and_respawn-FairRespawn slots events (gives r) (t, s) k =
      later-FairRespawn events r.events _ t s (k r)

  respawn_all-FairRespawn :
      (slots : List Slot) (pool : WorkerPool) (leases : LeaseRegistry) (events : List (Event J))
      → FairRespawn events (respawn_all J slots pool leases events)
  unfolding respawn_all
  respawn_all-FairRespawn [] pool leases events = (refl, omega arith)
  respawn_all-FairRespawn (slot ∷ slots) pool leases events =
      and_respawn-FairRespawn slots events (respawn_worker J slot pool leases events)
        (respawn_worker-FairRespawn slot pool leases events)
        (λ r. respawn_all-FairRespawn slots r.pool r.leases r.events)

  hung-Fair :
      (ps : List (Pending J)) (c : Collected J) (events : List (Event J)) (w : Wait (Respawned J))
      → FairRespawn events w
      → Fair (timed_out ∷ events) (hung J ps c w)
  unfolding hung
  hung-Fair ps c events waits h = omega (arith, h)
  hung-Fair ps c events (fails no_answer pool leases) h = omega (arith, h)
  hung-Fair ps c events (fails bad_message pool leases) h = omega arith
  hung-Fair ps c events (fails did_not_start pool leases) h = (omega arith, h)
  hung-Fair ps c events (gives r) h = tt

  answered-Fair :
      (id : ℕ) (result : BranchResult J) (events : List (Event J)) (w : Wait (Collected J))
      → Fair events w
      → Fair (answered id result ∷ events) w
  answered-Fair id result events waits h = h
  answered-Fair id result events (fails no_answer pool leases) h = h
  answered-Fair id result events (fails bad_message pool leases) h = h
  answered-Fair id result events (fails did_not_start pool leases) h = h
  answered-Fair id result events (gives c) h = tt

  -- The wait for the answers is open after one timeout at most. It raises only if there were two, or
  -- one message of a worker's start, or one timeout and a message that the wait for the new worker
  -- cannot read.
  pub collect-Fair :
      (events : List (Event J)) (ps : List (Pending J)) (c : Collected J)
      → Fair events (collect J events ps c)
  unfolding collect hang
  collect-Fair [] [] c = tt
  collect-Fair (event ∷ events) [] c = tt
  collect-Fair [] (p ∷ ps) c = omega arith
  collect-Fair (timed_out ∷ events) (p ∷ ps) c =
      hung-Fair (p ∷ ps) c events _
        (respawn_all-FairRespawn (hung_slots J (p ∷ ps)) c.pool c.leases events)
  collect-Fair (started s ∷ events) (p ∷ ps) c = omega arith
  collect-Fair (startup_fault s ∷ events) (p ∷ ps) c = omega arith
  collect-Fair (answered id result ∷ events) (p ∷ ps) c = elim (Option-cases (find J id (p ∷ ps))) [
    | inl f ↦ rw (collect, f) (answered-Fair id result events _ (collect-Fair events (p ∷ ps) c))
    | inr (q, f) ↦ rw (collect, f) (answered-Fair id result events _ (collect-Fair events _ _))
  ]
