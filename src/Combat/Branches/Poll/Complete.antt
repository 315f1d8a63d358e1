-- ===== src/Combat/Branches/Poll/Complete.antt =====
-- A poll that returns has settled every branch that it was asked for.
use sts2_rl.Prelude.{
  if_all, ℕ, ◌+◌, ◌≤◌, ◌≡◌, refl, sym, ap, subst, arith, String, true, ◌&&◌, Option, none, some,
  List, [], ◌∷◌, ok, err, inl, inr, Bool-cases, Result-cases, str_eq, eq_iff, leb,
}
use sts2_rl.Prelude.Dict
use sts2_rl.Prelude.Dict.{Dict}
use sts2_rl.Prelude.Key.{str_key, nat_key}
use sts2_rl.Api.Dto.{member}
use sts2_rl.Combat.Pool.{BranchResult}
use sts2_rl.Combat.Branches.{BranchManager}
use sts2_rl.Combat.Branches.Release.Modify.{status_of}
use sts2_rl.Combat.Branches.Dispatch.{Poll, dispatch_available}
use sts2_rl.Combat.Branches.Dispatch.Counts.{one_if, count}
use sts2_rl.Combat.Branches.Poll.{
  Event, start, check_ids, poll_branch_ids, handle, ensure_running, is_empty, poll_loop, poll_all,
  guarded, poll, Polled,
}
use sts2_rl.Combat.Branches.Poll.Admits.{check_ids-Admits}
use sts2_rl.Combat.Branches.Poll.Tracks.{is_queued_in, IsOver, Tracks}
use sts2_rl.Combat.Branches.Poll.Events.{
  dispatch_available-Holds, handle-Holds, ensure_running-Holds,
}
use sts2_rl.Combat.Branches.Poll.Steps.{Holds, and_then-Holds}

both_empty :
    {A B : Type 0} (xs : List A) (ys : List B)
    → (is_empty xs && is_empty ys) ≡ true
    → (xs ≡ []) × (ys ≡ [])
both_empty [] [] h = (refl, refl)
both_empty [] (y ∷ ys) h = cc h
both_empty (x ∷ xs) ys h = cc h

-- An answer comes only when every branch is settled.
abbrev Settled :
    {J R : Type 0}
    → List String
    → Option (Dict String (BranchResult R))
    → BranchManager J R
    → Type 0
Settled ids none m = Unit
Settled ids (some results) m =
    (id : String) → member id ids ≡ true → IsOver results (status_of m.records id) id

module _ {J R : Type 0} (deadline : ℕ → ℕ) (ids : List String) where
  idle-Settled :
      (p : Poll R) (m : BranchManager J R)
      → Tracks ids p m
      → p.waiting ≡ []
      → p.running_by_request ≡ []
      → Settled ids (some p.results) m
  unfolding count Dict.get
  idle-Settled p m t none_waits none_runs id k = elim (t.accounted id k) [
    | inl (h, q) ↦ absurd (omega (arith, h, ap (count id) none_waits))
    | inr (inl (r, g)) ↦ cc (g, ap (λ (d : Dict ℕ String). Dict.get d r) none_runs)
    | inr (inr a) ↦ a
  ]

  poll_loop-Settled :
      (events : List (Event R)) (p : Poll R) (m : BranchManager J R)
      → Tracks ids p m
      → Holds (Settled ids) (poll_loop deadline events p m)
  unfolding poll_loop
  poll_loop-Settled [] p m t =
      if_all (Holds (Settled ids)) (is_empty p.waiting && is_empty p.running_by_request) _ _
        (λ c.
          idle-Settled p m t (both_empty p.waiting p.running_by_request c).0
            (both_empty p.waiting p.running_by_request c).1)
        (λ c.
          and_then-Holds (λ p m. Tracks ids p m) (Settled ids) (ensure_running deadline p m) _
            (ensure_running-Holds deadline ids p m t) (λ p' m' t'. tt))
  poll_loop-Settled (event ∷ events) p m t =
      elim (Bool-cases (is_empty p.waiting && is_empty p.running_by_request)) [
        | inl c ↦
            rw (c, poll_loop)
              (idle-Settled p m t (both_empty p.waiting p.running_by_request c).0
                (both_empty p.waiting p.running_by_request c).1)
        | inr c ↦
            rw (c, poll_loop)
              (and_then-Holds (λ p m. Tracks ids p m) (Settled ids) (ensure_running deadline p m) _
                (ensure_running-Holds deadline ids p m t)
                (λ p' m' t'.
                  and_then-Holds (λ p m. Tracks ids p m) (Settled ids) (handle deadline event p' m')
                    _ (handle-Holds deadline ids event p' m' t')
                    (λ p'' m'' t''. poll_loop-Settled events p'' m'' t'')))
      ]

  poll_all-Settled :
      (events : List (Event R)) (m : BranchManager J R)
      → Tracks ids (start ids) m
      → Holds (Settled ids) (poll_all deadline events ids m)
  unfolding poll_all
  poll_all-Settled events m t =
      and_then-Holds (λ p m. Tracks ids p m) (Settled ids)
        (dispatch_available deadline (start ids) m) _
        (dispatch_available-Holds deadline ids (start ids) m t)
        (λ p' m' t'. poll_loop-Settled events p' m' t')

member-count : (id : String) (ids : List String) → member id ids ≡ true → 1 ≤ count id ids
unfolding member count
member-count id [] h = cc h
member-count id (x ∷ ids) h = elim (Bool-cases (str_eq id x)) [
  | inl e ↦ omega (arith, ap one_if ((eq_iff x id).1 (sym ((eq_iff id x).0 e))))
  | inr e ↦ omega (arith, member-count id ids (rw e at h))
]

module _ {J R : Type 0} where
  start-Tracks :
      (ids : List String) (m : BranchManager J R)
      → ((id : String) → member id ids ≡ true → is_queued_in (status_of m.records id) ≡ true)
      → Tracks ids (start ids) m
  unfolding Dict.get
  start-Tracks ids m all_queued = record {
    accounted = λ id k. inl (member-count id ids k, all_queued id k);
    numbered = λ r id h. cc h;
  }

  guarded-Settled :
      (ids : List String) (o : Polled J R)
      → Holds (Settled ids) o
      → Holds (Settled ids) (guarded ids o)
  unfolding guarded
  guarded-Settled ids (ok answer, m) h = h
  guarded-Settled ids (err e, m) h = tt

  answered :
      (ids : List String) (o : Polled J R) (out : Dict String (BranchResult R))
      → Holds (Settled ids) o
      → o.0 ≡ ok (some out)
      → (id : String) → member id ids ≡ true
      → IsOver out (status_of (o.1).records id) id
  answered ids (ok (some results), m) out s h =
      let same : results ≡ out = cc h in
      λ id k. subst (λ d. IsOver d (status_of m.records id) id) same (s id k)
  answered ids (ok none, m) out s h = cc h
  answered ids (err e, m) out s h = cc h

  -- Where a poll of given branches returns its results, after whatever results and timeouts, each of
  -- those branches is over: it has its result among those returned and is completed or, where the
  -- result is a fault, faulted by it; or it is cancelled or released.
  pub poll_settles :
      (timeout : ℕ) (submitted_at : ℕ → ℕ) (events : List (Event R)) (asked : List String)
      (m : BranchManager J R) (out : Dict String (BranchResult R)) (id : String)
      → (poll timeout submitted_at events (some asked) m).0 ≡ ok (some out)
      → member id asked ≡ true
      → IsOver out (status_of (poll timeout submitted_at events (some asked) m).1.records id) id
  unfolding poll poll_branch_ids member
  poll_settles timeout submitted_at events asked m out id = elim (Bool-cases (leb timeout 0)) [
    | inl c ↦ rw (c, poll) (λ h k. cc h)
    | inr c ↦
        rw (c, poll)
          (elim (Result-cases (check_ids m.records [] asked)) [
            | inr (e, f) ↦ rw f (λ h k. cc h)
            | inl (ids, f) ↦ rw f (λ h k.
                let (found, all_queued) = check_ids-Admits m.records [] asked ids f in
                let deadline : ℕ → ℕ = λ request_id. submitted_at request_id + timeout in
                let o = poll_all deadline events ids m in
                answered ids (guarded ids o) out
                  (guarded-Settled ids o
                    (poll_all-Settled deadline ids events m (start-Tracks ids m all_queued)))
                  h id (found id k))
          ])
  ]
