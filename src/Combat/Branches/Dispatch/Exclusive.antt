-- ===== src/Combat/Branches/Dispatch/Exclusive.antt =====
-- A worker is given one branch at a time.
use sts2_rl.Prelude.{
  if_all, ℕ, zero, suc, ◌+◌, ◌≡◌, refl, sym, ap, ◌∙◌, arith, String, Bool, true, false, Option,
  none, some, List, [], ◌∷◌, Result, ok, err, subst, inl, inr, Option-cases, Bool-cases, List-cases,
  ℕ_discrete, length,
}
use sts2_rl.Prelude.Dict
use sts2_rl.Prelude.Dict.{Dict}
use sts2_rl.Prelude.Key.{str_key, nat_key}
use sts2_rl.Combat.Pool.{
  LeaseRegistry, Route, Pool, BranchError, route_work_item, submit, worker_ids,
}
use sts2_rl.Combat.Branches.{BranchRecord, BranchManager}
use sts2_rl.Combat.Branches.Release.{remove_first}
use sts2_rl.Combat.Branches.Dispatch.{
  Poll, Scan, Step, and_then, elem, has_key, free_of, is_queued, is_deferred, started, send,
  dispatch_routed, scan, dispatch_rounds, dispatch_available,
}

-- What holds of the value of a step that did not raise.
abbrev pub Ok {ℓ κ} : {A : Type 0} {M : Type ℓ} → (A → Type κ) → Result BranchError A × M → Type κ
Ok P (ok a, m) = P a
Ok P (err e, m) = Unit

pub and_then-Ok {ℓ} :
    {A B : Type 0} {M : Type ℓ} (P : A → Type 0) (Q : B → Type 0) (o : Result BranchError A × M)
    (next : A → M → Result BranchError B × M)
    → Ok P o
    → ((a : A) (m : M) → P a → Ok Q (next a m))
    → Ok Q (and_then o next)
unfolding and_then
and_then-Ok P Q (err e, m) next p q = tt
and_then-Ok P Q (ok a, m) next p q = q a m p

-- A live request is the one that its worker is known to be busy with.
abbrev pub IsExclusive : {R : Type 0} → Poll R → Type 0
IsExclusive p =
    (request_id worker_id : ℕ)
    → Dict.get p.request_workers request_id ≡ some worker_id
    → Dict.get p.worker_requests worker_id ≡ some request_id

-- The workers of a list have no request.
abbrev AllFree : Dict ℕ ℕ → List ℕ → Type 0
AllFree worker_requests ws = (w : ℕ) → elem w ws ≡ true → Dict.get worker_requests w ≡ none

has_key-none : (o : Option ℕ) → has_key o ≡ false → o ≡ none
has_key-none none h = refl
has_key-none (some r) h = cc h

free_of-AllFree :
    (worker_requests : Dict ℕ ℕ) (ws : List ℕ)
    → AllFree worker_requests (free_of worker_requests ws)
unfolding free_of elem
free_of-AllFree worker_requests [] w = λ h. cc h
free_of-AllFree worker_requests (v ∷ ws) w =
    if_all (λ l. elem w l ≡ true → Dict.get worker_requests w ≡ none)
      (has_key (Dict.get worker_requests v)) (free_of worker_requests ws)
      (v ∷ free_of worker_requests ws) (λ c. free_of-AllFree worker_requests ws w)
      (λ c h. elim (ℕ_discrete w v) [
        | yes e ↦ ap (Dict.get worker_requests) e ∙ has_key-none (Dict.get worker_requests v) c
        | no n ↦ free_of-AllFree worker_requests ws w (ground (arith, n, h))
      ])

started-IsExclusive :
    {R : Type 0} (deadline : ℕ → ℕ) (id : String) (request_id worker_id : ℕ) (p : Poll R)
    → IsExclusive p
    → Dict.get p.worker_requests worker_id ≡ none
    → IsExclusive (started deadline id request_id worker_id p)
unfolding started
started-IsExclusive deadline id request_id worker_id p inv free r w h =
    elim (ℕ_discrete request_id r) [
      | yes e ↦
          let same = sym (Dict.get-put_self p.request_workers r worker_id) ∙ (rw e at h) in
          cc (Dict.get-put_self p.worker_requests worker_id request_id, same, e)
      | no n ↦
          let old =
            inv r w (sym (Dict.get-put_other p.request_workers request_id r worker_id n) ∙ h) in
          Dict.get-put_other p.worker_requests worker_id w request_id (λ e. cc (free, e, old)) ∙ old
    ]

module _ {J R : Type 0} (deadline : ℕ → ℕ) where
  abbrev ScanOk : Scan J R → Type 0
  ScanOk = Ok (λ s. IsExclusive s.1)

  send-Ok :
      (submitted : Result BranchError (ℕ × Pool)) (id : String) (r : BranchRecord J R)
      (route : Route) (leases : LeaseRegistry) (p : Poll R) (m : BranchManager J R)
      → IsExclusive p
      → Dict.get p.worker_requests route.worker_id ≡ none
      → ScanOk (send deadline submitted id r route leases p m)
  unfolding send
  send-Ok (err e) id r route leases p m inv free = tt
  send-Ok (ok (request_id, pool)) id r route leases p m inv free =
      started-IsExclusive deadline id request_id route.worker_id p inv free

  dispatch_routed-Ok :
      (routed : Result BranchError Route × LeaseRegistry) (free : List ℕ) (id : String)
      (r : BranchRecord J R) (p : Poll R) (m : BranchManager J R)
      → IsExclusive p
      → AllFree p.worker_requests free
      → ScanOk (dispatch_routed deadline routed free id r p m)
  unfolding dispatch_routed
  dispatch_routed-Ok (err e, leases) free id r p m inv all = tt
  dispatch_routed-Ok (ok route, leases) free id r p m inv all =
      if_all ScanOk (elem route.worker_id free) _ _
        (λ c.
          send-Ok (submit m.pool route.worker_id) id r route leases p m inv (all route.worker_id c))
        (λ c. tt)

  scan-Ok :
      (ids : List String) (free : List ℕ) (p : Poll R) (m : BranchManager J R)
      → IsExclusive p
      → AllFree p.worker_requests free
      → ScanOk (scan deadline ids free p m)
  unfolding scan
  scan-Ok [] free p m inv all = inv
  scan-Ok (id ∷ ids) free p m inv all = elim (Option-cases (Dict.get m.records id)) [
    | inl e ↦ rw (e, scan) tt
    | inr (r, e) ↦
        rw (e, scan)
          (elim (Bool-cases (is_queued r.state)) [
            | inr f ↦
                rw f (scan-Ok ids free (record p { waiting = remove_first p.waiting id }) m inv all)
            | inl f ↦ rw f (elim (Option-cases r.work_item) [
              | inl g ↦ rw g tt
              | inr (item, g) ↦
                  rw g (elim (Bool-cases (is_deferred item m.leases m.pool.workers free)) [
                    | inl k ↦ rw k (scan-Ok ids free p m inv all)
                    | inr k ↦ rw k (
                        dispatch_routed-Ok
                          (route_work_item item m.leases free m.pool.workers m.next_bootstrap_index)
                          free id r p m inv all)
                  ])
            ])
          ])
  ]

  sent-Ok :
      (dispatched : Bool) (p : Poll R) (m : BranchManager J R) (rest : Step J R)
      → IsExclusive p
      → Ok IsExclusive rest
      → Ok IsExclusive (elim dispatched as (λ _. Step J R) [ false ↦ (ok p, m) | true ↦ rest ])
  sent-Ok false p m rest inv k = inv
  sent-Ok true p m rest inv k = k

  pub dispatch_rounds-Ok :
      (rounds : ℕ) (p : Poll R) (m : BranchManager J R)
      → IsExclusive p
      → Ok IsExclusive (dispatch_rounds deadline rounds p m)
  unfolding dispatch_rounds
  dispatch_rounds-Ok zero p m inv = tt
  dispatch_rounds-Ok (suc rounds) p m inv = elim (List-cases p.waiting) [
    | inl e ↦ rw (e, dispatch_rounds) inv
    | inr (id, ids, e) ↦
        rw (e, dispatch_rounds)
          (elim (List-cases (free_of p.worker_requests (worker_ids m.pool))) [
            | inl f ↦ rw f inv
            | inr (w, ws, f) ↦ rw f (
                and_then-Ok (λ s. IsExclusive s.1) IsExclusive _ _
                  (scan-Ok p.waiting (w ∷ ws) p m inv (
                    subst (AllFree p.worker_requests) f
                      (free_of-AllFree p.worker_requests (worker_ids m.pool))))
                  (λ s m' inv'.
                    sent-Ok s.0 s.1 m' (dispatch_rounds deadline rounds s.1 m') inv'
                      (dispatch_rounds-Ok rounds s.1 m' inv')))
          ])
  ]

  pub dispatch_available-Ok :
      (p : Poll R) (m : BranchManager J R)
      → IsExclusive p
      → Ok IsExclusive (dispatch_available deadline p m)
  unfolding dispatch_available
  dispatch_available-Ok p m inv = dispatch_rounds-Ok (length p.waiting + 1) p m inv
