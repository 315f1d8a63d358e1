-- ===== src/Api/EventRng/Lifecycle.antt =====
-- How long a hypothesis lives, and what taking a commit back leaves.
use sts2_rl.Prelude.{
  ◌+◌, ◌≡◌, ◌≢◌, refl, arith, String, true, Option, none, some, List, [], ◌∷◌, ◌++◌, Result, ok,
  err, Bool-cases, Result-cases, ok_inj, subst, inl, inr, ite,
}
use sts2_rl.Prelude.Dict
use sts2_rl.Prelude.Dict.{Dict, get-put, get-remove}
use sts2_rl.Prelude.Pyset
use sts2_rl.Prelude.Key.{Key, str_key}
use sts2_rl.Api.Identifiers.Hypotheses.{RngKey, rng_key}
use sts2_rl.Api.EventRng.{
  EventRngError, HypothesisEntry, EventRngHypothesisRegistry, generation_of, or_empty, is_empty,
  is_some, ensured, ensure_entry, register_branch, registered, commit_branch, drop, drop_entry,
  released, release_branch, keys_of, drop_all, release_all_for_decision, release_all,
}

-- The calls for which the invariant is kept. Registering a branch or creating an entry alone, which the
-- registry also offers, is half of a commit and is not among them.
pub data Operation (S : Type 0) : Type 0 where
  commit : RngKey → S → String → Operation S
  release : RngKey → String → Operation S
  release_decision : String → String → Operation S
  release_everything : Operation S

module _ {S : Type 0} ⦃same_state : Key S⦄ where
  -- A hypothesis is live as long as a branch refers to it.
  pub record IsValid (r : EventRngHypothesisRegistry S) : Type 0 where
    pub live :
        (key : RngKey)
        → is_some (Dict.get r.entries key) ≡ is_some (Dict.get r.branch_refs_by_key key)
    pub referred : (key : RngKey) → Dict.get r.branch_refs_by_key key ≢ some []

  ensured-live :
      (o : Option (HypothesisEntry S)) (r q : EventRngHypothesisRegistry S) (key : RngKey)
      (state : S)
      → Dict.get r.entries key ≡ o
      → ensured o r key state ≡ ok q
      → (q.branch_refs_by_key ≡ r.branch_refs_by_key)
        × ((j : RngKey)
            → is_some (Dict.get q.entries j)
              ≡ ite (rng_key.same key j) true (is_some (Dict.get r.entries j)))
  unfolding ensured
  ensured-live none r q key state e h =
      let entry : HypothesisEntry S = record {
        state = state;
        generation = generation_of r key + 1;
      } in
      (ground arith, λ j. ground (arith, get-put r.entries key j entry))
  ensured-live (some entry) r q key state e h = (ground arith, λ j. ground arith)

  drop-IsValid :
      (r : EventRngHypothesisRegistry S) (key : RngKey) → IsValid r → IsValid (drop r key)
  unfolding drop
  drop-IsValid r key v = record {
    live = λ j.
        ground (arith, get-remove r.entries key j, get-remove r.branch_refs_by_key key j, v.live j);
    referred = λ j. ground (arith, get-remove r.branch_refs_by_key key j, v.referred j);
  }

  drop_all-IsValid :
      (keys : List RngKey) (r : EventRngHypothesisRegistry S)
      → IsValid r
      → IsValid (drop_all keys r)
  unfolding drop_all
  drop_all-IsValid [] r v = v
  drop_all-IsValid (key ∷ keys) r v = drop_all-IsValid keys (drop r key) (drop-IsValid r key v)

  register-IsValid :
      (r q : EventRngHypothesisRegistry S) (key : RngKey) (branch_id : String)
      → IsValid r
      → q.branch_refs_by_key ≡ r.branch_refs_by_key
      → ((j : RngKey)
          → is_some (Dict.get q.entries j)
            ≡ ite (rng_key.same key j) true (is_some (Dict.get r.entries j)))
      → IsValid (register_branch q key branch_id)
  unfolding register_branch Pyset.add
  register-IsValid r q key branch_id v same live = record {
    live = λ j. ground (
      arith,
      get-put q.branch_refs_by_key key j (branch_id ∷ or_empty (Dict.get q.branch_refs_by_key key)),
      live j,
      v.live j,
      same,
    );
    referred = λ j. ground (
      arith,
      get-put q.branch_refs_by_key key j (branch_id ∷ or_empty (Dict.get q.branch_refs_by_key key)),
      v.referred j,
      same,
    );
  }

  released-IsValid :
      (o : Option (List String)) (r : EventRngHypothesisRegistry S) (key : RngKey)
      (branch_id : String)
      → Dict.get r.branch_refs_by_key key ≡ o
      → IsValid r
      → IsValid (released o r key branch_id)
  unfolding released drop_entry
  released-IsValid none r key branch_id e v = record {
    live = λ j. ground (arith, get-remove r.entries key j, v.live j, e);
    referred = v.referred;
  }
  released-IsValid (some refs) r key branch_id e v =
      elim (Bool-cases (is_empty (Pyset.discard refs branch_id))) [
        | inl y ↦ rw y (drop-IsValid r key v)
        | inr n ↦ rw n (record {
          live = λ j. ground (
            arith,
            get-put r.branch_refs_by_key key j (Pyset.discard refs branch_id),
            v.live j,
            e,
          );
          referred = λ j. ground (
            arith,
            get-put r.branch_refs_by_key key j (Pyset.discard refs branch_id),
            v.referred j,
            n,
          );
        })
      ]

  commit_branch-IsValid :
      (r q : EventRngHypothesisRegistry S) (key : RngKey) (state : S) (branch_id : String)
      → commit_branch r key state branch_id ≡ ok q
      → IsValid r
      → IsValid q
  unfolding commit_branch ensure_entry registered
  commit_branch-IsValid r q key state branch_id h v =
      elim (Result-cases (ensured (Dict.get r.entries key) r key state)) [
        | inl (p, f) ↦
            let (same, live) = ensured-live (Dict.get r.entries key) r p key state refl f in
            subst IsValid (ok_inj (rw f at h)) (register-IsValid r p key branch_id v same live)
        | inr (x, f) ↦ absurd (cc (rw f at h))
      ]

  abbrev committed :
      EventRngHypothesisRegistry S
      → Result EventRngError (EventRngHypothesisRegistry S)
      → EventRngHypothesisRegistry S
  committed r (err e) = r
  committed r (ok q) = q

  -- A refused commit changes nothing.
  abbrev apply : Operation S → EventRngHypothesisRegistry S → EventRngHypothesisRegistry S
  apply (commit key state branch_id) r = committed r (commit_branch r key state branch_id)
  apply (release key branch_id) r = release_branch r key branch_id
  apply (release_decision parent decision) r = release_all_for_decision r parent decision
  apply release_everything r = release_all r

  unfoldable pub history :
      List (Operation S) → EventRngHypothesisRegistry S → EventRngHypothesisRegistry S
  history [] r = r
  history (op ∷ ops) r = history ops (apply op r)

  apply-IsValid :
      (op : Operation S) (r : EventRngHypothesisRegistry S) → IsValid r → IsValid (apply op r)
  unfolding release_branch release_all_for_decision release_all Dict.get
  apply-IsValid (commit key state branch_id) r v =
      elim (Result-cases (commit_branch r key state branch_id)) [
        | inl (q, f) ↦ rw f (commit_branch-IsValid r q key state branch_id f v)
        | inr (x, f) ↦ rw f v
      ]
  apply-IsValid (release key branch_id) r v =
      released-IsValid (Dict.get r.branch_refs_by_key key) r key branch_id refl v
  apply-IsValid (release_decision parent decision) r v =
      drop_all-IsValid
        (keys_of parent decision r.entries ++ keys_of parent decision r.branch_refs_by_key) r v
  apply-IsValid release_everything r v = record { live = λ j. refl; referred = λ j h. cc h }

  -- Whatever commits, releases of a branch and releases of a decision's or of all hypotheses come after,
  -- in whatever order (a branch registered, or an entry created, on its own is not among them), a
  -- registry whose live hypotheses are those that a
  -- branch refers to stays one: none outlives its last branch, and none is lost before.
  pub history-IsValid :
      (ops : List (Operation S)) (r : EventRngHypothesisRegistry S)
      → IsValid r
      → IsValid (history ops r)
  unfolding history
  history-IsValid [] r v = v
  history-IsValid (op ∷ ops) r v = history-IsValid ops (apply op r) (apply-IsValid op r v)
