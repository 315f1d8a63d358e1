-- ===== src/Api/EventRng/Undo.antt =====
-- Taking a branch back from a hypothesis, and a whole commit that was not published.
use sts2_rl.Prelude.{
  ℕ, zero, suc, ◌+◌, ◌≡◌, ◌≢◌, refl, ap, ◌∙◌, arith, String, true, false, none, some, List, [], ◌∷◌,
  ok,
}
use sts2_rl.Prelude.Dict
use sts2_rl.Prelude.Dict.{Dict, get-put, get-remove, remove-put}
use sts2_rl.Prelude.Pyset
use sts2_rl.Prelude.Pyset.{has-discard}
use sts2_rl.Prelude.Key.{Key, str_key}
use sts2_rl.Api.Identifiers.Hypotheses.{RngKey, rng_key}
use sts2_rl.Api.EventRng.{
  HypothesisEntry, EventRngHypothesisRegistry, is_empty, is_live, generation_of, ensured,
  ensure_entry, register_branch, registered, commit_branch, drop, released, release_branch,
  snapshot_generations, restore_one, restore_generations,
}
use sts2_rl.Api.EventRng.Lifecycle.{IsValid}

has-is_empty : (refs : List String) (b : String) → Pyset.has refs b ≡ true → is_empty refs ≡ false
unfolding Pyset.has
has-is_empty [] b h = cc h
has-is_empty (c ∷ refs) b h = refl

put_refs :
    (m : Dict RngKey (List String)) (key : RngKey) (refs : List String)
    → Dict.get (Dict.put m key refs) key ≡ some refs
put_refs m key refs = ground (arith, get-put m key key refs)

only : (b : String) → Pyset.discard (b ∷ []) b ≡ []
unfolding Pyset.discard
only b = ground arith

module _ {S : Type 0} ⦃same_state : Key S⦄ where
  -- Releasing a branch keeps every hypothesis, if another branch refers to the same one.
  pub shared_hypothesis_kept :
      (r : EventRngHypothesisRegistry S) (key : RngKey) (refs : List String)
      (branch_id other : String)
      → Dict.get r.branch_refs_by_key key ≡ some refs
      → Pyset.has refs other ≡ true
      → branch_id ≢ other
      → (release_branch r key branch_id).entries ≡ r.entries
  unfolding release_branch released
  shared_hypothesis_kept r key refs branch_id other e h ne =
      let kept : Pyset.has (Pyset.discard refs branch_id) other ≡ true =
        ground (arith, has-discard refs branch_id other, h, ne) in
      rw (e, has-is_empty (Pyset.discard refs branch_id) other kept) refl

  -- The registry after the first commit of a hypothesis.
  fresh : EventRngHypothesisRegistry S → RngKey → S → String → EventRngHypothesisRegistry S
  fresh r key state branch_id = record {
    entries =
        Dict.put r.entries key (record { state = state; generation = generation_of r key + 1 });
    branch_refs_by_key = Dict.put r.branch_refs_by_key key (branch_id ∷ []);
    generation_counts = Dict.put r.generation_counts key (generation_of r key + 1);
  }

  commit_branch-fresh :
      (r : EventRngHypothesisRegistry S) (key : RngKey) (state : S) (branch_id : String)
      → Dict.get r.entries key ≡ none
      → Dict.get r.branch_refs_by_key key ≡ none
      → commit_branch r key state branch_id ≡ ok (fresh r key state branch_id)
  unfolding commit_branch ensure_entry ensured registered register_branch fresh Pyset.add
  commit_branch-fresh r key state branch_id e f = rw (e, f) refl

  release_branch-fresh :
      (r : EventRngHypothesisRegistry S) (key : RngKey) (state : S) (branch_id : String)
      → release_branch (fresh r key state branch_id) key branch_id
        ≡ drop (fresh r key state branch_id) key
  unfolding release_branch released fresh Pyset.discard
  release_branch-fresh r key state branch_id =
      rw (put_refs r.branch_refs_by_key key (branch_id ∷ []), only branch_id) refl

  -- The same answers under every key.
  abbrev pub IsSame : EventRngHypothesisRegistry S → EventRngHypothesisRegistry S → Type 0
  IsSame p r =
      (j : RngKey)
      → (Dict.get p.entries j ≡ Dict.get r.entries j)
        × (Dict.get p.branch_refs_by_key j ≡ Dict.get r.branch_refs_by_key j)
        × (generation_of p j ≡ generation_of r j)

  restore_one-fresh :
      (r : EventRngHypothesisRegistry S) (key : RngKey) (state : S) (branch_id : String) (n : ℕ)
      → Dict.get r.entries key ≡ none
      → Dict.get r.branch_refs_by_key key ≡ none
      → generation_of r key ≡ n
      → IsSame (restore_one (drop (fresh r key state branch_id) key) key n) r
  unfolding fresh drop restore_one generation_of
  restore_one-fresh r key state branch_id zero e f g j = (
    ap (λ (m : Dict RngKey (HypothesisEntry S)). Dict.get m j) (remove-put r.entries key _ e),
    ap (λ (m : Dict RngKey (List String)). Dict.get m j) (remove-put r.branch_refs_by_key key _ f),
    ground (
      arith,
      get-remove (Dict.put r.generation_counts key (generation_of r key + 1)) key j,
      get-put r.generation_counts key j (generation_of r key + 1),
      g,
    ),
  )
  restore_one-fresh r key state branch_id (suc n) e f g j = (
    ap (λ (m : Dict RngKey (HypothesisEntry S)). Dict.get m j) (remove-put r.entries key _ e),
    ap (λ (m : Dict RngKey (List String)). Dict.get m j) (remove-put r.branch_refs_by_key key _ f),
    ground (
      arith,
      get-put (Dict.put r.generation_counts key (generation_of r key + 1)) key j (suc n),
      get-put r.generation_counts key j (generation_of r key + 1),
      g,
    ),
  )

  generation-fresh :
      (r : EventRngHypothesisRegistry S) (key : RngKey) (state : S) (branch_id : String)
      → generation_of (drop (fresh r key state branch_id) key) key ≡ generation_of r key + 1
  unfolding fresh drop generation_of
  generation-fresh r key state branch_id =
      ground (arith, get-put r.generation_counts key key (generation_of r key + 1))

  restored :
      (r : EventRngHypothesisRegistry S) (key : RngKey) (state : S) (branch_id : String)
      → restore_generations
          (drop (fresh r key state branch_id) key)
          (snapshot_generations r (key ∷ []))
        ≡ (ok tt, restore_one (drop (fresh r key state branch_id) key) key (generation_of r key))
  unfolding restore_generations snapshot_generations Dict.put
  restored r key state branch_id = ground (arith, generation-fresh r key state branch_id)

  -- In a valid registry, the first commit of a hypothesis succeeds; releasing the branch and restoring
  -- the generations that a snapshot took before gives a registry with the same hypotheses, references
  -- and generations under every key.
  pub commit_undone :
      (r : EventRngHypothesisRegistry S) (key : RngKey) (state : S) (branch_id : String)
      → IsValid r
      → is_live r key ≡ false
      → (q : EventRngHypothesisRegistry S) × (p : EventRngHypothesisRegistry S) × (commit_branch r
            key state branch_id
          ≡ ok q)
        × (restore_generations (release_branch q key branch_id) (snapshot_generations r (key ∷ []))
            ≡ (ok tt, p))
        × IsSame p r
  unfolding is_live
  commit_undone r key state branch_id v dead =
      let e : Dict.get r.entries key ≡ none = ground (arith, dead) in
      let f : Dict.get r.branch_refs_by_key key ≡ none = ground (arith, e, v.live key) in
      (
        fresh r key state branch_id,
        restore_one (drop (fresh r key state branch_id) key) key (generation_of r key),
        commit_branch-fresh r key state branch_id e f,
        ap (λ x. restore_generations x (snapshot_generations r (key ∷ [])))
              (release_branch-fresh r key state branch_id)
            ∙ restored r key state branch_id,
        restore_one-fresh r key state branch_id (generation_of r key) e f refl,
      )
