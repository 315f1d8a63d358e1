-- ===== src/Api/Identifiers/Hypotheses/Numbering.antt =====
-- Which index a key gets.
use sts2_rl.Prelude.{
  ℕ, ◌+◌, ◌<◌, ◌≡◌, ◌≢◌, none, some, arith, Option-cases, inl, inr, List, [], ◌∷◌,
}
use sts2_rl.Prelude.Dict
use sts2_rl.Prelude.Dict.{get-put}
use sts2_rl.Api.Identifiers.Hypotheses.{
  RngKey, rng_key, parent_decision_key, RngHypothesisTable, parent_of, or_zero, allocate,
  hypothesis_index_for, allocate_all, empty_table,
}

-- Every index in use lies below the counter of its decision, and two keys of one decision that
-- have one index are one key.
pub record IsNumbered (t : RngHypothesisTable) : Type 0 where
  pub below :
      (k : RngKey) (i : ℕ)
      → Dict.get t.index_by_key k ≡ some i
      → i < or_zero (Dict.get t.next_index (parent_of k))
  pub distinct :
      (k l : RngKey) (i : ℕ)
      → parent_of k ≡ parent_of l
      → Dict.get t.index_by_key k ≡ some i
      → Dict.get t.index_by_key l ≡ some i
      → k ≡ l

IsNumbered-empty : IsNumbered empty_table
unfolding Dict.get
IsNumbered-empty = record { below = λ k i e. cc; distinct = λ k l i p e. cc }

module _ (t : RngHypothesisTable) (k : RngKey) (v : IsNumbered t) where
  allocate-below :
      (l : RngKey) (i : ℕ)
      → Dict.get (allocate none t k).1.index_by_key l ≡ some i
      → i < or_zero (Dict.get (allocate none t k).1.next_index (parent_of l))
  unfolding allocate
  allocate-below l i e = ground (
    arith,
    v.below l i,
    get-put t.index_by_key k l (or_zero (Dict.get t.next_index (parent_of k))),
    get-put t.next_index (parent_of k) (parent_of l)
        (or_zero (Dict.get t.next_index (parent_of k)) + 1),
  )

  allocate-distinct :
      (l m : RngKey) (i : ℕ)
      → parent_of l ≡ parent_of m
      → Dict.get (allocate none t k).1.index_by_key l ≡ some i
      → Dict.get (allocate none t k).1.index_by_key m ≡ some i
      → l ≡ m
  unfolding allocate
  allocate-distinct l m i p e f = ground (
    arith,
    v.below l i,
    v.below m i,
    v.distinct l m i,
    get-put t.index_by_key k l (or_zero (Dict.get t.next_index (parent_of k))),
    get-put t.index_by_key k m (or_zero (Dict.get t.next_index (parent_of k))),
  )

-- An allocation keeps the indices of a decision below its counter, and distinct.
pub index-IsNumbered :
    (t : RngHypothesisTable) (k : RngKey) → IsNumbered t → IsNumbered (hypothesis_index_for t k).1
unfolding hypothesis_index_for
index-IsNumbered t k v = elim (Option-cases (Dict.get t.index_by_key k)) [
  | inl e ↦
      rw (e, allocate) (record { below = allocate-below t k v; distinct = allocate-distinct t k v })
  | inr (i, e) ↦ rw (e, allocate) v
]

-- The key that was asked for has the index that was given.
known_after :
    (t : RngHypothesisTable) (k : RngKey)
    → Dict.get (hypothesis_index_for t k).1.index_by_key k ≡ some (hypothesis_index_for t k).0
unfolding hypothesis_index_for
known_after t k = elim (Option-cases (Dict.get t.index_by_key k)) [
  | inl e ↦
      rw (e, allocate)
        (ground (arith, get-put t.index_by_key k k (or_zero (Dict.get t.next_index (parent_of k)))))
  | inr (i, e) ↦ rw (e, allocate) e
]

known_kept :
    (t : RngHypothesisTable) (k l : RngKey) (i : ℕ)
    → Dict.get t.index_by_key k ≡ some i
    → Dict.get (hypothesis_index_for t l).1.index_by_key k ≡ some i
unfolding hypothesis_index_for
known_kept t k l i e = elim (Option-cases (Dict.get t.index_by_key l)) [
  | inl n ↦
      rw (n, allocate)
        (ground (arith, get-put t.index_by_key l k (or_zero (Dict.get t.next_index (parent_of l)))))
  | inr (j, n) ↦ rw (n, allocate) e
]

known_kept_all :
    (t : RngHypothesisTable) (k : RngKey) (ls : List RngKey) (i : ℕ)
    → Dict.get t.index_by_key k ≡ some i
    → Dict.get (allocate_all t ls).index_by_key k ≡ some i
unfolding allocate_all
known_kept_all t k [] i e = e
known_kept_all t k (l ∷ ls) i e =
    known_kept_all (hypothesis_index_for t l).1 k ls i (known_kept t k l i e)

known_again :
    (t : RngHypothesisTable) (k : RngKey) (i : ℕ)
    → Dict.get t.index_by_key k ≡ some i
    → hypothesis_index_for t k ≡ (i, t)
unfolding hypothesis_index_for
known_again t k i e = rw (e, allocate)

-- The index of a key is stable: whatever is allocated afterwards, asking for the key again gives
-- the index that it was given first, and changes nothing.
index_is_stable :
    (t : RngHypothesisTable) (k : RngKey) (ls : List RngKey)
    → let t' = allocate_all (hypothesis_index_for t k).1 ls in
      hypothesis_index_for t' k ≡ ((hypothesis_index_for t k).0, t')
index_is_stable t k ls =
    known_again _ k _ (known_kept_all (hypothesis_index_for t k).1 k ls _ (known_after t k))

IsNumbered-allocate_all :
    (t : RngHypothesisTable) (ks : List RngKey) → IsNumbered t → IsNumbered (allocate_all t ks)
unfolding allocate_all
IsNumbered-allocate_all t [] v = v
IsNumbered-allocate_all t (k ∷ ks) v =
    IsNumbered-allocate_all (hypothesis_index_for t k).1 ks (index-IsNumbered t k v)

-- Under one parent and decision, two different hypotheses never have the same index, whatever
-- allocations have been made.
indices_are_distinct :
    (ks : List RngKey) (k l : RngKey) (i : ℕ)
    → k ≢ l
    → parent_of k ≡ parent_of l
    → Dict.get (allocate_all empty_table ks).index_by_key k ≡ some i
    → Dict.get (allocate_all empty_table ks).index_by_key l ≢ some i
indices_are_distinct ks k l i ne same x y =
    ne ((IsNumbered-allocate_all empty_table ks IsNumbered-empty).distinct k l i same x y)
