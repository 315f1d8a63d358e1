-- ===== src/Api/Identifiers/Hypotheses/Rollback.antt =====
-- A rollback undoes the allocations made since its marker.
use sts2_rl.Prelude.{
  ℕ, zero, suc, ◌+◌, ◌-◌, ◌≤◌, ◌≡◌, ◌≢◌, ◌⊎◌, inl, inr, refl, subst, ap, ◌∙◌, Option, none, some,
  List, [], ◌∷◌, ◌++◌, ok, arith, length, length-append, Option-cases,
}
use sts2_rl.Prelude.Dict
use sts2_rl.Prelude.Dict.{Dict, put_fresh, remove-put, put-put, get-put}
use sts2_rl.Api.Identifiers.Hypotheses.{
  RngKey, ParentDecisionKey, rng_key, parent_decision_key, RngHypothesisTable, parent_of, or_zero,
  allocate, hypothesis_index_for, snapshot, popitem, rewind, undo, undo_all, restore, allocate_all,
  empty_table,
}

-- No counter stands at 0: a counter is made with its first allocation.
abbrev pub IsCounted : RngHypothesisTable → Type 0
IsCounted t = (pd : ParentDecisionKey) → Dict.get t.next_index pd ≢ some 0

popitem-append : (m : Dict RngKey ℕ) (e : RngKey × ℕ) → popitem (m ++ e ∷ []) ≡ some (e, m)
unfolding popitem
popitem-append [] e = refl
popitem-append (x ∷ m) e = rw (popitem-append m e)

allocate-IsCounted :
    (o : Option ℕ) (t : RngHypothesisTable) (k : RngKey)
    → IsCounted t
    → IsCounted (allocate o t k).1
unfolding allocate
allocate-IsCounted (some i) t k c = c
allocate-IsCounted none t k c = λ pd. ground (
  arith,
  c pd,
  get-put t.next_index (parent_of k) pd (or_zero (Dict.get t.next_index (parent_of k)) + 1),
)

pub index-IsCounted :
    (t : RngHypothesisTable) (k : RngKey) → IsCounted t → IsCounted (hypothesis_index_for t k).1
unfolding hypothesis_index_for
index-IsCounted t k c = allocate-IsCounted (Dict.get t.index_by_key k) t k c

-- Undoing the allocation of a new key gives the table back.
undo-allocate :
    (t : RngHypothesisTable) (k : RngKey)
    → IsCounted t
    → Dict.get t.index_by_key k ≡ none
    → undo (allocate none t k).1 ≡ t
unfolding undo rewind allocate
undo-allocate t k c new = elim (Option-cases (Dict.get t.next_index (parent_of k))) [
  | inl e ↦ ground (
    arith,
    put_fresh t.index_by_key k 0 new,
    popitem-append t.index_by_key (k, 0),
    remove-put t.next_index (parent_of k) 1 e,
  )
  | inr (n, e) ↦ ground (
    arith,
    put_fresh t.index_by_key k n new,
    popitem-append t.index_by_key (k, n),
    put-put t.next_index (parent_of k) (n + 1) n e,
    c (parent_of k),
  )
]

-- An allocation changes nothing, or one more entry is there and `undo` removes it.
index-cases :
    (t : RngHypothesisTable) (k : RngKey)
    → IsCounted t
    → ((hypothesis_index_for t k).1 ≡ t)
      ⊎ ((length (hypothesis_index_for t k).1.index_by_key ≡ length t.index_by_key + 1)
          × (undo (hypothesis_index_for t k).1 ≡ t))
unfolding hypothesis_index_for
index-cases t k c = elim (Option-cases (Dict.get t.index_by_key k)) [
  | inl e ↦ inr (rw (e, allocate) (grown e), rw (e, allocate) (undo-allocate t k c e))
  | inr (i, e) ↦ inl (rw (e, allocate))
]
  where
    grown :
        Dict.get t.index_by_key k ≡ none
        → length (Dict.put t.index_by_key k (or_zero (Dict.get t.next_index (parent_of k))))
          ≡ length t.index_by_key + 1
    grown e =
        ap length (put_fresh t.index_by_key k _ e)
        ∙ length-append t.index_by_key ((k, or_zero (Dict.get t.next_index (parent_of k))) ∷ [])

undo_all-add : (m n : ℕ) (t : RngHypothesisTable) → undo_all (m + n) t ≡ undo_all n (undo_all m t)
unfolding undo_all
undo_all-add zero n t = ap (λ (j : ℕ). undo_all j t) {x = 0 + n} {y = n} (omega arith)
undo_all-add (suc m) n t =
    let e : suc m + n ≡ suc (m + n) = omega arith in
    ap (λ (j : ℕ). undo_all j t) e ∙ undo_all-add m n (undo t)

undo_all-one : (t : RngHypothesisTable) → undo_all 1 t ≡ undo t
unfolding undo_all
undo_all-one t = refl

length-allocate_all :
    (t : RngHypothesisTable) (ks : List RngKey)
    → IsCounted t
    → length t.index_by_key ≤ length (allocate_all t ks).index_by_key
unfolding allocate_all
length-allocate_all t [] c = omega arith
length-allocate_all t (k ∷ ks) c =
    let t' = (hypothesis_index_for t k).1 in
    let rest = length-allocate_all t' ks (index-IsCounted t k c) in
    elim (index-cases t k c) [
      | inl e ↦ omega (arith, ap (λ (u : RngHypothesisTable). length u.index_by_key) e)
      | inr (e, _) ↦ omega arith
    ]

undo_all-allocate_all :
    (t : RngHypothesisTable) (ks : List RngKey)
    → IsCounted t
    → undo_all (length (allocate_all t ks).index_by_key - length t.index_by_key) (allocate_all t ks)
      ≡ t
unfolding allocate_all
undo_all-allocate_all t [] c =
    ap (λ (j : ℕ). undo_all j t) {x = length t.index_by_key - length t.index_by_key} {y = 0}
      (omega arith)
    ∙ unfold undo_all in refl
undo_all-allocate_all t (k ∷ ks) c =
    let t' = (hypothesis_index_for t k).1 in
    let s = allocate_all t' ks in
    let c' = index-IsCounted t k c in
    let back = undo_all-allocate_all t' ks c' in
    let longer = length-allocate_all t' ks c' in
    elim (index-cases t k c) [
      | inl e ↦
          subst
            (λ (u : RngHypothesisTable).
              undo_all (length s.index_by_key - length u.index_by_key) s ≡ u)
            e back
      | inr (e, u) ↦
          ap (λ (j : ℕ). undo_all j s) {x = length s.index_by_key - length t.index_by_key}
            {y = (length s.index_by_key - length t'.index_by_key) + 1} (omega arith)
          ∙ undo_all-add (length s.index_by_key - length t'.index_by_key) 1 s
          ∙ ap (undo_all 1) back
          ∙ undo_all-one t'
          ∙ u
    ]

restore-allocate_all :
    (t : RngHypothesisTable) (ks : List RngKey)
    → IsCounted t
    → restore (allocate_all t ks) (snapshot t) ≡ ok t
unfolding restore snapshot
restore-allocate_all t ks c =
    ground (arith, length-allocate_all t ks c, undo_all-allocate_all t ks c)

IsCounted-allocate_all :
    (t : RngHypothesisTable) (ks : List RngKey) → IsCounted t → IsCounted (allocate_all t ks)
unfolding allocate_all
IsCounted-allocate_all t [] c = c
IsCounted-allocate_all t (k ∷ ks) c =
    IsCounted-allocate_all (hypothesis_index_for t k).1 ks (index-IsCounted t k c)

IsCounted-empty : IsCounted empty_table
unfolding Dict.get
IsCounted-empty pd = λ e. cc e

-- Restoring to a marker takes back exactly the allocations made since it was taken: the table that
-- some allocations left, and after any further ones, is restored as it was, its counters included.
pub restore_undoes_allocations :
    (ks ls : List RngKey)
    → let t = allocate_all empty_table ks in restore (allocate_all t ls) (snapshot t) ≡ ok t
restore_undoes_allocations ks ls =
    restore-allocate_all (allocate_all empty_table ks) ls
      (IsCounted-allocate_all empty_table ks IsCounted-empty)
