-- ===== src/Combat/Coordinator/Ends.antt =====
-- The retries end: the cap on the rounds is never met.
use sts2_rl.Prelude.{
  ℕ, zero, suc, ◌+◌, ◌≡◌, ◌≢◌, inl, inr, ◌∙◌, arith, String, List, [], ◌∷◌, Result, err,
  Result-cases,
}
use sts2_rl.Prelude.Dict
use sts2_rl.Prelude.Dict.{Dict, get-put}
use sts2_rl.Prelude.Key.{str_key}
use sts2_rl.Combat.Coordinator.{
  BranchResult, round_cap, Progress, start, by_work_id, one_round, rounds,
  dispatch_work_items_until_final,
}
use sts2_rl.Combat.Coordinator.Avoids.{Avoids, bind-Avoids, one_round-Avoids, outcomes-Avoids}
use sts2_rl.Combat.Coordinator.Settled.{Names, Due, Names-by_work_id, one_round-Due}

module _ {Item W : Type 0} (work_id : Item → String)
    (dispatch : List Item → W → Result String (List BranchResult) × W) where
  rounds-end :
      (n max_retries k : ℕ) (items : Dict String Item) (is : List Item)
      (p : Progress work_id dispatch) (w : W)
      → Names work_id dispatch items
      → Due work_id dispatch max_retries k p is
      → k + n ≡ max_retries + 2
      → Avoids (rounds work_id dispatch n max_retries items is p w).0
  unfolding rounds
  rounds-end n max_retries k items [] p w names d e = λ h. cc h
  rounds-end zero max_retries k items (i ∷ is) p w names d e = absurd (omega (arith, d.0.1, e))
  rounds-end (suc n) max_retries k items (i ∷ is) p w names d e =
      elim (Result-cases
        (one_round work_id dispatch max_retries items (i ∷ is) p (dispatch (i ∷ is) w).0)) [
          | inl (q, f) ↦
              rw (rounds, f)
                (rounds-end n max_retries (suc k) items q.retry_next_round q (dispatch (i ∷ is) w).1
                  names
                  (one_round-Due work_id dispatch max_retries k items (i ∷ is) p q
                    (dispatch (i ∷ is) w).0 names d f)
                  (omega (arith, e)))
          | inr (x, f) ↦
              rw (rounds, f)
                (λ h.
                  one_round-Avoids work_id dispatch max_retries items (i ∷ is) p
                    (dispatch (i ∷ is) w).0 (f ∙ h))
        ]

  start-Due :
      (max_retries : ℕ) (p : Progress work_id dispatch) (is : List Item)
      → Due work_id dispatch max_retries 0 p is
  start-Due max_retries p [] = tt
  start-Due max_retries p (i ∷ is) = ((omega arith, omega arith), start-Due max_retries p is)

  -- Whatever the pool answers, in whatever order and with whatever faults, the retry loop ends
  -- within its cap of `max_retries + 2` rounds: the error for meeting the cap is never raised.
  pub retries_end :
      (max_retries : ℕ) (work_items : List Item) (w : W)
      → (dispatch_work_items_until_final work_id dispatch max_retries work_items w).0
        ≢ err round_cap
  unfolding dispatch_work_items_until_final Dict.get
  retries_end max_retries work_items w =
      bind-Avoids
        (rounds work_id dispatch (max_retries + 2) max_retries
          (by_work_id work_id dispatch [] work_items) work_items (start work_id dispatch work_items)
          w).0
        _
        (rounds-end (max_retries + 2) max_retries 0 _ work_items _ w
          (Names-by_work_id work_id dispatch [] work_items (λ id i e. absurd (cc e)))
          (start-Due max_retries (start work_id dispatch work_items) work_items) (omega arith))
        (λ p. outcomes-Avoids work_id dispatch p work_items)
