-- ===== src/Api/EventRng.antt =====
-- `EventRngHypothesisRegistry` of API/whole_run_event_rng.py. A key is the tuple of a parent branch,
-- a decision point and an rng id, and a counter in a snapshot is a natural number. The state of a
-- hypothesis is any type with a decided equality.
pub mod Lifecycle
pub mod Undo
mod Examples
use sts2_rl.Prelude.{
  ℕ, zero, suc, ◌+◌, String, Bool, true, false, ◌&&◌, ◌||◌, not, Option, none, some, List, [], ◌∷◌,
  ◌++◌, Result, ok, err, if◌then◌else◌, ltb, str_eq, ite,
}
use sts2_rl.Prelude.Dict
use sts2_rl.Prelude.Dict.{Dict}
use sts2_rl.Prelude.Pyset
use sts2_rl.Prelude.Key.{Key, str_key}
use sts2_rl.Api.Identifiers.Hypotheses.{RngKey, rng_key, or_zero}

pub data EventRngError : Type 0 where
  no_longer_matches restored_forward : EventRngError

pub record HypothesisEntry (S : Type 0) : Type 0 where
  pub state : S
  pub generation : ℕ

pub record EventRngHypothesisRegistry (S : Type 0) : Type 0 where
  pub entries : Dict RngKey (HypothesisEntry S)
  pub branch_refs_by_key : Dict RngKey (List String)
  pub generation_counts : Dict RngKey ℕ

abbrev pub or_empty : Option (List String) → List String
or_empty none = []
or_empty (some refs) = refs

abbrev pub is_empty : List String → Bool
is_empty [] = true
is_empty (b ∷ refs) = false

abbrev pub is_some {ℓ} : {A : Type ℓ} → Option A → Bool
is_some none = false
is_some (some a) = true

abbrev of_decision : String → String → RngKey → Bool
of_decision parent_branch_id decision_point_id key =
    str_eq key.parent_branch_id parent_branch_id && str_eq key.decision_point_id decision_point_id

keys_of : {V : Type 0} → String → String → Dict RngKey V → List RngKey
keys_of parent decision [] = []
keys_of parent decision ((key, v) ∷ m) =
    let rest = keys_of parent decision m in
    if of_decision parent decision key then key ∷ rest else rest

module _ {S : Type 0} ⦃same_state : Key S⦄ where
  unfoldable pub is_live : EventRngHypothesisRegistry S → RngKey → Bool
  is_live r key = is_some (Dict.get r.entries key)

  unfoldable pub generation_of : EventRngHypothesisRegistry S → RngKey → ℕ
  generation_of r key = or_zero (Dict.get r.generation_counts key)

  ensured :
      Option (HypothesisEntry S)
      → EventRngHypothesisRegistry S
      → RngKey
      → S
      → Result EventRngError (EventRngHypothesisRegistry S)
  unfolding generation_of
  ensured (some entry) r key state =
      ite (same_state.same entry.state state) (ok r) (err no_longer_matches)
  ensured none r key state =
      let generation = generation_of r key + 1 in
      ok (record r {
        generation_counts = Dict.put r.generation_counts key generation;
        entries = Dict.put r.entries key (record { state = state; generation = generation });
      })

  -- `_ensure_entry`
  unfoldable pub ensure_entry :
      EventRngHypothesisRegistry S
      → RngKey
      → S
      → Result EventRngError (EventRngHypothesisRegistry S)
  unfolding ensured
  ensure_entry r key state = ensured (Dict.get r.entries key) r key state

  unfoldable pub register_branch :
      EventRngHypothesisRegistry S → RngKey → String → EventRngHypothesisRegistry S
  register_branch r key branch_id = record r {
    branch_refs_by_key =
        Dict.put r.branch_refs_by_key key
          (Pyset.add (or_empty (Dict.get r.branch_refs_by_key key)) branch_id);
  }

  registered :
      Result EventRngError (EventRngHypothesisRegistry S)
      → RngKey
      → String
      → Result EventRngError (EventRngHypothesisRegistry S)
  unfolding register_branch
  registered (err e) key branch_id = err e
  registered (ok r) key branch_id = ok (register_branch r key branch_id)

  unfoldable pub commit_branch :
      EventRngHypothesisRegistry S
      → RngKey
      → S
      → String
      → Result EventRngError (EventRngHypothesisRegistry S)
  unfolding registered ensure_entry
  commit_branch r key state branch_id = registered (ensure_entry r key state) key branch_id

  drop_entry : EventRngHypothesisRegistry S → RngKey → EventRngHypothesisRegistry S
  drop_entry r key = record r { entries = Dict.remove r.entries key }

  drop : EventRngHypothesisRegistry S → RngKey → EventRngHypothesisRegistry S
  drop r key = record r {
    entries = Dict.remove r.entries key;
    branch_refs_by_key = Dict.remove r.branch_refs_by_key key;
  }

  released :
      Option (List String)
      → EventRngHypothesisRegistry S
      → RngKey
      → String
      → EventRngHypothesisRegistry S
  unfolding drop drop_entry
  released none r key branch_id = drop_entry r key
  released (some refs) r key branch_id =
      let left = Pyset.discard refs branch_id in
      if is_empty left
      then drop r key
      else record r { branch_refs_by_key = Dict.put r.branch_refs_by_key key left }

  -- Without references an entry is dropped; dropping one that is not there changes nothing.
  unfoldable pub release_branch :
      EventRngHypothesisRegistry S → RngKey → String → EventRngHypothesisRegistry S
  unfolding released
  release_branch r key branch_id = released (Dict.get r.branch_refs_by_key key) r key branch_id

  drop_all : List RngKey → EventRngHypothesisRegistry S → EventRngHypothesisRegistry S
  unfolding drop
  drop_all [] r = r
  drop_all (key ∷ keys) r = drop_all keys (drop r key)

  unfoldable pub release_all_for_decision :
      EventRngHypothesisRegistry S → String → String → EventRngHypothesisRegistry S
  unfolding drop_all keys_of
  release_all_for_decision r parent decision =
      drop_all (keys_of parent decision r.entries ++ keys_of parent decision r.branch_refs_by_key) r

  unfoldable pub release_all : EventRngHypothesisRegistry S → EventRngHypothesisRegistry S
  release_all r = record r { entries = []; branch_refs_by_key = [] }

  unfoldable pub snapshot_generations : EventRngHypothesisRegistry S → List RngKey → Dict RngKey ℕ
  unfolding generation_of
  snapshot_generations r [] = []
  snapshot_generations r (key ∷ keys) =
      Dict.put (snapshot_generations r keys) key (generation_of r key)

  restore_one : EventRngHypothesisRegistry S → RngKey → ℕ → EventRngHypothesisRegistry S
  restore_one r key zero = record r { generation_counts = Dict.remove r.generation_counts key }
  restore_one r key (suc n) = record r {
    generation_counts = Dict.put r.generation_counts key (suc n);
  }

  -- What was restored before a refusal stays.
  unfoldable pub restore_generations :
      EventRngHypothesisRegistry S
      → Dict RngKey ℕ
      → Result EventRngError (Unit {0}) × EventRngHypothesisRegistry S
  unfolding generation_of restore_one
  restore_generations r [] = (ok tt, r)
  restore_generations r ((key, generation) ∷ snapshot) =
      let rest = restore_generations (restore_one r key generation) snapshot in
      if ltb (generation_of r key) generation then (err restored_forward, r) else rest
