-- ===== src/Combat/Aggregation/Samples.antt =====
-- How many hypotheses the entries of a round name, and how many of them a root action has samples of.
use sts2_rl.Prelude.{
  ◌≡◌, refl, sym, ap, ◌∙◌, arith, String, Bool, true, false, ◌&&◌, ◌||◌, Option, none, some, List,
  [], ◌∷◌, length, str_eq, eq_iff, Bool-cases, Option-cases, inl, inr, ite,
}
use mathlib.Core.Logic.{if_pos, if_neg}
use sts2_rl.Prelude.Dict
use sts2_rl.Prelude.Dict.{Dict, get-put}
use sts2_rl.Prelude.Key.{str_key, str_discrete}
use sts2_rl.Api.Dto.{member}
use sts2_rl.Combat.Aggregation.{
  Floats, Entry, Sample, WorkItemState, running, retrying, final_fault, final_success, add_success,
  success_entries,
}
use sts2_rl.Combat.Aggregation.Rounds.{
  distinct, hypotheses_of, Samples, or_no_samples, better, by_root_hypothesis,
}
use sts2_rl.Combat.Aggregation.Counting.{
  IsDistinct, IsCount, any, names, keys, member-distinct, distinct-IsDistinct, member-keys-put,
  keys-put-IsDistinct, member-keys-get,
}

abbrev pub has_score : {S : Type 0} → WorkItemState S → Bool
has_score (final_success score) = true
has_score _ = false

module _ (floats : Floats) (A G : Type 0) where
  member-hypotheses_of :
      (id : String) (entries : List (Entry floats A G))
      → member id (hypotheses_of floats A G entries)
        ≡ any (λ (e : Entry floats A G). names id e.hypothesis_id) entries
  unfolding member hypotheses_of
  member-hypotheses_of id [] = refl
  member-hypotheses_of id (e ∷ entries) = elim (Option-cases e.hypothesis_id) [
    | inl h ↦ rw (h, hypotheses_of) (member-hypotheses_of id entries)
    | inr (x, h) ↦
        rw (h, hypotheses_of) (ap (λ b. str_eq id x || b) (member-hypotheses_of id entries))
  ]

  -- The hypotheses that the entries name are counted once each.
  pub hypotheses-IsCount :
      (entries : List (Entry floats A G))
      → IsCount
          (length (distinct (hypotheses_of floats A G entries)))
          (λ id. any (λ (e : Entry floats A G). names id e.hypothesis_id) entries)
  hypotheses-IsCount entries = (
    distinct (hypotheses_of floats A G entries),
    distinct-IsDistinct (hypotheses_of floats A G entries),
    λ id. member-distinct id (hypotheses_of floats A G entries) ∙ member-hypotheses_of id entries,
    refl,
  )

  abbrev pub ByRoot : Type 0
  ByRoot = Dict String (Samples floats A G)

  abbrev pub view : ByRoot → String → Samples floats A G
  view by_root root = or_no_samples floats A G (Dict.get by_root root)

  -- A sample of the root action for the hypothesis.
  abbrev sampled : String → String → Sample floats A G → Bool
  sampled root id (s, e) = str_eq root e.root_action_key && names id e.hypothesis_id

  member-better :
      (o : Option (Sample floats A G)) (x : Sample floats A G) (samples : Samples floats A G)
      (k id : String)
      → Dict.get samples k ≡ o
      → member id (keys (better floats A G o x samples k)) ≡ str_eq id k || member id (keys samples)
  unfolding better
  member-better none x samples k id h = member-keys-put samples k id x
  member-better (some (t, d)) (s, e) samples k id h =
      ground (
        arith,
        member-keys-put samples k id (s, e),
        member-keys-get samples k (t, d) h,
        eq_iff id k,
      )

  better-IsDistinct :
      (o : Option (Sample floats A G)) (x : Sample floats A G) (samples : Samples floats A G)
      (k : String)
      → IsDistinct (keys samples)
      → IsDistinct (keys (better floats A G o x samples k))
  unfolding better
  better-IsDistinct none x samples k d = keys-put-IsDistinct samples k x d
  better-IsDistinct (some (t, p)) (s, e) samples k d = elim (Bool-cases (floats.less t s)) [
    | inl y ↦ rw y (keys-put-IsDistinct samples k (s, e) d)
    | inr n ↦ rw n d
  ]

  view-put :
      (by_root : ByRoot) (r root : String) (v : Samples floats A G)
      → view (Dict.put by_root r v) root ≡ ite (str_discrete r root) v (view by_root root)
  view-put by_root r root v = ground (arith, get-put by_root r root v)

  member-view :
      (b : ByRoot) (r root id k : String) (x : Sample floats A G)
      → member id (
          keys
            (view (Dict.put b r (better floats A G (Dict.get (view b r) k) x (view b r) k)) root))
        ≡ member id (keys (view b root)) || (str_eq root r && str_eq id k)
  member-view b r root id k x = elim (str_discrete r root) [
    | yes p ↦
        rw (view-put b r root _, if_pos (str_discrete r root) p)
          (ground (
            arith,
            member-better (Dict.get (view b r) k) x (view b r) k id refl,
            ap (λ z. member id (keys (view b z))) p,
            (eq_iff root r).1 (sym p),
          ))
    | no n ↦
        rw (view-put b r root _, if_neg (str_discrete r root) n)
          (ground (arith, eq_iff root r, eq_iff r root))
  ]

  view-IsDistinct :
      (b : ByRoot) (r : String) (v : Samples floats A G)
      → ((root : String) → IsDistinct (keys (view b root)))
      → IsDistinct (keys v)
      → (root : String) → IsDistinct (keys (view (Dict.put b r v) root))
  view-IsDistinct b r v d e root = elim (str_discrete r root) [
    | yes p ↦ rw (view-put b r root v, if_pos (str_discrete r root) p) e
    | no n ↦ rw (view-put b r root v, if_neg (str_discrete r root) n) (d root)
  ]

  -- The samples by root actions: which hypotheses each has.
  by_root-sampled :
      (samples : List (Sample floats A G)) (by_root : ByRoot) (root id : String)
      → member id (keys (view (by_root_hypothesis floats A G samples by_root) root))
        ≡ member id (keys (view by_root root)) || any (sampled root id) samples
  unfolding by_root_hypothesis
  by_root-sampled [] by_root root id = ground arith
  by_root-sampled ((s, e) ∷ samples) by_root root id = elim (Option-cases e.hypothesis_id) [
    | inl h ↦ rw (h, by_root_hypothesis) (ground (arith, by_root-sampled samples by_root root id))
    | inr (k, h) ↦
        let r = e.root_action_key in
        let per_root = view by_root r in
        let by_root' =
          Dict.put by_root r (better floats A G (Dict.get per_root k) (s, e) per_root k) in
        rw (h, by_root_hypothesis)
          (ground (
            arith,
            by_root-sampled samples by_root' root id,
            member-view by_root r root id k (s, e),
          ))
  ]

  by_root-IsDistinct :
      (samples : List (Sample floats A G)) (by_root : ByRoot)
      → ((root : String) → IsDistinct (keys (view by_root root)))
      → (root : String)
      → IsDistinct (keys (view (by_root_hypothesis floats A G samples by_root) root))
  unfolding by_root_hypothesis
  by_root-IsDistinct [] by_root d = d
  by_root-IsDistinct ((s, e) ∷ samples) by_root d = elim (Option-cases e.hypothesis_id) [
    | inl h ↦ rw (h, by_root_hypothesis) (by_root-IsDistinct samples by_root d)
    | inr (k, h) ↦
        let r = e.root_action_key in
        let per_root = view by_root r in
        rw (h, by_root_hypothesis)
          (by_root-IsDistinct samples _ (
            view-IsDistinct by_root r _ d
              (better-IsDistinct (Dict.get per_root k) (s, e) per_root k (d r))))
  ]

  -- An entry that ended with a score and the status "success".
  abbrev pub succeeded : Entry floats A G → Bool
  succeeded e = has_score e.work_item_state && str_eq e.status "success"

  abbrev pub tried : String → String → Entry floats A G → Bool
  tried root id e = succeeded e && (str_eq root e.root_action_key && names id e.hypothesis_id)

  added-sampled :
      (state : WorkItemState floats.Score) (e : Entry floats A G) (root id : String)
      (samples : List (Sample floats A G))
      → any (sampled root id) (add_success floats A G state e samples)
        ≡ ((has_score state && str_eq e.status "success")
            && (str_eq root e.root_action_key && names id e.hypothesis_id))
          || any (sampled root id) samples
  unfolding add_success
  added-sampled (final_success score) e root id samples =
      elim (Bool-cases (str_eq e.status "success")) [ inl y ↦ rw y refl | inr n ↦ rw n refl ]
  added-sampled running e root id samples = refl
  added-sampled retrying e root id samples = refl
  added-sampled final_fault e root id samples = refl

  success-sampled :
      (entries : List (Entry floats A G)) (root id : String)
      → any (sampled root id) (success_entries floats A G entries) ≡ any (tried root id) entries
  unfolding success_entries
  success-sampled [] root id = refl
  success-sampled (e ∷ entries) root id =
      added-sampled e.work_item_state e root id (success_entries floats A G entries)
      ∙ ap (λ b. tried root id e || b) (success-sampled entries root id)

  length-keys : (samples : Samples floats A G) → length samples ≡ length (keys samples)
  length-keys [] = refl
  length-keys (x ∷ samples) = omega (arith, length-keys samples)

  -- The samples of a root action are one for each hypothesis that it succeeded in.
  pub samples-IsCount :
      (entries : List (Entry floats A G)) (root : String)
      → IsCount
          (length
            (view (by_root_hypothesis floats A G (success_entries floats A G entries) []) root))
          (λ id. any (tried root id) entries)
  unfolding Dict.get member
  samples-IsCount entries root =
      let samples = success_entries floats A G entries in
      let found = view (by_root_hypothesis floats A G samples []) root in
      (
        keys found,
        by_root-IsDistinct samples [] (λ r. tt) root,
        λ id. by_root-sampled samples [] root id ∙ success-sampled entries root id,
        length-keys found,
      )
