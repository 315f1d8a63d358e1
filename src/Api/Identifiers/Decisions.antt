-- ===== src/Api/Identifiers/Decisions.antt =====
-- `DecisionPointRegistry` of API/identifiers.py.
use Prim.Native.String.{◌++◌ as str_append}
use text.Mathlib.TextLemmas.{append_cancel_left}
use sts2_rl.Prelude.{
  ℕ, ◌+◌, ◌≤◌, String, ◌≡◌, ◌≢◌, refl, Option, none, some, Result, ok, err, arith, str_eq, eq_iff,
  if◌then◌else◌, ite, List, [], ◌∷◌,
}
use sts2_rl.Prelude.Dict
use sts2_rl.Prelude.Dict.{Dict, get-put, get-remove}
use sts2_rl.Prelude.Key.{str_key, str_discrete}
use sts2_rl.Api.Decimal.{padded, padded_inj}
use sts2_rl.Api.Rejected.{Rejection, reject, no_active_decision, stale_decision}

-- `counter` is what `next(self._counter)` gives next.
pub record DecisionPointRegistry : Type 0 where
  pub counter : ℕ
  pub current : Dict String String

abbrev pub new_decisions : DecisionPointRegistry
new_decisions = record { counter = 1; current = [] }

-- f"d-{branch_id}-{n:06d}"
unfoldable pub decision_point_id : String → ℕ → String
decision_point_id branch_id n = str_append "d-" (str_append branch_id (str_append "-" (padded n)))

unfoldable pub issue : DecisionPointRegistry → String → String × DecisionPointRegistry
issue r branch_id = (
  decision_point_id branch_id r.counter,
  record {
    counter = r.counter + 1;
    current = Dict.put r.current branch_id (decision_point_id branch_id r.counter);
  },
)

unfoldable pub current_id : DecisionPointRegistry → String → Option String
current_id r branch_id = Dict.get r.current branch_id

validate_against : Option String → String → String → Result Rejection (Unit {0})
validate_against none branch_id given = err (reject (no_active_decision branch_id))
validate_against (some current) branch_id given =
    if str_eq current given then ok tt else err (reject (stale_decision branch_id given current))

unfoldable pub validate : DecisionPointRegistry → String → String → Result Rejection (Unit {0})
unfolding validate_against current_id
validate r branch_id given = validate_against (current_id r branch_id) branch_id given

unfoldable pub clear : DecisionPointRegistry → String → DecisionPointRegistry
clear r branch_id = record r { current = Dict.remove r.current branch_id }

unfoldable pub restore_current :
    DecisionPointRegistry → String → Option String → DecisionPointRegistry
restore_current r branch_id none = record r { current = Dict.remove r.current branch_id }
restore_current r branch_id (some id) = record r { current = Dict.put r.current branch_id id }

decision_point_id_inj :
    (branch_id : String) (m n : ℕ)
    → decision_point_id branch_id m ≡ decision_point_id branch_id n
    → m ≡ n
unfolding decision_point_id
decision_point_id_inj branch_id m n e =
    padded_inj m n (
      append_cancel_left "-" _ _ (append_cancel_left branch_id _ _ (append_cancel_left "d-" _ _ e)))

pub data Call : Type 0 where
  issues clears : String → Call
  restores : String → Option String → Call

abbrev pub apply : DecisionPointRegistry → Call → DecisionPointRegistry
apply r (issues branch_id) = (issue r branch_id).1
apply r (clears branch_id) = clear r branch_id
apply r (restores branch_id id) = restore_current r branch_id id

pub run : DecisionPointRegistry → List Call → DecisionPointRegistry
run r [] = r
run r (c ∷ cs) = run (apply r c) cs

counter-apply : (r : DecisionPointRegistry) (c : Call) → r.counter ≤ (apply r c).counter
unfolding issue clear restore_current
counter-apply r (issues branch_id) = omega arith
counter-apply r (clears branch_id) = omega arith
counter-apply r (restores branch_id none) = omega arith
counter-apply r (restores branch_id (some id)) = omega arith

counter-run : (r : DecisionPointRegistry) (cs : List Call) → r.counter ≤ (run r cs).counter
unfolding run
counter-run r [] = omega arith
counter-run r (c ∷ cs) = omega (arith, counter-apply r c, counter-run (apply r c) cs)

-- The id that `issue` returns is the branch's current one, validates for it, and the current ids of
-- the other branches stay as they were.
pub validate-issue :
    (r : DecisionPointRegistry) (branch_id other : String)
    → (validate (issue r branch_id).1 branch_id (issue r branch_id).0 ≡ ok tt)
      × (current_id (issue r branch_id).1 other
          ≡ ite (str_discrete branch_id other) (some (issue r branch_id).0) (current_id r other))
unfolding issue validate
validate-issue r branch_id other = (
  ground (
    arith,
    get-put r.current branch_id branch_id (decision_point_id branch_id r.counter),
    eq_iff (decision_point_id branch_id r.counter) (decision_point_id branch_id r.counter),
  ),
  get-put r.current branch_id other (decision_point_id branch_id r.counter),
)

-- An id goes stale for good: whatever calls follow, once a further decision of the branch is
-- issued the earlier id is refused, and the refusal names the new one.
stale_after_issue :
    (r : DecisionPointRegistry) (cs : List Call) (branch_id : String)
    → let r' = run (issue r branch_id).1 cs in
      validate (issue r' branch_id).1 branch_id (issue r branch_id).0
      ≡ err (reject (stale_decision branch_id (issue r branch_id).0 (issue r' branch_id).0))
unfolding issue validate
stale_after_issue r cs branch_id =
    let r' = run (issue r branch_id).1 cs in
    let old : String = decision_point_id branch_id r.counter in
    let new : String = decision_point_id branch_id r'.counter in
    ground (
      arith,
      get-put r'.current branch_id branch_id new,
      eq_iff new old,
      decision_point_id_inj branch_id r'.counter r.counter,
      counter-run (issue r branch_id).1 cs,
    )

pub undo-restore :
    (r s : DecisionPointRegistry) (branch_id other : String) (o : Option String)
    → current_id r branch_id ≡ o
    → (branch_id ≢ other → current_id s other ≡ current_id r other)
    → current_id (restore_current s branch_id o) other ≡ current_id r other
unfolding current_id restore_current
undo-restore r s branch_id other none e same = ground (arith, get-remove s.current branch_id other)
undo-restore r s branch_id other (some id) e same =
    ground (arith, get-put s.current branch_id other id)

-- `restore_current` undoes an `issue` or a `clear` as far as the current ids go: with the id that
-- was current before, every branch has the current id that it had.
current-restore :
    (r : DecisionPointRegistry) (branch_id other : String)
    → (current_id (restore_current (issue r branch_id).1 branch_id (current_id r branch_id)) other
        ≡ current_id r other)
      × (current_id (restore_current (clear r branch_id) branch_id (current_id r branch_id)) other
          ≡ current_id r other)
unfolding issue clear current_id restore_current
current-restore r branch_id other = (
  undo-restore r (issue r branch_id).1 branch_id other (current_id r branch_id) refl (λ ne.
      ground (arith, get-put r.current branch_id other (decision_point_id branch_id r.counter))),
  undo-restore r (clear r branch_id) branch_id other (current_id r branch_id) refl
      (λ ne. ground (arith, get-remove r.current branch_id other)),
)
