-- ===== src/Api/Identifiers/Branches.antt =====
-- `BranchIdRegistry` of API/identifiers.py.
use sts2_rl.Prelude.{
  String, ◌≡◌, Bool, true, false, ◌||◌, List, [], ◌∷◌, Result, ok, err, arith, str_eq, eq_iff,
  if◌then◌else◌,
}
use sts2_rl.Prelude.Pyset
use sts2_rl.Prelude.Pyset.{has-discard}
use sts2_rl.Prelude.Key.{str_key}
use sts2_rl.Api.Dto.{root_branch_id}
use sts2_rl.Api.Rejected.{Rejection, reject, branch_used}

pub record BranchIdRegistry : Type 0 where
  pub ever_used : List String

abbrev pub new_registry : BranchIdRegistry
new_registry = record { ever_used = root_branch_id ∷ [] }

unfoldable pub is_known : BranchIdRegistry → String → Bool
is_known r branch_id = Pyset.has r.ever_used branch_id

unfoldable pub register : BranchIdRegistry → String → Result Rejection BranchIdRegistry
register r branch_id =
    if Pyset.has r.ever_used branch_id
    then err (reject (branch_used branch_id))
    else ok (record { ever_used = Pyset.add r.ever_used branch_id })

unfoldable pub rollback_registration : BranchIdRegistry → String → BranchIdRegistry
rollback_registration r branch_id =
    if str_eq branch_id root_branch_id
    then r
    else record { ever_used = Pyset.discard r.ever_used branch_id }

-- Registering makes known an id that was not, and no other.
pub is_known-register :
    (r r' : BranchIdRegistry) (branch_id other : String)
    → register r branch_id ≡ ok r'
    → (is_known r branch_id ≡ false)
      × (is_known r' other ≡ (str_eq branch_id other || is_known r other))
unfolding register is_known Pyset.has Pyset.add
is_known-register r r' branch_id other h = (ground arith, ground (arith, eq_iff branch_id other))

-- A known id is refused, so an id is registered once, and the root's never.
pub register_once :
    (r : BranchIdRegistry) (branch_id : String)
    → is_known r branch_id ≡ true
    → register r branch_id ≡ err (reject (branch_used branch_id))
unfolding register is_known
register_once r branch_id h = rw h

-- Rolling back a registration that succeeded leaves known exactly the ids that were known before it,
-- if the root was known.
is_known-rollback :
    (r r' : BranchIdRegistry) (branch_id other : String)
    → is_known r root_branch_id ≡ true
    → register r branch_id ≡ ok r'
    → is_known (rollback_registration r' branch_id) other ≡ is_known r other
unfolding register is_known rollback_registration Pyset.has Pyset.add
is_known-rollback r r' branch_id other k h =
    ground (
      arith,
      eq_iff branch_id root_branch_id,
      has-discard (branch_id ∷ r.ever_used) branch_id other,
    )
