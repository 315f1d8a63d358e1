-- ===== src/Combat/Branches/Cancel/Seen.antt =====
-- What the loop of a cancellation has visited and what waits on its stack.
use sts2_rl.Prelude.{
  ◌≡◌, ◌≢◌, refl, sym, ap, ◌∙◌, arith, String, Bool, true, false, ◌||◌, Option, none, some, List,
  [], ◌∷◌, str_eq, eq_iff,
}
use sts2_rl.Prelude.Dict
use sts2_rl.Prelude.Dict.{Dict}
use sts2_rl.Prelude.Key.{str_key, str_discrete}
use sts2_rl.Api.Dto.{member}
use sts2_rl.Combat.Branches.{BranchState}
use sts2_rl.Combat.Branches.Cancel.{push}

abbrev pub is_known : Option BranchState → Bool
is_known none = false
is_known (some s) = true

-- The loop has been at a branch.
unfoldable pub seen : Dict String BranchState → String → Bool
seen visited id = is_known (Dict.get visited id)

pub member-push :
    (c : String) (ids stack : List String)
    → member c (push ids stack) ≡ (member c ids || member c stack)
unfolding member push
member-push c [] stack = refl
member-push c (id ∷ ids) stack = ground (arith, member-push c ids (id ∷ stack))

pub seen-put_self :
    (visited : Dict String BranchState) (id : String) (s : BranchState)
    → seen (Dict.put visited id s) id ≡ true
unfolding seen
seen-put_self visited id s = ap is_known (Dict.get-put_self visited id s)

pub seen-put_other :
    (visited : Dict String BranchState) (id j : String) (s : BranchState)
    → id ≢ j
    → seen (Dict.put visited id s) j ≡ seen visited j
unfolding seen
seen-put_other visited id j s n = ap is_known (Dict.get-put_other visited id j s n)

seen-put :
    (visited : Dict String BranchState) (id j : String) (s : BranchState)
    → seen visited j ≡ true
    → seen (Dict.put visited id s) j ≡ true
seen-put visited id j s h = elim (str_discrete id j) [
  | yes p ↦ ap (seen (Dict.put visited id s)) (sym p) ∙ seen-put_self visited id s
  | no n ↦ seen-put_other visited id j s n ∙ h
]

pub or_left : (a b : Bool) → a ≡ true → (a || b) ≡ true
or_left true b h = refl
or_left false b h = cc h

pub or_right : (a b : Bool) → b ≡ true → (a || b) ≡ true
or_right true b h = refl
or_right false b h = h

or_false : (a : Bool) → (a || false) ≡ true → a ≡ true
or_false true h = refl
or_false false h = h

-- From the alternatives of a round to those of the next.
or_pop :
    (a e b x y : Bool)
    → (e ≡ true → x ≡ true)
    → (a ≡ true → x ≡ true)
    → (b ≡ true → y ≡ true)
    → (a || (e || b)) ≡ true
    → (x || y) ≡ true
or_pop true e b x y f g k h = or_left x y (g refl)
or_pop false true b x y f g k h = or_left x y (f refl)
or_pop false false b x y f g k h = or_right x y (k h)

seen-at :
    (visited : Dict String BranchState) (c id : String)
    → seen visited id ≡ true
    → str_eq c id ≡ true
    → seen visited c ≡ true
seen-at visited c id h e = ap (seen visited) ((eq_iff c id).0 e) ∙ h

-- A branch that was visited is taken off the stack.
pub pop_seen :
    (visited : Dict String BranchState) (id : String) (stack : List String) (c : String)
    → seen visited id ≡ true
    → (seen visited c || member c (id ∷ stack)) ≡ true
    → (seen visited c || member c stack) ≡ true
unfolding member
pop_seen visited id stack c h k =
    or_pop (seen visited c) (str_eq c id) (member c stack) (seen visited c) (member c stack)
      (seen-at visited c id h) (λ x. x) (λ x. x) k

-- A branch is visited, and its children go on the stack.
pub pop_new :
    (visited : Dict String BranchState) (id : String) (s : BranchState) (cs stack : List String)
    (c : String)
    → (seen visited c || member c (id ∷ stack)) ≡ true
    → (seen (Dict.put visited id s) c || member c (push cs stack)) ≡ true
unfolding member
pop_new visited id s cs stack c k =
    or_pop (seen visited c) (str_eq c id) (member c stack) (seen (Dict.put visited id s) c)
      (member c (push cs stack)) (seen-at (Dict.put visited id s) c id (seen-put_self visited id s))
      (seen-put visited id c s)
      (λ x. member-push c cs stack ∙ or_right (member c cs) (member c stack) x) k

pub seen_nil :
    (visited : Dict String BranchState) (c : String)
    → (seen visited c || member c []) ≡ true
    → seen visited c ≡ true
unfolding member
seen_nil visited c h = or_false (seen visited c) h

pub pop_start :
    (ids : List String) (c : String)
    → member c ids ≡ true
    → (seen [] c || member c (push ids [])) ≡ true
pop_start ids c h =
    or_right (seen [] c) (member c (push ids []))
      (member-push c ids [] ∙ or_left (member c ids) (member c []) h)
