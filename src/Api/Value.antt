-- ===== src/Api/Value.antt =====
-- JSON values as `json.loads` gives them, and the parts of Python that the API uses on them.
-- A float is an opaque number: the code tells it from the other types and never computes with it.
use sts2_rl.Prelude.{String, Bool, Option, none, some, List, [], ◌∷◌, ◌≡◌, refl, ap}
use sts2_rl.Prelude.Dict.{Dict}
use sts2_rl.Prelude.Int.{ℤ}
use sts2_rl.Prelude.{ℕ}

mutual
  pub data Value : Type 0 where
    null : Value
    bool : Bool → Value
    int : ℤ → Value
    float : ℕ → Value
    str : String → Value
    list : Items → Value
    dict : Fields → Value

  pub data Items : Type 0 where
    nil : Items
    cons : Value → Items → Items

  pub data Fields : Type 0 where
    end : Fields
    field : String → Value → Fields → Fields

abbrev pub Payload : Type 0
Payload = Dict String Value

-- The contents of a list and of a `dict`, and back.
unfoldable pub items : Items → List Value
items nil = []
items (cons v vs) = v ∷ items vs

unfoldable pub entries : Fields → Payload
entries end = []
entries (field k v fs) = (k, v) ∷ entries fs

unfoldable pub of_items : List Value → Items
of_items [] = nil
of_items (v ∷ vs) = cons v (of_items vs)

unfoldable pub of_entries : Payload → Fields
of_entries [] = end
of_entries ((k, v) ∷ m) = field k v (of_entries m)

pub entries-of_entries : (m : Payload) → entries (of_entries m) ≡ m
unfolding entries of_entries
entries-of_entries [] = refl
entries-of_entries ((k, v) ∷ m) = ap (λ (r : Payload). (k, v) ∷ r) (entries-of_entries m)

-- `d.get(k)`, where a missing key reads as `None`.
abbrev pub or_null : Option Value → Value
or_null none = null
or_null (some v) = v
