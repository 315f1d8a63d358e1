-- ===== src/Api/Require.antt =====
-- `_require` of API/validation.py.
use sts2_rl.Prelude.{
  String, ◌≡◌, ◌≢◌, refl, Option, none, some, List, Result, ok, err, str_eq, eq_iff, arith,
  if◌then◌else◌,
}
use sts2_rl.Prelude.Dict
use sts2_rl.Prelude.Key.{str_key}
use sts2_rl.Prelude.Int.{ℤ}
use sts2_rl.Api.Value.{Value, Items, Fields, bool, int, str, list, dict, Payload, items, entries}
use sts2_rl.Api.Rejected.{
  PyType, a_str, a_int, a_list, a_dict, Rejection, reject, missing, is_bool, empty, wrong_type,
}

-- The values that a type stands for.
abbrev pub Rep : PyType → Type 0
Rep a_str = String
Rep a_int = ℤ
Rep a_list = List Value
Rep a_dict = Payload

-- The tests of `_require` on a value that is there. A `bool` is refused where an `int` is wanted.
check_type : (t : PyType) → String → Value → Result Rejection (Rep t)
check_type a_str f (str s) = if str_eq s "" then err (reject (empty f)) else ok s
check_type a_int f (bool b) = err (reject (is_bool f))
check_type a_int f (int z) = ok z
check_type a_list f (list vs) = ok (items vs)
check_type a_dict f (dict fs) = ok (entries fs)
check_type t f _ = err (reject (wrong_type f t))

require_value : (t : PyType) → String → Option Value → Result Rejection (Rep t)
require_value t f none = err (reject (missing f))
require_value t f (some v) = check_type t f v

-- `_require(payload, f, t)`
unfoldable pub require : Payload → String → (t : PyType) → Result Rejection (Rep t)
unfolding check_type require_value
require payload f t = require_value t f (Dict.get payload f)

-- The field `f` holds the non-empty text `s`.
abbrev pub HasText : Payload → String → String → Type 0
HasText payload f s = (Dict.get payload f ≡ some (str s)) × (s ≢ "")

-- The field `f` holds some non-empty text.
abbrev pub IsText : Payload → String → Type 0
IsText payload f = (s : String) × HasText payload f s

check_type-str :
    (f : String) (o : Option Value) (s : String)
    → require_value a_str f o ≡ ok s
    → (o ≡ some (str s)) × (s ≢ "")
unfolding require_value check_type
check_type-str f none s e = cc
check_type-str f (some (str t)) s e = ground (arith, eq_iff t "")
check_type-str f (some v) s e = cc

-- A text that `_require` returns is the field's, and not empty.
pub require-str :
    (payload : Payload) (f s : String) → require payload f a_str ≡ ok s → HasText payload f s
unfolding require
require-str payload f s e = check_type-str f (Dict.get payload f) s e

check_type-int :
    (f : String) (o : Option Value) (z : ℤ) → require_value a_int f o ≡ ok z → o ≡ some (int z)
unfolding require_value check_type
check_type-int f none z e = cc
check_type-int f (some (int t)) z e = ground arith
check_type-int f (some (bool b)) z e = cc
check_type-int f (some v) z e = cc

pub require-int :
    (payload : Payload) (f : String) (z : ℤ)
    → require payload f a_int ≡ ok z
    → Dict.get payload f ≡ some (int z)
unfolding require
require-int payload f z e = check_type-int f (Dict.get payload f) z e

check_type-list :
    (f : String) (o : Option Value) (l : List Value)
    → require_value a_list f o ≡ ok l
    → (vs : Items) × (o ≡ some (list vs)) × (l ≡ items vs)
unfolding require_value check_type
check_type-list f none l e = cc
check_type-list f (some (list vs)) l e = (vs, refl, cc)
check_type-list f (some v) l e = cc

pub require-list :
    (payload : Payload) (f : String) (l : List Value)
    → require payload f a_list ≡ ok l
    → (vs : Items) × (Dict.get payload f ≡ some (list vs)) × (l ≡ items vs)
unfolding require
require-list payload f l e = check_type-list f (Dict.get payload f) l e

check_type-dict :
    (f : String) (o : Option Value) (p : Payload)
    → require_value a_dict f o ≡ ok p
    → (fs : Fields) × (o ≡ some (dict fs)) × (p ≡ entries fs)
unfolding require_value check_type
check_type-dict f none p e = cc
check_type-dict f (some (dict fs)) p e = (fs, refl, cc)
check_type-dict f (some v) p e = cc

pub require-dict :
    (payload : Payload) (f : String) (p : Payload)
    → require payload f a_dict ≡ ok p
    → (fs : Fields) × (Dict.get payload f ≡ some (dict fs)) × (p ≡ entries fs)
unfolding require
require-dict payload f p e = check_type-dict f (Dict.get payload f) p e
