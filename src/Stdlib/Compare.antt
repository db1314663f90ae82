-- ===== src/Stdlib/Compare.antt =====
-- `compare`, `equals` and `toFloat` of stdlib/stdlib.go. Go's `==` on two interface values panics
-- where both hold the same type and that type has no equality: slices and maps.
pub mod Order
use cee.Prelude.{
  String, Bool, true, false, not, ◌||◌, Option, none, some, [], ◌∷◌, ◌==◌, if◌then◌else◌, concat,
  quote,
}
use cee.Value.{
  Value, null, bool, float64, float32, int, int64, str, strings, arr, obj, Items, nil, cons, Float,
  feq, flt, fle, ieq, beq, float_of_int,
}
use cee.Execution.Errors.{plain}
use cee.Execution.Exec.{Outcome, ok, err, panic, ◌then◌}

unfoldable pub to_float : Value → Option Float
to_float (float64 n) = some n
to_float (float32 n) = some n
to_float (int n) = some (float_of_int n)
to_float (int64 n) = some (float_of_int n)
to_float _ = none

abbrev uncomparable : String → Outcome Bool
uncomparable type = panic (str (concat ("runtime error: comparing uncomparable type " ∷ type ∷ [])))

-- a == b, on values of type `any`
unfoldable pub interface_eq : Value → Value → Outcome Bool
interface_eq null null = ok true
interface_eq (bool a) (bool b) = ok (beq a b)
interface_eq (float64 a) (float64 b) = ok (feq a b)
interface_eq (float32 a) (float32 b) = ok (feq a b)
interface_eq (int a) (int b) = ok (ieq a b)
interface_eq (int64 a) (int64 b) = ok (ieq a b)
interface_eq (str a) (str b) = ok (a == b)
interface_eq (strings a) (strings b) = uncomparable "[]string"
interface_eq (arr a) (arr b) = uncomparable "[]interface {}"
interface_eq (obj a) (obj b) = uncomparable "map[string]interface {}"
interface_eq _ _ = ok false

abbrev float_eq : Value → Value → Option Float → Option Float → Outcome Bool
float_eq a b none _ = interface_eq a b
float_eq a b (some x) none = interface_eq a b
float_eq a b (some x) (some y) = ok (feq x y)

unfoldable pub equals : Value → Value → Outcome Bool
unfolding to_float interface_eq
equals a b = float_eq a b (to_float a) (to_float b)

-- the loop of the case "in"
unfoldable pub one_of : Value → Items → Outcome Bool
one_of got nil = ok false
one_of got (cons item items) =
    equals got item then λ (found : Bool). elim found [ true ↦ ok true | false ↦ one_of got items ]

-- gt, gte and lt; any other op is lte
unfoldable pub ordered : String → Float → Float → Bool
ordered op g w =
    if op == "gt"
    then flt w g
    else if op == "gte"
    then fle w g
    else if op == "lt"
    then flt g w
    else fle g w

unfoldable pub is_ordering : String → Bool
is_ordering op = op == "gt" || op == "gte" || op == "lt" || op == "lte"

module _ (show : Value → String) where
  abbrev not_numeric : Value → String → Value → Outcome Bool
  not_numeric got op want = err (
      plain (
        concat (
          "op "
          ∷ quote op
          ∷ " requires numeric operands, got "
          ∷ show got
          ∷ " and "
          ∷ show want
          ∷ [])))

  abbrev both_numeric : Value → String → Value → Option Float → Option Float → Outcome Bool
  both_numeric got op want none _ = not_numeric got op want
  both_numeric got op want (some g) none = not_numeric got op want
  both_numeric got op want (some g) (some w) = ok (ordered op g w)

  abbrev in_array : Value → Value → Outcome Bool
  in_array got (arr items) = one_of got items
  in_array got _ = err (plain "op 'in' requires 'value' to be an array")

  unfoldable pub compare : Value → String → Value → Outcome Bool
  unfolding is_ordering
  compare got op want =
      if op == "eq"
      then equals got want
      else if op == "neq"
      then equals got want
      then (λ (b : Bool). ok (not b))
      else if op == "in"
      then in_array got want
      else if is_ordering op
      then both_numeric got op want (to_float got) (to_float want)
      else err (plain (concat ("unknown op " ∷ quote op ∷ [])))

unfoldable pub valid_op : String → Bool
unfolding is_ordering
valid_op op = op == "eq" || op == "neq" || is_ordering op || op == "in"
