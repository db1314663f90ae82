-- ===== src/Value.antt =====
-- The dynamic values of a context, Go's `any`: what a JSON document decodes to, the strings and
-- integers that Go code puts beside it, and the comparison `reflect.DeepEqual` of them.
-- A context is a `map[string]any`.
pub mod Number
pub use Number.{ℤ, pos, negsuc, Float, neg_inf, finite, pos_inf}
unfoldable pub use Number.{feq, flt, fle, ieq, float_of_int}
use cee.Prelude.{
  ℕ, zero, suc, String, Bool, true, false, ◌&&◌, Option, none, some, List, [], ◌∷◌, ◌==◌, eqb,
  if◌then◌else◌,
}
use cee.Maps.{Map}

mutual
  pub data Value : Type 0 where
    null : Value
    bool : Bool → Value
    float64 : Float → Value
    float32 : Float → Value
    int : ℤ → Value
    int64 : ℤ → Value
    str : String → Value
    strings : List String → Value
    obj : Fields → Value
    arr : Items → Value

  pub data Items : Type 0 where
    nil : Items
    cons : Value → Items → Items

  pub data Fields : Type 0 where
    end : Fields
    field : String → Value → Fields → Fields

abbrev pub Context : Type 0
Context = Map Value

-- The entries of a nested object, as a context.
unfoldable pub entries : Fields → Context
entries end = []
entries (field k v fs) = (k, v) ∷ entries fs

-- The elements of an array.
unfoldable pub elements : Items → List Value
elements nil = []
elements (cons v vs) = v ∷ elements vs

unfoldable pub lookup_field : String → Fields → Option Value
lookup_field k end = none
lookup_field k (field j v fs) = if j == k then some v else lookup_field k fs

unfoldable pub count_fields : Fields → ℕ
count_fields end = 0
count_fields (field k v fs) = suc (count_fields fs)

unfoldable pub beq : Bool → Bool → Bool
beq true b = b
beq false true = false
beq false false = true

unfoldable pub same_strings : List String → List String → Bool
same_strings [] [] = true
same_strings (x ∷ xs) (y ∷ ys) = x == y && same_strings xs ys
same_strings _ _ = false

-- reflect.DeepEqual: values of different dynamic types are never equal.
unfoldable mutual
  pub same_value : Value → Value → Bool
  same_value null null = true
  same_value (bool a) (bool b) = beq a b
  same_value (float64 a) (float64 b) = feq a b
  same_value (float32 a) (float32 b) = feq a b
  same_value (int a) (int b) = ieq a b
  same_value (int64 a) (int64 b) = ieq a b
  same_value (str a) (str b) = a == b
  same_value (strings a) (strings b) = same_strings a b
  same_value (arr a) (arr b) = same_items a b
  same_value (obj a) (obj b) = eqb (count_fields a) (count_fields b) && same_fields a b
  same_value _ _ = false

  pub same_items : Items → Items → Bool
  same_items nil nil = true
  same_items (cons v vs) (cons w ws) = same_value v w && same_items vs ws
  same_items _ _ = false

  -- every entry of the first object has an equal one in the second
  pub same_fields : Fields → Fields → Bool
  same_fields end gs = true
  same_fields (field k v fs) gs = elim (lookup_field k gs) [
    | none ↦ false
    | some w ↦ same_value v w && same_fields fs gs
  ]
