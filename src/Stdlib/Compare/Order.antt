-- ===== src/Stdlib/Compare/Order.antt =====
-- The ordering operators on numbers.
use cee.Prelude.{sym, ap, String, ◌≡◌, refl, Bool, true, false, not, some, arith, if◌then◌else◌}
use cee.Value.{Value, Float, neg_inf, finite, pos_inf, ℤ, pos, negsuc, flt, fle, feq, ieq}
use cee.Value.Number.{ilt, scale}
use cee.Execution.Exec.{ok}
use cee.Stdlib.Compare.{compare, to_float, ordered, is_ordering}

ilt-total : (a b : ℤ) → ilt b a ≡ not (if ilt a b then true else ieq a b)
unfolding ilt ieq
ilt-total (pos a) (pos b) = ground arith
ilt-total (pos a) (negsuc b) = refl
ilt-total (negsuc a) (pos b) = refl
ilt-total (negsuc a) (negsuc b) = ground arith

not-not : (b : Bool) → not (not b) ≡ b
not-not true = refl
not-not false = refl

-- `<` one way round is the negation of `<=` the other way round: there is no NaN among the values.
pub flt-fle : (a b : Float) → flt b a ≡ not (fle a b)
unfolding flt fle feq
flt-fle neg_inf neg_inf = refl
flt-fle neg_inf (finite n d) = refl
flt-fle neg_inf pos_inf = refl
flt-fle (finite m c) neg_inf = refl
flt-fle (finite m c) (finite n d) = unfold scale in ilt-total (scale m d) (scale n c)
flt-fle (finite m c) pos_inf = refl
flt-fle pos_inf neg_inf = refl
flt-fle pos_inf (finite n d) = refl
flt-fle pos_inf pos_inf = refl

module _ (show : Value → String) (got want : Value) {g w : Float} where
  -- On two numbers each of the four ordering operators answers, and `gt` is the negation of `lte` and
  -- `lt` that of `gte`.
  pub compare-complement :
      to_float got ≡ some g
      → to_float want ≡ some w
      → ((b : Bool) × (compare show got "gt" want ≡ ok b)
          × (compare show got "lte" want ≡ ok (not b)))
        × ((b : Bool) × (compare show got "lt" want ≡ ok b)
            × (compare show got "gte" want ≡ ok (not b)))
  unfolding compare is_ordering ordered
  compare-complement p q = (
    (flt w g, rw (p, q), rw (p, q, flt-fle g w) (ap ok (sym (not-not (fle g w))))),
    (flt g w, rw (p, q), rw (p, q, flt-fle w g) (ap ok (sym (not-not (fle w g))))),
  )
