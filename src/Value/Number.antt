-- ===== src/Value/Number.antt =====
-- Go's numbers. A `Float` is an IEEE value that is not NaN: an infinity, or `finite m d`, the
-- number m / 2^d. Only comparisons of floats and the conversion from int64 are modelled.
use cee.Prelude.{
  ℕ, zero, suc, ◌+◌, ◌-◌, ◌*◌, ◌/◌, ◌%◌, ◌^◌, Bool, true, false, ltb, eqb, if◌then◌else◌,
}

-- `negsuc n` is -(n + 1).
pub data ℤ : Type 0 where
  pos : ℕ → ℤ
  negsuc : ℕ → ℤ

pub data Float : Type 0 where
  neg_inf : Float
  finite : ℤ → ℕ → Float
  pos_inf : Float

unfoldable pub ilt : ℤ → ℤ → Bool
ilt (pos a) (pos b) = ltb a b
ilt (pos a) (negsuc b) = false
ilt (negsuc a) (pos b) = true
ilt (negsuc a) (negsuc b) = ltb b a

unfoldable pub ieq : ℤ → ℤ → Bool
ieq (pos a) (pos b) = eqb a b
ieq (pos a) (negsuc b) = false
ieq (negsuc a) (pos b) = false
ieq (negsuc a) (negsuc b) = eqb a b

-- z * 2^d
unfoldable pub scale : ℤ → ℕ → ℤ
scale (pos n) d = pos (n * 2 ^ d)
scale (negsuc n) d = negsuc (suc n * 2 ^ d - 1)

-- a == b
unfoldable pub feq : Float → Float → Bool
unfolding ieq scale
feq neg_inf neg_inf = true
feq (finite m c) (finite n d) = ieq (scale m d) (scale n c)
feq pos_inf pos_inf = true
feq _ _ = false

-- a < b
unfoldable pub flt : Float → Float → Bool
unfolding ilt scale
flt neg_inf (finite n d) = true
flt neg_inf pos_inf = true
flt (finite m c) (finite n d) = ilt (scale m d) (scale n c)
flt (finite m c) pos_inf = true
flt _ _ = false

-- a <= b
unfoldable pub fle : Float → Float → Bool
unfolding flt feq
fle a b = if flt a b then true else feq a b

-- The magnitude n in units of 2^e, rounded to the nearest, ties to even.
unfoldable pub round_at : ℕ → ℕ → ℕ
round_at zero n = n
round_at (suc e) n =
    let q = n / 2 ^ suc e in
    let r = n % 2 ^ suc e in
    if ltb r (2 ^ e)
    then q * 2 ^ suc e
    else if ltb (2 ^ e) r
    then (q + 1) * 2 ^ suc e
    else (q + q % 2) * 2 ^ suc e

-- The least exponent e, from the `tries` ones that are tried, with n < 2^53 * 2^e.
unfoldable pub exponent : ℕ → ℕ → ℕ → ℕ
exponent zero e n = e
exponent (suc tries) e n =
    let next = exponent tries (e + 1) n in if ltb n (2 ^ 53 * 2 ^ e) then e else next

-- float64(n): exact up to 2^53, and rounded to a 53-bit mantissa above. An int64 is at most 2^63
-- in magnitude, so that the eleven exponents from 0 to 10 that are tried, and 11, suffice.
unfoldable pub round_to_float : ℕ → ℕ
unfolding round_at exponent
round_to_float n = round_at (exponent 11 0 n) n

unfoldable pub float_of_int : ℤ → Float
unfolding round_to_float
float_of_int (pos n) = finite (pos (round_to_float n)) 0
float_of_int (negsuc n) = finite (negsuc (round_to_float (suc n) - 1)) 0
