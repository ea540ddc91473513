-- ===== src/Store/Payload/Numbers.antt =====
-- float64 bit patterns as Go reads them: comparison, and the conversion to int.
use ragamuffin.Base.{
  ℕ, ◌+◌, ◌-◌, ◌*◌, ◌/◌, ◌%◌, ◌^◌, ◌≡◌, refl, Bool, true, not, ◌&&◌, ◌==◌, ltb, leb, if◌then◌else◌,
}
use ragamuffin.Base.Int.{ℤ, pos, negsuc}
use ragamuffin.Store.Payload.Double.{to_double}

unfoldable pub is_nan : ℕ → Bool
is_nan d = (d / 2 ^ 52) % 2048 == 2047 && not (d % 2 ^ 52 == 0)

-- The place of a float64 among the others; both zeros have one place.
unfoldable pub rank : ℕ → ℕ
rank d = if ltb d (2 ^ 63) then 2 ^ 63 + d else 2 ^ 64 - d

-- a < b
unfoldable pub less_double : ℕ → ℕ → Bool
unfolding is_nan rank
less_double a b = not (is_nan a) && not (is_nan b) && ltb (rank a) (rank b)

-- a <= b
unfoldable pub at_most_double : ℕ → ℕ → Bool
unfolding is_nan rank
at_most_double a b = not (is_nan a) && not (is_nan b) && leb (rank a) (rank b)

magnitude : ℕ → ℕ
magnitude d =
    let e = (d / 2 ^ 52) % 2048 in
    let m = 2 ^ 52 + d % 2 ^ 52 in
    if ltb e 1023 then 0 else if leb e 1075 then m / 2 ^ (1075 - e) else m * 2 ^ (e - 1075)

-- int(d), towards zero. Outside of int64 the language leaves the result open; here it is what amd64
-- gives, -2^63.
unfoldable pub to_int : ℕ → ℤ
unfolding magnitude
to_int d =
    let m = if ltb ((d / 2 ^ 52) % 2048) 1087 then magnitude d else 2 ^ 63 in
    if ltb d (2 ^ 63)
    then (if ltb m (2 ^ 63) then pos m else negsuc (2 ^ 63 - 1))
    else if m == 0
    then pos 0
    else negsuc (m - 1)

-- 0.0 and 1.0
abbrev pub zero_double : ℕ
zero_double = 0

abbrev pub one_double : ℕ
one_double = 0x3FF0000000000000

four : to_int (to_double (pos 4)) ≡ pos 4
unfolding to_int to_double
four = refl

three_quarters : less_double 0x3FE8000000000000 one_double ≡ true
unfolding less_double
three_quarters = refl

below_zero : less_double 0xBFF0000000000000 0 ≡ true
unfolding less_double
below_zero = refl

minus_two : to_int (to_double (negsuc 1)) ≡ negsuc 1
unfolding to_int to_double
minus_two = refl
