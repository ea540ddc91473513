-- ===== src/Store/Payload/Double.antt =====
-- float64 bit patterns: the conversion from int64, rounded to nearest even, and the finite values.
use ragamuffin.Base.{
  ℕ, zero, suc, ◌+◌, ◌-◌, ◌*◌, ◌/◌, ◌%◌, ◌^◌, ◌≡◌, refl, Bool, not, ◌&&◌, ◌||◌, ◌==◌, ltb, leb,
  if◌then◌else◌,
}
use ragamuffin.Base.Int.{ℤ, pos, negsuc}

-- The place of the highest bit, searched on fuel; 64 rounds reach every int64.
high_bit : ℕ → ℕ → ℕ
high_bit zero n = 0
high_bit (suc f) n = let rest = high_bit f (n / 2) in if leb n 1 then 0 else rest + 1

-- A mantissa of 53 bits for `n`, whose highest bit is `e`.
mantissa : ℕ → ℕ → ℕ
mantissa e n =
    if leb e 52
    then n * 2 ^ (52 - e)
    else (let unit = 2 ^ (e - 52) in
        let q = n / unit in
        let r = n % unit in if ltb unit (2 * r) || (2 * r == unit && q % 2 == 1) then q + 1 else q)

of_positive : ℕ → ℕ
unfolding high_bit mantissa
of_positive n =
    if n == 0 then 0 else (let e = high_bit 64 n in (e + 1023) * 2 ^ 52 + (mantissa e n - 2 ^ 52))

-- float64(n)
unfoldable pub to_double : ℤ → ℕ
unfolding of_positive
to_double (pos n) = of_positive n
to_double (negsuc n) = 2 ^ 63 + of_positive (suc n)

unfoldable pub is_finite : ℕ → Bool
is_finite d = not ((d / 2 ^ 52) % 2048 == 2047)

three : to_double (pos 3) ≡ 0x4008000000000000
unfolding to_double
three = refl

minus_one : to_double (negsuc 0) ≡ 0xBFF0000000000000
unfolding to_double
minus_one = refl

-- 2^53 + 1 is rounded to 2^53.
rounded : to_double (pos (2 ^ 53 + 1)) ≡ to_double (pos (2 ^ 53))
unfolding to_double
rounded = refl
