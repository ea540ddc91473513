-- ===== src/Text/Case.antt =====
-- strings.ToLower and strings.ToUpper, as far as ASCII goes: a rune that neither is ASCII nor becomes
-- ASCII stays as it is here.
use ragamuffin.Base.{ℕ, ◌+◌, ◌-◌, ◌≡◌, refl, ◌&&◌, [], ◌∷◌, arith, leb, ◌==◌, if◌then◌else◌}
use ragamuffin.Text.{Text}

-- The dotted capital I and the Kelvin sign become ASCII letters.
unfoldable pub lower_rune : ℕ → ℕ
lower_rune c =
    if leb b'A' c && leb c b'Z'
    then c + 32
    else if c == 304
    then b'i'
    else if c == 8490
    then b'k'
    else c

unfoldable pub to_lower : Text → Text
unfolding lower_rune
to_lower [] = []
to_lower (c ∷ s) = lower_rune c ∷ to_lower s

-- The dotless i and the long s become ASCII letters.
unfoldable pub upper_rune : ℕ → ℕ
upper_rune c =
    if leb b'a' c && leb c b'z'
    then c - 32
    else if c == 305
    then b'I'
    else if c == 383
    then b'S'
    else c

unfoldable pub to_upper : Text → Text
unfolding upper_rune
to_upper [] = []
to_upper (c ∷ s) = upper_rune c ∷ to_upper s

lower_rune-lower_rune : (c : ℕ) → lower_rune (lower_rune c) ≡ lower_rune c
unfolding lower_rune
lower_rune-lower_rune c = ground arith

pub to_lower-to_lower : (s : Text) → to_lower (to_lower s) ≡ to_lower s
unfolding to_lower
to_lower-to_lower [] = refl
to_lower-to_lower (c ∷ s) = rw (lower_rune-lower_rune c, to_lower-to_lower s) refl
