-- ===== src/Text/Utf8.antt =====
-- UTF-8 (unicode/utf8): the bytes of a text, and the bytes that are a text.
use ragamuffin.Base.{
  ℕ, zero, suc, ◌+◌, ◌-◌, ◌*◌, ◌/◌, ◌%◌, ◌≡◌, refl, Bool, true, false, ◌&&◌, Option, none, some,
  List, [], ◌∷◌, ◌++◌, ltb, leb, if◌then◌else◌,
}
use ragamuffin.Text.{Text}

abbrev pub Bytes : Type 0
Bytes = List ℕ

-- The bytes of one rune.
unfoldable pub encode_rune : ℕ → Bytes
encode_rune c =
    if ltb c 0x80
    then c ∷ []
    else if ltb c 0x800
    then (0xC0 + c / 64) ∷ (0x80 + c % 64) ∷ []
    else if ltb c 0x10000
    then (0xE0 + c / 4096) ∷ (0x80 + (c / 64) % 64) ∷ (0x80 + c % 64) ∷ []
    else (0xF0 + c / 262144)
      ∷ (0x80 + (c / 4096) % 64)
      ∷ (0x80 + (c / 64) % 64)
      ∷ (0x80 + c % 64)
      ∷ []

-- The bytes of a string.
unfoldable pub encode : Text → Bytes
encode [] = []
encode (c ∷ s) = encode_rune c ++ encode s

-- Where the decoder stands: between runes, or inside one, with how many bytes are still due behind
-- the next, the value read so far, and the range of the next byte.
pub data Mode : Type 0 where
  start : Mode
  inside : ℕ → ℕ → ℕ → ℕ → Mode
  bad : Mode

-- The range of the second byte excludes long forms, surrogates, and what lies above 0x10FFFF.
unfoldable pub lead : ℕ → Mode
lead b =
    if ltb b 0xC2
    then bad
    else if leb b 0xDF
    then inside 0 (b - 0xC0) 0x80 0xBF
    else if leb b 0xE0
    then inside 1 0 0xA0 0xBF
    else if leb b 0xEC
    then inside 1 (b - 0xE0) 0x80 0xBF
    else if leb b 0xED
    then inside 1 13 0x80 0x9F
    else if leb b 0xEF
    then inside 1 (b - 0xE0) 0x80 0xBF
    else if leb b 0xF0
    then inside 2 0 0x90 0xBF
    else if leb b 0xF3
    then inside 2 (b - 0xF0) 0x80 0xBF
    else if leb b 0xF4
    then inside 2 4 0x80 0x8F
    else bad

abbrev push : ℕ → Option Text → Option Text
push c none = none
push c (some t) = some (c ∷ t)

unfoldable pub decode_from : Mode → Bytes → Option Text
decode_from bad bs = none
decode_from start [] = some []
decode_from (inside n v lo hi) [] = none
decode_from start (b ∷ bs) =
    let short = decode_from start bs in
    let long = decode_from (lead b) bs in if ltb b 0x80 then push b short else long
decode_from (inside zero v lo hi) (b ∷ bs) =
    let rest = decode_from start bs in
    if leb lo b && leb b hi then push (v * 64 + (b - 0x80)) rest else none
decode_from (inside (suc n) v lo hi) (b ∷ bs) =
    let rest = decode_from (inside n (v * 64 + (b - 0x80)) 0x80 0xBF) bs in
    if leb lo b && leb b hi then rest else none

-- The text that bytes spell, if they are valid.
unfoldable pub decode : Bytes → Option Text
unfolding decode_from lead
decode bs = decode_from start bs

abbrev is_some {ℓ} : {A : Type ℓ} → Option A → Bool
is_some none = false
is_some (some a) = true

-- utf8.ValidString
unfoldable pub valid_string : Bytes → Bool
unfolding decode
valid_string bs = is_some (decode bs)

-- The four lengths of a rune, read back.
decode_runes :
    decode (encode (0x24 ∷ 0xA3 ∷ 0x20AC ∷ 0x10348 ∷ []))
    ≡ some (0x24 ∷ 0xA3 ∷ 0x20AC ∷ 0x10348 ∷ [])
unfolding decode encode encode_rune
decode_runes = refl
