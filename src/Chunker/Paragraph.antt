-- ===== src/Chunker/Paragraph.antt =====
-- extractFirstParagraph and sanitizeUTF8 of internal/chunker/chunker.go.
use ragamuffin.Base.{
  ℕ, zero, suc, ◌≡◌, refl, Option, none, some, [], ◌∷◌, ltb, if◌then◌else◌, length, take,
}
use ragamuffin.Text.{Text, newline, codes, has_prefix}
use ragamuffin.Text.Cut.{before}
use ragamuffin.Text.Utf8.{Bytes, encode, encode_rune, decode, valid_string}

-- The loop over the lengths from `i` down to 1.
unfoldable pub sanitize_from : ℕ → Bytes → Bytes
sanitize_from zero s = []
sanitize_from (suc i) s =
    let shorter = sanitize_from i s in
    if valid_string (take (suc i) s) then take (suc i) s else shorter

unfoldable pub sanitize_utf8 : Bytes → Bytes
unfolding sanitize_from
sanitize_utf8 s = sanitize_from (length s) s

-- The runes of valid bytes.
text_of : Option Text → Text
text_of none = []
text_of (some t) = t

-- len(s), in bytes
abbrev pub len : Text → ℕ
len s = length (encode s)

-- sanitizeUTF8(text[:200])
unfoldable pub capped : Text → Text
unfolding sanitize_utf8 text_of
capped text = text_of (decode (sanitize_utf8 (take 200 (encode text))))

unfoldable pub extract_first_paragraph : Text → Text
unfolding before has_prefix
extract_first_paragraph text = elim (before (newline ∷ newline ∷ []) text) [
  | none ↦ if ltb 200 (len text) then capped text else text
  | some front ↦ if ltb 200 (len front) then capped text else front
]

-- A rune that the cut would split is dropped.
sanitize_example : sanitize_utf8 (0x61 ∷ 0xE2 ∷ 0x82 ∷ []) ≡ 0x61 ∷ []
unfolding sanitize_utf8 valid_string
sanitize_example = refl

first_paragraph_example : extract_first_paragraph (codes "one\ntwo\n\nthree") ≡ codes "one\ntwo"
unfolding extract_first_paragraph encode encode_rune
first_paragraph_example = refl
