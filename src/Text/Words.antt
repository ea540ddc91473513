-- ===== src/Text/Words.antt =====
-- strings.TrimSpace, strings.Fields and strings.Join, and what they do to the words of a text.
use ragamuffin.Base.{
  ℕ, ◌≡◌, refl, ap, ◌∙◌, ◌≢◌, true, false, List, [], ◌∷◌, ◌++◌, append-nil, append_assoc, arith,
  if◌then◌else◌, All,
}
use ragamuffin.Text.{Text, is_space}

unfoldable pub trim_left : Text → Text
trim_left [] = []
trim_left (c ∷ s) = elim (is_space c) [ true ↦ trim_left s | false ↦ c ∷ s ]

-- `c` goes in front of what is left of the text behind it.
unfoldable pub keep : ℕ → Text → Text
keep c [] = if is_space c then [] else c ∷ []
keep c (d ∷ r) = c ∷ d ∷ r

unfoldable pub trim_right : Text → Text
unfolding keep
trim_right [] = []
trim_right (c ∷ s) = keep c (trim_right s)

-- strings.TrimSpace
unfoldable pub trim_space : Text → Text
unfolding trim_left trim_right
trim_space s = trim_right (trim_left s)

-- The word that ends at a space or at the end of the text, if there is one.
abbrev pub flush : Text → List Text
flush [] = []
flush (c ∷ w) = (c ∷ w) ∷ []

-- `cur` is the word being read.
unfoldable pub fields_from : Text → Text → List Text
fields_from cur [] = flush cur
fields_from cur (c ∷ s) = elim (is_space c) [
  | true ↦ flush cur ++ fields_from [] s
  | false ↦ fields_from (cur ++ c ∷ []) s
]

-- strings.Fields
abbrev pub fields : Text → List Text
fields s = fields_from [] s

-- strings.Join(words, sep)
unfoldable pub join : List Text → Text → Text
join [] sep = []
join (w ∷ []) sep = w
join (w ∷ v ∷ ws) sep = w ++ sep ++ join (v ∷ ws) sep

abbrev pub IsSpaces : Text → Type 0
IsSpaces = All (λ c. is_space c ≡ true)

-- A space in the text ends a word.
pub fields_from-append :
    (cur a : Text) (c : ℕ) (b : Text)
    → is_space c ≡ true
    → fields_from cur (a ++ c ∷ b) ≡ fields_from cur a ++ fields b
unfolding fields_from
fields_from-append cur [] c b h = ground arith
fields_from-append cur (d ∷ a) c b h = ground (
  arith,
  fields_from-append (cur ++ d ∷ []) a c b h,
  fields_from-append [] a c b h,
  append_assoc (flush cur) (fields a) (fields b),
)

pub fields_spaces : (sep b : Text) → IsSpaces sep → fields (sep ++ b) ≡ fields b
unfolding fields_from
fields_spaces [] b h = refl
fields_spaces (c ∷ sep) b h = ground (arith, fields_spaces sep b h.1)

-- Text joined by white space has the words of its parts.
pub fields_joined :
    (a sep b : Text) → sep ≢ [] → IsSpaces sep → fields (a ++ (sep ++ b)) ≡ fields a ++ fields b
fields_joined a [] b ne h = absurd (ne refl)
fields_joined a (c ∷ sep) b ne h =
    fields_from-append [] a c (sep ++ b) h.0 ∙ ap (λ t. fields a ++ t) (fields_spaces sep b h.1)

pub fields-trim_left : (s : Text) → fields (trim_left s) ≡ fields s
unfolding trim_left fields_from
fields-trim_left [] = refl
fields-trim_left (c ∷ s) = ground (arith, fields-trim_left s)

fields_from-keep :
    (cur : Text) (c : ℕ) (s r : Text)
    → ((w : Text) → fields_from w r ≡ fields_from w s)
    → fields_from cur (keep c r) ≡ fields_from cur (c ∷ s)
unfolding keep fields_from
fields_from-keep cur c s [] ih = ground (arith, ih [], ih (cur ++ c ∷ []), append-nil (flush cur))
fields_from-keep cur c s (d ∷ r) ih = ground (arith, ih [], ih (cur ++ c ∷ []))

pub fields_from-trim_right : (cur s : Text) → fields_from cur (trim_right s) ≡ fields_from cur s
unfolding trim_right
fields_from-trim_right cur [] = refl
fields_from-trim_right cur (c ∷ s) =
    fields_from-keep cur c s (trim_right s) (λ w. fields_from-trim_right w s)

-- Trimming loses no word.
pub fields-trim_space : (s : Text) → fields (trim_space s) ≡ fields s
unfolding trim_space
fields-trim_space s = fields_from-trim_right [] (trim_left s) ∙ fields-trim_left s

-- A word holds a rune, and no space.
abbrev pub IsWord : Text → Type 0
IsWord w = (w ≢ []) × All (λ c. is_space c ≡ false) w
