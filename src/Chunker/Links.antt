-- ===== src/Chunker/Links.antt =====
-- extractLinks and isExternalURL of internal/chunker/chunker.go. The two maps of the source, `seen`
-- and `links`, always hold the same texts: one list stands for both.
pub mod Laws
use ragamuffin.Base.{
  ℕ, zero, suc, ◌+◌, ◌≡◌, refl, Bool, true, false, not, ◌&&◌, ◌||◌, Option, none, some, List, [],
  ◌∷◌, ◌++◌, ◌==◌, if◌then◌else◌, length,
}
use ragamuffin.Text.{Text, has_prefix, same_text, codes, is_space}
use ragamuffin.Text.Words.{trim_space}

unfoldable pub is_external_url : Text → Bool
is_external_url url = has_prefix url (codes "http://") || has_prefix url (codes "https://")

-- seen[s]
unfoldable pub seen : List Text → Text → Bool
seen [] s = false
seen (l ∷ ls) s = same_text l s || seen ls s

-- s[:i] for i = strings.Index(s, c), and s where c does not stand in it
unfoldable pub cut_at : ℕ → Text → Text
cut_at c [] = []
cut_at c (d ∷ s) = if d == c then [] else d ∷ cut_at c s

-- The text in front of the first `]]`.
unfoldable pub until_close : Text → Option Text
until_close [] = none
until_close (c ∷ s) =
    let rest = until_close s in
    if has_prefix (c ∷ s) (codes "]]")
    then some []
    else elim rest [ none ↦ none | some t ↦ some (c ∷ t) ]

-- The text in front of the first `c`, and what stands behind it.
unfoldable pub until : ℕ → Text → Option (Text × Text)
until c [] = none
until c (d ∷ s) =
    let rest = until c s in
    if d == c then some ([], s) else elim rest [ none ↦ none | some (t, r) ↦ some (d ∷ t, r) ]

unfoldable pub is_empty : Text → Bool
is_empty [] = true
is_empty (c ∷ s) = false

-- Alias and anchor are cut off a wikilink.
unfoldable pub wiki_target : Text → Text
wiki_target content = trim_space (cut_at b'#' (cut_at b'|' content))

unfoldable pub add_link : List Text → Text → List Text
add_link links l = if seen links l then links else links ++ l ∷ []

unfoldable pub add_wiki : List Text → Text → List Text
unfolding add_link wiki_target
add_wiki links content =
    let target = wiki_target content in
    if not (is_empty target) && not (is_external_url target) then add_link links target else links

unfoldable pub add_markdown : List Text → Text → List Text
unfolding add_link
add_markdown links content =
    let url = trim_space content in
    if not (is_empty url) && not (is_external_url url)
    then add_link links (cut_at b'#' url)
    else links

-- The wikilink that opens here: the text behind `[[`, up to `]]`.
unfoldable pub wiki_at : Text → Option Text
unfolding until_close
wiki_at (c ∷ d ∷ s) = if c == b'[' && d == b'[' then until_close s else none
wiki_at s = none

-- The first loop. `skip` runes belong to a link that was read.
unfoldable pub wiki_links : ℕ → List Text → Text → List Text
wiki_links skip links [] = links
wiki_links (suc skip) links (c ∷ s) = wiki_links skip links s
wiki_links zero links (c ∷ s) = elim (wiki_at (c ∷ s)) [
  | some content ↦ wiki_links (length content + 3) (add_wiki links content) s
  | none ↦ wiki_links zero links s
]

-- A label that opens here, with `(` behind its `]`: the label and the target up to `)`.
target_behind : Option (Text × Text) → Option (Text × Text)
target_behind none = none
target_behind (some (label, [])) = none
target_behind (some (label, p ∷ r)) =
    let target = until b')' r in
    if p == b'(' then elim target [ none ↦ none | some (url, _) ↦ some (label, url) ] else none

unfoldable pub markdown_at : Text → Option (Text × Text)
unfolding target_behind until
markdown_at [] = none
markdown_at (c ∷ s) = if c == b'[' then target_behind (until b']' s) else none

-- The second loop.
unfoldable pub markdown_links : ℕ → List Text → Text → List Text
markdown_links skip links [] = links
markdown_links (suc skip) links (c ∷ s) = markdown_links skip links s
markdown_links zero links (c ∷ s) = elim (markdown_at (c ∷ s)) [
  | some (label, url) ↦ markdown_links (length label + length url + 3) (add_markdown links url) s
  | none ↦ markdown_links zero links s
]

unfoldable pub extract_links : Text → List Text
unfolding wiki_links markdown_links wiki_at markdown_at add_wiki add_markdown seen cut_at is_empty
    is_external_url
extract_links text = markdown_links 0 (wiki_links 0 [] text) text
