-- ===== src/Chunker/Links/Laws.antt =====
-- What extractLinks returns: targets that are local, cut at their anchors, and each only once.
use ragamuffin.Base.{
  ℕ, zero, suc, ◌+◌, ◌≡◌, refl, inl, inr, false, not, ◌&&◌, ◌||◌, List, [], ◌∷◌, ◌++◌, ◌==◌, length,
  arith, All, All-append, Bool-cases, Option-cases,
}
use ragamuffin.Text.{Text, has_prefix, same_text, codes, is_space}
use ragamuffin.Text.Order.{same_text_comm}
use ragamuffin.Text.Words.{trim_space, trim_left, trim_right, keep}
use ragamuffin.Chunker.Links.{
  is_external_url, seen, cut_at, wiki_at, markdown_at, wiki_target, is_empty, add_link, add_wiki,
  add_markdown, wiki_links, markdown_links, extract_links,
}

abbrev HasNo : ℕ → Text → Type 0
HasNo k = All (λ c. (c == k) ≡ false)

-- A target inside the vault, with no anchor.
pub record IsLocal (t : Text) : Type 0 where
  pub local : is_external_url t ≡ false
  pub no_anchor : HasNo b'#' t

-- No text stands twice.
abbrev pub Distinct : List Text → Type 0
Distinct [] = Unit
Distinct (l ∷ ls) = (seen ls l ≡ false) × Distinct ls

pub record IsClean (links : List Text) : Type 0 where
  pub targets : All IsLocal links
  pub distinct : Distinct links

seen-snoc : (ls : List Text) (l x : Text) → seen (ls ++ l ∷ []) x ≡ (seen ls x || same_text l x)
unfolding seen
seen-snoc [] l x = ground arith
seen-snoc (m ∷ ls) l x = ground (arith, seen-snoc ls l x)

Distinct-snoc :
    (ls : List Text) (l : Text) → seen ls l ≡ false → Distinct ls → Distinct (ls ++ l ∷ [])
unfolding seen
Distinct-snoc [] l h d = (refl, tt)
Distinct-snoc (m ∷ ls) l h (dm, d) =
    (ground (arith, seen-snoc ls l m, same_text_comm l m), Distinct-snoc ls l (ground arith) d)

IsClean-add_link :
    (links : List Text) (l : Text) → IsClean links → IsLocal l → IsClean (add_link links l)
unfolding add_link
IsClean-add_link links l h local = elim (Bool-cases (seen links l)) [
  | inl old ↦ rw old (record { targets = h.targets; distinct = h.distinct })
  | inr new ↦ rw new (record {
    targets = All-append IsLocal links (l ∷ []) h.targets (local, tt);
    distinct = Distinct-snoc links l new h.distinct;
  })
]

HasNo-cut_at : (k : ℕ) (s : Text) → HasNo k (cut_at k s)
unfolding cut_at
HasNo-cut_at k [] = tt
HasNo-cut_at k (d ∷ s) = elim (Bool-cases (d == k)) [
  | inl e ↦ rw e tt
  | inr e ↦ rw e (e, HasNo-cut_at k s)
]

HasNo-trim_left : (k : ℕ) (s : Text) → HasNo k s → HasNo k (trim_left s)
unfolding trim_left
HasNo-trim_left k [] h = tt
HasNo-trim_left k (d ∷ s) (hd, h) = elim (Bool-cases (is_space d)) [
  | inl e ↦ rw (e, trim_left) (HasNo-trim_left k s h)
  | inr e ↦ rw (e, trim_left) (hd, h)
]

HasNo-keep : (k d : ℕ) (r : Text) → (d == k) ≡ false → HasNo k r → HasNo k (keep d r)
unfolding keep
HasNo-keep k d [] hd h = elim (Bool-cases (is_space d)) [ inl e ↦ rw e tt | inr e ↦ rw e (hd, tt) ]
HasNo-keep k d (c ∷ r) hd h = (hd, h)

HasNo-trim_right : (k : ℕ) (s : Text) → HasNo k s → HasNo k (trim_right s)
unfolding trim_right
HasNo-trim_right k [] h = tt
HasNo-trim_right k (d ∷ s) (hd, h) = HasNo-keep k d (trim_right s) hd (HasNo-trim_right k s h)

HasNo-trim_space : (k : ℕ) (s : Text) → HasNo k s → HasNo k (trim_space s)
unfolding trim_space
HasNo-trim_space k s h = HasNo-trim_right k (trim_left s) (HasNo-trim_left k s h)

has_prefix-cut_at :
    (k : ℕ) (s p : Text) → has_prefix s p ≡ false → has_prefix (cut_at k s) p ≡ false
unfolding has_prefix cut_at
has_prefix-cut_at k s [] h = cc
has_prefix-cut_at k [] (c ∷ p) h = refl
has_prefix-cut_at k (d ∷ s) (c ∷ p) h = ground (arith, has_prefix-cut_at k s p)

is_external_url-cut_at :
    (k : ℕ) (s : Text) → is_external_url s ≡ false → is_external_url (cut_at k s) ≡ false
unfolding is_external_url
is_external_url-cut_at k s h =
    ground
      (arith, has_prefix-cut_at k s (codes "http://"), has_prefix-cut_at k s (codes "https://"))

IsClean-add_wiki :
    (links : List Text) (content : Text) → IsClean links → IsClean (add_wiki links content)
unfolding add_wiki
IsClean-add_wiki links content h =
    let target = wiki_target content in
    elim (Bool-cases (not (is_empty target) && not (is_external_url target))) [
      | inl good ↦ rw good (
          IsClean-add_link links target h (record {
            local = ground arith;
            no_anchor = unfold wiki_target in HasNo-trim_space b'#' _ (HasNo-cut_at b'#' _);
          }))
      | inr bad ↦ rw bad h
    ]

IsClean-add_markdown :
    (links : List Text) (content : Text) → IsClean links → IsClean (add_markdown links content)
unfolding add_markdown
IsClean-add_markdown links content h =
    let url = trim_space content in
    elim (Bool-cases (not (is_empty url) && not (is_external_url url))) [
      | inl good ↦ rw good (
          IsClean-add_link links (cut_at b'#' url) h (record {
            local = is_external_url-cut_at b'#' url (ground arith);
            no_anchor = HasNo-cut_at b'#' url;
          }))
      | inr bad ↦ rw bad h
    ]

IsClean-wiki_links :
    (skip : ℕ) (links : List Text) (s : Text) → IsClean links → IsClean (wiki_links skip links s)
unfolding wiki_links
IsClean-wiki_links skip links [] h = h
IsClean-wiki_links (suc skip) links (c ∷ s) h = IsClean-wiki_links skip links s h
IsClean-wiki_links zero links (c ∷ s) h = elim (Option-cases (wiki_at (c ∷ s))) [
  | inl e ↦ rw (e, wiki_links) (IsClean-wiki_links zero links s h)
  | inr (content, e) ↦
      rw (e, wiki_links)
        (IsClean-wiki_links (length content + 3) (add_wiki links content) s
          (IsClean-add_wiki links content h))
]

IsClean-markdown_links :
    (skip : ℕ) (links : List Text) (s : Text)
    → IsClean links
    → IsClean (markdown_links skip links s)
unfolding markdown_links
IsClean-markdown_links skip links [] h = h
IsClean-markdown_links (suc skip) links (c ∷ s) h = IsClean-markdown_links skip links s h
IsClean-markdown_links zero links (c ∷ s) h = elim (Option-cases (markdown_at (c ∷ s))) [
  | inl e ↦ rw (e, markdown_links) (IsClean-markdown_links zero links s h)
  | inr ((label, url), e) ↦
      rw (e, markdown_links)
        (IsClean-markdown_links (length label + length url + 3) (add_markdown links url) s
          (IsClean-add_markdown links url h))
]

-- Every link of a text is local, holds no anchor, and is listed once.
pub extract_links-IsClean : (text : Text) → IsClean (extract_links text)
unfolding extract_links
extract_links-IsClean text =
    IsClean-markdown_links 0 (wiki_links 0 [] text) text
      (IsClean-wiki_links 0 [] text (record { targets = tt; distinct = tt }))
