-- ===== src/Indexer/Path.antt =====
-- filepath.Ext, and IsIndexable of internal/indexutil/indexutil.go.
use ragamuffin.Base.{
  Bool, true, false, not, ◌&&◌, ◌||◌, Option, none, some, [], ◌∷◌, ◌==◌, if◌then◌else◌,
}
use ragamuffin.Text.{Text, codes, same_text, has_prefix}
use ragamuffin.Text.Cut.{before}
use ragamuffin.Text.Case.{to_lower}
use ragamuffin.Chunker.Links.{is_empty}

has_slash : Text → Bool
has_slash [] = false
has_slash (c ∷ s) = c == b'/' || has_slash s

-- filepath.Ext: from the last dot on, if no slash follows it
unfoldable pub ext : Text → Text
unfolding has_slash
ext [] = []
ext (c ∷ s) =
    let later = ext s in
    if not (is_empty later) then later else if c == b'.' && not (has_slash s) then c ∷ s else []

is_text_ext : Text → Bool
is_text_ext e =
    same_text e (codes ".md")
    || same_text e (codes ".txt")
    || same_text e (codes ".org")
    || same_text e (codes ".rst")
    || is_empty e

contained : Option Text → Bool
contained none = false
contained (some t) = true

-- IsIndexable
unfoldable pub is_indexable : Text → Bool
unfolding is_text_ext contained
is_indexable path =
    if contained (before (codes "/.") path) || has_prefix path (codes ".")
    then false
    else is_text_ext (to_lower (ext path))
