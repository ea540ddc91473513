-- ===== src/Pruner/Supersede/Laws.antt =====
-- What a versioned key is taken apart into.
use ragamuffin.Base.{ℕ, ◌≡◌, refl, none, some, List, [], ◌∷◌, ◌++◌, append_assoc, append-nil, All}
use ragamuffin.Text.{Text, codes}
use ragamuffin.Text.Cut.{split}
use ragamuffin.Text.Words.{join}
use ragamuffin.Pruner.Supersede.{version_of, last_version, prefix_and_version, parse_versioned_key}

abbrev pub IsPlain : Text → Type 0
IsPlain p = version_of p ≡ none

last_version-none :
    (before parts : List Text) → All IsPlain parts → last_version before parts ≡ none
unfolding last_version
last_version-none before [] h = refl
last_version-none before (p ∷ parts) (h, hs) =
    rw (last_version-none (before ++ p ∷ []) parts hs, h) refl

last_version-append :
    (front before : List Text) (p : Text) (v : ℕ) (after : List Text)
    → version_of p ≡ some v
    → All IsPlain after
    → last_version front (before ++ p ∷ after) ≡ some (front ++ before, v)
unfolding last_version
last_version-append front [] p v after h hs =
    rw (last_version-none (front ++ p ∷ []) after hs, h, append-nil front) refl
last_version-append front (b ∷ before) p v after h hs =
    rw
      (
        last_version-append (front ++ b ∷ []) before p v after h hs,
        append_assoc front (b ∷ []) before,
      )
      refl

-- The last version segment of a key wins, and the prefix is what stands in front of it: what stands
-- behind it is left out.
pub parse_versioned_key_lem :
    (key : Text) (before : List Text) (p : Text) (v : ℕ) (after : List Text)
    → split key (codes "/") ≡ before ++ p ∷ after
    → version_of p ≡ some v
    → All IsPlain after
    → parse_versioned_key key ≡ (join before (codes "/"), v)
unfolding parse_versioned_key prefix_and_version
parse_versioned_key_lem key before p v after e h hs =
    rw (e, last_version-append [] before p v after h hs) refl
