-- ===== src/Pruner/Supersede.antt =====
-- parseVersionedKey and supersedeKeyPattern of internal/pruner/supersede.go. A version is an int: it
-- wraps at 2^64, and a wrapped value from 2^63 on is negative. The update of a fact is outside; what is
-- modelled is which facts are updated, in the order of first appearance of their prefix.
pub mod Laws
pub mod Group
pub mod Marks
mod Tests
use ragamuffin.Base.{
  ℕ, zero, suc, ◌+◌, ◌-◌, ◌*◌, ◌%◌, ◌^◌, Bool, true, false, ◌&&◌, Option, none, some, List, [], ◌∷◌,
  ◌++◌, ltb, leb, ◌==◌, if◌then◌else◌, length,
}
use ragamuffin.Text.{Text, codes}
use ragamuffin.Text.Cut.{split}
use ragamuffin.Text.Words.{join}
use ragamuffin.Text.Maps.{lookup, insert}
use ragamuffin.Chunker.Links.{is_empty}

unfoldable pub are_digits : Text → Bool
are_digits [] = true
are_digits (c ∷ s) = leb b'0' c && leb c b'9' && are_digits s

unfoldable pub number : Text → ℕ → ℕ
number [] v = v
number (c ∷ s) v = number s ((v * 10 + (c - b'0')) % 2 ^ 64)

-- The version of a segment `v` and digits, from 1 on.
unfoldable pub version_of : Text → Option ℕ
unfolding are_digits number
version_of [] = none
version_of (c ∷ []) = none
version_of (c ∷ d ∷ s) =
    let v = number (d ∷ s) 0 in
    if c == b'v' && are_digits (d ∷ s) && leb 1 v && ltb v (2 ^ 63) then some v else none

-- The loop from the last segment to the first: the segments in front of the one that is found, and its
-- version. `before` are the segments in front of `parts`.
unfoldable pub last_version : List Text → List Text → Option (List Text × ℕ)
unfolding version_of
last_version before [] = none
last_version before (p ∷ parts) = elim (last_version (before ++ p ∷ []) parts) [
  | some found ↦ some found
  | none ↦ elim (version_of p) [ none ↦ none | some v ↦ some (before, v) ]
]

unfoldable pub prefix_and_version : Option (List Text × ℕ) → Text × ℕ
prefix_and_version none = ([], 0)
prefix_and_version (some (before, v)) = (join before (codes "/"), v)

-- parseVersionedKey
unfoldable pub parse_versioned_key : Text → Text × ℕ
unfolding last_version prefix_and_version
parse_versioned_key key = prefix_and_version (last_version [] (split key (codes "/")))

-- An active fact that the scan has read.
pub record Fact : Type 0 where
  pub point_id : Text
  pub key : Text

-- versionedFact
pub record VersionedFact : Type 0 where
  pub point_id : Text
  pub version : ℕ
  pub key : Text

unfoldable pub members : Option (List VersionedFact) → List VersionedFact
members none = []
members (some g) = g

-- The loop that groups the facts by prefix.
unfoldable pub group :
    List Fact → List (Text × List VersionedFact) → List (Text × List VersionedFact)
unfolding members
group [] groups = groups
group (f ∷ facts) groups =
    let (prefix, version) = parse_versioned_key f.key in
    let fact : VersionedFact = record { point_id = f.point_id; version = version; key = f.key } in
    if is_empty f.key
    then group facts groups
    else if leb 1 version
    then group facts (insert prefix (members (lookup prefix groups) ++ fact ∷ []) groups)
    else group facts groups

unfoldable pub max_version : ℕ → List VersionedFact → ℕ
max_version m [] = m
max_version m (f ∷ g) = max_version (if ltb m f.version then f.version else m) g

unfoldable pub lower : ℕ → List VersionedFact → List VersionedFact
lower m [] = []
lower m (f ∷ g) = let rest = lower m g in if ltb f.version m then f ∷ rest else rest

-- The facts of one group that are marked.
unfoldable pub mark_group : List VersionedFact → List VersionedFact
unfolding max_version lower
mark_group g = if ltb (length g) 2 then [] else lower (max_version 0 g) g

unfoldable pub mark_groups : List (Text × List VersionedFact) → List VersionedFact
unfolding mark_group
mark_groups [] = []
mark_groups ((prefix, g) ∷ groups) = mark_group g ++ mark_groups groups

-- supersedeKeyPattern
unfoldable pub supersede_key_pattern : List Fact → List VersionedFact
unfolding group mark_groups
supersede_key_pattern facts = mark_groups (group facts [])
