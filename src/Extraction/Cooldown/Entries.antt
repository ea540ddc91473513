-- ===== src/Extraction/Cooldown/Entries.antt =====
-- The entries of a tracker, each session once, under the sweep and the writes.
use ragamuffin.Base.{
  ℕ, ◌+◌, ◌*◌, ◌≡◌, refl, inl, inr, Option, none, some, List, [], ◌∷◌, arith, if◌then◌else◌,
  Bool-cases, ltb,
}
use ragamuffin.Text.{Text, same_text}
use ragamuffin.Text.Order.{same_text_iff, same_text_comm, eq_of_same_text}
use ragamuffin.Text.Maps.{lookup, insert, lookup-insert}
use ragamuffin.Extraction.Cooldown.{evict}

abbrev pub IsUnique : List (Text × ℕ) → Type 0
IsUnique [] = Unit
IsUnique ((k, t) ∷ m) = (lookup k m ≡ none) × IsUnique m

pub IsUnique-insert :
    (k : Text) (t : ℕ) (m : List (Text × ℕ)) → IsUnique m → IsUnique (insert k t m)
unfolding insert lookup
IsUnique-insert k t [] u = (refl, tt)
IsUnique-insert k t ((j, s) ∷ m) (h, u) = elim (Bool-cases (same_text j k)) [
  | inl e ↦ rw e (rw (← eq_of_same_text j k e) h, u)
  | inr e ↦
      let missing : lookup j (insert k t m) ≡ none =
        ground (arith, lookup-insert k j t m, h, e, same_text_comm j k) in
      rw e (missing, IsUnique-insert k t m u)
]

-- What the sweep leaves of an entry.
unfoldable pub kept : ℕ → ℕ → Option ℕ → Option ℕ
kept interval now none = none
kept interval now (some t) = if ltb (t + 2 * interval) now then none else some t

kept-none : (interval now : ℕ) → kept interval now none ≡ none
unfolding kept
kept-none interval now = refl

pub lookup-evict :
    (interval now : ℕ) (sid : Text) (m : List (Text × ℕ))
    → IsUnique m
    → lookup sid (evict interval now m) ≡ kept interval now (lookup sid m)
unfolding evict lookup kept
lookup-evict interval now sid [] u = refl
lookup-evict interval now sid ((j, s) ∷ m) (h, u) =
    ground (arith, lookup-evict interval now sid m u, h, same_text_iff j sid)

pub IsUnique-evict :
    (interval now : ℕ) (m : List (Text × ℕ)) → IsUnique m → IsUnique (evict interval now m)
unfolding evict
IsUnique-evict interval now [] u = tt
IsUnique-evict interval now ((j, s) ∷ m) (h, u) = elim (Bool-cases (ltb (s + 2 * interval) now)) [
  | inl e ↦ rw e (IsUnique-evict interval now m u)
  | inr e ↦
      let missing : lookup j (evict interval now m) ≡ none =
        ground (arith, lookup-evict interval now j m u, h, kept-none interval now) in
      rw e (missing, IsUnique-evict interval now m u)
]
