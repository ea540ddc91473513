-- ===== src/Store/Database/Points/Names.antt =====
-- Names of collections that share a table.
use ragamuffin.Base.{ℕ, ◌≡◌, ◌⊎◌, refl, false, [], ◌∷◌, arith}
use ragamuffin.Text.{Text}
use ragamuffin.Store.Database.{is_word_byte, safe_bytes, table_name}

-- A byte that tableName writes as an underscore.
abbrev pub IsMasked : ℕ → Type 0
IsMasked c = (is_word_byte c ≡ false) ⊎ (c ≡ b'_')

-- Names of one length that differ only in such bytes.
abbrev pub LooksLike : Text → Text → Type 0
LooksLike [] [] = Unit
LooksLike (a ∷ s) (b ∷ t) = ((a ≡ b) ⊎ (IsMasked a × IsMasked b)) × LooksLike s t
LooksLike _ _ = ⊥

LooksLike-safe_bytes : (s t : Text) → LooksLike s t → safe_bytes s ≡ safe_bytes t
unfolding safe_bytes
LooksLike-safe_bytes [] [] h = refl
LooksLike-safe_bytes [] (b ∷ t) h = absurd h
LooksLike-safe_bytes (a ∷ s) [] h = absurd h
LooksLike-safe_bytes (a ∷ s) (b ∷ t) h = ground (arith, LooksLike-safe_bytes s t)

-- Two collections whose names differ only in bytes that are not letters, digits or underscores have
-- one table between them.
pub table_name-LooksLike : (s t : Text) → LooksLike s t → table_name s ≡ table_name t
unfolding table_name
table_name-LooksLike s t h = ground (arith, LooksLike-safe_bytes s t h)
