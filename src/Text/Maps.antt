-- ===== src/Text/Maps.antt =====
-- Go maps with strings for keys, and tables by such a key, as association lists.
use ragamuffin.Base.{◌≡◌, refl, Option, none, some, List, [], ◌∷◌, arith, if◌then◌else◌}
use ragamuffin.Text.{Text, same_text}
use ragamuffin.Text.Order.{same_text_iff, same_text_refl}

-- A Go map, or a table by its key, with texts for keys.
unfoldable pub lookup {ℓ} : {V : Type ℓ} → Text → List (Text × V) → Option V
lookup k [] = none
lookup k ((j, v) ∷ m) = if same_text j k then some v else lookup k m

unfoldable pub insert {ℓ} : {V : Type ℓ} → Text → V → List (Text × V) → List (Text × V)
insert k v [] = (k, v) ∷ []
insert k v ((j, w) ∷ m) = if same_text j k then (k, v) ∷ m else (j, w) ∷ insert k v m

-- delete(m, k)
unfoldable pub delete {ℓ} : {V : Type ℓ} → Text → List (Text × V) → List (Text × V)
delete k [] = []
delete k ((j, w) ∷ m) = let rest = delete k m in if same_text j k then rest else (j, w) ∷ rest

pub lookup-insert {ℓ} :
    {V : Type ℓ} (k j : Text) (v : V) (m : List (Text × V))
    → lookup j (insert k v m) ≡ (if same_text k j then some v else lookup j m)
unfolding lookup insert
lookup-insert k j v [] = refl
lookup-insert k j v ((i, w) ∷ m) =
    ground (arith, lookup-insert k j v m, same_text_iff k j, same_text_iff i k, same_text_iff i j)

pub lookup-insert_self {ℓ} :
    {V : Type ℓ} (k : Text) (v : V) (m : List (Text × V)) → lookup k (insert k v m) ≡ some v
lookup-insert_self k v m = rw (lookup-insert k k v m, same_text_refl)

pub lookup-delete {ℓ} :
    {V : Type ℓ} (k j : Text) (m : List (Text × V))
    → lookup j (delete k m) ≡ (if same_text k j then none else lookup j m)
unfolding lookup delete
lookup-delete k j [] = ground arith
lookup-delete k j ((i, w) ∷ m) =
    ground (arith, lookup-delete k j m, same_text_iff k j, same_text_iff i k, same_text_iff i j)
