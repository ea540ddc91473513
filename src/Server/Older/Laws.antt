-- ===== src/Server/Older/Laws.antt =====
-- Which facts are marked as superseded.
use ragamuffin.Base.{◌≡◌, ◌≢◌, Option, none, some, [], ◌⊎◌}
use ragamuffin.Text.{Text, codes}
use ragamuffin.Store.Payload.{Fields, Value, string, string_payload, lookup_field}
use ragamuffin.Server.{Point}
use ragamuffin.Server.Version.{version_key_prefix}

abbrev pub status_in : Option Fields → Option Value
status_in none = none
status_in (some p) = lookup_field p (codes "status")

abbrev pub IsSuperseded : Option Fields → Type 0
IsSuperseded o = status_in o ≡ some (string (codes "superseded"))

-- The prefix that a fact is compared by: the stored one, or else the one that its key shows.
abbrev pub HasPrefix : Text → Fields → Type 0
HasPrefix prefix p =
    ((string_payload p (codes "key_prefix") ≡ prefix) × (prefix ≢ []))
    ⊎ ((string_payload p (codes "key_prefix") ≡ [])
        × (version_key_prefix (string_payload p (codes "fact_key")) ≡ prefix)
        × (prefix ≢ []))

-- The fact has another key, the prefix, and an identifier.
abbrev pub IsOther : Text → Text → Point → Type 0
IsOther key prefix pt =
    (string_payload pt.payload (codes "fact_key") ≢ key)
    × HasPrefix prefix pt.payload
    × (pt.id ≢ [])
