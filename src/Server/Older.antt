-- ===== src/Server/Older.antt =====
-- supersedeOlderVersions of internal/server/facts.go. Its filter is handed to the store; the loop
-- looks at the points that come back. An update that fails is logged only.
pub mod Laws
mod Tests
use ragamuffin.Base.{
  ℕ, Bool, true, false, not, ◌&&◌, ◌||◌, Option, none, some, List, [], ◌∷◌, if◌then◌else◌,
}
use ragamuffin.Base.Int.{pos}
use ragamuffin.Text.{Text, codes, same_text}
use ragamuffin.Chunker.Links.{is_empty}
use ragamuffin.Store.Payload.{Fields, end, field, string, integer, string_payload}
use ragamuffin.Store.Filter.{Filter, on_field, of_other_kind, keyword}
use ragamuffin.Server.{Write, write_failed, write_done, state_after, Settings, Point, FactStore}
use ragamuffin.Server.Recall.{apply_reconsolidation}
use ragamuffin.Server.Version.{version_key_prefix}

-- status is active, and key_prefix is null or the prefix
unfoldable pub active_filter : Text → Filter
active_filter prefix = record {
  must =
      on_field
        (record { key = codes "status"; value = some (keyword (codes "active")); lte = none })
      ∷ [];
  must_not = [];
  should =
      of_other_kind
      ∷ on_field (record { key = codes "key_prefix"; value = some (keyword prefix); lte = none })
      ∷ [];
}

-- The stored prefix, or else the one that the fact's key shows.
unfoldable pub candidate_prefix : Fields → Text
candidate_prefix p =
    let stored = string_payload p (codes "key_prefix") in
    if is_empty stored then version_key_prefix (string_payload p (codes "fact_key")) else stored

-- The point is not passed over by the loop.
unfoldable pub is_candidate : Text → Text → Point → Bool
is_candidate key prefix pt =
    not (same_text (string_payload pt.payload (codes "fact_key")) key)
    && not (is_empty (candidate_prefix pt.payload))
    && same_text (candidate_prefix pt.payload) prefix
    && not (is_empty pt.id)

-- The fields that are set in a point.
unfoldable pub superseded_fields : Settings → ℕ → ℕ → Fields → Fields
superseded_fields cfg now version current = apply_reconsolidation cfg current now (
    field (codes "status") (string (codes "superseded")) (
      field (codes "superseded_by") (integer (pos version))
        (field (codes "updated_at") (string (cfg.format_time now)) end)))

module _ {ℓ} {S : Type ℓ} (cfg : Settings) (store : FactStore S) where
  unfoldable pub mark : S → ℕ → Text → Text → ℕ → Point → S
  mark s now key prefix version pt = elim (is_candidate key prefix pt) [
    | false ↦ s
    | true ↦ elim (store.set_payload s pt.id (superseded_fields cfg now version pt.payload)) [
      | write_failed t ↦ t
      | write_done t ↦ t
    ]
  ]

  unfoldable pub mark_all : S → ℕ → Text → Text → ℕ → List Point → S
  mark_all s now key prefix version [] = s
  mark_all s now key prefix version (pt ∷ points) =
      mark_all (mark s now key prefix version pt) now key prefix version points

  -- supersedeOlderVersions
  unfoldable pub supersede_older_versions : S → ℕ → Text → ℕ → S
  supersede_older_versions s now key version = elim (is_empty (version_key_prefix key)) [
    | true ↦ s
    | false ↦ elim (store.scroll_filtered s (some (active_filter (version_key_prefix key))) 0 []) [
      | none ↦ s
      | some points ↦ mark_all s now key (version_key_prefix key) version points
    ]
  ]
