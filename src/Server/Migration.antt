-- ===== src/Server/Migration.antt =====
-- migrateFacts of internal/server/facts.go, which gives old facts the fields of the lifecycle. The
-- pages are read on fuel; `Laws` has how much is enough. The 30 seconds after which the calls of the
-- store fail are failures of the store. A payload without fields is a nil map.
pub mod Laws
mod Tests
use ragamuffin.Base.{
  ℕ, zero, suc, Bool, true, false, Option, none, some, List, [], ◌∷◌, if◌then◌else◌,
}
use ragamuffin.Base.Int.{pos}
use ragamuffin.Text.{Text, codes}
use ragamuffin.Chunker.Links.{is_empty}
use ragamuffin.Store.Payload.{
  Value, Fields, end, field, string, double, boolean, lookup_field, string_payload,
}
use ragamuffin.Store.Payload.Double.{to_double}
use ragamuffin.Store.Payload.Numbers.{zero_double, one_double}
use ragamuffin.Store.Payload.Access.{set_field, nv_list}
use ragamuffin.Store.Vector.{Vectors, single}
use ragamuffin.Server.{
  Write, write_failed, write_done, state_after, Settings, Point, FactStore, scroll_key,
  zero_fact_vector,
}
use ragamuffin.Server.Version.{parse_version_from_key, version_key_prefix}

-- The time of the last update, or else the time now.
unfoldable pub updated_or : Text → Fields → Value
updated_or now p =
    let updated = string_payload p (codes "updated_at") in
    string (if is_empty updated then now else updated)

-- The fields in the order of the code, each with its default.
unfoldable pub lifecycle_defaults : Text → List (Text × (Fields → Value))
lifecycle_defaults now =
    (codes "status", λ p. string (codes "active"))
    ∷ (codes "confidence", λ p. double one_double)
    ∷ (codes "source_type", λ p. string (codes "manual"))
    ∷ (codes "conflict_resolved", λ p. boolean true)
    ∷ (codes "confirmation_count", λ p. double one_double)
    ∷ (codes "created_at", λ p. updated_or now p)
    ∷ (codes "last_confirmed_at", λ p. updated_or now p)
    ∷ (codes "supersedes", λ p. string [])
    ∷ (codes "key_prefix", λ p. string (version_key_prefix (string_payload p (codes "fact_key"))))
    ∷ (codes "contradicts", λ p. nv_list [])
    ∷ (codes "source", λ p. string [])
    ∷ (codes "ttl_days", λ p. double zero_double)
    ∷ (codes "expires_at", λ p. string [])
    ∷ (codes "expires_at_unix", λ p. double zero_double)
    ∷ (
      codes "version",
      λ p. double (to_double (pos (parse_version_from_key (string_payload p (codes "fact_key"))))),
    )
    ∷ (codes "superseded_by", λ p. double zero_double)
    ∷ (codes "refines", λ p. string [])
    ∷ (codes "supports", λ p. nv_list [])
    ∷ []

-- `if _, ok := payload[key]; !ok { payload[key] = v; needsUpdate = true }`
unfoldable pub fill_one : Text → Value → Fields × Bool → Fields × Bool
fill_one key v (p, needs_update) = elim (lookup_field p key) [
  | none ↦ (set_field key v p, true)
  | some w ↦ (p, needs_update)
]

unfoldable pub fill_all : List (Text × (Fields → Value)) → Fields × Bool → Fields × Bool
fill_all [] (p, needs_update) = (p, needs_update)
fill_all ((key, v) ∷ ds) (p, needs_update) = fill_all ds (fill_one key (v p) (p, needs_update))

-- The payload with its defaults, and needsUpdate.
unfoldable pub fill_defaults : Text → Fields → Fields × Bool
fill_defaults now p = fill_all (lifecycle_defaults now) (p, false)

-- The vector that the point has, or a zero vector.
unfoldable pub kept_vector : Settings → Vectors → Vectors
kept_vector cfg (single (f ∷ fs)) = single (f ∷ fs)
kept_vector cfg _ = zero_fact_vector cfg

abbrev pub migration_sentinel_key : Text
migration_sentinel_key = codes "_ragamuffin/_migration/v0.6.1"

unfoldable pub last_id : Text → List Point → Text
last_id id [] = id
last_id id (pt ∷ points) = last_id pt.id points

-- How the loop over the pages ends.
pub data Run {ℓ} (S : Type ℓ) : Type ℓ where
  out_of_fuel : Run S
  scroll_failed : S → Run S
  finished : S → Run S

module _ {ℓ} {S : Type ℓ} (cfg : Settings) (store : FactStore S) where
  -- The body of the loop for one point. An upsert that fails is logged only.
  unfoldable pub migrate_point : S → ℕ → Point → S
  migrate_point s now pt =
      let (p, needs_update) = fill_defaults (cfg.format_time now) pt.payload in
      elim pt.payload [
        | end ↦ s
        | field k v fs ↦
            if needs_update
            then state_after (
                store.upsert s
                  (record { id = pt.id; payload = p; vectors = kept_vector cfg pt.vectors }))
            else s
      ]

  unfoldable pub migrate_points : S → ℕ → List Point → S
  migrate_points s now [] = s
  migrate_points s now (pt ∷ points) = migrate_points (migrate_point s now pt) now points

  unfoldable pub migrate_pages : ℕ → S → ℕ → Text → Run S
  migrate_pages zero s now offset = out_of_fuel
  migrate_pages (suc fuel) s now offset = elim (store.scroll_filtered s none 100 offset) [
    | none ↦ scroll_failed s
    | some [] ↦ finished s
    | some (pt ∷ points) ↦ elim (is_empty (last_id pt.id points)) [
      | true ↦ finished (migrate_points s now (pt ∷ points))
      | false ↦ migrate_pages fuel (migrate_points s now (pt ∷ points)) now (last_id pt.id points)
    ]
  ]

  sentinel : ℕ → Point
  sentinel now = record {
    id = cfg.key_hash migration_sentinel_key;
    payload = field (codes "fact_key") (string migration_sentinel_key) (
        field (codes "status") (string (codes "active"))
          (field (codes "created_at") (string (cfg.format_time now)) end));
    vectors = zero_fact_vector cfg;
  }

  write_sentinel : ℕ → Run S → Run S
  unfolding sentinel
  write_sentinel now (finished s) = finished (state_after (store.upsert s (sentinel now)))
  write_sentinel now (scroll_failed s) = scroll_failed s
  write_sentinel now out_of_fuel = out_of_fuel

  -- migrateFacts: nothing is done when the sentinel is found.
  unfoldable pub migrate_facts : ℕ → S → ℕ → Run S
  unfolding write_sentinel
  migrate_facts fuel s now = elim (scroll_key store s migration_sentinel_key) [
    | some (pt ∷ points) ↦ finished s
    | some [] ↦ write_sentinel now (migrate_pages fuel s now [])
    | none ↦ write_sentinel now (migrate_pages fuel s now [])
  ]
