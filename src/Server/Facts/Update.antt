-- ===== src/Server/Facts/Update.antt =====
-- handleFactsPut, handleFactsDelete and applyFieldUpdate of internal/server/facts.go, with
-- factUpdateRequest.
use ragamuffin.Base.{ℕ, Bool, true, false, Option, none, some, List, [], ◌∷◌}
use ragamuffin.Base.Int.{ℤ}
use ragamuffin.Text.{Text, codes}
use ragamuffin.Chunker.Links.{is_empty}
use ragamuffin.Auth.{Claims}
use ragamuffin.Store.Payload.{Value, Fields, string, double, boolean, string_payload}
use ragamuffin.Store.Payload.Double.{to_double}
use ragamuffin.Store.Payload.Access.{set_field, delete_field, nv_list}
use ragamuffin.Server.{
  write_failed, write_done, Settings, Point, FactStore, Outcome, answered, Task,
  register_provenance, refuse, lacks_write, scroll_key, fact_key_filter, embed_fact_vector, set_ttl,
}
use ragamuffin.Server.Recall.{apply_reconsolidation_v}
use ragamuffin.Server.Facts.{FactResponse, point_to_fact_response, unix_of, until_unix, tags_if_any}

-- factUpdateRequest: `none` is a field that is omitted.
pub record FactUpdate : Type 0 where
  pub value : Option Text
  pub tags : Option (List Text)
  pub source : Option Text
  pub source_type : Option Text
  pub status : Option Text
  pub supersedes : Option Text
  pub refines : Option Text
  pub supports : Option (List Text)
  pub confidence : Option ℕ
  pub conflict_resolved : Option Bool
  pub confirmation_count : Option ℤ
  pub last_confirmed_at : Option Text
  pub ttl_days : Option ℤ
  pub valid_from : Option Text
  pub valid_until : Option Text

-- `if v != nil { payload[key] = ... }`
unfoldable pub set_if {ℓ} : {A : Type ℓ} → Text → (A → Value) → Option A → Fields → Fields
set_if key value none p = p
set_if key value (some a) p = set_field key (value a) p

-- applyFieldUpdate
unfoldable pub apply_field_update : Text → Option Text → Fields → Fields
unfolding set_if
apply_field_update key val p = set_if key string val p

-- `if ttl_days != nil`
unfoldable pub set_ttl_if : Settings → ℕ → Option ℤ → Fields → Fields
set_ttl_if cfg now none p = p
set_ttl_if cfg now (some ttl) p = set_ttl cfg now ttl p

-- Tags that are given replace the old ones; no tags remove the field.
unfoldable pub replace_tags : Option (List Text) → Fields → Fields
unfolding tags_if_any
replace_tags none p = p
replace_tags (some tags) p = tags_if_any tags (delete_field (codes "fact_tags") p)

-- The updates that a request makes, in the code's order.
unfoldable pub put_fields : Settings → ℕ → FactUpdate → Fields → Fields
unfolding set_if set_ttl_if replace_tags apply_field_update
put_fields cfg now req p =
    let texts = apply_field_update (codes "valid_until") req.valid_until (
      apply_field_update (codes "valid_from") req.valid_from (
        apply_field_update (codes "refines") req.refines (
          apply_field_update (codes "supersedes") req.supersedes (
            apply_field_update (codes "status") req.status (
              apply_field_update (codes "source_type") req.source_type (
                apply_field_update (codes "source") req.source
                  (apply_field_update (codes "fact_value") req.value p))))))) in
    let times =
      set_if (codes "valid_until_unix") (λ s. double (until_unix cfg s)) req.valid_until
        (set_if (codes "valid_from_unix") (λ s. double (unix_of cfg s)) req.valid_from texts) in
    let rest = set_if (codes "last_confirmed_at") string req.last_confirmed_at (
      set_if (codes "confirmation_count") (λ n. double (to_double n)) req.confirmation_count
        (set_if (codes "conflict_resolved") boolean req.conflict_resolved (
          set_if (codes "confidence") double req.confidence
            (set_if (codes "supports") nv_list req.supports times)))) in
    set_field (codes "updated_at") (string (cfg.format_time now))
      (replace_tags req.tags (set_ttl_if cfg now req.ttl_days rest))

unfoldable pub put_payload : Settings → ℕ → FactUpdate → Fields → Fields
unfolding put_fields
put_payload cfg now req p = apply_reconsolidation_v cfg (put_fields cfg now req p) now

put_tasks : Text → Option Text → List Task
put_tasks key none = []
put_tasks key (some source) = register_provenance key source ∷ []

module _ {S : Type 0} (cfg : Settings) (store : FactStore S) where
  unfoldable pub put_point : S → ℕ → Text → FactUpdate → Point → Outcome S FactResponse
  unfolding put_payload put_tasks
  put_point s now key req old =
      let payload = put_payload cfg now req old.payload in
      let point : Point = record {
        id = cfg.key_hash key;
        payload = payload;
        vectors = embed_fact_vector cfg (string_payload payload (codes "fact_value"));
      } in
      elim (store.upsert s point) [
        | write_failed t ↦ refuse t 500 (codes "UPSERT_FAILED")
        | write_done t ↦ record {
          state = t;
          reply = answered (point_to_fact_response payload key);
          tasks = put_tasks key req.source;
        }
      ]

  -- handleFactsPut
  unfoldable pub handle_facts_put :
      S → ℕ → Option Claims → Text → Option FactUpdate → Outcome S FactResponse
  unfolding put_point
  handle_facts_put s now claims key body = elim (lacks_write claims) [
    | true ↦ refuse s 403 (codes "FORBIDDEN")
    | false ↦ elim (is_empty key) [
      | true ↦ refuse s 400 (codes "MISSING_KEY")
      | false ↦ elim body [
        | none ↦ refuse s 400 (codes "INVALID_REQUEST")
        | some req ↦ elim (scroll_key store s key) [
          | none ↦ refuse s 500 (codes "SCROLL_FAILED")
          | some [] ↦ refuse s 404 (codes "NOT_FOUND")
          | some (old ∷ points) ↦ put_point s now key req old
        ]
      ]
    ]
  ]

  -- handleFactsDelete; the answer is the key.
  unfoldable pub handle_facts_delete : S → Option Claims → Text → Outcome S Text
  unfolding fact_key_filter
  handle_facts_delete s claims key = elim (lacks_write claims) [
    | true ↦ refuse s 403 (codes "FORBIDDEN")
    | false ↦ elim (is_empty key) [
      | true ↦ refuse s 400 (codes "MISSING_KEY")
      | false ↦ elim (store.delete_filtered s (fact_key_filter key)) [
        | write_failed t ↦ refuse t 500 (codes "DELETE_FAILED")
        | write_done t ↦ record { state = t; reply = answered key; tasks = [] }
      ]
    ]
  ]
