-- ===== src/Server/Facts/Patch.antt =====
-- buildPatchUpdates and handleFactsPatch of internal/server/facts.go.
use ragamuffin.Base.{
  ℕ, ◌+◌, true, false, Option, none, some, List, [], ◌∷◌, ltb, ◌==◌, length, if◌then◌else◌,
}
use ragamuffin.Text.{Text, codes}
use ragamuffin.Auth.{Claims}
use ragamuffin.Store.Payload.{Fields, end, string, double, boolean}
use ragamuffin.Store.Payload.Double.{to_double}
use ragamuffin.Store.Payload.Access.{set_field, nv_list}
use ragamuffin.Server.{
  write_failed, write_done, state_after, Settings, FactStore, Outcome, answered, refuse,
  lacks_write, scroll_key,
}
use ragamuffin.Server.Recall.{reconsolidation_chain, apply_reconsolidation}
use ragamuffin.Server.Facts.Update.{FactUpdate, set_if, set_ttl_if}

-- buildPatchUpdates
unfoldable pub build_patch_updates : Settings → ℕ → FactUpdate → Fields
unfolding set_if set_ttl_if
build_patch_updates cfg now req =
    let texts = set_if (codes "supports") nv_list req.supports (
      set_if (codes "refines") string req.refines (
        set_if (codes "supersedes") string req.supersedes (
          set_if (codes "status") string req.status (
            set_if (codes "source_type") string req.source_type (
              set_if (codes "source") string req.source
                (set_if (codes "fact_value") string req.value end)))))) in
    let rest = set_if (codes "valid_until") string req.valid_until (
      set_if (codes "valid_from") string req.valid_from (
        set_if (codes "last_confirmed_at") string req.last_confirmed_at (
          set_if (codes "confirmation_count") (λ n. double (to_double n)) req.confirmation_count
            (set_if (codes "conflict_resolved") boolean req.conflict_resolved
              (set_if (codes "confidence") double req.confidence texts))))) in
    set_field (codes "updated_at") (string (cfg.format_time now))
      (set_ttl_if cfg now req.ttl_days rest)

-- The second update, for tags that are given.
unfoldable pub tag_updates : Settings → ℕ → List Text → Fields
tag_updates cfg now tags =
    set_field (codes "fact_tags") (nv_list tags)
      (set_field (codes "updated_at") (string (cfg.format_time now)) end)

-- factBulkResult: `none` is success, and a text is the error.
pub record BulkResult : Type 0 where
  pub key : Text
  pub failure : Option Text

pub record BulkAnswer : Type 0 where
  pub status : ℕ
  pub results : List BulkResult
  pub total : ℕ
  pub succeeded : ℕ
  pub failed : ℕ

-- The result of one key, in front of those of the keys behind it.
unfoldable pub tally {ℓ} :
    {S : Type ℓ}
    → Text
    → Option Text
    → S × (List BulkResult × (ℕ × ℕ))
    → S × (List BulkResult × (ℕ × ℕ))
tally key none (s, (results, (succeeded, failed))) =
    (s, (record { key = key; failure = none } ∷ results, (succeeded + 1, failed)))
tally key (some e) (s, (results, (succeeded, failed))) =
    (s, (record { key = key; failure = some e } ∷ results, (succeeded, failed + 1)))

module _ {S : Type 0} (cfg : Settings) (store : FactStore S) where
  -- A reconsolidation that is not stamped is logged only.
  stamp_reconsolidation : S → ℕ → Text → Fields → S
  stamp_reconsolidation s now id current = elim (reconsolidation_chain cfg current now) [
    | none ↦ s
    | some chain ↦ state_after (store.set_payload s id (apply_reconsolidation cfg current now end))
  ]

  set_tags : S → ℕ → Text → Option (List Text) → S × Option Text
  unfolding tag_updates
  set_tags s now id none = (s, none)
  set_tags s now id (some tags) = elim (store.set_payload s id (tag_updates cfg now tags)) [
    | write_failed t ↦ (t, some (codes "INTERNAL"))
    | write_done t ↦ (t, none)
  ]

  -- The body of the loop for one key.
  unfoldable pub patch_one : S → ℕ → FactUpdate → Text → S × Option Text
  unfolding stamp_reconsolidation set_tags
  patch_one s now req key =
      let id = cfg.key_hash key in
      elim (scroll_key store s key) [
        | none ↦ (s, some (codes "INTERNAL"))
        | some [] ↦ (s, some (codes "NOT_FOUND"))
        | some (old ∷ points) ↦ elim (store.set_payload s id (build_patch_updates cfg now req)) [
          | write_failed t ↦ (t, some (codes "INTERNAL"))
          | write_done t ↦ set_tags (stamp_reconsolidation t now id old.payload) now id req.tags
        ]
      ]

  -- The loop over the keys: the state, the results, and the two counters.
  unfoldable pub patch_all : S → ℕ → FactUpdate → List Text → S × (List BulkResult × (ℕ × ℕ))
  unfolding patch_one
  patch_all s now req [] = (s, ([], (0, 0)))
  patch_all s now req (key ∷ keys) =
      let (t, failure) = patch_one s now req key in tally key failure (patch_all t now req keys)

  unfoldable pub bulk_answer : List Text → S × (List BulkResult × (ℕ × ℕ)) → Outcome S BulkAnswer
  bulk_answer keys (t, (results, (succeeded, failed))) = record {
    state = t;
    reply = answered (record {
      status = if failed == length keys then 500 else 200;
      results = results;
      total = length keys;
      succeeded = succeeded;
      failed = failed;
    });
    tasks = [];
  }

  -- handleFactsPatch
  unfoldable pub handle_facts_patch :
      S → ℕ → Option Claims → Option (List Text × FactUpdate) → Outcome S BulkAnswer
  unfolding bulk_answer patch_all
  handle_facts_patch s now claims body = elim (lacks_write claims) [
    | true ↦ refuse s 403 (codes "FORBIDDEN")
    | false ↦ elim body [
      | none ↦ refuse s 400 (codes "INVALID_REQUEST")
      | some ([], req) ↦ refuse s 400 (codes "MISSING_KEYS")
      | some (key ∷ keys, req) ↦
          if ltb 1000 (length (key ∷ keys))
          then refuse s 400 (codes "TOO_MANY_KEYS")
          else bulk_answer (key ∷ keys) (patch_all s now req (key ∷ keys))
    ]
  ]
