-- ===== src/Server/Review.antt =====
-- pointToReviewEntry, handleReviewPost and reviewSupersedeCreate of internal/server/review.go. The
-- sentences of the reasons keep the numbers that they are made from.
pub mod Laws
pub mod Handler
pub mod Errors
pub mod Reasons
mod Tests
use ragamuffin.Base.{
  ℕ, zero, suc, ◌+◌, ◌-◌, ◌*◌, Bool, true, false, not, ◌&&◌, ◌||◌, Option, none, some, List, [],
  ◌∷◌, ◌++◌, ltb, leb, length, if◌then◌else◌,
}
use ragamuffin.Base.Int.{ℤ, pos, negsuc}
use ragamuffin.Text.{Text, codes, same_text}
use ragamuffin.Text.Utf8.{encode}
use ragamuffin.Chunker.Links.{is_empty}
use ragamuffin.Auth.{Claims}
use ragamuffin.Store.Payload.{Fields, end, field, string, double, boolean, string_payload}
use ragamuffin.Store.Payload.Double.{to_double}
use ragamuffin.Store.Payload.Numbers.{zero_double, one_double}
use ragamuffin.Store.Payload.Access.{
  set_field, delete_field, get_payload_float, get_payload_int, get_payload_string_list, nv_list,
}
use ragamuffin.Server.{
  Write, write_failed, write_done, state_after, Settings, Point, FactStore, Outcome, answered, Task,
  emit_created, emit_reviewed, record_resolution, refuse, lacks_write, scroll_key, zero_fact_vector,
  default_confidence,
}
use ragamuffin.Server.Recall.{apply_reconsolidation_v, next_count}
use ragamuffin.Server.Facts.{FactResponse, point_to_fact_response, tags_if_any}
use ragamuffin.Server.Facts.Update.{set_if, set_ttl_if, replace_tags}

-- reviewResolveRequest without `note`, which no code reads
pub record ResolveRequest : Type 0 where
  pub action : Text
  pub confidence : Option ℕ
  pub new_key : Text
  pub new_value : Text
  pub conflict_resolved : Option Bool
  pub ttl_days : Option ℤ
  pub tags : Option (List Text)
  pub source : Text
  pub source_type : Text

-- `confirm`
unfoldable pub confirm : Settings → ℕ → ResolveRequest → Fields → Fields
unfolding set_if next_count
confirm cfg now req p =
    let active =
      set_field (codes "last_confirmed_at") (string (cfg.format_time now))
        (set_field (codes "status") (string (codes "active")) p) in
    let count = next_count (get_payload_int active (codes "confirmation_count")) in
    set_if (codes "conflict_resolved") boolean req.conflict_resolved (
      set_if (codes "confidence") double req.confidence
        (set_field (codes "confirmation_count") (double (to_double count)) active))

-- `if s != "" { payload[key] = s }`
unfoldable pub set_text : Text → Text → Fields → Fields
set_text key [] p = p
set_text key (c ∷ s) p = set_field key (string (c ∷ s)) p

-- `supersede`, the old fact
unfoldable pub supersede : Settings → ℕ → ResolveRequest → Fields → Fields
unfolding set_text
supersede cfg now req p =
    set_text (codes "supersedes") req.new_key
      (apply_reconsolidation_v cfg (set_field (codes "status") (string (codes "superseded")) p) now)

-- `reject`
unfoldable pub reject : Settings → ℕ → Fields → Fields
reject cfg now p =
    apply_reconsolidation_v cfg (set_field (codes "status") (string (codes "rejected")) p) now

-- `reclassify`
unfoldable pub reclassify : Settings → ℕ → ResolveRequest → Fields → Fields
unfolding set_if set_text set_ttl_if replace_tags
reclassify cfg now req p =
    let rated =
      set_if (codes "confidence") double req.confidence
        (set_field (codes "status") (string (codes "active")) p) in
    set_if (codes "conflict_resolved") boolean req.conflict_resolved (
      set_text (codes "source_type") req.source_type (
        set_text (codes "source") req.source
          (replace_tags req.tags (set_ttl_if cfg now req.ttl_days rated))))

-- `payload["updated_at"] = now`
unfoldable pub touch : Settings → ℕ → Fields → Fields
touch cfg now p = set_field (codes "updated_at") (string (cfg.format_time now)) p

pub data Action : Type 0 where
  to_confirm to_supersede to_reject to_reclassify : Action

-- The switch on the action; `none` is its default.
unfoldable pub action_of : Text → Option Action
action_of s =
    if same_text s (codes "confirm")
    then some to_confirm
    else if same_text s (codes "supersede")
    then some to_supersede
    else if same_text s (codes "reject")
    then some to_reject
    else if same_text s (codes "reclassify")
    then some to_reclassify
    else none

unfoldable pub resolve_fields : Settings → ℕ → ResolveRequest → Action → Fields → Fields
unfolding confirm supersede reject reclassify
resolve_fields cfg now req to_confirm p = confirm cfg now req p
resolve_fields cfg now req to_supersede p = supersede cfg now req p
resolve_fields cfg now req to_reject p = reject cfg now p
resolve_fields cfg now req to_reclassify p = reclassify cfg now req p

or_double : ℕ → Option ℕ → ℕ
or_double d none = d
or_double d (some c) = c

-- The payload of the fact that takes the old one's place; `old` is the payload of the old one.
unfoldable pub replacement_fields : Settings → ℕ → ResolveRequest → Fields → Fields
unfolding or_double tags_if_any
replacement_fields cfg now req old = tags_if_any (get_payload_string_list old (codes "fact_tags")) (
    field (codes "fact_key") (string req.new_key) (
      field (codes "fact_value") (string req.new_value) (
        field (codes "source") (string (string_payload old (codes "source"))) (
          field (codes "source_type") (string (string_payload old (codes "source_type"))) (
            field (codes "confidence")
              (double (or_double one_double (get_payload_float old (codes "confidence"))))
              (field (codes "status") (string (codes "active")) (
                field (codes "supersedes") (string []) (
                  field (codes "conflict_resolved") (boolean true) (
                    field (codes "confirmation_count") (double one_double) (
                      field (codes "last_confirmed_at") (string (cfg.format_time now)) (
                        field (codes "created_at") (string (cfg.format_time now)) (
                          field (codes "updated_at") (string (cfg.format_time now)) (
                            field (codes "ttl_days") (double zero_double) (
                              field (codes "expires_at") (string []) (
                                field (codes "expires_at_unix") (double zero_double)
                                  (field (codes "contradicts") (nv_list []) end))))))))))))))))

-- The tests of reviewSupersedeCreate: the new fact is refused.
unfoldable pub invalid_replacement : ResolveRequest → Bool
invalid_replacement req =
    is_empty req.new_key
    || is_empty req.new_value
    || ltb 1024 (length (encode req.new_key))
    || ltb (64 * 1024) (length (encode req.new_value))

unfoldable pub point_at : Settings → Text → Fields → Point
unfolding zero_fact_vector
point_at cfg key payload = record {
  id = cfg.key_hash key;
  payload = payload;
  vectors = zero_fact_vector cfg;
}

-- `req.NewValue != ""` under `supersede`
unfoldable pub creates : Action → ResolveRequest → Bool
creates to_supersede req = not (is_empty req.new_value)
creates _ req = false

module _ {S : Type 0} (cfg : Settings) (store : FactStore S) where
  -- reviewSupersedeCreate
  unfoldable pub review_supersede_create : S → ℕ → ResolveRequest → Fields → Write S
  unfolding invalid_replacement
  review_supersede_create s now req old =
      if invalid_replacement req
      then write_failed s
      else store.upsert s (point_at cfg req.new_key (replacement_fields cfg now req old))

  -- The case of a superseding fact: it is written first, the old one behind it.
  unfoldable pub supersede_with : S → ℕ → Text → ResolveRequest → Fields → Outcome S FactResponse
  unfolding review_supersede_create
  supersede_with s now key req p = elim (review_supersede_create s now req p) [
    | write_failed t ↦ refuse t 400 (codes "SUPERSEDE_CREATE_FAILED")
    | write_done t ↦ elim (store.upsert t (point_at cfg key (touch cfg now p))) [
      | write_failed u ↦ refuse u 500 (codes "UPSERT_FAILED")
      | write_done u ↦ record {
        state = u;
        reply = answered (point_to_fact_response (replacement_fields cfg now req p) req.new_key);
        tasks =
            emit_created req.new_key req.new_value (default_confidence none)
            ∷ emit_reviewed key (codes "supersede")
            ∷ record_resolution key (codes "supersede")
            ∷ [];
      }
    ]
  ]

  -- The end of the handler, for the other cases.
  unfoldable pub write_back : S → ℕ → Text → ResolveRequest → Fields → Outcome S FactResponse
  write_back s now key req p = elim (store.upsert s (point_at cfg key (touch cfg now p))) [
    | write_failed t ↦ refuse t 500 (codes "UPSERT_FAILED")
    | write_done t ↦ record {
      state = t;
      reply = answered (point_to_fact_response (touch cfg now p) key);
      tasks = emit_reviewed key req.action ∷ record_resolution key req.action ∷ [];
    }
  ]

  unfoldable pub resolve : S → ℕ → Text → ResolveRequest → Action → Fields → Outcome S FactResponse
  unfolding supersede_with write_back
  resolve s now key req action old =
      let p = resolve_fields cfg now req action old in
      if creates action req then supersede_with s now key req p else write_back s now key req p

  -- handleReviewPost
  unfoldable pub handle_review_post :
      S → ℕ → Option Claims → Text → Option ResolveRequest → Outcome S FactResponse
  unfolding resolve
  handle_review_post s now claims key body = elim (lacks_write claims) [
    | true ↦ refuse s 403 (codes "FORBIDDEN")
    | false ↦ elim (is_empty key) [
      | true ↦ refuse s 400 (codes "MISSING_KEY")
      | false ↦ elim body [
        | none ↦ refuse s 400 (codes "INVALID_REQUEST")
        | some req ↦ elim (is_empty req.action) [
          | true ↦ refuse s 400 (codes "MISSING_ACTION")
          | false ↦ elim (scroll_key store s key) [
            | none ↦ refuse s 500 (codes "READ_FAILED")
            | some [] ↦ refuse s 404 (codes "NOT_FOUND")
            | some (old ∷ points) ↦ elim (action_of req.action) [
              | none ↦ refuse s 400 (codes "INVALID_ACTION")
              | some action ↦ resolve s now key req action old.payload
            ]
          ]
        ]
      ]
    ]
  ]
