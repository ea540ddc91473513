-- ===== src/Server/Facts.antt =====
-- handleFactsPost and pointToFactResponse of internal/server/facts.go, and their request and response.
-- The body is read already: `none` is a body that is no JSON of the request's shape. The soft decay is
-- not among the response's fields.
pub mod Update
pub mod Patch
pub mod Stored
pub mod Laws
pub mod Posted
pub mod Refused
pub mod Patched
mod Tests
use ragamuffin.Base.{
  ℕ, zero, suc, ◌*◌, Bool, true, false, not, ◌&&◌, ◌||◌, Option, none, some, List, [], ◌∷◌, ◌++◌,
  ltb, leb, length, if◌then◌else◌,
}
use ragamuffin.Base.Int.{ℤ, pos, negsuc}
use ragamuffin.Text.{Text, codes}
use ragamuffin.Text.Utf8.{encode}
use ragamuffin.Chunker.Links.{is_empty}
use ragamuffin.Auth.{Claims}
use ragamuffin.Store.Payload.{
  Fields, end, field, string, double, integer, boolean, string_payload, get_payload_float_value,
  get_payload_bool_value,
}
use ragamuffin.Store.Payload.Double.{to_double}
use ragamuffin.Store.Payload.Numbers.{at_most_double, zero_double, one_double}
use ragamuffin.Store.Payload.Access.{
  set_field, get_payload_float, get_payload_int, get_payload_string_list, nv_list,
}
use ragamuffin.Server.{
  Write, write_failed, write_done, state_after, Settings, Point, FactStore, Outcome, Reply,
  answered, Task, supersede_older, link_chunks, register_provenance, emit_created, refuse,
  lacks_write, scroll_key, embed_fact_vector, unix, compute_expires_at, expires_at_unix,
  default_confidence, int_value,
}
use ragamuffin.Server.Version.{parse_version_from_key, version_key_prefix}

-- factPayload
pub record FactPayload : Type 0 where
  pub key : Text
  pub value : Text
  pub tags : List Text
  pub source : Text
  pub source_type : Text
  pub confidence : Option ℕ
  pub ttl_days : Option ℤ
  pub version : Option ℤ
  pub valid_from : Option Text
  pub valid_until : Option Text

-- factResponse
pub record FactResponse : Type 0 where
  pub key : Text
  pub value : Text
  pub tags : List Text
  pub source : Text
  pub source_type : Text
  pub confidence : Option ℕ
  pub status : Text
  pub version : ℤ
  pub supersedes : Text
  pub superseded_by : ℤ
  pub contradicts : List Text
  pub refines : Text
  pub supports : List Text
  pub conflict_resolved : Bool
  pub confirmation_count : ℤ
  pub last_confirmed_at : Text
  pub created_at : Text
  pub updated_at : Text
  pub expires_at : Text
  pub related_chunks : List Text
  pub valid_from : Text
  pub valid_until : Text
  pub read_count : ℤ
  pub last_read_at : Text
  pub last_recalled_at : Text
  pub reconsolidated_at : Text
  pub reconsolidation_chain : List Text

-- `if s == "" { s = d }`
unfoldable pub or_text : Text → Text → Text
or_text d [] = d
or_text d (c ∷ s) = c ∷ s

-- pointToFactResponse
unfoldable pub point_to_fact_response : Fields → Text → FactResponse
unfolding or_text
point_to_fact_response p key_override = record {
  key = or_text (string_payload p (codes "fact_key")) key_override;
  value = string_payload p (codes "fact_value");
  tags = get_payload_string_list p (codes "fact_tags");
  source = string_payload p (codes "source");
  source_type = string_payload p (codes "source_type");
  confidence = get_payload_float p (codes "confidence");
  status = or_text (codes "active") (string_payload p (codes "status"));
  version = get_payload_int p (codes "version");
  supersedes = string_payload p (codes "supersedes");
  superseded_by = get_payload_int p (codes "superseded_by");
  contradicts = get_payload_string_list p (codes "contradicts");
  refines = string_payload p (codes "refines");
  supports = get_payload_string_list p (codes "supports");
  conflict_resolved = get_payload_bool_value p (codes "conflict_resolved");
  confirmation_count = get_payload_int p (codes "confirmation_count");
  last_confirmed_at = string_payload p (codes "last_confirmed_at");
  created_at = string_payload p (codes "created_at");
  updated_at = string_payload p (codes "updated_at");
  expires_at = string_payload p (codes "expires_at");
  related_chunks = get_payload_string_list p (codes "related_chunks");
  valid_from = string_payload p (codes "valid_from");
  valid_until = string_payload p (codes "valid_until");
  read_count = get_payload_int p (codes "access_count");
  last_read_at = string_payload p (codes "last_accessed_at");
  last_recalled_at = string_payload p (codes "last_recalled_at");
  reconsolidated_at = string_payload p (codes "reconsolidated_at");
  reconsolidation_chain = get_payload_string_list p (codes "reconsolidation_chain");
}

-- The fields that the server manages, as they are read from a fact that exists already.
pub record Lifecycle : Type 0 where
  pub created_at : Text
  pub status : Text
  pub supersedes : Text
  pub refines : Text
  pub last_confirmed_at : Text
  pub last_accessed_at : Text
  pub confirmation_count : ℕ
  pub superseded_by : ℕ
  pub access_count : ℕ
  pub conflict_resolved : Bool
  pub contradicts : List Text
  pub supports : List Text

unfoldable pub read_lifecycle : Fields → Lifecycle
read_lifecycle p = record {
  created_at = string_payload p (codes "created_at");
  status = string_payload p (codes "status");
  supersedes = string_payload p (codes "supersedes");
  refines = string_payload p (codes "refines");
  last_confirmed_at = string_payload p (codes "last_confirmed_at");
  last_accessed_at = string_payload p (codes "last_accessed_at");
  confirmation_count = get_payload_float_value p (codes "confirmation_count");
  superseded_by = get_payload_float_value p (codes "superseded_by");
  access_count = get_payload_float_value p (codes "access_count");
  conflict_resolved = get_payload_bool_value p (codes "conflict_resolved");
  contradicts = get_payload_string_list p (codes "contradicts");
  supports = get_payload_string_list p (codes "supports");
}

-- The variables as they are declared: the values of a fact that does not exist.
abbrev pub no_lifecycle : Lifecycle
no_lifecycle = record {
  created_at = [];
  status = [];
  supersedes = [];
  refines = [];
  last_confirmed_at = [];
  last_accessed_at = [];
  confirmation_count = zero_double;
  superseded_by = zero_double;
  access_count = zero_double;
  conflict_resolved = false;
  contradicts = [];
  supports = [];
}

-- The defaults for what is empty.
unfoldable pub with_defaults : Text → Lifecycle → Lifecycle
unfolding or_text at_most_double
with_defaults now l = record l {
  created_at = or_text now l.created_at;
  status = or_text (codes "active") l.status;
  last_confirmed_at = or_text now l.last_confirmed_at;
  confirmation_count =
      if at_most_double l.confirmation_count zero_double then one_double else l.confirmation_count;
}

-- The explicit version, or else the one that the key shows.
unfoldable pub version_for : FactPayload → ℤ
version_for fp = elim (int_value fp.version) [
  | pos zero ↦ pos (parse_version_from_key fp.key)
  | pos (suc n) ↦ pos (suc n)
  | negsuc n ↦ pos (parse_version_from_key fp.key)
]

-- `if fp.ValidFrom != nil && *fp.ValidFrom != ""`
unfoldable pub valid_from_or : Text → Option Text → Text
unfolding or_text
valid_from_or created none = created
valid_from_or created (some s) = or_text created s

unfoldable pub text_of : Option Text → Text
text_of none = []
text_of (some s) = s

-- The unix time of a text, 0 for one that is no time.
unfoldable pub unix_of : Settings → Text → ℕ
unix_of cfg s = elim (cfg.parse_time s) [ none ↦ zero_double | some t ↦ unix t ]

-- validUntilUnix: only a text that is not empty is parsed.
unfoldable pub until_unix : Settings → Text → ℕ
unfolding unix_of
until_unix cfg [] = zero_double
until_unix cfg (c ∷ s) = unix_of cfg (c ∷ s)

-- setPayloadTags
unfoldable pub set_payload_tags : List Text → Fields → Fields
set_payload_tags tags p = set_field (codes "fact_tags") (nv_list tags) p

unfoldable pub tags_if_any : List Text → Fields → Fields
unfolding set_payload_tags
tags_if_any [] p = p
tags_if_any (t ∷ tags) p = set_payload_tags (t ∷ tags) p

-- The payload of the new point.
unfoldable pub fact_fields : Settings → ℕ → Lifecycle → FactPayload → Fields
unfolding valid_from_or text_of unix_of until_unix
fact_fields cfg now l fp =
    let valid_from = valid_from_or l.created_at fp.valid_from in
    let valid_until = text_of fp.valid_until in
    field (codes "fact_key") (string fp.key) (
      field (codes "key_prefix") (string (version_key_prefix fp.key)) (
        field (codes "fact_value") (string fp.value) (
          field (codes "source") (string fp.source) (
            field (codes "source_type") (string fp.source_type) (
              field (codes "confidence") (double (default_confidence fp.confidence)) (
                field (codes "version") (integer (version_for fp)) (
                  field (codes "status") (string l.status) (
                    field (codes "supersedes") (string l.supersedes) (
                      field (codes "superseded_by") (double l.superseded_by) (
                        field (codes "refines") (string l.refines) (
                          field (codes "conflict_resolved") (boolean l.conflict_resolved) (
                            field (codes "confirmation_count") (double l.confirmation_count) (
                              field (codes "last_confirmed_at") (string l.last_confirmed_at) (
                                field (codes "access_count") (double l.access_count) (
                                  field (codes "last_accessed_at") (string l.last_accessed_at) (
                                    field (codes "created_at") (string l.created_at) (
                                      field (codes "updated_at") (string (cfg.format_time now)) (
                                        field (codes "ttl_days") (integer (int_value fp.ttl_days)) (
                                          field (codes "expires_at")
                                            (string
                                              (compute_expires_at cfg now (int_value fp.ttl_days)))
                                            (field (codes "expires_at_unix")
                                              (double (expires_at_unix now (int_value fp.ttl_days)))
                                              (field (codes "valid_from") (string valid_from) (
                                                field (codes "valid_from_unix")
                                                  (double (unix_of cfg valid_from))
                                                  (field (codes "valid_until") (string valid_until)
                                                    (field (codes "valid_until_unix")
                                                      (double (until_unix cfg valid_until))
                                                      (field (codes "contradicts")
                                                        (nv_list l.contradicts)
                                                        (field (codes "supports")
                                                          (nv_list l.supports)
                                                          end))))))))))))))))))))))))))

unfoldable pub post_payload : Settings → ℕ → Lifecycle → FactPayload → Fields
unfolding tags_if_any fact_fields
post_payload cfg now l fp = tags_if_any fp.tags (fact_fields cfg now l fp)

-- The tests on the body, in the code's order: the code of the first that fails.
unfoldable pub invalid_body : FactPayload → Option Text
invalid_body fp =
    if is_empty fp.key || is_empty fp.value
    then some (codes "INVALID_INPUT")
    else if ltb 1024 (length (encode fp.key))
    then some (codes "KEY_TOO_LONG")
    else if ltb (64 * 1024) (length (encode fp.value))
    then some (codes "VALUE_TOO_LARGE")
    else none

older_task : Text → ℤ → List Task
older_task key (pos (suc n)) = supersede_older key (suc n) ∷ []
older_task key _ = []

-- The goroutines and the event behind a fact that is stored.
unfoldable pub post_tasks : Settings → FactPayload → List Task
unfolding older_task
post_tasks cfg fp =
    older_task fp.key (version_for fp)
    ++ elim cfg.embed [ none ↦ [] | some e ↦ link_chunks fp.key fp.value ∷ [] ]
    ++ (if is_empty fp.source then [] else register_provenance fp.key fp.source ∷ [])
    ++ emit_created fp.key fp.value (default_confidence fp.confidence) ∷ []

module _ {S : Type 0} (cfg : Settings) (store : FactStore S) where
  -- What is carried over, `none` when the existence check fails. The second read is made only for a
  -- fact that exists: `read_again` says whether it comes through, and then it finds what the check has
  -- found. An error of it is logged only, and nothing is carried over.
  unfoldable pub existing_lifecycle : S → Bool → Text → Option Lifecycle
  existing_lifecycle s read_again key = elim (scroll_key store s key) [
    | none ↦ none
    | some [] ↦ some no_lifecycle
    | some (p ∷ points) ↦ some (if read_again then read_lifecycle p.payload else no_lifecycle)
  ]

  unfoldable pub store_fact : S → ℕ → FactPayload → Lifecycle → Outcome S FactResponse
  unfolding post_payload with_defaults post_tasks
  store_fact s now fp l =
      let payload = post_payload cfg now (with_defaults (cfg.format_time now) l) fp in
      let point : Point = record {
        id = cfg.key_hash fp.key;
        payload = payload;
        vectors = embed_fact_vector cfg fp.value;
      } in
      elim (store.upsert s point) [
        | write_failed t ↦ refuse t 500 (codes "UPSERT_FAILED")
        | write_done t ↦ record {
          state = t;
          reply = answered (point_to_fact_response payload fp.key);
          tasks = post_tasks cfg fp;
        }
      ]

  -- handleFactsPost
  unfoldable pub handle_facts_post :
      S → ℕ → Bool → Option Claims → Option FactPayload → Outcome S FactResponse
  unfolding existing_lifecycle store_fact invalid_body
  handle_facts_post s now read_again claims body = elim (lacks_write claims) [
    | true ↦ refuse s 403 (codes "FORBIDDEN")
    | false ↦ elim body [
      | none ↦ refuse s 400 (codes "INVALID_REQUEST")
      | some fp ↦ elim (invalid_body fp) [
        | some code ↦ refuse s 400 code
        | none ↦ elim (existing_lifecycle s read_again fp.key) [
          | none ↦ refuse s 500 (codes "INTERNAL")
          | some l ↦ store_fact s now fp l
        ]
      ]
    ]
  ]
