-- ===== src/Server/Review/Tests.antt =====
-- Runs of the review, and its theorems at concrete inputs.
use ragamuffin.Base.{ℕ, ◌≡◌, refl, Option, none, some, [], if◌then◌else◌}
use ragamuffin.Text.{Text, codes, same_text}
use ragamuffin.Text.Utf8.{encode, encode_rune}
use ragamuffin.Text.Maps.{lookup, insert}
use ragamuffin.Chunker.Links.{is_empty}
use ragamuffin.Auth.{has_access, contains}
use ragamuffin.Store.Payload.{Fields, string_payload, lookup_field, or_zero, get_string_value}
use ragamuffin.Store.Payload.Access.{set_field, get_payload_string, get_payload_string_list}
use ragamuffin.Server.Recall.{apply_reconsolidation_v, record_chain, reconsolidation_chain}
use ragamuffin.Store.Filter.{filter_matches}
use ragamuffin.Server.{FactStore, write_failed, refuse, lacks_write, scroll_key, fact_key_filter}
use ragamuffin.Server.Fixtures.{settings, writer, facts, request, fact_fields_of}
use ragamuffin.Server.Contract.Memory.{Memory, memory, find, put, scroll, set}
use ragamuffin.Server.Facts.{FactResponse, point_to_fact_response}
use ragamuffin.Server.Review.{
  ResolveRequest, handle_review_post, resolve, write_back, supersede_with, creates,
  review_supersede_create, invalid_replacement, action_of, point_at, replacement_fields, to_reject,
  resolve_fields, touch,
}
use ragamuffin.Server.Review.Errors.{IsRefused, refused-handle_review_post}

program : Unit {0}
unfolding handle_review_post resolve write_back supersede_with creates review_supersede_create
    invalid_replacement action_of point_at lacks_write has_access contains refuse is_empty encode
    encode_rune scroll_key fact_key_filter memory scroll put set filter_matches same_text insert
    lookup find string_payload lookup_field or_zero get_string_value touch set_field resolve_fields
    apply_reconsolidation_v record_chain reconsolidation_chain get_payload_string
program = tt

abbrev old : Fields
old = fact_fields_of (codes "k") (codes "old") (codes "needs_review")

abbrev reject_it : FactResponse
reject_it =
    point_to_fact_response
      (touch settings 9 (resolve_fields settings 9 (request (codes "reject") [] []) to_reject old))
      (codes "k")

-- A superseding fact with the key of the superseded one: the new value is not in the store.
abbrev same_key : Memory
same_key =
    (handle_review_post settings memory facts 9 writer (codes "k")
      (some (request (codes "supersede") (codes "k") (codes "new")))).state

abbrev text_in : Option Fields → Text → Text
text_in none key = []
text_in (some p) key = string_payload p key

new_value_lost : text_in (find same_key (codes "k")) (codes "fact_value") ≡ codes "old"
unfolding program
new_value_lost = refl

superseded : text_in (find same_key (codes "k")) (codes "status") ≡ codes "superseded"
unfolding program
superseded = refl

-- A store that does not take a point under `k`.
abbrev brittle : FactStore Memory
brittle = record memory {
  upsert = λ m p. if same_text p.id (codes "k") then write_failed m else put m p;
}

abbrev supersede_it : Option ResolveRequest
supersede_it = some (request (codes "supersede") (codes "n") (codes "new"))

-- The new fact is stored, and the old one is not written.
refused-handle_review_post_example :
    IsRefused settings brittle facts
      (handle_review_post settings brittle facts 9 writer (codes "k") supersede_it).state
      (codes "k")
      supersede_it
      500
      (codes "UPSERT_FAILED")
unfolding program
refused-handle_review_post_example =
    refused-handle_review_post settings brittle facts 9 writer (codes "k") supersede_it 500
      (codes "UPSERT_FAILED") refl

new_stays :
    text_in
      (find
        (handle_review_post settings brittle facts 9 writer (codes "k") supersede_it).state
        (codes "n"))
      (codes "fact_value")
    ≡ codes "new"
unfolding program replacement_fields get_payload_string_list
new_stays = refl

abbrev half : ℕ
half = 0x3FE0000000000000
