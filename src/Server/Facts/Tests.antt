-- ===== src/Server/Facts/Tests.antt =====
-- Runs of the handlers of facts, and their theorems at concrete inputs.
use ragamuffin.Base.{◌≡◌, refl, true, false, Option, none, some, List, [], ◌∷◌}
use ragamuffin.Text.{Text, codes, same_text}
use ragamuffin.Text.Utf8.{encode, encode_rune}
use ragamuffin.Text.Maps.{lookup, insert}
use ragamuffin.Chunker.Links.{is_empty}
use ragamuffin.Auth.{has_access, contains}
use ragamuffin.Store.Payload.{Fields, string_payload, lookup_field, or_zero, get_string_value}
use ragamuffin.Store.Filter.{filter_matches}
use ragamuffin.Server.{refused, refuse, lacks_write, scroll_key, fact_key_filter}
use ragamuffin.Server.Fixtures.{
  settings, writer, reader, facts, new_fact, no_update, fact_fields_of,
}
use ragamuffin.Server.Contract.Memory.{memory, find, put, scroll, set}
use ragamuffin.Server.Facts.{
  handle_facts_post, point_to_fact_response, post_payload, with_defaults, existing_lifecycle,
  invalid_body, store_fact, read_lifecycle, FactResponse,
}
use ragamuffin.Server.Facts.Update.{handle_facts_put, handle_facts_delete}
use ragamuffin.Server.Facts.Refused.{IsOneWrite, IsPost, IsUpsert, IsDelete, IsOneWrite-handlers}
use ragamuffin.Server.Facts.Patched.{IsPatched, bulk-handle_facts_patch}
use ragamuffin.Store.Payload.Access.{set_field, set_fields, get_payload_string}
use ragamuffin.Server.Recall.{reconsolidation_chain}
use ragamuffin.Server.Facts.Patch.{
  handle_facts_patch, patch_all, patch_one, tally, bulk_answer, BulkAnswer, build_patch_updates,
}

program : Unit {0}
unfolding handle_facts_post lacks_write has_access contains refuse invalid_body is_empty encode
    encode_rune existing_lifecycle scroll_key fact_key_filter memory scroll put set filter_matches
    same_text store_fact insert lookup find string_payload lookup_field or_zero get_string_value
    handle_facts_put handle_facts_delete handle_facts_patch patch_all patch_one tally bulk_answer
    set_field set_fields read_lifecycle reconsolidation_chain get_payload_string build_patch_updates
program = tt

denied :
    (handle_facts_post settings memory facts 9 true reader (some new_fact)).reply
    ≡ refused 403 (codes "FORBIDDEN")
unfolding program
denied = refl

abbrev posted : FactResponse
posted =
    point_to_fact_response
      (post_payload settings 9
        (with_defaults (9 ∷ [])
          (read_lifecycle (fact_fields_of (codes "k") (codes "old") (codes "needs_review"))))
        new_fact)
      (codes "k")

-- The new value is stored, with the status and the creation time of the fact that was there.
abbrev after_post : Option Fields
after_post =
    find (handle_facts_post settings memory facts 9 true writer (some new_fact)).state (codes "k")

abbrev text_in : Option Fields → Text → Text
text_in none key = []
text_in (some p) key = string_payload p key

value_stored : text_in after_post (codes "fact_value") ≡ codes "new"
unfolding program
value_stored = refl

created_kept : text_in after_post (codes "created_at") ≡ 5 ∷ []
unfolding program
created_kept = refl

-- When the second read fails, the fact is stored as one that was not there.
created_lost :
    text_in
      (find
        (handle_facts_post settings memory facts 9 false writer (some new_fact)).state
        (codes "k"))
      (codes "created_at")
    ≡ 9 ∷ []
unfolding program
created_lost = refl

IsOneWrite-handlers_example :
    IsOneWrite
      (IsPost settings memory facts (some new_fact))
      (codes "UPSERT_FAILED")
      facts
      (handle_facts_post settings memory facts 9 true writer (some new_fact))
    × IsOneWrite
        (IsUpsert settings memory facts (codes "none"))
        (codes "UPSERT_FAILED")
        facts
        (handle_facts_put settings memory facts 9 writer (codes "none") (some no_update))
    × IsOneWrite
        (IsDelete settings memory facts (codes "none"))
        (codes "DELETE_FAILED")
        facts
        (handle_facts_delete settings memory facts writer (codes "none"))
IsOneWrite-handlers_example =
    IsOneWrite-handlers settings memory facts 9 true writer (codes "none") (some new_fact)
      (some no_update)

-- A PUT of an unknown key
not_found :
    (handle_facts_put settings memory facts 9 writer (codes "none") (some no_update)).reply
    ≡ refused 404 (codes "NOT_FOUND")
unfolding program
not_found = refl

abbrev keys : List Text
keys = codes "k" ∷ codes "none" ∷ []

abbrev bulk : BulkAnswer
bulk = record {
  status = 200;
  results =
      record { key = codes "k"; failure = none }
      ∷ record { key = codes "none"; failure = some (codes "NOT_FOUND") }
      ∷ [];
  total = 2;
  succeeded = 1;
  failed = 1;
}

bulk-handle_facts_patch_example : IsPatched (some (keys, no_update)) bulk
unfolding program
bulk-handle_facts_patch_example =
    bulk-handle_facts_patch settings memory facts 9 writer (some (keys, no_update)) bulk refl
