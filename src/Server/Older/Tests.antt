-- ===== src/Server/Older/Tests.antt =====
-- An older version that is stored behind a newer one.
use ragamuffin.Text.{codes, same_text, has_prefix}
use ragamuffin.Text.Maps.{lookup}
use ragamuffin.Text.Words.{join}
use ragamuffin.Text.Cut.{split_from}
use ragamuffin.Chunker.Links.{is_empty}
use ragamuffin.Store.Payload.{Fields, string_payload, lookup_field, or_zero, get_string_value}
use ragamuffin.Store.Filter.{filter_matches}
use ragamuffin.Server.{Point}
use ragamuffin.Server.Fixtures.{point_of, fact_fields_of}
use ragamuffin.Server.Contract.Memory.{memory, find, scroll}
use ragamuffin.Server.Version.{
  version_key_prefix, newest_prefix, reverse_onto, is_version_segment, digits_or_zero, next_digit,
  at_least_one,
}
use ragamuffin.Server.Older.{is_candidate, candidate_prefix, active_filter}

program : Unit {0}
unfolding memory scroll filter_matches same_text string_payload lookup_field or_zero
    get_string_value is_empty version_key_prefix newest_prefix reverse_onto is_version_segment
    digits_or_zero next_digit at_least_one split_from has_prefix join find lookup is_candidate
    candidate_prefix active_filter
program = tt

-- Version 3 of a fact is there and active; version 1 is stored again, and version 3 is superseded.
abbrev newer : Fields
newer = fact_fields_of (codes "a/v3") (codes "three") (codes "active")

abbrev same : Point
same = point_of (codes "a/v1") (fact_fields_of (codes "a/v1") (codes "one") (codes "active"))
