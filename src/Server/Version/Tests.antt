-- ===== src/Server/Version/Tests.antt =====
-- Keys with versions.
use ragamuffin.Base.{◌≡◌, refl}
use ragamuffin.Text.{codes, has_prefix}
use ragamuffin.Text.Cut.{split_from}
use ragamuffin.Text.Words.{join}
use ragamuffin.Pruner.Supersede.{parse_versioned_key}
use ragamuffin.Server.Version.{
  parse_version_from_key, version_key_prefix, newest_version, newest_prefix, reverse_onto,
  segment_version, is_version_segment, digits_or_zero, digits_value, is_all_digits, no_other,
  next_digit, at_least_one,
}
use ragamuffin.Server.Version.Laws.{versions-parse_versioned_key}

program : Unit {0}
unfolding parse_version_from_key version_key_prefix newest_version newest_prefix reverse_onto
    segment_version is_version_segment digits_or_zero digits_value is_all_digits no_other next_digit
    at_least_one split_from has_prefix join
program = tt

-- The last version wins, and a segment with other characters is none.
last_wins : parse_version_from_key (codes "api/v2/models/v13/v3x") ≡ 13
unfolding program
last_wins = refl

prefix_before : version_key_prefix (codes "api/v2/models/v13/v3x") ≡ codes "api/v2/models"
unfolding program
prefix_before = refl

versions-parse_versioned_key_example :
    parse_versioned_key (codes "api/v2/x")
    ≡ (version_key_prefix (codes "api/v2/x"), parse_version_from_key (codes "api/v2/x"))
versions-parse_versioned_key_example = versions-parse_versioned_key (codes "api/v2/x")
