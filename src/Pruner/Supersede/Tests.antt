-- ===== src/Pruner/Supersede/Tests.antt =====
-- Runs of the scan, and its theorems at concrete inputs.
use ragamuffin.Base.{ℕ, ◌<◌, ◌≡◌, ◌↔◌, refl, List, [], ◌∷◌, map}
use ragamuffin.Text.{Text, codes, same_text, has_prefix}
use ragamuffin.Text.Cut.{split_from}
use ragamuffin.Text.Words.{join}
use ragamuffin.Text.Maps.{lookup, insert}
use ragamuffin.Chunker.Links.{is_empty}
use ragamuffin.Pruner.Supersede.{
  Fact, VersionedFact, are_digits, number, version_of, last_version, prefix_and_version,
  parse_versioned_key, members, group, max_version, lower, mark_group, mark_groups,
  supersede_key_pattern,
}
use ragamuffin.Pruner.Supersede.Laws.{parse_versioned_key_lem}
use ragamuffin.Pruner.Supersede.Group.{IsIn, versions_of}
use ragamuffin.Pruner.Supersede.Marks.{IsIn-supersede_key_pattern}

program : Unit {0}
unfolding are_digits number version_of last_version prefix_and_version parse_versioned_key members
    group max_version lower mark_group mark_groups supersede_key_pattern split_from join lookup
    insert is_empty same_text has_prefix
program = tt

abbrev fact : ℕ → Text → Fact
fact n key = record { point_id = n ∷ []; key = key }

last_wins : parse_versioned_key (codes "api/v2/models/v3/config") ≡ (codes "api/v2/models", 3)
unfolding program
last_wins = refl

-- Facts about different things: the second supersedes the first, since what stands behind the version
-- is left out.
abbrev unrelated : List Fact
unrelated = fact 1 (codes "org/v1/decision") ∷ fact 2 (codes "org/v2/roadmap") ∷ []

unrelated_marked :
    map (λ (f : VersionedFact). f.key) (supersede_key_pattern unrelated)
    ≡ codes "org/v1/decision" ∷ []
unfolding program
unrelated_marked = refl

parse_versioned_key_lem_example : parse_versioned_key (codes "org/v2/roadmap") ≡ (codes "org", 2)
unfolding program
parse_versioned_key_lem_example =
    parse_versioned_key_lem (codes "org/v2/roadmap") (codes "org" ∷ []) (codes "v2") 2
      (codes "roadmap" ∷ []) refl refl (refl, tt)

abbrev decision : VersionedFact
decision = record { point_id = 1 ∷ []; version = 1; key = codes "org/v1/decision" }

IsIn-supersede_key_pattern_example : IsIn decision (supersede_key_pattern unrelated) ↔ (
    (prefix : Text) × IsIn decision (versions_of prefix unrelated)
    × ((h : VersionedFact) × IsIn h (versions_of prefix unrelated) × (1 < h.version)))
IsIn-supersede_key_pattern_example = IsIn-supersede_key_pattern unrelated decision
