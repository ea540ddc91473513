-- ===== src/Store/Filter.antt =====
-- filterMatches and the functions under it in internal/embeddedstore/store.go. Of a Qdrant filter the
-- embedded store reads `Must` alone; the other parts are kept here to show that.
pub mod Laws
use ragamuffin.Base.{ℕ, Bool, true, false, ◌&&◌, Option, none, some, List, [], ◌∷◌}
use ragamuffin.Text.{Text, same_text, codes}
use ragamuffin.Store.Payload.{Fields, string_payload}

-- pb.Match; `other` is any match but a keyword or a text, such as a Boolean or an integer.
pub data Match : Type 0 where
  keyword : Text → Match
  text : Text → Match
  other : Match

-- pb.FieldCondition; `lte` is the bound of its range that the program sets, a float64.
pub record FieldCondition : Type 0 where
  pub key : Text
  pub value : Option Match
  pub lte : Option ℕ

-- pb.Condition: on a field, or of another kind.
pub data Condition : Type 0 where
  on_field : FieldCondition → Condition
  of_other_kind : Condition

pub record Filter : Type 0 where
  pub must : List Condition
  pub must_not : List Condition
  pub should : List Condition

match_value : Option Match → Text → Bool
match_value none got = true
match_value (some (keyword k)) got = same_text got k
match_value (some (text t)) got = same_text got t
match_value (some other) got = true

unfoldable pub condition_field_matches : Fields → FieldCondition → Bool
unfolding match_value
condition_field_matches p fc = match_value fc.value (string_payload p fc.key)

unfoldable pub condition_matches : Fields → Condition → Bool
unfolding condition_field_matches
condition_matches p (on_field fc) = condition_field_matches p fc
condition_matches p of_other_kind = true

all_match : Fields → List Condition → Bool
unfolding condition_matches
all_match p [] = true
all_match p (c ∷ cs) = condition_matches p c && all_match p cs

-- A nil filter matches everything.
unfoldable pub filter_matches : Fields → Option Filter → Bool
unfolding all_match
filter_matches p none = true
filter_matches p (some f) = all_match p f.must

-- filterSourceFileValue, behind filterIsSimpleSourceFile: the file of a filter that is one keyword
-- condition on `source_file`.
source_of_match : Option Match → Option Text
source_of_match (some (keyword k)) = some k
source_of_match _ = none

source_of_conditions : List Condition → Option Text
unfolding source_of_match
source_of_conditions (on_field fc ∷ []) = elim (same_text fc.key (codes "source_file")) [
  | true ↦ source_of_match fc.value
  | false ↦ none
]
source_of_conditions _ = none

unfoldable pub simple_source_file : Option Filter → Option Text
unfolding source_of_conditions
simple_source_file none = none
simple_source_file (some f) = source_of_conditions f.must
