-- ===== src/Server/Review/Reasons/Laws.antt =====
-- The list of the facts under review and the statistics of it.
use ragamuffin.Base.{
  ℕ, ◌+◌, ◌≡◌, Bool, true, false, Option, none, some, List, [], ◌∷◌, length, if◌then◌else◌,
}
use ragamuffin.Text.{Text, codes}
use ragamuffin.Chunker.Links.{is_empty}
use ragamuffin.Store.Payload.{Fields, string_payload, Value, get_double_value}
use ragamuffin.Store.Payload.Numbers.{less_double, zero_double}
use ragamuffin.Store.Payload.Access.{get_payload_float, present}
use ragamuffin.Server.{Settings}
use ragamuffin.Server.Review.Reasons.{Reason, ReviewEntry, point_to_review_entry, of_type}

-- How many of the reasons are of a type.
unfoldable pub number : Text → List Reason → ℕ
number t rs = length (of_type t rs)

unfoldable pub one_if : Bool → ℕ
one_if b = if b then 1 else 0

is_given : Option Text → Bool
is_given none = false
is_given (some s) = true

-- The facts without a confidence, when 0 is below the threshold.
unfoldable pub unrated : ℕ → List Fields → ℕ
unrated threshold [] = 0
unrated threshold (p ∷ ps) = elim (get_payload_float p (codes "confidence")) [
  | none ↦ one_if (less_double zero_double threshold) + unrated threshold ps
  | some c ↦ unrated threshold ps
]

unfoldable pub in_entry : Text → Option ReviewEntry → ℕ
in_entry t none = 0
in_entry t (some e) = number t e.reasons

-- How many reasons of a type the entries of these facts list, unfiltered.
unfoldable pub listed : Settings → ℕ → ℕ → Text → List Fields → ℕ
unfolding in_entry
listed cfg threshold now t [] = 0
listed cfg threshold now t (p ∷ ps) =
    in_entry t (point_to_review_entry cfg threshold now (codes "all") p)
    + listed cfg threshold now t ps

-- The fact has a key and a value and is under review.
abbrev pub IsShown : Fields → Type 0
IsShown p =
    (is_empty (string_payload p (codes "fact_key")) ≡ false)
    × (is_empty (string_payload p (codes "fact_value")) ≡ false)
    × (string_payload p (codes "status") ≡ codes "needs_review")

value_of : Option Value → ℕ
value_of o = elim (present o) [ none ↦ zero_double | some v ↦ get_double_value v ]
