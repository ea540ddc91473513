-- ===== src/Server/Review/Reasons.antt =====
-- pointToReviewEntry of internal/server/review.go, and the counters by reason of handleReviewStats.
-- The sentences of the reasons keep what they are made from.
pub mod Laws
use ragamuffin.Base.{
  ℕ, zero, suc, ◌+◌, ◌-◌, ◌*◌, Bool, true, false, not, ◌&&◌, ◌||◌, Option, none, some, List, [],
  ◌∷◌, ◌++◌, ltb, if◌then◌else◌,
}
use ragamuffin.Base.Int.{ℤ, pos, negsuc}
use ragamuffin.Text.{Text, codes, same_text}
use ragamuffin.Chunker.Links.{is_empty}
use ragamuffin.Store.Payload.{
  Fields, string_payload, get_payload_bool_value, get_payload_float_value,
}
use ragamuffin.Store.Payload.Numbers.{less_double}
use ragamuffin.Store.Payload.Access.{get_payload_float, get_payload_int, get_payload_string_list}
use ragamuffin.Server.{Settings, nanoseconds_per_second}
use ragamuffin.Server.Recall.{holds_at}

-- reviewReason
pub data Reason : Type 0 where
  stale : Text → ℤ → Reason
  contradiction : List Text → Reason
  low_confidence : ℕ → ℕ → Reason
  supersession : Text → Reason
  unread : Text → ℤ → Reason

-- The reason's type
unfoldable pub reason_type : Reason → Text
reason_type (stale expired ttl) = codes "stale"
reason_type (contradiction keys) = codes "contradiction"
reason_type (low_confidence confidence threshold) = codes "low_confidence"
reason_type (supersession key) = codes "supersession"
reason_type (unread since count) = codes "unread"

abbrev pub thirty_days : ℕ
thirty_days = 30 * (24 * (3600 * nanoseconds_per_second))

-- The text is a time, and it has passed by more than `age`.
unfoldable pub is_older : Settings → ℕ → ℕ → Text → Bool
is_older cfg now age s = not (is_empty s) && holds_at (cfg.parse_time s) (λ t. ltb (t + age) now)

unfoldable pub is_stale : Settings → ℕ → Fields → Bool
is_stale cfg now p = is_older cfg now 0 (string_payload p (codes "expires_at"))

unfoldable pub is_contradicted : Fields → Bool
is_contradicted p = elim (get_payload_string_list p (codes "contradicts")) [
  | [] ↦ false
  | k ∷ ks ↦ not (get_payload_bool_value p (codes "conflict_resolved"))
]

unfoldable pub is_low : ℕ → Option ℕ → Bool
is_low threshold none = false
is_low threshold (some c) = less_double c threshold

unfoldable pub is_zero : ℤ → Bool
is_zero (pos zero) = true
is_zero (pos (suc n)) = false
is_zero (negsuc n) = false

-- Never read and created 30 days ago, or last read then.
unfoldable pub unread_since : Settings → ℕ → Fields → Option Text
unread_since cfg now p =
    let created = string_payload p (codes "created_at") in
    let last = string_payload p (codes "last_accessed_at") in
    if is_zero (get_payload_int p (codes "access_count")) && not (is_empty created)
    then (if is_older cfg now thirty_days created then some created else none)
    else if is_older cfg now thirty_days last
    then some last
    else none

unfoldable pub when : Bool → Reason → List Reason
when b r = if b then r ∷ [] else []

unfoldable pub unread_reason : Fields → Option Text → List Reason
unread_reason p none = []
unread_reason p (some since) = unread since (get_payload_int p (codes "access_count")) ∷ []

unfoldable pub low_reason : ℕ → Option ℕ → List Reason
low_reason threshold none = []
low_reason threshold (some c) =
    if less_double c threshold then low_confidence c threshold ∷ [] else []

unfoldable pub review_reasons : Settings → ℕ → ℕ → Fields → List Reason
review_reasons cfg threshold now p =
    when (is_stale cfg now p)
      (stale (string_payload p (codes "expires_at")) (get_payload_int p (codes "ttl_days")))
    ++ when (is_contradicted p) (contradiction (get_payload_string_list p (codes "contradicts")))
    ++ low_reason threshold (get_payload_float p (codes "confidence"))
    ++ when (not (is_empty (string_payload p (codes "supersedes"))))
        (supersession (string_payload p (codes "supersedes")))
    ++ unread_reason p (unread_since cfg now p)

unfoldable pub of_type : Text → List Reason → List Reason
of_type t [] = []
of_type t (r ∷ rs) =
    let rest = of_type t rs in if same_text (reason_type r) t then r ∷ rest else rest

-- The filter of the request: `all` and the empty text keep every reason.
unfoldable pub filter_reasons : Text → List Reason → List Reason
filter_reasons t rs = if is_empty t || same_text t (codes "all") then rs else of_type t rs

pub record ReviewEntry : Type 0 where
  pub key : Text
  pub value : Text
  pub reasons : List Reason

-- pointToReviewEntry; `none` is nil. The fields that are copied as they are read are left out.
unfoldable pub point_to_review_entry : Settings → ℕ → ℕ → Text → Fields → Option ReviewEntry
point_to_review_entry cfg threshold now reason_filter p =
    let key = string_payload p (codes "fact_key") in
    let value = string_payload p (codes "fact_value") in
    if is_empty key || is_empty value
    then none
    else if same_text (string_payload p (codes "status")) (codes "needs_review")
    then some (record {
      key = key;
      value = value;
      reasons = filter_reasons reason_filter (review_reasons cfg threshold now p);
    })
    else none

-- The counters of the statistics by reason.
pub record ByReason : Type 0 where
  pub stale_count : ℕ
  pub contradiction_count : ℕ
  pub supersession_count : ℕ
  pub low_confidence_count : ℕ

unfoldable pub add_if : Bool → ℕ → ℕ
add_if b n = if b then n + 1 else n

unfoldable pub count_reasons : Settings → ℕ → ℕ → Fields → ByReason → ByReason
count_reasons cfg threshold now p c = record {
  stale_count = add_if (is_stale cfg now p) c.stale_count;
  contradiction_count = add_if (is_contradicted p) c.contradiction_count;
  supersession_count =
      add_if (not (is_empty (string_payload p (codes "supersedes")))) c.supersession_count;
  low_confidence_count =
      add_if (less_double (get_payload_float_value p (codes "confidence")) threshold)
        c.low_confidence_count;
}

abbrev pub no_reasons : ByReason
no_reasons = record {
  stale_count = 0;
  contradiction_count = 0;
  supersession_count = 0;
  low_confidence_count = 0;
}

-- The loop over the points.
unfoldable pub by_reason : Settings → ℕ → ℕ → List Fields → ByReason
by_reason cfg threshold now [] = no_reasons
by_reason cfg threshold now (p ∷ ps) =
    count_reasons cfg threshold now p (by_reason cfg threshold now ps)
