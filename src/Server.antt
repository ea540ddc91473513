-- ===== src/Server.antt =====
-- What the handlers of facts in internal/server/facts.go and review.go share: the server's settings,
-- the store that they are written for, and what a handler leaves behind. The store is the interface
-- FactStore of internal/qdrant; each of its calls may fail. A write that fails may have changed the
-- state all the same; a read does not change it, which leaves the sizes of vectors that the embedded
-- store notes beside its rows out of the state. A request reads the clock once; a time is its
-- nanoseconds, and time.RFC3339 is a parameter.
pub mod Version
pub mod Contract
mod Fixtures
pub mod Recall
pub mod Facts
pub mod Review
pub mod Migration
pub mod Older
use ragamuffin.Base.{
  ℕ, zero, suc, ◌+◌, ◌*◌, ◌/◌, ◌≡◌, Bool, true, false, not, ◌&&◌, Option, none, some, List, [], ◌∷◌,
  ltb, if◌then◌else◌,
}
use ragamuffin.Base.Int.{ℤ, pos, negsuc}
use ragamuffin.Text.{Text, codes, same_text}
use ragamuffin.Auth.{Claims, has_access}
use ragamuffin.Store.Payload.{Fields, string, double, boolean}
use ragamuffin.Store.Payload.Double.{to_double}
use ragamuffin.Store.Payload.Numbers.{less_double, zero_double, one_double}
use ragamuffin.Store.Payload.Access.{set_field}
use ragamuffin.Store.Filter.{Filter, on_field, keyword}
use ragamuffin.Store.Vector.{Vectors, single}

-- `key_hash` is factKeyHash, the first half of SHA-256 in hexadecimal; `embed` is the embedding
-- client, which may be absent and may fail.
pub record Settings : Type 0 where
  pub key_hash : Text → Text
  pub format_time : ℕ → Text
  pub parse_time : Text → Option ℕ
  pub embed : Option (Text → Option (List ℕ))
  pub facts_vector_size : ℕ
  pub reconsolidation_enabled : Bool
  pub reconsolidation_window : ℕ

pub record Point : Type 0 where
  pub id : Text
  pub payload : Fields
  pub vectors : Vectors

-- A write that is done, or an error, with the state that it leaves.
pub data Write {ℓ} (S : Type ℓ) : Type ℓ where
  write_failed : S → Write S
  write_done : S → Write S

-- For a caller that only logs the error
unfoldable pub state_after {ℓ} : {S : Type ℓ} → Write S → S
state_after (write_failed s) = s
state_after (write_done s) = s

-- The calls of the interface FactStore that the handlers make, on a collection; `none` is an error of
-- a read.
pub record FactStore {ℓ} (S : Type ℓ) : Type ℓ where
  pub scroll_filtered : S → Option Filter → ℕ → Text → Option (List Point)
  pub upsert : S → Point → Write S
  pub set_payload : S → Text → Fields → Write S
  pub delete_filtered : S → Filter → Write S

-- What is written to the client: an error with its status and code, or the answer.
pub data Reply {ℓ} (A : Type ℓ) : Type ℓ where
  refused : ℕ → Text → Reply A
  answered : A → Reply A

-- What a handler starts beside its answer.
pub data Task : Type 0 where
  supersede_older : Text → ℕ → Task
  link_chunks : Text → Text → Task
  register_provenance : Text → Text → Task
  emit_created : Text → Text → ℕ → Task
  emit_reviewed : Text → Text → Task
  record_resolution : Text → Text → Task

pub record Outcome {ℓ} (S A : Type ℓ) : Type ℓ where
  pub state : S
  pub reply : Reply A
  pub tasks : List Task

-- writeError and return
unfoldable pub refuse {ℓ} : {S A : Type ℓ} → S → ℕ → Text → Outcome S A
refuse s status code = record { state = s; reply = refused status code; tasks = [] }

-- `claims != nil && !claims.HasAccess("write")`
unfoldable pub lacks_write : Option Claims → Bool
unfolding has_access
lacks_write none = false
lacks_write (some c) = not (has_access c (codes "write"))

-- factKeyFilter
unfoldable pub fact_key_filter : Text → Filter
fact_key_filter key = record {
  must = on_field (record { key = codes "fact_key"; value = some (keyword key); lte = none }) ∷ [];
  must_not = [];
  should = [];
}

-- ScrollFiltered for one fact by its key
unfoldable pub scroll_key {ℓ} : {S : Type ℓ} → FactStore S → S → Text → Option (List Point)
unfolding fact_key_filter
scroll_key store s key = store.scroll_filtered s (some (fact_key_filter key)) 1 []

zeros : ℕ → List ℕ
zeros zero = []
zeros (suc n) = 0 ∷ zeros n

-- zeroFactVector
unfoldable pub zero_fact_vector : Settings → Vectors
unfolding zeros
zero_fact_vector cfg = single (zeros cfg.facts_vector_size)

-- embedFactVector
unfoldable pub embed_fact_vector : Settings → Text → Vectors
unfolding zero_fact_vector
embed_fact_vector cfg [] = zero_fact_vector cfg
embed_fact_vector cfg (c ∷ value) = elim cfg.embed [
  | none ↦ zero_fact_vector cfg
  | some embed_single ↦ elim (embed_single (c ∷ value)) [
    | none ↦ zero_fact_vector cfg
    | some vector ↦ single vector
  ]
]

abbrev pub nanoseconds_per_second : ℕ
nanoseconds_per_second = 1000000000

-- now.AddDate(0, 0, days), in UTC
unfoldable pub add_days : ℕ → ℕ → ℕ
add_days now days = now + days * (86400 * nanoseconds_per_second)

-- float64(t.Unix())
unfoldable pub unix : ℕ → ℕ
unfolding to_double
unix t = to_double (pos (t / nanoseconds_per_second))

-- computeExpiresAt
unfoldable pub compute_expires_at : Settings → ℕ → ℤ → Text
unfolding add_days
compute_expires_at cfg now (pos zero) = []
compute_expires_at cfg now (pos (suc n)) = cfg.format_time (add_days now (suc n))
compute_expires_at cfg now (negsuc n) = []

-- The unix time of the same moment, or 0.
unfoldable pub expires_at_unix : ℕ → ℤ → ℕ
unfolding add_days unix
expires_at_unix now (pos zero) = 0
expires_at_unix now (pos (suc n)) = unix (add_days now (suc n))
expires_at_unix now (negsuc n) = 0

-- The three fields that a new TTL sets.
unfoldable pub set_ttl : Settings → ℕ → ℤ → Fields → Fields
unfolding compute_expires_at expires_at_unix
set_ttl cfg now ttl p = set_field (codes "expires_at_unix") (double (expires_at_unix now ttl)) (
    set_field (codes "expires_at") (string (compute_expires_at cfg now ttl))
      (set_field (codes "ttl_days") (double (to_double ttl)) p))

-- defaultConfidence
unfoldable pub default_confidence : Option ℕ → ℕ
unfolding less_double
default_confidence none = one_double
default_confidence (some c) =
    if less_double c zero_double
    then zero_double
    else if less_double one_double c
    then one_double
    else c

-- intValue
unfoldable pub int_value : Option ℤ → ℤ
int_value none = pos 0
int_value (some n) = n
