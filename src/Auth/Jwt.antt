-- ===== src/Auth/Jwt.antt =====
-- internal/auth/jwt.go: the cache of keys, the reading of keys, and Authenticate. The checks of a token
-- are those of the package golang-jwt, and the parameter `Tokens` is what it answers; `fetch` is what
-- the address of the keys answers, none for an error of any kind; base64 is a parameter. A call holds
-- the mutex, so it is one step, and it reads the clock once. A time is in nanoseconds.
pub mod Laws
mod Tests
use ragamuffin.Base.{
  ℕ, ◌+◌, ◌-◌, ◌*◌, ◌%◌, ◌^◌, Bool, true, false, ◌&&◌, ◌||◌, Option, none, some, List, [], ◌∷◌, ltb,
  if◌then◌else◌,
}
use ragamuffin.Text.{Text, codes, same_text}
use ragamuffin.Text.Cut.{split}
use ragamuffin.Text.Maps.{lookup, insert}
use ragamuffin.Chunker.Links.{is_empty}
use ragamuffin.Auth.{Claims}
use ragamuffin.Auth.ApiKey.{trim_prefix}

-- The members of a JWK that are read; a member that is absent or no string is empty.
pub record RawKey : Type 0 where
  pub kid : Text
  pub kty : Text
  pub n : Text
  pub e : Text
  pub crv : Text
  pub x : Text
  pub y : Text

pub data Curve : Type 0 where
  p256 p384 p521 : Curve

-- cachedKey; the exponent is an int, by its value modulo 2^64.
pub data PublicKey : Type 0 where
  rsa : ℕ → ℕ → PublicKey
  ecdsa : Curve → ℕ → ℕ → PublicKey

-- big.Int.SetBytes
unfoldable pub set_bytes : ℕ → List ℕ → ℕ
set_bytes v [] = v
set_bytes v (b ∷ bs) = set_bytes (v * 256 + b) bs

unfoldable pub curve_of : Text → Option Curve
curve_of crv =
    if same_text crv (codes "P-256")
    then some p256
    else if same_text crv (codes "P-384")
    then some p384
    else if same_text crv (codes "P-521")
    then some p521
    else none

unfoldable pub both : Option (List ℕ) → Option (List ℕ) → Option (List ℕ × List ℕ)
both none b = none
both (some a) none = none
both (some a) (some b) = some (a, b)

module _ (decode_base64 : Text → Option (List ℕ)) where
  -- parseRSAJWK
  unfoldable pub parse_rsa_jwk : RawKey → Option PublicKey
  unfolding both set_bytes
  parse_rsa_jwk raw =
      if is_empty raw.n || is_empty raw.e
      then none
      else elim (both (decode_base64 raw.n) (decode_base64 raw.e)) [
        | none ↦ none
        | some (n, e) ↦ some (rsa (set_bytes 0 n) (set_bytes 0 e % 2 ^ 64))
      ]

  -- parseECJWK
  unfoldable pub parse_ec_jwk : RawKey → Option PublicKey
  unfolding both set_bytes curve_of
  parse_ec_jwk raw =
      if is_empty raw.crv || is_empty raw.x || is_empty raw.y
      then none
      else elim (both (decode_base64 raw.x) (decode_base64 raw.y)) [
        | none ↦ none
        | some (x, y) ↦ elim (curve_of raw.crv) [
          | none ↦ none
          | some curve ↦ some (ecdsa curve (set_bytes 0 x) (set_bytes 0 y))
        ]
      ]

  -- parseJWK
  unfoldable pub parse_jwk : RawKey → Option PublicKey
  unfolding parse_rsa_jwk parse_ec_jwk
  parse_jwk raw =
      if same_text raw.kty (codes "RSA")
      then parse_rsa_jwk raw
      else if same_text raw.kty (codes "EC")
      then parse_ec_jwk raw
      else none

  -- The loop over the keys of the answer: one without an identifier or that cannot be read is left out.
  unfoldable pub read_keys : List RawKey → List (Text × PublicKey) → List (Text × PublicKey)
  unfolding insert
  read_keys [] keys = keys
  read_keys (raw ∷ raws) keys = elim (is_empty raw.kid) [
    | true ↦ read_keys raws keys
    | false ↦ elim (parse_jwk raw) [
      | none ↦ read_keys raws keys
      | some key ↦ read_keys raws (insert raw.kid key keys)
    ]
  ]

-- JWTAuthenticator: the keys, none before they are fetched, and the time of the fetch.
pub record JwtAuthenticator : Type 0 where
  pub jwks : Option (List (Text × PublicKey))
  pub fetched_at : ℕ
  pub cache_ttl : ℕ

-- NewJWTAuthenticator
unfoldable pub new_jwt_authenticator : JwtAuthenticator
new_jwt_authenticator = record { jwks = none; fetched_at = 0; cache_ttl = 300 * 1000000000 }

-- `j.jwks != nil && time.Since(j.fetchedAt) < j.cacheTTL`
unfoldable pub cached_keys : JwtAuthenticator → ℕ → Option (List (Text × PublicKey))
cached_keys j now = elim j.jwks [
  | none ↦ none
  | some keys ↦ if ltb (now - j.fetched_at) j.cache_ttl then some keys else none
]

unfoldable pub store_keys :
    JwtAuthenticator
    → ℕ
    → List (Text × PublicKey)
    → JwtAuthenticator × Option (List (Text × PublicKey))
store_keys j now [] = (j, none)
store_keys j now (key ∷ keys) =
    (record j { jwks = some (key ∷ keys); fetched_at = now }, some (key ∷ keys))

-- GetJWKS; `none` is an error.
unfoldable pub get_jwks :
    (Text → Option (List ℕ))
    → JwtAuthenticator
    → ℕ
    → Option (List RawKey)
    → JwtAuthenticator × Option (List (Text × PublicKey))
unfolding store_keys read_keys
get_jwks decode_base64 j now fetch = elim (cached_keys j now) [
  | some keys ↦ (j, some keys)
  | none ↦ elim fetch [
    | none ↦ (j, none)
    | some raws ↦ store_keys j now (read_keys decode_base64 raws [])
  ]
]

-- ragaAccess
pub record RagaAccess : Type 0 where
  pub access : Text
  pub vaults : List Text

-- What the package answers. `key_id` parses a token without checking it: none is an error, and the
-- text is its `kid`, empty when it has none. `verified` checks a token with a key, with the issuer, the
-- audience and the algorithms that are set: none is an error, and the inner option is the claim
-- `ragamuffin`.
pub record Tokens : Type 0 where
  pub key_id : Text → Option Text
  pub verified : PublicKey → Text → Option (Option RagaAccess)

pub data JwtError : Type 0 where
  unauthenticated parse_token missing_kid jwks_failed key_not_found jwt_validation : JwtError
  missing_access : JwtError

pub data Decision : Type 0 where
  denied : JwtError → Decision
  admitted : Claims → Decision

unfoldable pub claims_of : Option RagaAccess → Decision
claims_of none = denied missing_access
claims_of (some r) =
    if is_empty r.access
    then denied missing_access
    else admitted (record { access = split r.access (codes "_"); vaults = r.vaults })

unfoldable pub with_key : Tokens → Text → Option PublicKey → Decision
unfolding claims_of
with_key tokens token none = denied key_not_found
with_key tokens token (some key) = elim (tokens.verified key token) [
  | none ↦ denied jwt_validation
  | some r ↦ claims_of r
]

unfoldable pub with_keys :
    Tokens
    → Text
    → Text
    → JwtAuthenticator × Option (List (Text × PublicKey))
    → JwtAuthenticator × Decision
unfolding with_key lookup
with_keys tokens token kid (j, none) = (j, denied jwks_failed)
with_keys tokens token kid (j, some keys) = (j, with_key tokens token (lookup kid keys))

-- Authenticate, of a header `Authorization`
unfoldable pub authenticate_jwt :
    (Text → Option (List ℕ))
    → Tokens
    → JwtAuthenticator
    → ℕ
    → Option (List RawKey)
    → Text
    → JwtAuthenticator × Decision
unfolding with_keys get_jwks
authenticate_jwt decode_base64 tokens j now fetch header =
    let token = trim_prefix header (codes "Bearer ") in
    if is_empty header || same_text token header || is_empty token
    then (j, denied unauthenticated)
    else elim (tokens.key_id token) [
      | none ↦ (j, denied parse_token)
      | some [] ↦ (j, denied missing_kid)
      | some (c ∷ kid) ↦ with_keys tokens token (c ∷ kid) (get_jwks decode_base64 j now fetch)
    ]
