-- ===== src/Auth.antt =====
-- internal/auth/auth.go: modes, claims, and the middleware in front of every handler.
pub mod ApiKey
pub mod Jwt
pub mod Laws
pub mod Modes
mod Tests
use ragamuffin.Base.{
  ℕ, Bool, true, false, ◌&&◌, ◌||◌, Option, none, some, List, [], ◌∷◌, ◌++◌, if◌then◌else◌,
}
use ragamuffin.Text.{Text, codes, same_text}
use ragamuffin.Text.Case.{to_lower}
use ragamuffin.Text.Maps.{lookup, delete}
use ragamuffin.Chunker.Links.{is_empty}

pub data Mode : Type 0 where
  mode_none mode_api_key mode_jwt mode_oidc : Mode

unfoldable pub mode_text : Mode → Text
mode_text mode_none = codes "none"
mode_text mode_api_key = codes "api_key"
mode_text mode_jwt = codes "jwt"
mode_text mode_oidc = codes "oidc"

-- The switch of ParseMode on the text in lower case.
unfoldable pub mode_of : Text → Option Mode
mode_of s =
    if same_text s (codes "none")
    then some mode_none
    else if same_text s (codes "api_key")
    then some mode_api_key
    else if same_text s (codes "jwt")
    then some mode_jwt
    else if same_text s (codes "oidc")
    then some mode_oidc
    else none

-- ParseMode; `none` is the error.
unfoldable pub parse_mode : Text → Option Mode
unfolding mode_of
parse_mode s = mode_of (to_lower s)

pub record Claims : Type 0 where
  pub access : List Text
  pub vaults : List Text

unfoldable pub contains : List Text → Text → Bool
contains [] s = false
contains (t ∷ ts) s = same_text t s || contains ts s

-- HasAccess
unfoldable pub has_access : Claims → Text → Bool
unfolding contains
has_access c level = contains c.access level

unfoldable pub restricted_to : List Text → Text → Bool
unfolding contains
restricted_to [] vault = true
restricted_to (v ∷ vs) vault = contains (v ∷ vs) vault

-- HasVaultAccess
unfoldable pub has_vault_access : Claims → Text → Bool
unfolding restricted_to
has_vault_access c vault = restricted_to c.vaults vault

-- What authentication reads of an *http.Request: an absent header is the empty text.
pub record Request : Type 0 where
  pub path : Text
  pub authorization : Text
  pub query : List (Text × Text)

-- The interface Authenticator; `none` is an error.
abbrev pub Authenticator : Type 0
Authenticator = Request → Option Claims

-- What the middleware does with a request: it hands it on with claims, or without, or answers 401.
pub data Outcome : Type 0 where
  next : Request → Option Claims → Outcome
  unauthorized : Outcome

-- PublicPaths
unfoldable pub is_public : Text → Bool
is_public path = same_text path (codes "/health") || same_text path (codes "/version")

-- The query parameter `token` in place of the header.
unfoldable pub token_from_query : Request → Request
unfolding lookup
token_from_query r = elim (is_empty r.authorization) [
  | false ↦ r
  | true ↦ elim (lookup (codes "token") r.query) [
    | none ↦ r
    | some [] ↦ r
    | some (c ∷ cs) ↦ record r {
      authorization = codes "Bearer " ++ (c ∷ cs);
      query = delete (codes "token") r.query;
    }
  ]
]

-- Middleware
unfoldable pub middleware : Authenticator → Request → Outcome
unfolding is_public token_from_query
middleware auth r = elim (is_public r.path) [
  | true ↦ next r none
  | false ↦ elim (auth (token_from_query r)) [
    | none ↦ unauthorized
    | some claims ↦ next (token_from_query r) (some claims)
  ]
]

-- NoneAuthenticator, on a request that is not nil
unfoldable pub allow_all : Authenticator
allow_all r = some (record { access = codes "read" ∷ codes "write" ∷ []; vaults = [] })
