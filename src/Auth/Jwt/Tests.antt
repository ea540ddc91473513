-- ===== src/Auth/Jwt/Tests.antt =====
-- A token with one key, and its theorem at that input.
use ragamuffin.Base.{ℕ, ◌≡◌, refl, Option, none, some, List, [], ◌∷◌, arith}
use ragamuffin.Text.{Text, codes, same_text, has_prefix}
use ragamuffin.Text.Cut.{split_from}
use ragamuffin.Text.Maps.{lookup, insert}
use ragamuffin.Chunker.Links.{is_empty}
use ragamuffin.Auth.{Claims}
use ragamuffin.Auth.ApiKey.{trim_prefix}
use ragamuffin.Auth.Jwt.{
  RawKey, rsa, new_jwt_authenticator, Tokens, denied, jwks_failed, cached_keys, store_keys,
  get_jwks, read_keys, parse_jwk, parse_rsa_jwk, set_bytes, both, claims_of, with_key, with_keys,
  authenticate_jwt,
}
use ragamuffin.Auth.Jwt.Laws.{IsVouched, IsVouched-authenticate_jwt}

program : Unit {0}
unfolding new_jwt_authenticator cached_keys store_keys get_jwks read_keys parse_jwk parse_rsa_jwk
    set_bytes both claims_of with_key with_keys authenticate_jwt trim_prefix has_prefix same_text
    is_empty lookup insert split_from
program = tt

-- Base64 that gives the text's runes.
abbrev as_bytes : Text → Option (List ℕ)
as_bytes s = some s

abbrev raw : RawKey
raw = record {
  kid = codes "k1";
  kty = codes "RSA";
  n = 5 ∷ 1 ∷ [];
  e = 3 ∷ [];
  crv = [];
  x = [];
  y = [];
}

-- Every token has the key `k1`, and says that it may read and write.
abbrev tokens : Tokens
tokens = record {
  key_id = λ token. some (codes "k1");
  verified = λ key token.
      some (some (record { access = codes "read_write"; vaults = codes "notes" ∷ [] }));
}

abbrev claims : Claims
claims = record { access = codes "read" ∷ codes "write" ∷ []; vaults = codes "notes" ∷ [] }

abbrev header : Text
header = codes "Bearer abc"

read_key : read_keys as_bytes (raw ∷ []) [] ≡ (codes "k1", rsa 1281 3) ∷ []
unfolding program
read_key = refl

-- Without an answer from the address of the keys
unfetched :
    (authenticate_jwt as_bytes tokens new_jwt_authenticator 7 none header).1 ≡ denied jwks_failed
unfolding program
unfetched = refl

IsVouched-authenticate_jwt_example :
    IsVouched tokens header
      (authenticate_jwt as_bytes tokens new_jwt_authenticator 7 (some (raw ∷ [])) header).0
      7
      claims
unfolding program
IsVouched-authenticate_jwt_example =
    IsVouched-authenticate_jwt as_bytes tokens new_jwt_authenticator 7 (some (raw ∷ [])) header
      claims (omega arith) refl
