-- ===== src/Auth/Jwt/Laws.antt =====
-- Who is let in by a token, and how long its key is good for.
use ragamuffin.Base.{
  ℕ, ◌-◌, ◌<◌, ◌≡◌, ◌≢◌, refl, sym, ap, ◌∙◌, false, ◌||◌, Option, none, some, List, [], ◌∷◌, ◌++◌,
  arith, Bool-cases, Option-cases, inl, inr,
}
use ragamuffin.Text.{Text, codes, same_text}
use ragamuffin.Text.Cut.{split}
use ragamuffin.Text.Maps.{lookup}
use ragamuffin.Chunker.Links.{is_empty}
use ragamuffin.Auth.{Claims}
use ragamuffin.Auth.ApiKey.{trim_prefix}
use ragamuffin.Auth.Laws.{append-trim_prefix}
use ragamuffin.Auth.Jwt.{
  RawKey, PublicKey, JwtAuthenticator, RagaAccess, Tokens, admitted, cached_keys, store_keys,
  get_jwks, read_keys, claims_of, with_key, with_keys, authenticate_jwt,
}

-- The keys of an authenticator, not older than its time to live.
abbrev pub IsCurrent : JwtAuthenticator → ℕ → List (Text × PublicKey) → Type 0
IsCurrent j now keys = (j.jwks ≡ some keys) × (now - j.fetched_at < j.cache_ttl)

IsCurrent-cached :
    (j : JwtAuthenticator) (now : ℕ) (keys : List (Text × PublicKey))
    → cached_keys j now ≡ some keys
    → IsCurrent j now keys
unfolding cached_keys
IsCurrent-cached j now keys h = elim (Option-cases j.jwks) [
  | inl e ↦ absurd (ground (arith, h, e))
  | inr (ks, e) ↦ (ground (arith, h, e), ground (arith, h, e))
]

IsCurrent-store_keys :
    (j : JwtAuthenticator) (now : ℕ) (read keys : List (Text × PublicKey))
    → 0 < j.cache_ttl
    → (store_keys j now read).1 ≡ some keys
    → IsCurrent (store_keys j now read).0 now keys
unfolding store_keys
IsCurrent-store_keys j now [] keys t h = absurd (ground (arith, h))
IsCurrent-store_keys j now (k ∷ ks) keys t h = (h, omega arith)

-- The keys that are given are those that are kept, and are current.
IsCurrent-get_jwks :
    (decode_base64 : Text → Option (List ℕ)) (j : JwtAuthenticator) (now : ℕ)
    (fetch : Option (List RawKey)) (keys : List (Text × PublicKey))
    → 0 < j.cache_ttl
    → (get_jwks decode_base64 j now fetch).1 ≡ some keys
    → IsCurrent (get_jwks decode_base64 j now fetch).0 now keys
unfolding get_jwks
IsCurrent-get_jwks decode_base64 j now fetch keys t h = elim (Option-cases (cached_keys j now)) [
  | inr (ks, e) ↦ rw (e, get_jwks) (IsCurrent-cached j now keys (ground (arith, h, e)))
  | inl e ↦ elim (Option-cases fetch) [
    | inl f ↦ absurd (ground (arith, h, e, f))
    | inr (raws, f) ↦
        rw (e, get_jwks)
          (rw (f, get_jwks)
            (IsCurrent-store_keys j now (read_keys decode_base64 raws []) keys t
              (ground (arith, h, e, f))))
  ]
]

-- What stands behind the claims of a token.
abbrev pub IsVouched : Tokens → Text → JwtAuthenticator → ℕ → Claims → Type 0
IsVouched tokens header j now c =
    (token : Text) × (kid : Text) × (keys : List (Text × PublicKey)) × (key : PublicKey)
    × (r : RagaAccess) × (header ≡ codes "Bearer " ++ token)
    × (token ≢ [])
    × (tokens.key_id token ≡ some kid)
    × IsCurrent j now keys
    × (lookup kid keys ≡ some key)
    × (tokens.verified key token ≡ some (some r))
    × (r.access ≢ [])
    × (c ≡ record { access = split r.access (codes "_"); vaults = r.vaults })

claims_of-admitted :
    (o : Option RagaAccess) (c : Claims)
    → claims_of o ≡ admitted c
    → (r : RagaAccess) × (o ≡ some r)
      × (is_empty r.access ≡ false)
      × (c ≡ record { access = split r.access (codes "_"); vaults = r.vaults })
unfolding claims_of
claims_of-admitted none c h = absurd (ground (arith, h))
claims_of-admitted (some r) c h = elim (Bool-cases (is_empty r.access)) [
  | inl e ↦ absurd (ground (arith, h, e))
  | inr e ↦ (r, refl, e, ground (arith, h, e))
]

with_key-admitted :
    (tokens : Tokens) (token : Text) (o : Option PublicKey) (c : Claims)
    → with_key tokens token o ≡ admitted c
    → (key : PublicKey) × (r : RagaAccess) × (o ≡ some key)
      × (tokens.verified key token ≡ some (some r))
      × (is_empty r.access ≡ false)
      × (c ≡ record { access = split r.access (codes "_"); vaults = r.vaults })
unfolding with_key
with_key-admitted tokens token none c h = absurd (ground (arith, h))
with_key-admitted tokens token (some key) c h = elim (Option-cases (tokens.verified key token)) [
  | inl e ↦ absurd (ground (arith, h, e))
  | inr (o, e) ↦
      let (r, f, g, same) = claims_of-admitted o c (ground (arith, h, e)) in
      (key, r, refl, e ∙ ap some f, g, same)
]

not_empty : (s : Text) → is_empty s ≡ false → s ≢ []
unfolding is_empty
not_empty [] h = absurd (ground (arith, h))
not_empty (c ∷ s) h = λ e. absurd (ground (arith, e))

vouched :
    (tokens : Tokens) (token kid : Text) (q : JwtAuthenticator × Option (List (Text × PublicKey)))
    (c : Claims)
    → (with_keys tokens token kid q).1 ≡ admitted c
    → (keys : List (Text × PublicKey)) × (q.1 ≡ some keys)
      × (with_key tokens token (lookup kid keys) ≡ admitted c)
      × ((with_keys tokens token kid q).0 ≡ q.0)
unfolding with_keys
vouched tokens token kid (j, none) c h = absurd (ground (arith, h))
vouched tokens token kid (j, some keys) c h = (keys, refl, h, refl)

-- A header whose token is admitted is `Bearer ` and a token whose key is one of the current keys, which
-- the package has verified the token with; the claims are those of the token, with an access that is
-- not empty, cut at its underscores. The time to live of the keys is not 0.
pub IsVouched-authenticate_jwt :
    (decode_base64 : Text → Option (List ℕ)) (tokens : Tokens) (j : JwtAuthenticator) (now : ℕ)
    (fetch : Option (List RawKey)) (header : Text) (c : Claims)
    → 0 < j.cache_ttl
    → (authenticate_jwt decode_base64 tokens j now fetch header).1 ≡ admitted c
    → IsVouched tokens header (authenticate_jwt decode_base64 tokens j now fetch header).0 now c
unfolding authenticate_jwt
IsVouched-authenticate_jwt decode_base64 tokens j now fetch header c t h =
    let token = trim_prefix header (codes "Bearer ") in
    elim (Bool-cases (is_empty header || same_text token header || is_empty token)) [
      | inl e ↦ absurd (ground (arith, h, e))
      | inr e ↦ elim (Option-cases (tokens.key_id token)) [
        | inl f ↦ absurd (ground (arith, h, e, f))
        | inr ([], f) ↦ absurd (ground (arith, h, e, f))
        | inr (k ∷ kid, f) ↦
            let got = get_jwks decode_base64 j now fetch in
            let same : authenticate_jwt decode_base64 tokens j now fetch header
                ≡ with_keys tokens token (k ∷ kid) got =
              rw (e, authenticate_jwt) (rw (f, authenticate_jwt) refl) in
            let (keys, given, decided, kept) =
              vouched tokens token (k ∷ kid) got c (ap (λ q. q.1) (sym same) ∙ h) in
            let (key, r, found, verified, access, claims) =
              with_key-admitted tokens token (lookup (k ∷ kid) keys) c decided in
            let state = ap (λ q. q.0) same ∙ kept in
            (
              token,
              k ∷ kid,
              keys,
              key,
              r,
              append-trim_prefix header (codes "Bearer ") (ground (arith, e)),
              not_empty token (ground (arith, e)),
              f,
              rw state (IsCurrent-get_jwks decode_base64 j now fetch keys t given),
              found,
              verified,
              not_empty r.access access,
              claims,
            )
      ]
    ]

store_keys-failed :
    (j : JwtAuthenticator) (now : ℕ) (ks : List (Text × PublicKey))
    → (store_keys j now ks).1 ≡ none
    → (store_keys j now ks).0 ≡ j
unfolding store_keys
store_keys-failed j now [] h = refl
store_keys-failed j now (k ∷ ks) h = absurd (ground (arith, h))

-- When the keys are not current and cannot be fetched, or the answer has none that can be read, nothing
-- is admitted and the cache stays as it was, so the next call asks again.
pub get_jwks-failed :
    (decode_base64 : Text → Option (List ℕ)) (j : JwtAuthenticator) (now : ℕ)
    (fetch : Option (List RawKey))
    → (get_jwks decode_base64 j now fetch).1 ≡ none
    → (cached_keys j now ≡ none) × ((get_jwks decode_base64 j now fetch).0 ≡ j)
unfolding get_jwks
get_jwks-failed decode_base64 j now fetch h = elim (Option-cases (cached_keys j now)) [
  | inr (ks, e) ↦ absurd (ground (arith, h, e))
  | inl e ↦ elim (Option-cases fetch) [
    | inl f ↦ (e, ground (arith, e, f))
    | inr (raws, f) ↦ (
      e,
      rw (e, get_jwks)
          (rw (f, get_jwks)
            (store_keys-failed j now (read_keys decode_base64 raws []) (ground (arith, h, e, f)))),
    )
  ]
]
