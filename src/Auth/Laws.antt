-- ===== src/Auth/Laws.antt =====
-- Who is let in by the static keys.
use ragamuffin.Base.{
  ◌≡◌, ◌≢◌, refl, sym, ap, ◌∙◌, inl, inr, ◌⊎◌, true, false, Option, none, some, List, [], ◌∷◌, ◌++◌,
  arith, Bool-cases, Option-cases, length, drop,
}
use ragamuffin.Text.{Text, codes, same_text, has_prefix}
use ragamuffin.Text.Order.{same_text_refl, same_text_iff, eq_of_same_text}
use ragamuffin.Text.Maps.{lookup}
use ragamuffin.Chunker.Links.{is_empty}
use ragamuffin.Auth.{
  Claims, Request, Authenticator, next, middleware, is_public, token_from_query, has_vault_access,
  restricted_to, contains,
}
use ragamuffin.Auth.ApiKey.{
  Keys, ApiKeys, trim_prefix, constant_time_equal, vault_name_from_path, read_access, write_access,
  with_vault_keys, with_vault, with_token, authenticate,
}

drop-has_prefix : (s p : Text) → has_prefix s p ≡ true → s ≡ p ++ drop (length p) s
unfolding has_prefix
drop-has_prefix s [] h = refl
drop-has_prefix [] (b ∷ p) h = cc
drop-has_prefix (a ∷ s) (b ∷ p) h =
    let same : a ≡ b = ground arith in
    let rest : has_prefix s p ≡ true = ground arith in
    rw same (ap (λ t. b ∷ t) (drop-has_prefix s p rest))

-- A header that the prefix is cut off from begins with it.
pub append-trim_prefix :
    (s p : Text) → same_text (trim_prefix s p) s ≡ false → s ≡ p ++ trim_prefix s p
unfolding trim_prefix
append-trim_prefix s p h = elim (Bool-cases (has_prefix s p)) [
  | inl e ↦ rw (e, trim_prefix) (drop-has_prefix s p e)
  | inr e ↦ absurd (ground (arith, h, e, same_text_refl s))
]

key_of-constant_time_equal : (a b : Text) → constant_time_equal a b ≡ true → (a ≡ b) × (b ≢ [])
unfolding constant_time_equal
key_of-constant_time_equal a [] h = absurd (ground (arith, h))
key_of-constant_time_equal a (c ∷ b) h =
    (eq_of_same_text a (c ∷ b) h, λ e. absurd (ground (arith, e)))

-- The keys that give these claims, global ones or one vault's.
abbrev pub IsKeyOf : Text → Text → Text → List Text → Claims → Type 0
IsKeyOf token read_key write_key vaults c =
    ((token ≡ write_key) × (c ≡ record { access = write_access; vaults = vaults }))
    ⊎ ((token ≡ read_key) × (c ≡ record { access = read_access; vaults = vaults }))

abbrev pub IsVaultKey : ApiKeys → Text → Text → Claims → Type 0
IsVaultKey a token vault c =
    (keys : Keys) × (lookup vault a.vault_keys ≡ some keys)
    × IsKeyOf token keys.read_key keys.write_key (vault ∷ []) c

abbrev pub IsGranted : ApiKeys → Request → Claims → Type 0
IsGranted a r c =
    (token : Text) × (r.authorization ≡ codes "Bearer " ++ token)
    × (token ≢ [])
    × (IsKeyOf token a.read_key a.write_key [] c
        ⊎ IsVaultKey a token (vault_name_from_path r.path) c)

IsKeyOf-with_vault_keys :
    (token vault : Text) (keys : Keys) (c : Claims)
    → with_vault_keys token vault (some keys) ≡ some c
    → IsKeyOf token keys.read_key keys.write_key (vault ∷ []) c
unfolding with_vault_keys
IsKeyOf-with_vault_keys token vault keys c h =
    elim (Bool-cases (constant_time_equal token keys.write_key)) [
      | inl e ↦ inl ((key_of-constant_time_equal _ _ e).0, ground (arith, h, e))
      | inr e ↦ elim (Bool-cases (constant_time_equal token keys.read_key)) [
        | inl f ↦ inr ((key_of-constant_time_equal _ _ f).0, ground (arith, h, e, f))
        | inr f ↦ absurd (ground (arith, h, e, f))
      ]
    ]

no_claims : (token vault : Text) (c : Claims) → with_vault_keys token vault none ≢ some c
unfolding with_vault_keys
no_claims token vault c h = absurd (ground (arith, h))

IsVaultKey-with_vault :
    (a : ApiKeys) (token vault : Text) (c : Claims)
    → with_vault a token vault ≡ some c
    → IsVaultKey a token vault c
unfolding with_vault
IsVaultKey-with_vault a token [] c h = absurd (ground (arith, h))
IsVaultKey-with_vault a token (v ∷ vs) c h = elim (Option-cases (lookup (v ∷ vs) a.vault_keys)) [
  | inl e ↦ absurd (no_claims token (v ∷ vs) c (rw (← e) h))
  | inr (keys, e) ↦ (keys, e, IsKeyOf-with_vault_keys token (v ∷ vs) keys c (rw (← e) h))
]

with_token_keys :
    (a : ApiKeys) (token path : Text) (c : Claims)
    → with_token a token path ≡ some c
    → IsKeyOf token a.read_key a.write_key [] c ⊎ IsVaultKey a token (vault_name_from_path path) c
unfolding with_token
with_token_keys a token path c h = elim (Bool-cases (constant_time_equal token a.write_key)) [
  | inl e ↦ inl (inl ((key_of-constant_time_equal _ _ e).0, ground (arith, h, e)))
  | inr e ↦ elim (Bool-cases (constant_time_equal token a.read_key)) [
    | inl f ↦ inl (inr ((key_of-constant_time_equal _ _ f).0, ground (arith, h, e, f)))
    | inr f ↦
        inr (IsVaultKey-with_vault a token (vault_name_from_path path) c (ground (arith, h, e, f)))
  ]
]

not_empty : (s : Text) → is_empty s ≡ false → s ≢ []
unfolding is_empty
not_empty [] h e = absurd (ground (arith, h))
not_empty (c ∷ s) h e = absurd (ground (arith, e))

-- Whoever is let in has sent a token that is not empty, behind `Bearer `, and that token is a
-- global key, or a key of the vault that the path names; in the second case the claims are for that
-- vault alone.
pub authenticate-IsGranted :
    (a : ApiKeys) (r : Request) (c : Claims) → authenticate a r ≡ some c → IsGranted a r c
unfolding authenticate
authenticate-IsGranted a r c h =
    let token = trim_prefix r.authorization (codes "Bearer ") in
    let cut : same_text token r.authorization ≡ false = ground (arith, h) in
    let some_token : is_empty token ≡ false = ground (arith, h) in
    let found : with_token a token r.path ≡ some c = ground (arith, h) in
    (
      token,
      append-trim_prefix r.authorization (codes "Bearer ") cut,
      (λ e. not_empty token some_token e),
      with_token_keys a token r.path c found,
    )

opens_one : (name vault : Text) → restricted_to (name ∷ []) vault ≡ true → vault ≡ name
unfolding restricted_to contains
opens_one name vault h = sym (eq_of_same_text name vault (ground (arith, h)))

only_vault :
    (c : Claims) (access : List Text) (vault name : Text)
    → c ≡ record { access = access; vaults = name ∷ [] }
    → has_vault_access c vault ≡ true
    → vault ≡ name
unfolding has_vault_access
only_vault c access vault name e h =
    let one : c.vaults ≡ name ∷ [] = ap (λ (d : Claims). d.vaults) e in
    opens_one name vault (ap (λ vs. restricted_to vs vault) (sym one) ∙ h)

-- A request that is let in, and whose token is neither global key, has claims that open no vault
-- but the one that the path names.
pub has_vault_access-authenticate :
    (a : ApiKeys) (r : Request) (c : Claims) (vault : Text)
    → authenticate a r ≡ some c
    → r.authorization ≢ codes "Bearer " ++ a.read_key
    → r.authorization ≢ codes "Bearer " ++ a.write_key
    → has_vault_access c vault ≡ true
    → vault ≡ vault_name_from_path r.path
has_vault_access-authenticate a r c vault h no_read no_write opens =
    let (token, sent, some_token, key) = authenticate-IsGranted a r c h in
    elim key [
      | inl (inl (e, f)) ↦ absurd (no_write (sent ∙ ap (λ t. codes "Bearer " ++ t) e))
      | inl (inr (e, f)) ↦ absurd (no_read (sent ∙ ap (λ t. codes "Bearer " ++ t) e))
      | inr (keys, there, inl (e, f)) ↦ only_vault c write_access vault _ f opens
      | inr (keys, there, inr (e, f)) ↦ only_vault c read_access vault _ f opens
    ]

path-token_from_query : (r : Request) → (token_from_query r).path ≡ r.path
unfolding token_from_query
path-token_from_query r = ground arith

-- The paths that need no token
abbrev pub IsOpen : Text → Type 0
IsOpen path = (path ≡ codes "/health") ⊎ (path ≡ codes "/version")

is_public-IsOpen : (path : Text) → is_public path ≡ true → IsOpen path
unfolding is_public
is_public-IsOpen path h = elim (Bool-cases (same_text path (codes "/health"))) [
  | inl e ↦ inl ((same_text_iff path (codes "/health")).0 e)
  | inr e ↦ inr ((same_text_iff path (codes "/version")).0 (ground (arith, h, e)))
]

IsOpen-is_public : (path : Text) → IsOpen path → is_public path ≡ true
unfolding is_public same_text
IsOpen-is_public path (inl e) = rw e refl
IsOpen-is_public path (inr e) = rw e refl

-- A request that the middleware hands on is for `/health` or `/version` and unchanged, with no claims;
-- or the path is another one and stays as it is, and the authenticator has accepted the request that is
-- handed on, with the claims that go with it.
pub middleware_lem :
    (auth : Authenticator) (r s : Request) (claims : Option Claims)
    → middleware auth r ≡ next s claims
    → (IsOpen r.path × (s ≡ r) × (claims ≡ none))
      ⊎ (¬ IsOpen r.path
          × (s.path ≡ r.path)
          × ((c : Claims) × (claims ≡ some c) × (auth s ≡ some c)))
unfolding middleware
middleware_lem auth r s claims h = elim (Bool-cases (is_public r.path)) [
  | inl e ↦ inl (is_public-IsOpen r.path e, ground (arith, h, e), ground (arith, h, e))
  | inr e ↦ elim (Option-cases (auth (token_from_query r))) [
    | inl f ↦ absurd (ground (arith, h, e, f))
    | inr (c, f) ↦
        let same : token_from_query r ≡ s = ground (arith, h, e, f) in
        let given : claims ≡ some c = ground (arith, h, e, f) in
        inr (
          λ opened. absurd (ground (arith, e, IsOpen-is_public r.path opened)),
          ap (λ (q : Request). q.path) (sym same) ∙ path-token_from_query r,
          (c, given, rw (← same) f),
        )
  ]
]
