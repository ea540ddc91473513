-- ===== src/Auth/Tests.antt =====
-- Runs of the authentication, and its theorems at concrete inputs.
use ragamuffin.Base.{◌≡◌, ◌⊎◌, refl, Option, some, none, [], ◌∷◌, arith, if◌then◌else◌}
use ragamuffin.Text.{Text, codes, same_text, has_prefix}
use ragamuffin.Text.Case.{to_lower, to_upper}
use ragamuffin.Text.Cut.{split_from}
use ragamuffin.Text.Maps.{lookup, insert, delete}
use ragamuffin.Chunker.Links.{is_empty}
use ragamuffin.Auth.{
  mode_text, parse_mode, mode_of, Claims, Request, next, middleware, is_public, token_from_query,
  has_vault_access, has_access, contains,
}
use ragamuffin.Auth.ApiKey.{
  ApiKeys, entry, load_read, load_write, load_vaults, new_api_keys, trim_prefix,
  constant_time_equal, trim_slashes, trim_slashes_right, vault_name_from_path, with_vault_keys,
  with_vault, with_token, authenticate, read_access,
}
use ragamuffin.Auth.Laws.{
  IsGranted, authenticate-IsGranted, has_vault_access-authenticate, middleware_lem, IsOpen,
}

program : Unit {0}
unfolding mode_text parse_mode mode_of middleware is_public token_from_query has_vault_access
    has_access contains entry load_read load_write load_vaults new_api_keys trim_prefix
    constant_time_equal trim_slashes trim_slashes_right vault_name_from_path with_vault_keys
    with_vault with_token authenticate to_lower to_upper split_from lookup insert delete same_text
    has_prefix is_empty
program = tt

abbrev getenv : Text → Text
getenv name = if same_text name (codes "RAGAMUFFIN_AUTH_READ_KEY_WIKI") then codes "r1" else []

abbrev keys : ApiKeys
keys = new_api_keys getenv (codes "r0") [] (codes "wiki" ∷ codes "ops" ∷ [])

abbrev ask : Text → Text → Request
ask path header = record { path = path; authorization = header; query = [] }

abbrev wiki_only : Claims
wiki_only = record { access = read_access; vaults = codes "wiki" ∷ [] }

abbrev read_wiki : Request
read_wiki = ask (codes "/vault/wiki/query") (codes "Bearer r1")

scoped_key : authenticate keys read_wiki ≡ some wiki_only
unfolding program
scoped_key = refl

other_vault : authenticate keys (ask (codes "/vault/ops/query") (codes "Bearer r1")) ≡ none
unfolding program
other_vault = refl

-- The unset write key lets nobody in.
unset_key : authenticate keys (ask (codes "/draft") (codes "Bearer ")) ≡ none
unfolding program
unset_key = refl

token_in_query :
    middleware (authenticate keys) (record {
      path = codes "/events";
      authorization = [];
      query = (codes "token", codes "r0") ∷ [];
    })
    ≡ next
        (ask (codes "/events") (codes "Bearer r0"))
        (some (record { access = read_access; vaults = [] }))
unfolding program
token_in_query = refl

authenticate-IsGranted_example : IsGranted keys read_wiki wiki_only
authenticate-IsGranted_example = authenticate-IsGranted keys read_wiki wiki_only scoped_key

has_vault_access-authenticate_example :
    codes "wiki" ≡ vault_name_from_path (codes "/vault/wiki/query")
unfolding program
has_vault_access-authenticate_example =
    has_vault_access-authenticate keys read_wiki wiki_only (codes "wiki") scoped_key
      (λ e. absurd (ground (arith, e))) (λ e. absurd (ground (arith, e))) refl

middleware_lem_example :
    (IsOpen (codes "/vault/wiki/query")
      × (read_wiki ≡ read_wiki)
      × (◌≡◌ {A = Option Claims} (some wiki_only) none))
    ⊎ (¬ IsOpen (codes "/vault/wiki/query")
        × (codes "/vault/wiki/query" ≡ codes "/vault/wiki/query")
        × ((c : Claims) × (some wiki_only ≡ some c) × (authenticate keys read_wiki ≡ some c)))
unfolding program
middleware_lem_example =
    middleware_lem (authenticate keys) read_wiki read_wiki (some wiki_only) refl
