-- ===== src/Auth/ApiKey.antt =====
-- internal/auth/apikey.go: static keys from the Authorization header, global or for one vault.
use ragamuffin.Base.{
  Bool, false, ◌&&◌, ◌||◌, Option, none, some, List, [], ◌∷◌, ◌++◌, ◌==◌, if◌then◌else◌, length,
  drop,
}
use ragamuffin.Text.{Text, codes, same_text, has_prefix}
use ragamuffin.Text.Case.{to_upper}
use ragamuffin.Text.Cut.{split}
use ragamuffin.Text.Maps.{lookup, insert}
use ragamuffin.Chunker.Links.{is_empty}
use ragamuffin.Auth.{Claims, Authenticator}

pub record Keys : Type 0 where
  pub read_key : Text
  pub write_key : Text

-- `writePaths` is left out: nothing reads it.
pub record ApiKeys : Type 0 where
  pub read_key : Text
  pub write_key : Text
  pub vault_keys : List (Text × Keys)

unfoldable pub entry : Option Keys → Keys
entry none = record { read_key = []; write_key = [] }
entry (some k) = k

-- One vault of the loop: the environment's keys that are not empty are set.
unfoldable pub load_read : Text → Text → List (Text × Keys) → List (Text × Keys)
unfolding entry
load_read name [] m = m
load_read name (c ∷ k) m = insert name (record (entry (lookup name m)) { read_key = c ∷ k }) m

unfoldable pub load_write : Text → Text → List (Text × Keys) → List (Text × Keys)
unfolding entry
load_write name [] m = m
load_write name (c ∷ k) m = insert name (record (entry (lookup name m)) { write_key = c ∷ k }) m

-- os.Getenv is the argument `getenv`: the environment that the process runs in.
module _ (getenv : Text → Text) where
  unfoldable pub load_vaults : List Text → List (Text × Keys) → List (Text × Keys)
  unfolding load_read load_write
  load_vaults [] m = m
  load_vaults (name ∷ names) m =
      let rk = getenv (codes "RAGAMUFFIN_AUTH_READ_KEY_" ++ to_upper name) in
      let wk = getenv (codes "RAGAMUFFIN_AUTH_WRITE_KEY_" ++ to_upper name) in
      load_vaults names (load_write name wk (load_read name rk m))

  -- NewAPIKeyAuthenticator
  unfoldable pub new_api_keys : Text → Text → List Text → ApiKeys
  new_api_keys read_key write_key names = record {
    read_key = read_key;
    write_key = write_key;
    vault_keys = load_vaults names [];
  }

-- strings.TrimPrefix
unfoldable pub trim_prefix : Text → Text → Text
trim_prefix s prefix = if has_prefix s prefix then drop (length prefix) s else s

-- constantTimeEqual
unfoldable pub constant_time_equal : Text → Text → Bool
constant_time_equal a [] = false
constant_time_equal a (c ∷ b) = same_text a (c ∷ b)

-- strings.Trim(path, "/"), the slashes in front and those at the end
unfoldable pub trim_slashes : Text → Text
trim_slashes [] = []
trim_slashes (c ∷ s) = let rest = trim_slashes s in if c == b'/' then rest else c ∷ s

unfoldable pub trim_slashes_right : Text → Text
trim_slashes_right [] = []
trim_slashes_right (c ∷ s) =
    let rest = trim_slashes_right s in if c == b'/' && is_empty rest then [] else c ∷ rest

vault_of_parts : List Text → Text
vault_of_parts (first ∷ name ∷ parts) = if same_text first (codes "vault") then name else []
vault_of_parts _ = []

-- vaultNameFromPath
unfoldable pub vault_name_from_path : Text → Text
unfolding vault_of_parts
vault_name_from_path path =
    vault_of_parts (split (trim_slashes_right (trim_slashes path)) (codes "/"))

abbrev pub read_access : List Text
read_access = codes "read" ∷ []

abbrev pub write_access : List Text
write_access = codes "read" ∷ codes "write" ∷ []

-- The comparison with the keys of one vault.
unfoldable pub with_vault_keys : Text → Text → Option Keys → Option Claims
unfolding constant_time_equal
with_vault_keys token vault none = none
with_vault_keys token vault (some keys) =
    if constant_time_equal token keys.write_key
    then some (record { access = write_access; vaults = vault ∷ [] })
    else if constant_time_equal token keys.read_key
    then some (record { access = read_access; vaults = vault ∷ [] })
    else none

unfoldable pub with_vault : ApiKeys → Text → Text → Option Claims
with_vault a token [] = none
with_vault a token (c ∷ vault) = with_vault_keys token (c ∷ vault) (lookup (c ∷ vault) a.vault_keys)

-- The comparison with the keys, on a token that is not empty.
unfoldable pub with_token : ApiKeys → Text → Text → Option Claims
unfolding with_vault
with_token a token path =
    if constant_time_equal token a.write_key
    then some (record { access = write_access; vaults = [] })
    else if constant_time_equal token a.read_key
    then some (record { access = read_access; vaults = [] })
    else with_vault a token (vault_name_from_path path)

-- Authenticate
unfoldable pub authenticate : ApiKeys → Authenticator
unfolding with_token
authenticate a r =
    let token = trim_prefix r.authorization (codes "Bearer ") in
    if is_empty r.authorization
    then none
    else if same_text token r.authorization || is_empty token
    then none
    else with_token a token r.path
