-- ===== src/Indexer/Manager.antt =====
-- internal/indexer/manager.go: the registry of vaults, with an indexer, two clients of the store, and
-- perhaps clients of a language model and of an embedding service for each. The mutex makes a call one
-- step. The order of a Go map, in which VaultNames lists the vaults, is that of the list here.
pub mod Vault
pub mod Laws
mod Tests
use ragamuffin.Base.{ℕ, Bool, true, false, Option, none, some, List, [], ◌∷◌, length}
use ragamuffin.Text.{Text}
use ragamuffin.Text.Maps.{lookup, insert, delete}

-- I are indexers, F clients of the store, L and E clients of the two services.
module _ {ℓ} (I F L E : Type ℓ) where
  pub record Manager : Type ℓ where
    pub indexers : List (Text × I)
    pub clients : List (Text × F)
    pub fact_clients : List (Text × F)
    pub llm_clients : List (Text × L)
    pub embed_clients : List (Text × E)

  -- NewManager
  unfoldable pub new_manager : Manager
  new_manager = record {
    indexers = [];
    clients = [];
    fact_clients = [];
    llm_clients = [];
    embed_clients = [];
  }

  -- Add; false is the error of a name that is taken.
  unfoldable pub add : Manager → Text → I → F → Manager × Bool
  unfolding lookup insert
  add m name idx qc = elim (lookup name m.indexers) [
    | some i ↦ (m, false)
    | none ↦ (
      record m { indexers = insert name idx m.indexers; clients = insert name qc m.clients },
      true,
    )
  ]

  -- Get, GetClient, GetFactClient, GetLLM, GetEmbedder
  unfoldable pub get : Manager → Text → Option I
  get m name = lookup name m.indexers

  unfoldable pub get_client : Manager → Text → Option F
  get_client m name = lookup name m.clients

  unfoldable pub get_fact_client : Manager → Text → Option F
  get_fact_client m name = lookup name m.fact_clients

  unfoldable pub get_llm : Manager → Text → Option L
  get_llm m name = lookup name m.llm_clients

  unfoldable pub get_embedder : Manager → Text → Option E
  get_embedder m name = lookup name m.embed_clients

  -- AddFactClient
  unfoldable pub add_fact_client : Manager → Text → F → Manager
  add_fact_client m name fc = record m { fact_clients = insert name fc m.fact_clients }

  -- SetLLM; none is nil, which clears.
  unfoldable pub set_llm : Manager → Text → Option L → Manager
  set_llm m name none = record m { llm_clients = delete name m.llm_clients }
  set_llm m name (some lm) = record m { llm_clients = insert name lm m.llm_clients }

  -- SetEmbedder
  unfoldable pub set_embedder : Manager → Text → Option E → Manager
  set_embedder m name none = record m { embed_clients = delete name m.embed_clients }
  set_embedder m name (some ec) = record m { embed_clients = insert name ec m.embed_clients }

  -- VaultCount, VaultNames
  unfoldable pub vault_count : Manager → ℕ
  vault_count m = length m.indexers

  names_of : List (Text × I) → List Text
  names_of [] = []
  names_of ((name, i) ∷ is) = name ∷ names_of is

  unfoldable pub vault_names : Manager → List Text
  unfolding names_of
  vault_names m = names_of m.indexers

  -- Remove
  unfoldable pub remove : Manager → Text → Manager
  remove m name = record {
    indexers = delete name m.indexers;
    clients = delete name m.clients;
    fact_clients = delete name m.fact_clients;
    llm_clients = delete name m.llm_clients;
    embed_clients = delete name m.embed_clients;
  }

  -- Reindex: the indexer's answer, false for a vault that is not there.
  unfoldable pub reindex : (I → Bool) → Manager → Text → Bool
  unfolding get
  reindex ask m name = elim (get m name) [ none ↦ false | some idx ↦ ask idx ]

  -- The calls that change the registry.
  pub data Call : Type ℓ where
    call_add : Text → I → F → Call
    call_add_fact_client : Text → F → Call
    call_set_llm : Text → Option L → Call
    call_set_embedder : Text → Option E → Call
    call_remove : Text → Call

  unfoldable pub after : Manager → Call → Manager
  unfolding add add_fact_client set_llm set_embedder remove
  after m (call_add name idx qc) = (add m name idx qc).0
  after m (call_add_fact_client name fc) = add_fact_client m name fc
  after m (call_set_llm name lm) = set_llm m name lm
  after m (call_set_embedder name ec) = set_embedder m name ec
  after m (call_remove name) = remove m name

  unfoldable pub after_all : Manager → List Call → Manager
  after_all m [] = m
  after_all m (c ∷ cs) = after_all (after m c) cs
