-- ===== src/Indexer/Manager/Vault.antt =====
-- What the registry of internal/indexer/manager.go promises, one vault at a time.
use ragamuffin.Base.{Option, none, some, List, [], ◌∷◌, if◌then◌else◌}
use ragamuffin.Text.{Text, same_text}
use ragamuffin.Indexer.Manager.{
  Call, call_add, call_add_fact_client, call_set_llm, call_set_embedder, call_remove,
}

module _ {ℓ} (I F L E : Type ℓ) where
  -- The pair of an indexer and its client, and the three clients that are set on their own.
  pub record Vault : Type ℓ where
    pub registered : Option (I × F)
    pub fact_client : Option F
    pub llm : Option L
    pub embedder : Option E

  unfoldable pub no_vault : Vault
  no_vault = record { registered = none; fact_client = none; llm = none; embedder = none }

  unfoldable pub vault_of_call : Call I F L E → Text
  vault_of_call (call_add name idx qc) = name
  vault_of_call (call_add_fact_client name fc) = name
  vault_of_call (call_set_llm name lm) = name
  vault_of_call (call_set_embedder name ec) = name
  vault_of_call (call_remove name) = name

  unfoldable pub first_of : Option (I × F) → I × F → Option (I × F)
  first_of (some p) q = some p
  first_of none q = some q

  -- A call of the vault's own: the first registration stays until the vault is removed.
  unfoldable pub own_call : Vault → Call I F L E → Vault
  unfolding first_of
  own_call v (call_add name idx qc) = record v { registered = first_of v.registered (idx, qc) }
  own_call v (call_add_fact_client name fc) = record v { fact_client = some fc }
  own_call v (call_set_llm name lm) = record v { llm = lm }
  own_call v (call_set_embedder name ec) = record v { embedder = ec }
  own_call v (call_remove name) = record {
    registered = none;
    fact_client = none;
    llm = none;
    embedder = none;
  }

  -- What a vault has after some calls, those of other vaults passed over.
  unfoldable pub own_calls : Text → Vault → List (Call I F L E) → Vault
  unfolding vault_of_call own_call
  own_calls name v [] = v
  own_calls name v (c ∷ cs) =
      own_calls name (if same_text (vault_of_call c) name then own_call v c else v) cs
