-- ===== src/Indexer/Manager/Laws.antt =====
-- The registry does for every vault what is promised.
use ragamuffin.Base.{
  ◌≡◌, refl, Option, none, some, List, [], ◌∷◌, arith, Bool-cases, Option-cases, inl, inr,
  if◌then◌else◌,
}
use ragamuffin.Text.{Text, same_text}
use ragamuffin.Text.Order.{same_text_iff}
use ragamuffin.Text.Maps.{lookup, lookup-insert, lookup-delete}
use ragamuffin.Indexer.Manager.{
  Manager, new_manager, add, get, get_client, get_fact_client, get_llm, get_embedder,
  add_fact_client, set_llm, set_embedder, remove, Call, call_add, call_add_fact_client,
  call_set_llm, call_set_embedder, call_remove, after, after_all,
}
use ragamuffin.Indexer.Manager.Vault.{Vault, no_vault, vault_of_call, first_of, own_call, own_calls}

module _ {ℓ} (I F L E : Type ℓ) where
  unfoldable pub indexer_of : Option (I × F) → Option I
  indexer_of none = none
  indexer_of (some (i, q)) = some i

  unfoldable pub client_of : Option (I × F) → Option F
  client_of none = none
  client_of (some (i, q)) = some q

  -- The answers of a registry about a vault are those of the vault.
  pub record Answers (m : Manager I F L E) (name : Text) (v : Vault I F L E) : Type ℓ where
    pub indexer : get I F L E m name ≡ indexer_of v.registered
    pub client : get_client I F L E m name ≡ client_of v.registered
    pub fact_client : get_fact_client I F L E m name ≡ v.fact_client
    pub llm : get_llm I F L E m name ≡ v.llm
    pub embedder : get_embedder I F L E m name ≡ v.embedder

  Answers-add :
      (m : Manager I F L E) (name nm : Text) (v : Vault I F L E) (idx : I) (qc : F)
      → Answers m name v
      → Answers
          (add I F L E m nm idx qc).0
          name
          (if same_text nm name then own_call I F L E v (call_add nm idx qc) else v)
  unfolding get get_client get_fact_client get_llm get_embedder add own_call first_of indexer_of
      client_of
  Answers-add m name nm v idx qc h = elim (Bool-cases (same_text nm name)) [
    | inl e ↦
        let same = (same_text_iff nm name).0 e in
        elim (Option-cases v.registered) [
          | inl f ↦
              let free : lookup nm m.indexers ≡ none = ground (arith, same, f, h.indexer) in
              record {
                indexer = ground (arith, e, f, free, lookup-insert nm name idx m.indexers);
                client = ground (arith, e, f, free, lookup-insert nm name qc m.clients);
                fact_client = ground (arith, e, f, free, h.fact_client);
                llm = ground (arith, e, f, free, h.llm);
                embedder = ground (arith, e, f, free, h.embedder);
              }
          | inr ((i, q), f) ↦
              let taken : lookup nm m.indexers ≡ some i = ground (arith, same, f, h.indexer) in
              record {
                indexer = ground (arith, e, f, taken, h.indexer);
                client = ground (arith, e, f, taken, h.client);
                fact_client = ground (arith, e, f, taken, h.fact_client);
                llm = ground (arith, e, f, taken, h.llm);
                embedder = ground (arith, e, f, taken, h.embedder);
              }
        ]
    | inr e ↦ elim (Option-cases (lookup nm m.indexers)) [
      | inl f ↦ record {
        indexer = ground (arith, e, f, h.indexer, lookup-insert nm name idx m.indexers);
        client = ground (arith, e, f, h.client, lookup-insert nm name qc m.clients);
        fact_client = ground (arith, e, f, h.fact_client);
        llm = ground (arith, e, f, h.llm);
        embedder = ground (arith, e, f, h.embedder);
      }
      | inr (i, f) ↦ rw (f, add) (rw (e) h)
    ]
  ]

  Answers-set_llm :
      (m : Manager I F L E) (name nm : Text) (v : Vault I F L E) (lm : Option L)
      → Answers m name v
      → Answers
          (set_llm I F L E m nm lm)
          name
          (if same_text nm name then own_call I F L E v (call_set_llm nm lm) else v)
  unfolding get get_client get_fact_client get_llm get_embedder set_llm own_call
  Answers-set_llm m name nm v none h = record {
    indexer = ground (arith, h.indexer);
    client = ground (arith, h.client);
    fact_client = ground (arith, h.fact_client);
    llm = ground (arith, h.llm, lookup-delete nm name m.llm_clients);
    embedder = ground (arith, h.embedder);
  }
  Answers-set_llm m name nm v (some l) h = record {
    indexer = ground (arith, h.indexer);
    client = ground (arith, h.client);
    fact_client = ground (arith, h.fact_client);
    llm = ground (arith, h.llm, lookup-insert nm name l m.llm_clients);
    embedder = ground (arith, h.embedder);
  }

  Answers-set_embedder :
      (m : Manager I F L E) (name nm : Text) (v : Vault I F L E) (ec : Option E)
      → Answers m name v
      → Answers
          (set_embedder I F L E m nm ec)
          name
          (if same_text nm name then own_call I F L E v (call_set_embedder nm ec) else v)
  unfolding get get_client get_fact_client get_llm get_embedder set_embedder own_call
  Answers-set_embedder m name nm v none h = record {
    indexer = ground (arith, h.indexer);
    client = ground (arith, h.client);
    fact_client = ground (arith, h.fact_client);
    llm = ground (arith, h.llm);
    embedder = ground (arith, h.embedder, lookup-delete nm name m.embed_clients);
  }
  Answers-set_embedder m name nm v (some ec) h = record {
    indexer = ground (arith, h.indexer);
    client = ground (arith, h.client);
    fact_client = ground (arith, h.fact_client);
    llm = ground (arith, h.llm);
    embedder = ground (arith, h.embedder, lookup-insert nm name ec m.embed_clients);
  }

  Answers-add_fact_client :
      (m : Manager I F L E) (name nm : Text) (v : Vault I F L E) (fc : F)
      → Answers m name v
      → Answers
          (add_fact_client I F L E m nm fc)
          name
          (if same_text nm name then own_call I F L E v (call_add_fact_client nm fc) else v)
  unfolding get get_client get_fact_client get_llm get_embedder add_fact_client own_call
  Answers-add_fact_client m name nm v fc h = record {
    indexer = ground (arith, h.indexer);
    client = ground (arith, h.client);
    fact_client = ground (arith, h.fact_client, lookup-insert nm name fc m.fact_clients);
    llm = ground (arith, h.llm);
    embedder = ground (arith, h.embedder);
  }

  Answers-remove :
      (m : Manager I F L E) (name nm : Text) (v : Vault I F L E)
      → Answers m name v
      → Answers
          (remove I F L E m nm)
          name
          (if same_text nm name then own_call I F L E v (call_remove nm) else v)
  unfolding get get_client get_fact_client get_llm get_embedder remove own_call indexer_of client_of
  Answers-remove m name nm v h = record {
    indexer = ground (arith, h.indexer, lookup-delete nm name m.indexers);
    client = ground (arith, h.client, lookup-delete nm name m.clients);
    fact_client = ground (arith, h.fact_client, lookup-delete nm name m.fact_clients);
    llm = ground (arith, h.llm, lookup-delete nm name m.llm_clients);
    embedder = ground (arith, h.embedder, lookup-delete nm name m.embed_clients);
  }

  -- A call of any kind, of this vault or of another
  Answers-after :
      (m : Manager I F L E) (name : Text) (v : Vault I F L E) (c : Call I F L E)
      → Answers m name v
      → Answers
          (after I F L E m c)
          name
          (if same_text (vault_of_call I F L E c) name then own_call I F L E v c else v)
  unfolding after vault_of_call
  Answers-after m name v (call_add nm idx qc) h = Answers-add m name nm v idx qc h
  Answers-after m name v (call_set_llm nm lm) h = Answers-set_llm m name nm v lm h
  Answers-after m name v (call_set_embedder nm ec) h = Answers-set_embedder m name nm v ec h
  Answers-after m name v (call_add_fact_client nm fc) h = Answers-add_fact_client m name nm v fc h
  Answers-after m name v (call_remove nm) h = Answers-remove m name nm v h

  Answers-after_all :
      (m : Manager I F L E) (name : Text) (v : Vault I F L E) (cs : List (Call I F L E))
      → Answers m name v
      → Answers (after_all I F L E m cs) name (own_calls I F L E name v cs)
  unfolding after_all own_calls
  Answers-after_all m name v [] h = h
  Answers-after_all m name v (c ∷ cs) h =
      Answers-after_all (after I F L E m c) name
        (if same_text (vault_of_call I F L E c) name then own_call I F L E v c else v) cs
        (Answers-after m name v c h)

  -- After any calls of a new registry, what it answers about a vault is what the calls of that vault
  -- alone give: the indexer and the client of the first registration behind the last removal, and the
  -- other three clients as they were last set behind it.
  pub Answers-new_manager :
      (name : Text) (cs : List (Call I F L E))
      → Answers
          (after_all I F L E (new_manager I F L E) cs)
          name
          (own_calls I F L E name (no_vault I F L E) cs)
  unfolding new_manager no_vault get get_client get_fact_client get_llm get_embedder lookup
      indexer_of client_of
  Answers-new_manager name cs =
      Answers-after_all (new_manager I F L E) name (no_vault I F L E) cs
        (record { indexer = refl; client = refl; fact_client = refl; llm = refl; embedder = refl })
