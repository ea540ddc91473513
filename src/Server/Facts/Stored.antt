-- ===== src/Server/Facts/Stored.antt =====
-- What a field of a payload reads as behind the writes that the handlers share.
use ragamuffin.Base.{ℕ, ◌≡◌, Option, none, some, List, [], ◌∷◌, arith, if◌then◌else◌}
use ragamuffin.Base.Int.{ℤ}
use ragamuffin.Text.{Text, codes, same_text}
use ragamuffin.Store.Payload.{Fields, Value, string, double, lookup_field}
use ragamuffin.Store.Payload.Double.{to_double}
use ragamuffin.Store.Payload.Access.{delete_field, nv_list}
use ragamuffin.Store.Payload.Access.Laws.{lookup_field-set_field, lookup_field-delete_field}
use ragamuffin.Server.{Settings, set_ttl, compute_expires_at, expires_at_unix}
use ragamuffin.Server.Recall.{apply_reconsolidation_v, reconsolidation_chain, record_chain}
use ragamuffin.Server.Facts.{tags_if_any, set_payload_tags}
use ragamuffin.Server.Facts.Update.{set_if, set_ttl_if, replace_tags}

-- A field behind a write to it that is made if there is something to write.
abbrev pub optional {ℓ} : {A : Type ℓ} → Option A → (A → Value) → Option Value → Option Value
optional none v old = old
optional (some a) v old = some (v a)

pub lookup_field-set_if {ℓ} :
    {A : Type ℓ} (k j : Text) (v : A → Value) (o : Option A) (p : Fields)
    → lookup_field (set_if k v o p) j
      ≡ (if same_text k j then optional o v (lookup_field p j) else lookup_field p j)
unfolding set_if
lookup_field-set_if k j v none p = ground arith
lookup_field-set_if k j v (some a) p = lookup_field-set_field k j (v a) p

pub lookup_field-set_ttl :
    (cfg : Settings) (now : ℕ) (ttl : ℤ) (p : Fields) (j : Text)
    → lookup_field (set_ttl cfg now ttl p) j ≡ (
        if same_text (codes "expires_at_unix") j
        then some (double (expires_at_unix now ttl))
        else if same_text (codes "expires_at") j
        then some (string (compute_expires_at cfg now ttl))
        else if same_text (codes "ttl_days") j
        then some (double (to_double ttl))
        else lookup_field p j)
unfolding set_ttl
lookup_field-set_ttl cfg now ttl p j = simp (lookup_field-set_field)

pub lookup_field-set_ttl_if :
    (cfg : Settings) (now : ℕ) (ttl : Option ℤ) (p : Fields) (j : Text)
    → lookup_field (set_ttl_if cfg now ttl p) j ≡ (
        if same_text (codes "expires_at_unix") j
        then optional ttl (λ n. double (expires_at_unix now n)) (lookup_field p j)
        else if same_text (codes "expires_at") j
        then optional ttl (λ n. string (compute_expires_at cfg now n)) (lookup_field p j)
        else if same_text (codes "ttl_days") j
        then optional ttl (λ n. double (to_double n)) (lookup_field p j)
        else lookup_field p j)
unfolding set_ttl_if
lookup_field-set_ttl_if cfg now none p j = ground arith
lookup_field-set_ttl_if cfg now (some ttl) p j = lookup_field-set_ttl cfg now ttl p j

abbrev pub tags_value : Option (List Text) → Option Value → Option Value
tags_value none old = old
tags_value (some []) old = none
tags_value (some (t ∷ ts)) old = some (nv_list (t ∷ ts))

pub lookup_field-replace_tags :
    (tags : Option (List Text)) (p : Fields) (j : Text)
    → lookup_field (replace_tags tags p) j ≡ (
        if same_text (codes "fact_tags") j
        then tags_value tags (lookup_field p j)
        else lookup_field p j)
unfolding replace_tags tags_if_any set_payload_tags
lookup_field-replace_tags none p j = ground arith
lookup_field-replace_tags (some []) p j = lookup_field-delete_field (codes "fact_tags") j p
lookup_field-replace_tags (some (t ∷ ts)) p j = ground (
  arith,
  lookup_field-set_field (codes "fact_tags") j (nv_list (t ∷ ts))
      (delete_field (codes "fact_tags") p),
  lookup_field-delete_field (codes "fact_tags") j p,
)

abbrev pub chain_value :
    Option (Text × List Text) → (Text × List Text → Value) → Option Value → Option Value
chain_value none v old = old
chain_value (some c) v old = some (v c)

lookup_field-record_chain :
    (c : Option (Text × List Text)) (p : Fields) (j : Text)
    → lookup_field (record_chain c p) j ≡ (
        if same_text (codes "reconsolidation_chain") j
        then chain_value c (λ (now, chain). nv_list chain) (lookup_field p j)
        else if same_text (codes "reconsolidated_at") j
        then chain_value c (λ (now, chain). string now) (lookup_field p j)
        else lookup_field p j)
unfolding record_chain
lookup_field-record_chain none p j = ground arith
lookup_field-record_chain (some (now, chain)) p j = simp (lookup_field-set_field)

pub lookup_field-apply_reconsolidation_v :
    (cfg : Settings) (p : Fields) (now : ℕ) (j : Text)
    → lookup_field (apply_reconsolidation_v cfg p now) j ≡ (
        if same_text (codes "reconsolidation_chain") j
        then chain_value
            (reconsolidation_chain cfg p now)
            (λ (now, chain). nv_list chain)
            (lookup_field p j)
        else if same_text (codes "reconsolidated_at") j
        then chain_value
            (reconsolidation_chain cfg p now)
            (λ (now, chain). string now)
            (lookup_field p j)
        else lookup_field p j)
unfolding apply_reconsolidation_v
lookup_field-apply_reconsolidation_v cfg p now j =
    lookup_field-record_chain (reconsolidation_chain cfg p now) p j

pub ruleset reads = (
  lookup_field-set_field, lookup_field-delete_field, lookup_field-set_if, lookup_field-set_ttl,
  lookup_field-set_ttl_if, lookup_field-replace_tags, lookup_field-apply_reconsolidation_v,
)
