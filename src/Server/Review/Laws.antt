-- ===== src/Server/Review/Laws.antt =====
-- What a resolution of a fact under review leaves in the store.
use ragamuffin.Base.{ℕ, ◌≡◌, some, [], ◌∷◌, arith, if◌then◌else◌}
use ragamuffin.Text.{Text, codes, same_text}
use ragamuffin.Store.Payload.{Fields, string, lookup_field}
use ragamuffin.Store.Payload.Access.Laws.{lookup_field-set_field}
use ragamuffin.Server.{Settings}
use ragamuffin.Server.Facts.Stored.{reads}
use ragamuffin.Server.Review.{
  ResolveRequest, Action, to_confirm, to_supersede, to_reject, to_reclassify, resolve_fields, touch,
  confirm, supersede, reject, reclassify, set_text,
}

lookup_field-set_text :
    (k j s : Text) (p : Fields)
    → lookup_field (set_text k s p) j ≡ (
        if same_text k j
        then elim s [ [] ↦ lookup_field p j | c ∷ r ↦ some (string (c ∷ r)) ]
        else lookup_field p j)
unfolding set_text
lookup_field-set_text k j [] p = ground arith
lookup_field-set_text k j (c ∷ s) p = lookup_field-set_field k j (string (c ∷ s)) p

-- The status that a resolution ends in.
unfoldable pub final_status : Action → Text
final_status to_confirm = codes "active"
final_status to_supersede = codes "superseded"
final_status to_reject = codes "rejected"
final_status to_reclassify = codes "active"

pub status-resolve_fields :
    (cfg : Settings) (now : ℕ) (req : ResolveRequest) (a : Action) (p : Fields)
    → lookup_field (touch cfg now (resolve_fields cfg now req a p)) (codes "status")
      ≡ some (string (final_status a))
unfolding resolve_fields touch final_status confirm supersede reject reclassify same_text
status-resolve_fields cfg now req to_confirm p = simp (reads)
status-resolve_fields cfg now req to_supersede p = simp (reads, lookup_field-set_text)
status-resolve_fields cfg now req to_reject p = simp (reads)
status-resolve_fields cfg now req to_reclassify p = simp (reads, lookup_field-set_text)

-- No resolution changes the value of the fact itself.
pub value-resolve_fields :
    (cfg : Settings) (now : ℕ) (req : ResolveRequest) (a : Action) (p : Fields)
    → lookup_field (touch cfg now (resolve_fields cfg now req a p)) (codes "fact_value")
      ≡ lookup_field p (codes "fact_value")
unfolding resolve_fields touch confirm supersede reject reclassify same_text
value-resolve_fields cfg now req to_confirm p = simp (reads)
value-resolve_fields cfg now req to_supersede p = simp (reads, lookup_field-set_text)
value-resolve_fields cfg now req to_reject p = simp (reads)
value-resolve_fields cfg now req to_reclassify p = simp (reads, lookup_field-set_text)
