-- ===== src/Server/Contract.antt =====
-- What the handlers rely on of a store: a point that is written replaces the one with its identifier,
-- and an update of fields sets them in the point that has the identifier. `Memory` is a store that
-- keeps to it.
pub mod Memory
use ragamuffin.Base.{◌≡◌, refl, inl, inr, ◌⊎◌, Bool, Option, none, some, if◌then◌else◌}
use ragamuffin.Text.{Text, same_text}
use ragamuffin.Store.Payload.{Fields}
use ragamuffin.Store.Payload.Access.{set_fields}
use ragamuffin.Server.{Point, FactStore, Write, write_failed, write_done}

abbrev pub updated : Fields → Option Fields → Option Fields
updated f none = none
updated f (some p) = some (set_fields f p)

-- `find` is the payload under an identifier, as a reader of the store sees it.
pub record IsFactStore {ℓ} {S : Type ℓ} (store : FactStore S) (find : S → Text → Option Fields)
    : Type ℓ where
  pub find_upsert :
      (s t : S) (p : Point) (id : Text)
      → store.upsert s p ≡ write_done t
      → find t id ≡ (if same_text p.id id then some p.payload else find s id)
  pub find_set_payload :
      (s t : S) (i : Text) (f : Fields) (id : Text)
      → store.set_payload s i f ≡ write_done t
      → find t id ≡ (if same_text i id then updated f (find s id) else find s id)

pub Write-cases {ℓ} :
    {S : Type ℓ} (w : Write S) → ((t : S) × (w ≡ write_failed t)) ⊎ ((t : S) × (w ≡ write_done t))
Write-cases (write_failed t) = inl (t, refl)
Write-cases (write_done t) = inr (t, refl)
