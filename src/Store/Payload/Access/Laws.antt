-- ===== src/Store/Payload/Access/Laws.antt =====
-- Reading a field of a map after an assignment to a key.
use ragamuffin.Base.{◌≡◌, refl, ◌∙◌, false, none, some, arith, if◌then◌else◌}
use ragamuffin.Text.{Text, same_text}
use ragamuffin.Text.Order.{same_text_iff}
use ragamuffin.Store.Payload.{Value, Fields, end, field, lookup_field}
use ragamuffin.Store.Payload.Access.{set_field, delete_field, set_fields}

pub lookup_field-set_field :
    (k j : Text) (v : Value) (p : Fields)
    → lookup_field (set_field k v p) j ≡ (if same_text k j then some v else lookup_field p j)
unfolding lookup_field set_field
lookup_field-set_field k j v end = refl
lookup_field-set_field k j v (field i w p) =
    ground (
      arith,
      lookup_field-set_field k j v p,
      same_text_iff k j,
      same_text_iff i k,
      same_text_iff i j,
    )

pub lookup_field-delete_field :
    (k j : Text) (p : Fields)
    → lookup_field (delete_field k p) j ≡ (if same_text k j then none else lookup_field p j)
unfolding lookup_field delete_field
lookup_field-delete_field k j end = ground arith
lookup_field-delete_field k j (field i w p) = ground (
  arith,
  lookup_field-delete_field k j p,
  same_text_iff k j,
  same_text_iff i k,
  same_text_iff i j,
)

-- A key that is not among the updates.
pub lookup_field-set_fields_other :
    (u p : Fields) (j : Text)
    → lookup_field u j ≡ none
    → lookup_field (set_fields u p) j ≡ lookup_field p j
unfolding set_fields lookup_field
lookup_field-set_fields_other end p j h = refl
lookup_field-set_fields_other (field k v fs) p j h =
    let other : same_text k j ≡ false = ground (arith, h) in
    let rest : lookup_field fs j ≡ none = ground (arith, h, other) in
    lookup_field-set_fields_other fs (set_field k v p) j rest
    ∙ lookup_field-set_field k j v p
    ∙ rw other refl
