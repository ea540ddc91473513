-- ===== src/Server/Migration/Laws.antt =====
-- What the defaults make of a payload.
use ragamuffin.Base.{
  ◌≡◌, refl, ap, ◌∙◌, Bool, false, some, List, [], ◌∷◌, arith, All, Option-cases, inl, inr,
}
use ragamuffin.Text.{Text}
use ragamuffin.Text.Order.{same_text_refl, same_text_iff}
use ragamuffin.Store.Payload.{Fields, Value, lookup_field}
use ragamuffin.Store.Payload.Access.Laws.{lookup_field-set_field}
use ragamuffin.Server.Migration.{fill_one, fill_all, fill_defaults, lifecycle_defaults}

abbrev Defaults : Type 0
Defaults = List (Text × (Fields → Value))

-- The payload of a pair.
unfoldable pub payload_of : Fields × Bool → Fields
payload_of (p, needs_update) = p

-- A field that is there stays as it is.
kept-fill_one :
    (key : Text) (v w : Value) (j : Text) (p : Fields) (n : Bool)
    → lookup_field p j ≡ some w
    → lookup_field (payload_of (fill_one key v (p, n))) j ≡ some w
unfolding fill_one payload_of
kept-fill_one key v w j p n h = elim (Option-cases (lookup_field p key)) [
  | inl e ↦ ground (arith, e, h, lookup_field-set_field key j v p, same_text_iff key j)
  | inr (u, e) ↦ ground (arith, e, h)
]

kept-fill_all :
    (ds : Defaults) (w : Value) (j : Text) (q : Fields × Bool)
    → lookup_field (payload_of q) j ≡ some w
    → lookup_field (payload_of (fill_all ds q)) j ≡ some w
unfolding fill_all payload_of
kept-fill_all [] w j (p, n) h = h
kept-fill_all ((key, v) ∷ ds) w j (p, n) h =
    kept-fill_all ds w j (fill_one key (v p) (p, n)) (kept-fill_one key (v p) w j p n h)

present-fill_one :
    (key : Text) (v : Value) (p : Fields) (n : Bool)
    → (w : Value) × (lookup_field (payload_of (fill_one key v (p, n))) key ≡ some w)
unfolding fill_one payload_of
present-fill_one key v p n = elim (Option-cases (lookup_field p key)) [
  | inl e ↦ (v, ground (arith, e, lookup_field-set_field key key v p, same_text_refl key))
  | inr (u, e) ↦ (u, ground (arith, e))
]

-- A payload that has a field under each key.
abbrev pub HasKeys : Defaults → Fields → Type 0
HasKeys ds p = All (λ (key, v). (w : Value) × (lookup_field p key ≡ some w)) ds

HasKeys-fill_all : (ds : Defaults) (q : Fields × Bool) → HasKeys ds (payload_of (fill_all ds q))
unfolding fill_all payload_of
HasKeys-fill_all [] q = tt
HasKeys-fill_all ((key, v) ∷ ds) (p, n) =
    let (w, e) = present-fill_one key (v p) p n in
    (
      (w, kept-fill_all ds w key (fill_one key (v p) (p, n)) e),
      HasKeys-fill_all ds (fill_one key (v p) (p, n)),
    )

fill_one-present :
    (key : Text) (v w : Value) (p : Fields) (n : Bool)
    → lookup_field p key ≡ some w
    → fill_one key v (p, n) ≡ (p, n)
unfolding fill_one
fill_one-present key v w p n e = ground (arith, e)

fill_all-HasKeys :
    (ds : Defaults) (p : Fields) (n : Bool) → HasKeys ds p → fill_all ds (p, n) ≡ (p, n)
unfolding fill_all
fill_all-HasKeys [] p n h = refl
fill_all-HasKeys ((key, v) ∷ ds) p n ((w, e), h) =
    ap (fill_all ds) (fill_one-present key (v p) w p n e) ∙ fill_all-HasKeys ds p n h

same_keys :
    (now later : Text) (p : Fields)
    → HasKeys (lifecycle_defaults now) p
    → HasKeys (lifecycle_defaults later) p
unfolding lifecycle_defaults
same_keys now later p h = h

-- The defaults keep every field that is there, add every one that is missing, and a later run finds
-- nothing to add: it leaves the payload as it is and asks for no update.
pub fill_defaults-fill_defaults :
    (now later : Text) (p : Fields) (j : Text) (w : Value)
    → lookup_field p j ≡ some w
    → let filled = payload_of (fill_defaults now p) in
      (lookup_field filled j ≡ some w)
      × HasKeys (lifecycle_defaults now) filled
      × (fill_defaults later filled ≡ (filled, false))
unfolding fill_defaults payload_of
fill_defaults-fill_defaults now later p j w h =
    let filled = payload_of (fill_all (lifecycle_defaults now) (p, false)) in
    let keys = HasKeys-fill_all (lifecycle_defaults now) (p, false) in
    (
      kept-fill_all (lifecycle_defaults now) w j (p, false) h,
      keys,
      fill_all-HasKeys (lifecycle_defaults later) filled false (same_keys now later filled keys),
    )
