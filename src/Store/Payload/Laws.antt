-- ===== src/Store/Payload/Laws.antt =====
-- What a payload keeps when it is stored and read back.
use ragamuffin.Base.{◌≡◌, refl, Option, none, some, [], arith}
use ragamuffin.Base.Int.{ℤ, pos}
use ragamuffin.Text.{Text}
use ragamuffin.Store.Payload.{
  Value, Fields, absent, null, integer, double, string, boolean, list, struct, end, field, Members,
  flatten_value, flatten_fields, unflatten_value, unflatten_members, encode_payload, decode_payload,
  lookup_field, get_string_value, get_integer_value, string_payload, or_zero,
}

-- A value as it comes back from the store.
unfoldable pub stored : Value → Value
unfolding unflatten_value flatten_value
stored v = unflatten_value (flatten_value v)

unfoldable pub stored_field : Option Value → Option Value
stored_field none = none
stored_field (some v) = some (stored v)

lookup-stored :
    (fs : Fields) (key : Text)
    → lookup_field (unflatten_members (flatten_fields fs)) key ≡ stored_field (lookup_field fs key)
unfolding lookup_field flatten_fields unflatten_members stored_field stored
lookup-stored end key = refl
lookup-stored (field k v fs) key = ground (arith, lookup-stored fs key)

decode-encode_payload :
    (p : Fields) (m : Members) → encode_payload p ≡ some m → m ≡ flatten_fields p
unfolding encode_payload flatten_fields
decode-encode_payload end m h = ground arith
decode-encode_payload (field k v fs) m h = ground arith

-- Every field that comes back is the stored form of the field that went in.
pub lookup-decode_payload :
    (p : Fields) (m : Members) (key : Text)
    → encode_payload p ≡ some m
    → lookup_field (decode_payload m) key ≡ stored_field (lookup_field p key)
unfolding decode_payload
lookup-decode_payload p m key h = rw (decode-encode_payload p m h) (lookup-stored p key)

string_stored :
    (o : Option Value)
    → or_zero [] get_string_value (stored_field o) ≡ or_zero [] get_string_value o
unfolding stored_field stored or_zero get_string_value flatten_value unflatten_value
string_stored none = refl
string_stored (some absent) = refl
string_stored (some null) = refl
string_stored (some (integer n)) = refl
string_stored (some (double d)) = refl
string_stored (some (string s)) = refl
string_stored (some (boolean b)) = refl
string_stored (some (list vs)) = refl
string_stored (some (struct fs)) = refl

-- A string field is read back as it was written, and what was no string still reads as the empty
-- string, for every payload that can be stored.
pub string_payload-decode_payload :
    (p : Fields) (m : Members) (key : Text)
    → encode_payload p ≡ some m
    → string_payload (decode_payload m) key ≡ string_payload p key
unfolding string_payload
string_payload-decode_payload p m key h =
    rw (lookup-decode_payload p m key h) (string_stored (lookup_field p key))

-- An integer field of a payload that is stored comes back as another kind: read as an integer it is
-- 0, whatever was stored.
pub integer_lost :
    (p : Fields) (m : Members) (key : Text) (n : ℤ)
    → encode_payload p ≡ some m
    → lookup_field p key ≡ some (integer n)
    → (v : Value) × (lookup_field (decode_payload m) key ≡ some v) × (get_integer_value v ≡ pos 0)
unfolding stored_field stored get_integer_value flatten_value unflatten_value
integer_lost p m key n h at = (stored (integer n), rw (lookup-decode_payload p m key h, at), refl)
