-- ===== src/Store/Payload/Access.antt =====
-- Payloads as the server and the pruner use them: the getters of internal/qdrantutil/payload.go, the
-- constructors of internal/qdrantutil/nv.go, and assignment to a key of the map. Nv calls
-- qdrant.NewValue, which gives a string, a Boolean and a float64 the kind of that name and an int the
-- kind integer.
pub mod Laws
pub mod Lists
use ragamuffin.Base.{ℕ, Bool, true, false, Option, none, some, List, [], ◌∷◌, ◌++◌, if◌then◌else◌}
use ragamuffin.Base.Int.{ℤ, pos}
use ragamuffin.Text.{Text, same_text}
use ragamuffin.Store.Payload.{
  Value, Fields, Values, nil, cons, absent, string, list, end, field, lookup_field, string_payload,
  get_string_value, get_double_value, get_bool_value,
}
use ragamuffin.Store.Payload.Numbers.{to_int}

-- payload[key] = v
unfoldable pub set_field : Text → Value → Fields → Fields
set_field key v end = field key v end
set_field key v (field k w fs) =
    let rest = set_field key v fs in if same_text k key then field key v fs else field k w rest

-- delete(payload, key)
unfoldable pub delete_field : Text → Fields → Fields
delete_field key end = end
delete_field key (field k w fs) =
    let rest = delete_field key fs in if same_text k key then rest else field k w rest

-- What SetPayload and a loop of assignments do: every field of the first map is set.
unfoldable pub set_fields : Fields → Fields → Fields
set_fields end p = p
set_fields (field k v fs) p = set_fields fs (set_field k v p)

-- `v, ok := payload[key]; ok && v != nil`
unfoldable pub present : Option Value → Option Value
present none = none
present (some absent) = none
present (some v) = some v

-- GetPayloadString; `none` is false.
unfoldable pub get_payload_string : Fields → Text → Option Text
unfolding present lookup_field get_string_value
get_payload_string p key = elim (present (lookup_field p key)) [
  | none ↦ none
  | some v ↦ some (get_string_value v)
]

-- GetPayloadFloat
unfoldable pub get_payload_float : Fields → Text → Option ℕ
unfolding present lookup_field get_double_value
get_payload_float p key = elim (present (lookup_field p key)) [
  | none ↦ none
  | some v ↦ some (get_double_value v)
]

-- GetPayloadBool
unfoldable pub get_payload_bool : Fields → Text → Option Bool
unfolding present lookup_field get_bool_value
get_payload_bool p key = elim (present (lookup_field p key)) [
  | none ↦ none
  | some v ↦ some (get_bool_value v)
]

-- GetPayloadInt and GetPayloadIntValue, whose results agree: 0 when the field is absent.
unfoldable pub get_payload_int : Fields → Text → ℤ
unfolding get_payload_float to_int
get_payload_int p key = elim (get_payload_float p key) [ none ↦ pos 0 | some d ↦ to_int d ]

strings_of : Values → List Text
strings_of nil = []
strings_of (cons v vs) = elim (get_string_value v) [
  | [] ↦ strings_of vs
  | c ∷ s ↦ (c ∷ s) ∷ strings_of vs
]

unfoldable pub string_list : Option Value → List Text
unfolding strings_of
string_list (some (string [])) = []
string_list (some (string (c ∷ s))) = (c ∷ s) ∷ []
string_list (some (list vs)) = strings_of vs
string_list _ = []

-- GetPayloadStringList
unfoldable pub get_payload_string_list : Fields → Text → List Text
unfolding string_list lookup_field
get_payload_string_list p key = string_list (lookup_field p key)

strings : List Text → Values
strings [] = nil
strings (t ∷ ts) = cons (string t) (strings ts)

-- NvList
unfoldable pub nv_list : List Text → Value
unfolding strings
nv_list ts = list (strings ts)
