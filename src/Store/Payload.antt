-- ===== src/Store/Payload.antt =====
-- Payloads of internal/embeddedstore/store.go: a point's payload is stored as a JSON object. The
-- getters are those of internal/qdrantutil/payload.go and of the generated Qdrant types. A float64 is
-- its bit pattern. A Go map is an association list.
pub mod Laws
pub mod Double
pub mod Numbers
pub mod Access
use ragamuffin.Base.{
  ℕ, ◌≡◌, refl, Bool, true, false, not, ◌&&◌, Option, none, some, List, [], ◌∷◌, ◌==◌,
  if◌then◌else◌, ◌/◌, ◌%◌, ◌^◌,
}
use ragamuffin.Base.Int.{ℤ, pos}
use ragamuffin.Text.{Text, same_text}
use ragamuffin.Store.Payload.Double.{to_double, is_finite}

-- pb.Value; `absent` is a nil pointer.
mutual
  pub data Value : Type 0 where
    absent null : Value
    integer : ℤ → Value
    double : ℕ → Value
    string : Text → Value
    boolean : Bool → Value
    list : Values → Value
    struct : Fields → Value

  pub data Values : Type 0 where
    nil : Values
    cons : Value → Values → Values

  pub data Fields : Type 0 where
    end : Fields
    field : Text → Value → Fields → Fields

-- What encoding/json reads and writes for an `any`.
mutual
  pub data Json : Type 0 where
    j_null : Json
    j_string : Text → Json
    j_number : ℕ → Json
    j_boolean : Bool → Json
    j_array : Elements → Json
    j_object : Members → Json

  pub data Elements : Type 0 where
    e_nil : Elements
    e_cons : Json → Elements → Elements

  pub data Members : Type 0 where
    m_end : Members
    m_member : Text → Json → Members → Members

unfoldable mutual
  unfolding to_double

  pub flatten_value : Value → Json
  flatten_value absent = j_null
  flatten_value null = j_null
  flatten_value (integer n) = j_number (to_double n)
  flatten_value (double d) = j_number d
  flatten_value (string s) = j_string s
  flatten_value (boolean b) = j_boolean b
  flatten_value (list vs) = j_array (flatten_values vs)
  flatten_value (struct fs) = j_object (flatten_fields fs)

  pub flatten_values : Values → Elements
  flatten_values nil = e_nil
  flatten_values (cons v vs) = e_cons (flatten_value v) (flatten_values vs)

  pub flatten_fields : Fields → Members
  flatten_fields end = m_end
  flatten_fields (field k v fs) = m_member k (flatten_value v) (flatten_fields fs)

unfoldable mutual
  pub unflatten_value : Json → Value
  unflatten_value j_null = absent
  unflatten_value (j_string s) = string s
  unflatten_value (j_number d) = double d
  unflatten_value (j_boolean b) = boolean b
  unflatten_value (j_array vs) = list (unflatten_elements vs)
  unflatten_value (j_object fs) = struct (unflatten_members fs)

  pub unflatten_elements : Elements → Values
  unflatten_elements e_nil = nil
  unflatten_elements (e_cons v vs) = cons (unflatten_value v) (unflatten_elements vs)

  pub unflatten_members : Members → Fields
  unflatten_members m_end = end
  unflatten_members (m_member k v fs) = field k (unflatten_value v) (unflatten_members fs)

-- json.Marshal refuses the numbers that are not finite.
unfoldable mutual
  unfolding is_finite

  pub marshals : Json → Bool
  marshals j_null = true
  marshals (j_string s) = true
  marshals (j_number d) = is_finite d
  marshals (j_boolean b) = true
  marshals (j_array vs) = marshal_elements vs
  marshals (j_object fs) = marshal_members fs

  pub marshal_elements : Elements → Bool
  marshal_elements e_nil = true
  marshal_elements (e_cons v vs) = marshals v && marshal_elements vs

  pub marshal_members : Members → Bool
  marshal_members m_end = true
  marshal_members (m_member k v fs) = marshals v && marshal_members fs

-- encodePayload: the object that is stored, or an error. The empty payload is stored as `{}`.
unfoldable pub encode_payload : Fields → Option Members
encode_payload end = some m_end
encode_payload (field k v fs) =
    let flat = flatten_fields (field k v fs) in if marshal_members flat then some flat else none

unfoldable pub decode_payload : Members → Fields
decode_payload flat = unflatten_members flat

-- payload[key]
unfoldable pub lookup_field : Fields → Text → Option Value
lookup_field end key = none
lookup_field (field k v fs) key = if same_text k key then some v else lookup_field fs key

-- The getters that protoc generates: the zero value for another kind.
unfoldable pub get_string_value : Value → Text
get_string_value (string s) = s
get_string_value _ = []

unfoldable pub get_integer_value : Value → ℤ
get_integer_value (integer n) = n
get_integer_value _ = pos 0

unfoldable pub get_double_value : Value → ℕ
get_double_value (double d) = d
get_double_value _ = 0

unfoldable pub get_bool_value : Value → Bool
get_bool_value (boolean b) = b
get_bool_value _ = false

unfoldable pub or_zero {ℓ} : {A : Type ℓ} → A → (Value → A) → Option Value → A
or_zero zero_value get none = zero_value
or_zero zero_value get (some absent) = zero_value
or_zero zero_value get (some v) = get v

-- stringPayload, GetPayloadStringValue
unfoldable pub string_payload : Fields → Text → Text
unfolding or_zero get_string_value lookup_field
string_payload p key = or_zero [] get_string_value (lookup_field p key)

-- GetPayloadFloatValue
unfoldable pub get_payload_float_value : Fields → Text → ℕ
unfolding or_zero get_double_value lookup_field
get_payload_float_value p key = or_zero 0 get_double_value (lookup_field p key)

-- GetPayloadBoolValue
unfoldable pub get_payload_bool_value : Fields → Text → Bool
unfolding or_zero get_bool_value lookup_field
get_payload_bool_value p key = or_zero false get_bool_value (lookup_field p key)
