-- ===== src/Store/Payload/Access/Lists.antt =====
-- Lists of strings in a payload: what NvList writes is read back, but for its empty strings.
use ragamuffin.Base.{◌≡◌, ◌≢◌, refl, ap, Option, none, some, List, [], ◌∷◌, arith, All}
use ragamuffin.Text.{Text}
use ragamuffin.Store.Payload.{
  Value, Values, Fields, nil, cons, absent, null, integer, double, string, boolean, list, struct,
  get_string_value, lookup_field,
}
use ragamuffin.Store.Payload.Access.{
  strings_of, strings, string_list, nv_list, get_payload_string_list,
}

abbrev pub IsNotEmpty : Text → Type 0
IsNotEmpty s = s ≢ []

strings_of-strings : (ts : List Text) → All IsNotEmpty ts → strings_of (strings ts) ≡ ts
unfolding strings_of strings get_string_value
strings_of-strings [] h = refl
strings_of-strings ([] ∷ ts) (h, hs) = absurd (h refl)
strings_of-strings ((c ∷ t) ∷ ts) (h, hs) = ap (λ r. (c ∷ t) ∷ r) (strings_of-strings ts hs)

-- NvList and GetPayloadStringList
pub string_list-nv_list :
    (ts : List Text) → All IsNotEmpty ts → string_list (some (nv_list ts)) ≡ ts
unfolding string_list nv_list
string_list-nv_list ts h = strings_of-strings ts h

All-with_string :
    (s : Text) (rest : List Text)
    → All IsNotEmpty rest
    → All IsNotEmpty (elim s [ [] ↦ rest | c ∷ r ↦ (c ∷ r) ∷ rest ])
All-with_string [] rest h = h
All-with_string (c ∷ r) rest h = ((λ e. absurd (ground (arith, e))), h)

All-strings_of : (vs : Values) → All IsNotEmpty (strings_of vs)
unfolding strings_of
All-strings_of nil = tt
All-strings_of (cons v vs) =
    All-with_string (get_string_value v) (strings_of vs) (All-strings_of vs)

All-string_list : (o : Option Value) → All IsNotEmpty (string_list o)
unfolding string_list
All-string_list none = tt
All-string_list (some (string [])) = tt
All-string_list (some (string (c ∷ s))) = ((λ e. absurd (ground (arith, e))), tt)
All-string_list (some (list vs)) = All-strings_of vs
All-string_list (some absent) = tt
All-string_list (some null) = tt
All-string_list (some (integer n)) = tt
All-string_list (some (double d)) = tt
All-string_list (some (boolean b)) = tt
All-string_list (some (struct fs)) = tt

-- No empty string is read.
pub All-get_payload_string_list :
    (p : Fields) (key : Text) → All IsNotEmpty (get_payload_string_list p key)
unfolding get_payload_string_list
All-get_payload_string_list p key = All-string_list (lookup_field p key)
