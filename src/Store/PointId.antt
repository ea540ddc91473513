-- ===== src/Store/PointId.antt =====
-- encodePointID and decodePointID of internal/embeddedstore/store.go.
pub mod Laws
use ragamuffin.Base.{
  ℕ, zero, suc, ◌+◌, ◌-◌, ◌*◌, ◌/◌, ◌%◌, ◌^◌, Option, none, some, [], ◌∷◌, ◌&&◌, ltb, leb,
  if◌then◌else◌,
}
use ragamuffin.Text.{Text, same_text, codes}

-- pb.PointId; `unset` is a nil pointer or an id with no option set.
pub data PointId : Type 0 where
  uuid : Text → PointId
  num : ℕ → PointId
  unset : PointId

-- The loop that writes a number in decimal, on fuel: 20 digits are enough for a uint64.
unfoldable pub digits : ℕ → ℕ → Text → Text
digits zero n out = out
digits (suc f) n out =
    let d = b'0' + n % 10 in
    let rest = digits f (n / 10) (d ∷ out) in if ltb n 10 then d ∷ out else rest

-- fmt.Sprintf("%d", n)
unfoldable pub decimal : ℕ → Text
unfolding digits
decimal n = digits 20 n []

-- fmt.Sscanf(s, "%d", &n): it reads digits up to the first byte that is none, at least one of them,
-- and fails above the largest uint64.
unfoldable pub scan : Text → ℕ → Option ℕ
scan [] n = some n
scan (c ∷ s) n =
    let m = n * 10 + (c - b'0') in
    let more = scan s m in
    if leb b'0' c && leb c b'9' then (if ltb m (2 ^ 64) then more else none) else some n

unfoldable pub sscanf : Text → Option ℕ
unfolding scan
sscanf [] = none
sscanf (c ∷ s) = if leb b'0' c && leb c b'9' then scan (c ∷ s) 0 else none

-- The key and the kind of a row; `none` is an error.
unfoldable pub encode_point_id : PointId → Option (Text × Text)
encode_point_id (uuid s) = some (s, codes "uuid")
encode_point_id (num n) = some (decimal n, codes "num")
encode_point_id unset = none

-- The id of a row; `none` is an error.
unfoldable pub decode_point_id : Text → Text → Option PointId
unfolding sscanf
decode_point_id key kind =
    if same_text kind (codes "uuid")
    then some (uuid key)
    else if same_text kind (codes "num")
    then elim (sscanf key) [ none ↦ none | some n ↦ some (num n) ]
    else none
