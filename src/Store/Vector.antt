-- ===== src/Store/Vector.antt =====
-- encodeVector, decodeVector and cosineSimilarity of internal/embeddedstore/store.go. A float32 or a
-- float64 is its bit pattern; the arithmetic of the machine on them is a parameter.
pub mod Laws
use ragamuffin.Base.{
  ℕ, ◌+◌, ◌*◌, ◌/◌, ◌%◌, ◌^◌, ◌≡◌, Bool, true, false, not, ◌||◌, Option, none, some, List, [], ◌∷◌,
  ◌++◌, ◌==◌, if◌then◌else◌, length,
}

abbrev pub Blob : Type 0
Blob = List ℕ

-- pb.Vectors: a nil pointer or another kind, one vector, or named vectors.
pub data Vectors : Type 0 where
  unset : Vectors
  single : List ℕ → Vectors
  named : Vectors

-- binary.LittleEndian.PutUint32
unfoldable pub put_uint32 : ℕ → Blob
put_uint32 f = (f % 256) ∷ ((f / 2 ^ 8) % 256) ∷ ((f / 2 ^ 16) % 256) ∷ ((f / 2 ^ 24) % 256) ∷ []

unfoldable pub encode_floats : List ℕ → Blob
unfolding put_uint32
encode_floats [] = []
encode_floats (f ∷ fs) = put_uint32 f ++ encode_floats fs

-- `none` is the error for named vectors.
unfoldable pub encode_vector : Vectors → Option Blob
unfolding encode_floats
encode_vector unset = some []
encode_vector (single fs) = some (encode_floats fs)
encode_vector named = none

-- The loop over the groups of four bytes; bytes that make no group are not reached.
unfoldable pub decode_floats : Blob → List ℕ
decode_floats (a ∷ b ∷ c ∷ d ∷ r) = (a + 2 ^ 8 * b + 2 ^ 16 * c + 2 ^ 24 * d) ∷ decode_floats r
decode_floats _ = []

-- `none` is nil.
unfoldable pub decode_vector : Blob → Option (List ℕ)
decode_vector blob = if length blob % 4 == 0 then some (decode_floats blob) else none

-- The floating point operations that the store needs. `less` is `<` on float32.
pub record Floats : Type 0 where
  pub widen : ℕ → ℕ
  pub narrow : ℕ → ℕ
  pub add : ℕ → ℕ → ℕ
  pub multiply : ℕ → ℕ → ℕ
  pub divide : ℕ → ℕ → ℕ
  pub sqrt : ℕ → ℕ
  pub is_zero : ℕ → Bool
  pub less : ℕ → ℕ → Bool
  pub less_asym : (a b : ℕ) → less a b ≡ true → less b a ≡ false

-- The sums of the loop: `dot`, `na` and `nb`.
pub record Sums : Type 0 where
  pub dot : ℕ
  pub na : ℕ
  pub nb : ℕ

module _ (fl : Floats) where
  open fl use {widen, narrow, add, multiply, divide, sqrt, is_zero}

  unfoldable pub sums : Sums → List ℕ → List ℕ → Sums
  sums s (x ∷ xs) (y ∷ ys) =
      let a = widen x in
      let b = widen y in
      sums
        (record {
          dot = add s.dot (multiply a b);
          na = add s.na (multiply a a);
          nb = add s.nb (multiply b b);
        })
        xs ys
  sums s _ _ = s

  unfoldable pub cosine_similarity : List ℕ → List ℕ → ℕ
  unfolding sums
  cosine_similarity a b =
      let s = sums (record { dot = 0; na = 0; nb = 0 }) a b in
      if not (length a == length b) || length a == 0
      then 0
      else if is_zero s.na || is_zero s.nb
      then 0
      else narrow (divide s.dot (multiply (sqrt s.na) (sqrt s.nb)))
