-- ===== src/Store/Vector/Laws.antt =====
-- A vector is read back from its bytes, bit for bit; and how long the bytes are.
use ragamuffin.Base.{
  ℕ, ◌+◌, ◌*◌, ◌/◌, ◌%◌, ◌^◌, ◌<◌, ◌≡◌, refl, some, List, [], ◌∷◌, arith, length, All,
}
use ragamuffin.Store.Vector.{encode_floats, decode_floats, decode_vector}

abbrev pub IsFloat32 : ℕ → Type 0
IsFloat32 f = f < 2 ^ 32

four_bytes :
    (f : ℕ)
    → IsFloat32 f
    → f % 256
        + 2 ^ 8 * ((f / 2 ^ 8) % 256)
        + 2 ^ 16 * ((f / 2 ^ 16) % 256)
        + 2 ^ 24 * ((f / 2 ^ 24) % 256)
      ≡ f
four_bytes f h = omega arith

decode-encode_floats : (fs : List ℕ) → All IsFloat32 fs → decode_floats (encode_floats fs) ≡ fs
unfolding decode_floats encode_floats
decode-encode_floats [] h = refl
decode-encode_floats (f ∷ fs) (h, hs) = rw (four_bytes f h, decode-encode_floats fs hs)

-- Four bytes for each number.
pub length-encode_floats : (fs : List ℕ) → length (encode_floats fs) ≡ 4 * length fs
unfolding encode_floats
length-encode_floats [] = refl
length-encode_floats (f ∷ fs) = omega (arith, length-encode_floats fs)

-- A vector of 32-bit patterns is read back from its bytes, bit for bit.
pub decode_vector-encode_floats :
    (fs : List ℕ) → All IsFloat32 fs → decode_vector (encode_floats fs) ≡ some fs
unfolding decode_vector
decode_vector-encode_floats fs h =
    ground (arith, length-encode_floats fs, decode-encode_floats fs h)
