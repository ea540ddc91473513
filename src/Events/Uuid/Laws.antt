-- ===== src/Events/Uuid/Laws.antt =====
-- The ids of later events are greater.
use ragamuffin.Base.{
  ℕ, zero, suc, ◌+◌, ◌/◌, ◌%◌, ◌^◌, ◌<◌, ◌≤◌, ◌≡◌, ◌∙◌, inl, inr, ◌⊎◌, true, [], ◌∷◌, arith,
}
use ragamuffin.Text.{Text}
use ragamuffin.Store.Table.{less_text}
use ragamuffin.Events.Uuid.{Random, hex_digit, hex_byte, random_part, uuid_v7}

less_head : (a b : ℕ) (s t : Text) → a < b → less_text (a ∷ s) (b ∷ t) ≡ true
unfolding less_text
less_head a b s t h = ground (arith, h)

less_tail : (a : ℕ) (s t : Text) → less_text (a ∷ s) (a ∷ t) ≡ less_text s t
unfolding less_text
less_tail a s t = ground arith

hex_digit_less : (a b : ℕ) → a < b → b < 16 → hex_digit a < hex_digit b
unfolding hex_digit
hex_digit_less a b h k = ground (arith, h, k)

hex_byte_less :
    (a b : ℕ) (s t : Text) → a < b → b < 256 → less_text (hex_byte a s) (hex_byte b t) ≡ true
unfolding hex_byte
hex_byte_less a b s t h k =
    let cases : (a / 16 < b / 16) ⊎ ((a / 16 ≡ b / 16) × (a % 16 < b % 16)) = ground (arith, h) in
    elim cases [
      | inl lt ↦ less_head _ _ _ _ (hex_digit_less (a / 16) (b / 16) lt (omega arith))
      | inr (e, lt) ↦
          rw e (
            less_tail _ _ _ ∙ less_head _ _ _ _ (hex_digit_less (a % 16) (b % 16) lt (omega arith)))
    ]

hex_byte_same : (a : ℕ) (s t : Text) → less_text (hex_byte a s) (hex_byte a t) ≡ less_text s t
unfolding hex_byte
hex_byte_same a s t = less_tail _ _ _ ∙ less_tail _ _ _

-- One byte of the two texts, the greater of which is not smaller.
byte_order :
    (a b : ℕ) (s t : Text)
    → b < 256
    → a ≤ b
    → (a ≡ b → less_text s t ≡ true)
    → less_text (hex_byte a s) (hex_byte b t) ≡ true
byte_order a b s t bound le rest =
    let cases : (a < b) ⊎ (a ≡ b) = ground (arith, le) in
    elim cases [
      | inl lt ↦ hex_byte_less a b s t lt bound
      | inr e ↦ rw e (hex_byte_same b s t ∙ rest e)
    ]

-- Of two ids made at different milliseconds below 2^48, the later one is greater as a text,
-- whatever the random bytes are.
pub less_text-uuid_v7 :
    (ts later : ℕ) (r q : Random)
    → ts < later
    → later < 2 ^ 48
    → less_text (uuid_v7 ts r) (uuid_v7 later q) ≡ true
unfolding uuid_v7
less_text-uuid_v7 ts later r q h bound = byte_order _ _ _ _ (omega arith) (omega arith) (λ e1.
    byte_order _ _ _ _ (omega arith) (omega (arith, e1)) (λ e2.
      byte_order _ _ _ _ (omega arith) (omega (arith, e1, e2)) (λ e3.
        byte_order _ _ _ _ (omega arith) (omega (arith, e1, e2, e3)) (λ e4.
          less_tail _ _ _
          ∙ byte_order _ _ _ _ (omega arith) (omega (arith, e1, e2, e3, e4))
              (λ e5. hex_byte_less _ _ _ _ (omega (arith, e1, e2, e3, e4, e5)) (omega arith))))))

-- The rune of a text at a place, if it is that long.
unfoldable pub rune_at : ℕ → Text → ℕ
rune_at n [] = 0
rune_at zero (c ∷ s) = c
rune_at (suc n) (c ∷ s) = rune_at n s

version_digit : (b : ℕ) → hex_digit ((b % 16 + 112) / 16) ≡ b'7'
unfolding hex_digit
version_digit b = ground arith

variant_digit :
    (b : ℕ)
    → (hex_digit ((b % 64 + 128) / 16) ≡ b'8')
      ⊎ (hex_digit ((b % 64 + 128) / 16) ≡ b'9')
      ⊎ (hex_digit ((b % 64 + 128) / 16) ≡ b'a')
      ⊎ (hex_digit ((b % 64 + 128) / 16) ≡ b'b')
unfolding hex_digit
variant_digit b = ground arith

-- Each id has the version 7 at its place, and a variant of RFC 4122 at its.
pub rune_at-uuid_v7 :
    (ts : ℕ) (r : Random)
    → (rune_at 14 (uuid_v7 ts r) ≡ b'7')
      × ((rune_at 19 (uuid_v7 ts r) ≡ b'8')
          ⊎ (rune_at 19 (uuid_v7 ts r) ≡ b'9')
          ⊎ (rune_at 19 (uuid_v7 ts r) ≡ b'a')
          ⊎ (rune_at 19 (uuid_v7 ts r) ≡ b'b'))
unfolding uuid_v7 random_part hex_byte rune_at
rune_at-uuid_v7 ts r = (version_digit r.b6, variant_digit r.b8)
