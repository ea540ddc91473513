-- ===== src/Events/Uuid.antt =====
-- uuidV7 of internal/events/events.go. The time in milliseconds and the random bytes are arguments;
-- `(b & 0x0f) | 0x70` is b % 16 + 112 here, and `(b & 0x3f) | 0x80` is b % 64 + 128.
pub mod Laws
use ragamuffin.Base.{ℕ, ◌+◌, ◌-◌, ◌/◌, ◌%◌, ◌^◌, List, [], ◌∷◌, ◌++◌, ltb, if◌then◌else◌}
use ragamuffin.Text.{Text}

-- The ten random bytes that are kept, in full or in part.
pub record Random : Type 0 where
  pub b6 : ℕ
  pub b7 : ℕ
  pub b8 : ℕ
  pub b9 : ℕ
  pub node : List ℕ

unfoldable pub hex_digit : ℕ → ℕ
hex_digit d = if ltb d 10 then b'0' + d else b'a' + (d - 10)

-- One byte under %x
unfoldable pub hex_byte : ℕ → Text → Text
unfolding hex_digit
hex_byte b s = hex_digit (b / 16) ∷ hex_digit (b % 16) ∷ s

unfoldable pub hex_bytes : List ℕ → Text → Text
unfolding hex_byte
hex_bytes [] s = s
hex_bytes (b ∷ bs) s = hex_byte b (hex_bytes bs s)

-- The text, behind the time.
unfoldable pub random_part : Random → Text
unfolding hex_byte hex_bytes
random_part r =
    b'-'
    ∷ hex_byte (r.b6 % 16 + 112) (
        hex_byte r.b7
          (b'-' ∷ hex_byte (r.b8 % 64 + 128) (hex_byte r.b9 (b'-' ∷ hex_bytes r.node []))))

-- uuidV7
unfoldable pub uuid_v7 : ℕ → Random → Text
unfolding hex_byte random_part
uuid_v7 ts r = hex_byte ((ts / 2 ^ 40) % 256) (
    hex_byte ((ts / 2 ^ 32) % 256) (
      hex_byte ((ts / 2 ^ 24) % 256) (
        hex_byte ((ts / 2 ^ 16) % 256)
          (b'-' ∷ hex_byte ((ts / 2 ^ 8) % 256) (hex_byte (ts % 256) (random_part r))))))
