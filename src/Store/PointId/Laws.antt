-- ===== src/Store/PointId/Laws.antt =====
-- A point's id is read back from its row.
use native.Mathlib.Nat.{pow-suc}
use ragamuffin.Base.{
  tests, ltb→lt, ℕ, zero, suc, ◌+◌, ◌/◌, ◌%◌, ◌^◌, ◌≤◌, ◌<◌, ◌≡◌, ap, ◌∙◌, inl, inr, ◌⊎◌, some, [],
  ◌∷◌, arith, ltb, Bool-cases,
}
use ragamuffin.Text.{Text, same_text, codes}
use ragamuffin.Store.PointId.{
  PointId, uuid, num, unset, digits, decimal, scan, sscanf, encode_point_id, decode_point_id,
}

-- Reading the last digit of a number behind the digits before it gives the number.
scan_last : (n : ℕ) (out : Text) → n < 2 ^ 64 → scan ((b'0' + n % 10) ∷ out) (n / 10) ≡ scan out n
unfolding scan
scan_last n out h = ground arith

scan-digits :
    (f n : ℕ) (out : Text) → n < 2 ^ 64 → n < 10 ^ f → scan (digits f n out) 0 ≡ scan out n
unfolding digits
scan-digits zero n out h small = ap (λ k. scan out k) (omega arith)
scan-digits (suc f) n out h small = elim (Bool-cases (ltb n 10)) [
  | inl one ↦
      let z : 0 ≡ n / 10 = omega (tests, ltb→lt n 10 one) in
      rw (one, digits) (ap (λ k. scan ((b'0' + n % 10) ∷ out) k) z ∙ scan_last n out h)
  | inr more ↦
      rw (more, digits)
        (scan-digits f (n / 10) _ (omega arith) (omega (arith, pow-suc 10 f)) ∙ scan_last n out h)
]

-- The digits are not empty, and the first one is a digit.
abbrev StartsWithDigit : Text → Type 0
StartsWithDigit [] = ⊥
StartsWithDigit (c ∷ s) = (b'0' ≤ c) × (c ≤ b'9')

digits_start :
    (f n : ℕ) (out : Text) → StartsWithDigit out ⊎ (0 < f) → StartsWithDigit (digits f n out)
unfolding digits
digits_start zero n out (inl h) = h
digits_start zero n out (inr h) = absurd (omega arith)
digits_start (suc f) n out h = elim (Bool-cases (ltb n 10)) [
  | inl one ↦ rw (one, digits) (omega arith)
  | inr more ↦ rw (more, digits) (digits_start f (n / 10) _ (inl (omega arith)))
]

sscanf-scan : (s : Text) → StartsWithDigit s → sscanf s ≡ scan s 0
unfolding sscanf
sscanf-scan [] h = absurd h
sscanf-scan (c ∷ s) h = ground arith

-- Every uint64 is read back from its decimal form.
sscanf-decimal : (n : ℕ) → n < 2 ^ 64 → sscanf (decimal n) ≡ some n
unfolding decimal scan
sscanf-decimal n h =
    sscanf-scan (digits 20 n []) (digits_start 20 n [] (inr (omega arith)))
    ∙ scan-digits 20 n [] h (omega arith)

-- A number that a uint64 can hold.
abbrev pub IsId : PointId → Type 0
IsId (uuid s) = Unit
IsId (num n) = n < 2 ^ 64
IsId unset = ⊥

-- An id, a text or a number below 2^64, is read back from the key and the kind that it was stored
-- under.
pub decode-encode_point_id :
    (id : PointId) (key kind : Text)
    → IsId id
    → encode_point_id id ≡ some (key, kind)
    → decode_point_id key kind ≡ some id
unfolding encode_point_id decode_point_id same_text
decode-encode_point_id (uuid s) key kind h e =
    let key_same : s ≡ key = ground arith in
    let kind_same : codes "uuid" ≡ kind = ground arith in rw (← key_same, ← kind_same)
decode-encode_point_id (num n) key kind h e =
    let key_same : decimal n ≡ key = ground arith in
    let kind_same : codes "num" ≡ kind = ground arith in
    rw (← key_same, ← kind_same, sscanf-decimal n h)
decode-encode_point_id unset key kind h e = absurd h
