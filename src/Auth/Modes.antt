-- ===== src/Auth/Modes.antt =====
-- The texts that name a mode.
use ragamuffin.Base.{◌≡◌, ◌↔◌, refl, inl, inr, true, some, arith, Bool-cases}
use ragamuffin.Text.{Text, codes, same_text}
use ragamuffin.Text.Order.{eq_of_same_text}
use ragamuffin.Text.Case.{to_lower}
use ragamuffin.Auth.{
  Mode, mode_none, mode_api_key, mode_jwt, mode_oidc, mode_text, mode_of, parse_mode,
}

mode_of-mode_text : (m : Mode) → mode_of (mode_text m) ≡ some m
unfolding mode_of mode_text same_text
mode_of-mode_text mode_none = refl
mode_of-mode_text mode_api_key = refl
mode_of-mode_text mode_jwt = refl
mode_of-mode_text mode_oidc = refl

named : (s : Text) (n m : Mode) → same_text s (mode_text n) ≡ true → n ≡ m → s ≡ mode_text m
named s n m h e = rw (← e) (eq_of_same_text s (mode_text n) h)

text_of_mode : (s : Text) (m : Mode) → mode_of s ≡ some m → s ≡ mode_text m
unfolding mode_of mode_text
text_of_mode s m h = elim (Bool-cases (same_text s (codes "none"))) [
  | inl e ↦ named s mode_none m e (ground (arith, h, e))
  | inr e ↦ elim (Bool-cases (same_text s (codes "api_key"))) [
    | inl f ↦ named s mode_api_key m f (ground (arith, h, e, f))
    | inr f ↦ elim (Bool-cases (same_text s (codes "jwt"))) [
      | inl g ↦ named s mode_jwt m g (ground (arith, h, e, f, g))
      | inr g ↦ elim (Bool-cases (same_text s (codes "oidc"))) [
        | inl k ↦ named s mode_oidc m k (ground (arith, h, e, f, g, k))
        | inr k ↦ absurd (ground (arith, h, e, f, g, k))
      ]
    ]
  ]
]

-- ParseMode gives a mode exactly for the texts that are its name up to the case of letters.
pub parse_mode_iff : (s : Text) (m : Mode) → (parse_mode s ≡ some m) ↔ (to_lower s ≡ mode_text m)
unfolding parse_mode
parse_mode_iff s m = (text_of_mode (to_lower s) m, λ e. rw e (mode_of-mode_text m))
