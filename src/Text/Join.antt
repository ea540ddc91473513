-- ===== src/Text/Join.antt =====
-- Words that are joined by spaces are read back by strings.Fields.
use ragamuffin.Base.{
  ℕ, zero, suc, ◌≡◌, refl, inl, inr, true, false, List, [], ◌∷◌, ◌++◌, append-nil, append_assoc,
  arith, Bool-cases, All, All-append, take, drop,
}
use ragamuffin.Text.{Text, is_space, space}
use ragamuffin.Text.Words.{fields, fields_from, flush, join, IsWord, fields_from-append}

abbrev Spaceless : Text → Type 0
Spaceless = All (λ c. is_space c ≡ false)

flush-IsWord : (w : Text) → Spaceless w → All IsWord (flush w)
flush-IsWord [] h = tt
flush-IsWord (c ∷ w) h = ((cc, h), tt)

fields_from-IsWord : (cur s : Text) → Spaceless cur → All IsWord (fields_from cur s)
unfolding fields_from
fields_from-IsWord cur [] h = flush-IsWord cur h
fields_from-IsWord cur (c ∷ s) h = elim (Bool-cases (is_space c)) [
  | inl e ↦
      rw (e, fields_from)
        (All-append _ (flush cur) (fields s) (flush-IsWord cur h) (fields_from-IsWord [] s tt))
  | inr e ↦
      rw (e, fields_from)
        (fields_from-IsWord (cur ++ c ∷ []) s (All-append _ cur (c ∷ []) h (e, tt)))
]

-- What strings.Fields returns are words.
pub fields-IsWord : (s : Text) → All IsWord (fields s)
fields-IsWord s = fields_from-IsWord [] s tt

fields_from-word : (cur w : Text) → Spaceless w → fields_from cur w ≡ flush (cur ++ w)
unfolding fields_from
fields_from-word cur [] h = rw append-nil
fields_from-word cur (c ∷ w) h =
    ground (arith, fields_from-word (cur ++ c ∷ []) w h.1, append_assoc cur (c ∷ []) w)

fields_word : (w : Text) → IsWord w → fields w ≡ w ∷ []
fields_word [] h = absurd (h.0 refl)
fields_word (c ∷ w) h = fields_from-word [] (c ∷ w) h.1

pub space-space : is_space space ≡ true
unfolding is_space
space-space = refl

-- Joined by single spaces, words are read back.
pub fields-join : (ws : List Text) → All IsWord ws → fields (join ws (space ∷ [])) ≡ ws
unfolding join
fields-join [] h = unfold fields_from in refl
fields-join (w ∷ []) h = fields_word w h.0
fields-join (w ∷ v ∷ ws) h = rw append_assoc (
    cc (
      fields_from-append [] w space (join (v ∷ ws) (space ∷ [])) space-space,
      fields_word w h.0,
      fields-join (v ∷ ws) h.1,
    ))

pub All-take {ℓ κ} :
    {A : Type ℓ} (P : A → Type κ) (n : ℕ) (xs : List A) → All P xs → All P (take n xs)
All-take P zero xs h = tt
All-take P (suc n) [] h = tt
All-take P (suc n) (x ∷ xs) (p, h) = (p, All-take P n xs h)

pub All-drop {ℓ κ} :
    {A : Type ℓ} (P : A → Type κ) (n : ℕ) (xs : List A) → All P xs → All P (drop n xs)
All-drop P zero xs h = h
All-drop P (suc n) [] h = tt
All-drop P (suc n) (x ∷ xs) (p, h) = All-drop P n xs h
