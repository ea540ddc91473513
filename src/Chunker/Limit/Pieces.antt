-- ===== src/Chunker/Limit/Pieces.antt =====
-- What the packing loops append: the words of the parts, under consecutive indices.
use mathlib.Core.List.{flat_map}
use ragamuffin.Base.{
  ℕ, ◌+◌, ◌≡◌, ◌≢◌, refl, inl, inr, List, [], ◌∷◌, ◌++◌, append_assoc, arith, Bool-cases, ltb, ◌&&◌,
}
use ragamuffin.Text.{Text}
use ragamuffin.Text.Words.{
  trim_space, fields, fields_from, fields-trim_space, fields_joined, IsSpaces,
}
use ragamuffin.Chunker.Record.{Chunk}
use ragamuffin.Chunker.Links.{is_empty}
use ragamuffin.Chunker.Split.Words.{chunk_words, fields_empty}
use ragamuffin.Chunker.Split.Order.{Numbered}
use ragamuffin.Chunker.Limit.{joined, pack, non_empty, est_tokens}

module _ (c : Chunk) (max : ℕ) (joiner : Text) where
  pub Numbered-pack :
      (parts : List Text) (current : Text) (i : ℕ) → Numbered i (pack c max joiner parts current i)
  unfolding pack
  Numbered-pack [] current i = ground arith
  Numbered-pack (part ∷ parts) current i = elim (Bool-cases (is_empty (trim_space part))) [
    | inl h ↦ rw (h, pack) (Numbered-pack parts current i)
    | inr h ↦
        elim (Bool-cases
          (ltb max (est_tokens current + est_tokens (trim_space part)) && non_empty current)) [
            | inl full ↦
                rw (h, pack) (rw full (refl, Numbered-pack parts (trim_space part) (i + 1)))
            | inr more ↦
                rw (h, pack)
                  (rw more (Numbered-pack parts (joined joiner current (trim_space part)) i))
          ]
  ]

  pub words-joined :
      (current p : Text)
      → joiner ≢ []
      → IsSpaces joiner
      → fields (joined joiner current p) ≡ fields current ++ fields p
  unfolding joined fields_from
  words-joined [] p ne h = refl
  words-joined (d ∷ current) p ne h = fields_joined (d ∷ current) joiner p ne h

  pub words-pack :
      (parts : List Text) (current : Text) (i : ℕ)
      → joiner ≢ []
      → IsSpaces joiner
      → chunk_words (pack c max joiner parts current i) ≡ fields current ++ flat_map fields parts
  unfolding pack flat_map chunk_words
  words-pack [] current i ne h = ground (arith, fields_empty current, fields-trim_space current)
  words-pack (part ∷ parts) current i ne h = elim (Bool-cases (is_empty (trim_space part))) [
    | inl e ↦
        rw (e, pack)
          (cc (
            words-pack parts current i ne h,
            fields-trim_space part,
            fields_empty (trim_space part) e,
          ))
    | inr e ↦
        elim (Bool-cases
          (ltb max (est_tokens current + est_tokens (trim_space part)) && non_empty current)) [
            | inl full ↦
                rw (e, pack)
                  (rw full (
                    cc (
                      fields-trim_space current,
                      words-pack parts (trim_space part) (i + 1) ne h,
                      fields-trim_space part,
                    )))
            | inr more ↦
                rw (e, pack)
                  (rw more (
                    cc (
                      words-pack parts (joined joiner current (trim_space part)) i ne h,
                      words-joined current (trim_space part) ne h,
                      fields-trim_space part,
                      append_assoc (fields current) (fields part) (flat_map fields parts),
                    )))
          ]
  ]
