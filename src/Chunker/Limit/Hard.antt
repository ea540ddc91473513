-- ===== src/Chunker/Limit/Hard.antt =====
-- The split into groups of words: it ends when a group holds a word, loses none, and keeps every
-- group within the limit. When a group holds no word, it never ends.
use ragamuffin.Base.{
  ℕ, zero, suc, ◌+◌, ◌≤◌, ◌<◌, ◌≡◌, ◌≢◌, refl, List, [], ◌∷◌, arith, none, some, All, length, take,
  drop, take-append-drop, length-take, length-drop,
}
use ragamuffin.Text.{Text, space}
use ragamuffin.Text.Words.{fields, join, IsWord}
use ragamuffin.Text.Join.{fields-join, All-take, All-drop}
use ragamuffin.Chunker.Record.{Chunk}
use ragamuffin.Chunker.Split.Words.{chunk_words}
use ragamuffin.Chunker.Limit.{hard_split, piece}
use ragamuffin.Chunker.Split.Order.{Numbered}

-- What the hard split owes for the words `ws` from index `i`.
pub record Holds (target : ℕ) (ws : List Text) (i : ℕ) (cs : List Chunk) : Type 0 where
  pub all_words : chunk_words cs ≡ ws
  pub numbered : Numbered i cs
  pub small : All (λ (c : Chunk). length (fields c.text) ≤ target) cs

pub hard_split-Holds :
    (fuel : ℕ) (c : Chunk) (target : ℕ) (ws : List Text) (i : ℕ)
    → 0 < target
    → All IsWord ws
    → length ws ≤ fuel
    → (cs : List Chunk) × (hard_split fuel c target ws i ≡ some cs) × Holds target ws i cs
unfolding hard_split chunk_words
hard_split-Holds fuel c target [] i pos words enough =
    ([], refl, record { all_words = refl; numbered = tt; small = tt })
hard_split-Holds zero c target (w ∷ ws) i pos words enough = absurd (omega arith)
hard_split-Holds (suc fuel) c target (w ∷ ws) i pos words enough =
    let all = w ∷ ws in
    let (cs, e, held) =
      hard_split-Holds fuel c target (drop target all) (i + 1) pos
        (All-drop IsWord target all words) (omega (arith, length-drop target all)) in
    let front : fields (join (take target all) (space ∷ [])) ≡ take target all =
      fields-join (take target all) (All-take IsWord target all words) in
    (
      piece c (join (take target all) (space ∷ [])) i ∷ cs,
      rw (e, hard_split),
      record {
        all_words = cc (front, held.all_words, take-append-drop target all);
        numbered = (refl, held.numbered);
        small = (rw front (omega (arith, length-take target all)), held.small);
      },
    )

-- With groups of no words the loop runs through any fuel.
pub hard_split-diverges :
    (fuel : ℕ) (c : Chunk) (ws : List Text) (i : ℕ) → ws ≢ [] → hard_split fuel c 0 ws i ≡ none
unfolding hard_split
hard_split-diverges fuel c [] i ne = absurd (ne refl)
hard_split-diverges zero c (w ∷ ws) i ne = refl
hard_split-diverges (suc fuel) c (w ∷ ws) i ne =
    rw (hard_split-diverges fuel c (w ∷ ws) (i + 1) ne, hard_split)
