-- ===== src/Indexer/Laws.antt =====
-- The statistics of an indexer agree with the files that it knows.
use ragamuffin.Base.{
  ℕ, zero, suc, ◌+◌, ◌*◌, ◌/◌, ◌≤◌, ◌<◌, ◌≡◌, ◌≢◌, refl, inl, inr, Bool, true, false, Option, some,
  List, [], ◌∷◌, arith, if◌then◌else◌, Bool-cases, Option-cases, length, ◌==◌, ◌++◌, ap, ◌∙◌, take,
  drop, take-append-drop, length-drop, length-take, All,
}
use ragamuffin.Text.{Text, same_text}
use ragamuffin.Text.Maps.{lookup, insert}
use ragamuffin.Text.Words.{fields}
use ragamuffin.Chunker.Record.{Chunk, Options}
use ragamuffin.Chunker.File.{chunk_file}
use ragamuffin.Chunker.File.Laws.{words-chunk_file}
use ragamuffin.Indexer.Path.{ext}
use ragamuffin.Indexer.{
  FactStore, World, Progress, known, note_file, batches, index_content, index_file, index_files,
  indexable_files, started, finished, reindex_files, full_reindex,
}

unfoldable pub total : List (Text × ℕ) → ℕ
total [] = 0
total ((path, n) ∷ m) = n + total m

abbrev pub IsPositive : List (Text × ℕ) → Type 0
IsPositive [] = Unit
IsPositive ((path, n) ∷ m) = (0 < n) × IsPositive m

-- The files are counted once each, with all their chunks, and every known file has a chunk.
abbrev pub IsCounted : Progress → Type 0
IsCounted p =
    (p.file_count ≡ length p.known_files)
    × (p.chunk_count ≡ total p.known_files)
    × IsPositive p.known_files

total-insert :
    (path : Text) (n : ℕ) (m : List (Text × ℕ))
    → total (insert path n m) + known (lookup path m) ≡ total m + n
unfolding total insert lookup known
total-insert path n [] = omega arith
total-insert path n ((j, k) ∷ m) = ground (arith, total-insert path n m)

length-insert :
    (path : Text) (n : ℕ) (m : List (Text × ℕ))
    → IsPositive m
    → length (insert path n m) ≡ (if known (lookup path m) == 0 then length m + 1 else length m)
unfolding insert lookup known
length-insert path n [] h = omega arith
length-insert path n ((j, k) ∷ m) (h, hs) = ground (arith, h, length-insert path n m hs)

IsPositive-insert :
    (path : Text) (n : ℕ) (m : List (Text × ℕ))
    → 0 < n
    → IsPositive m
    → IsPositive (insert path n m)
unfolding insert
IsPositive-insert path n [] h hs = (h, tt)
IsPositive-insert path n ((j, k) ∷ m) h (g, gs) = elim (Bool-cases (same_text j path)) [
  | inl e ↦ rw e (h, gs)
  | inr e ↦ rw e (g, IsPositive-insert path n m h gs)
]

pub IsCounted-note_file :
    (path : Text) (n now : ℕ) (p : Progress)
    → 0 < n
    → IsCounted p
    → IsCounted (note_file path n now p)
unfolding note_file
IsCounted-note_file path n now p h (files, chunks, positive) = (
  ground (arith, files, length-insert path n p.known_files positive),
  omega (arith, chunks, total-insert path n p.known_files),
  IsPositive-insert path n p.known_files h positive,
)

IsCounted-if :
    (b : Bool) (q p : Progress) → IsCounted q → IsCounted p → IsCounted (if b then q else p)
IsCounted-if true q p hq hp = hq
IsCounted-if false q p hq hp = hp

module _ {State : Type 0} (store : FactStore State) (world : World) (fuel : ℕ) (opts : Options)
    (limit : opts.max_tokens ≢ 1)
    (enough : (path content : Text)
      → world.read_file path ≡ some content
      → length (fields content) ≤ fuel) where
  -- A call that returns, with statistics that agree with the files.
  abbrev pub Returns : Option (State × Progress × Bool) → Type 0
  Returns r = (s : State) × (p : Progress) × (ok : Bool) × (r ≡ some (s, p, ok)) × IsCounted p

  Returns-chunks :
      (client : List Text → Option (List (List ℕ))) (path content : Text) (time now : ℕ) (s : State)
      (p : Progress) (cs : List Chunk)
      → chunk_file fuel content path (ext path) time opts ≡ some cs
      → IsCounted p
      → Returns (index_content store world fuel opts client path content time now s p)
  unfolding index_content
  Returns-chunks client path content time now s p [] e counted =
      rw (e, index_content) (_, p, true, refl, counted)
  Returns-chunks client path content time now s p (c ∷ cs) e counted =
      rw (e, index_content)
        (
          _,
          _,
          _,
          refl,
          IsCounted-if _ (note_file path (length (c ∷ cs)) now p) p
              (IsCounted-note_file path (length (c ∷ cs)) now p (omega arith) counted) counted,
        )

  Returns-index_content :
      (client : List Text → Option (List (List ℕ))) (path content : Text) (time now : ℕ) (s : State)
      (p : Progress)
      → length (fields content) ≤ fuel
      → IsCounted p
      → Returns (index_content store world fuel opts client path content time now s p)
  Returns-index_content client path content time now s p h counted =
      let (cs, chunked, words) = words-chunk_file content path (ext path) time opts fuel limit h in
      Returns-chunks client path content time now s p cs chunked counted

  Returns-index_file :
      (path : Text) (now : ℕ) (s : State) (p : Progress)
      → IsCounted p
      → Returns (index_file store world fuel opts path now s p)
  unfolding index_file
  Returns-index_file path now s p counted = elim (Option-cases world.embed) [
    | inl e ↦ rw (e, index_file) (s, p, true, refl, counted)
    | inr (client, e) ↦ elim (Option-cases (world.read_file path)) [
      | inl f ↦ rw (e, index_file) (rw f (s, p, false, refl, counted))
      | inr (content, f) ↦ elim (Option-cases (world.mod_time path)) [
        | inl g ↦ rw (e, index_file) (rw (f, g) (s, p, false, refl, counted))
        | inr (time, g) ↦
            rw (e, index_file)
              (rw (f, g)
                (Returns-index_content client path content time now s p (enough path content f)
                  counted))
      ]
    ]
  ]

  Returns-index_files :
      (i n : ℕ) (paths : List Text) (now : ℕ) (s : State) (p : Progress)
      → IsCounted p
      → (s' : State) × (p' : Progress) × (index_files store world fuel opts i n paths now s p
          ≡ some (s', p'))
        × IsCounted p'
  unfolding index_files
  Returns-index_files i n [] now s p counted = (s, p, refl, counted)
  Returns-index_files i n (path ∷ paths) now s p counted =
      let (s', p', ok, e, counted') = Returns-index_file path now s p counted in
      let (t, q, f, g) =
        Returns-index_files (suc i) n paths now s' (record p' { progress_pct = (i + 1) * 100 / n })
          counted' in
      (t, q, rw (e, index_files) f, g)

  IsCounted-started : (n : ℕ) (p : Progress) → IsCounted (started store world n p)
  unfolding started total
  IsCounted-started n p = (refl, refl, tt)

  Returns-reindex_files :
      (files : List Text) (now : ℕ) (s : State) (p : Progress)
      → (s' : State) × (p' : Progress) × (reindex_files store world fuel opts files now s p
          ≡ some (s', p'))
        × IsCounted p'
        × (p'.indexing ≡ (length files == 0))
  unfolding reindex_files started finished
  Returns-reindex_files [] now s p = (s, started store world 0 p, refl, IsCounted-started 0 p, refl)
  Returns-reindex_files (f ∷ fs) now s p =
      let n = length (f ∷ fs) in
      let (s', p', e, counted) =
        Returns-index_files 0 n (f ∷ fs) now s (started store world n p) (IsCounted-started n p) in
      (
        s',
        record p' { indexing = false; last_indexed = now },
        rw (e, reindex_files) refl,
        counted,
        ground arith,
      )

  -- With any token limit but 1, and as much fuel as a file has words, a full reindex ends, whatever
  -- files cannot be read, embedded or written; then the counts of files and chunks agree with the
  -- files that it knows. It is over, unless the vault has no file to index: then the indexer goes
  -- on to say that it is indexing.
  pub full_reindex-IsCounted :
      (walked : List Text) (now : ℕ) (s : State) (p : Progress)
      → (s' : State) × (p' : Progress) × (full_reindex store world fuel opts walked now s p
          ≡ some (s', p'))
        × IsCounted p'
        × (p'.indexing ≡ (length (indexable_files store world walked) == 0))
  unfolding full_reindex
  full_reindex-IsCounted walked now s p =
      Returns-reindex_files (indexable_files store world walked) now s p

unfoldable pub flat : List (List Chunk) → List Chunk
flat [] = []
flat (cs ∷ rest) = cs ++ flat rest

-- On as much fuel as there are chunks, the batches hold the chunks in order, and at most 20 each.
pub batches_lem :
    (f : ℕ) (cs : List Chunk)
    → length cs ≤ f
    → (flat (batches f cs) ≡ cs) × All (λ (b : List Chunk). length b ≤ 20) (batches f cs)
unfolding batches flat
batches_lem zero [] h = (refl, tt)
batches_lem zero (c ∷ cs) h = absurd (omega arith)
batches_lem (suc f) [] h = (refl, tt)
batches_lem (suc f) (c ∷ cs) h =
    let left : length (drop 20 (c ∷ cs)) ≤ f = omega (arith, h, length-drop 20 (c ∷ cs)) in
    let (rest, small) = batches_lem f (drop 20 (c ∷ cs)) left in
    (
      ap (λ t. take 20 (c ∷ cs) ++ t) rest ∙ take-append-drop 20 (c ∷ cs),
      (omega (arith, length-take 20 (c ∷ cs)), small),
    )
