-- ===== src/Retrieval/Tests.antt =====
-- Runs of the retrieval, and its theorems at concrete inputs.
use ragamuffin.Base.{ℕ, ◌+◌, ◌/◌, ◌≡◌, refl, true, false, some, List, [], ◌∷◌, arith, ltb, map}
use ragamuffin.Text.{Text, codes, same_text, is_space}
use ragamuffin.Text.Words.{trim_space}
use ragamuffin.Text.Maps.{lookup, insert}
use ragamuffin.Chunker.Links.{is_empty}
use ragamuffin.Retrieval.Rerank.{
  RerankDoc, parse_rank_order, rank_fields, indices, index_of, atoi, natural, all_digits,
  is_separator, is_seen, id_of, place, omitted, ids_of, ordered, by_answer, rerank,
}
use ragamuffin.Retrieval.Rerank.Laws.{count, hit, count-rerank}
use ragamuffin.Retrieval.Fuse.{
  Scores, RankedId, add_rank, add_list, add_lists, put_ranked, ranked, default_k, fuse,
}
use ragamuffin.Retrieval.Fuse.Laws.{listed_in, listed, result_ids, IsDescending, fuse_lem}

program : Unit {0}
unfolding parse_rank_order rank_fields indices index_of atoi natural all_digits is_separator is_seen
    id_of place omitted ids_of ordered by_answer rerank count hit add_rank add_list add_lists
    put_ranked ranked default_k fuse listed_in listed result_ids trim_space is_space is_empty lookup
    insert same_text
program = tt

abbrev doc : ℕ → RerankDoc
doc c = record { id = c ∷ []; text = c ∷ [] }

abbrev docs : List RerankDoc
docs = doc b'a' ∷ doc b'b' ∷ doc b'c' ∷ []

-- A number twice, one out of range, and words in between: what is left out follows.
reordered :
    rerank (some (some (codes "3, then 3, 9 and 1."))) (codes "q") docs
    ≡ codes "c" ∷ codes "a" ∷ codes "b" ∷ []
unfolding program
reordered = refl

count-rerank_example :
    count (codes "b") (rerank (some (some (codes "3, 3, 9, 1"))) (codes "q") docs)
    ≡ count (codes "b") (ids_of docs)
count-rerank_example = count-rerank (some (some (codes "3, 3, 9, 1"))) (codes "q") docs (codes "b")

ltb_asym : (a b : ℕ) → ltb a b ≡ true → ltb b a ≡ false
ltb_asym a b h = ground arith

abbrev integers : Scores
integers = record {
  zero_score = 0;
  reciprocal = λ n. 1000000 / n;
  add = λ a b. a + b;
  less = ltb;
  less_asym = ltb_asym;
}

-- What both lists have comes first.
fused :
    map
      (λ (r : RankedId). r.id)
      (fuse integers ((codes "x" ∷ codes "y" ∷ []) ∷ (codes "y" ∷ codes "z" ∷ []) ∷ []) 0)
    ≡ codes "y" ∷ codes "x" ∷ codes "z" ∷ []
unfolding program
fused = refl

fuse_lem_example :
    IsDescending integers (fuse integers ((codes "x" ∷ codes "y" ∷ []) ∷ (codes "y" ∷ []) ∷ []) 60)
    × ((x : Text)
        → count x
            (result_ids (fuse integers ((codes "x" ∷ codes "y" ∷ []) ∷ (codes "y" ∷ []) ∷ []) 60))
          ≡ listed_in x ((codes "x" ∷ codes "y" ∷ []) ∷ (codes "y" ∷ []) ∷ []))
fuse_lem_example = fuse_lem integers ((codes "x" ∷ codes "y" ∷ []) ∷ (codes "y" ∷ []) ∷ []) 60
