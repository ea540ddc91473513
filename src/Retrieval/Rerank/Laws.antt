-- ===== src/Retrieval/Rerank/Laws.antt =====
-- Reranking loses and doubles no result.
use ragamuffin.Base.{
  ℕ, zero, suc, ◌+◌, ◌<◌, ◌≡◌, refl, sym, ap, ◌∙◌, inl, inr, false, ◌||◌, Option, none, some, List,
  [], ◌∷◌, ◌++◌, arith, if◌then◌else◌, Bool-cases, Option-cases, length, take, drop,
  take-append-drop, ◌==◌,
}
use ragamuffin.Text.{Text, same_text}
use ragamuffin.Text.Words.{trim_space}
use ragamuffin.Chunker.Links.{is_empty}
use ragamuffin.Retrieval.Rerank.{
  RerankDoc, max_rerank_candidates, parse_rank_order, is_seen, id_of, place, omitted, ids_of,
  ordered, by_answer, rerank,
}

-- How often a text stands in a list.
unfoldable pub hit : Text → Text → ℕ
hit x y = if same_text x y then 1 else 0

unfoldable pub count : Text → List Text → ℕ
count x [] = 0
count x (y ∷ ys) = hit x y + count x ys

count-append : (x : Text) (xs ys : List Text) → count x (xs ++ ys) ≡ count x xs + count x ys
unfolding count
count-append x [] ys = omega arith
count-append x (y ∷ xs) ys = omega (arith, count-append x xs ys)

module _ (x : Text) where
  -- An index in front of the list plays no role.
  omitted_earlier :
      (k i : ℕ) (seen : List ℕ) (ds : List RerankDoc)
      → i < k
      → omitted k (i ∷ seen) ds ≡ omitted k seen ds
  unfolding omitted is_seen
  omitted_earlier k i seen [] h = refl
  omitted_earlier k i seen (d ∷ ds) h =
      ground (arith, h, omitted_earlier (suc k) i seen ds (omega arith))

  -- An index that is seen for the first time takes its candidate off those left out.
  count-omitted :
      (k i j : ℕ) (seen : List ℕ) (ds : List RerankDoc) (id : Text)
      → j ≡ k + i
      → id_of ds i ≡ some id
      → is_seen seen j ≡ false
      → count x (omitted k seen ds) ≡ hit x id + count x (omitted k (j ∷ seen) ds)
  unfolding omitted is_seen id_of count
  count-omitted k i j seen [] id at h new = absurd (ground (arith, h))
  count-omitted k zero j seen (d ∷ ds) id at h new =
      let here : j ≡ k = omega (arith, at) in
      ground (arith, here, h, new, omitted_earlier (suc k) j seen ds (omega (arith, here)))
  count-omitted k (suc i) j seen (d ∷ ds) id at h new =
      let next = count-omitted (suc k) i j seen ds id (omega (arith, at)) h new in
      ground (arith, at, h, new, next)

  -- What is placed and what is left out are together what was left out before.
  count-place :
      (head : List RerankDoc) (order seen : List ℕ)
      → count x (place head order seen).0 + count x (omitted 0 (place head order seen).1 head)
        ≡ count x (omitted 0 seen head)
  unfolding place count
  count-place head [] seen = omega arith
  count-place head (i ∷ order) seen = elim (Option-cases (id_of head i)) [
    | inl e ↦ rw (e, place) (count-place head order seen)
    | inr (id, e) ↦ elim (Bool-cases (is_seen seen i)) [
      | inl f ↦ rw (e, place) (rw f (count-place head order seen))
      | inr f ↦
          rw (e, place)
            (rw f (
              omega (
                arith,
                count-place head order (i ∷ seen),
                count-omitted 0 i i seen head id (omega arith) e f,
              )))
    ]
  ]

  omitted_none : (k : ℕ) (ds : List RerankDoc) → omitted k [] ds ≡ ids_of ds
  unfolding omitted is_seen ids_of
  omitted_none k [] = refl
  omitted_none k (d ∷ ds) = rw (omitted_none (suc k) ds) refl

  ids_of-append : (ds es : List RerankDoc) → ids_of (ds ++ es) ≡ ids_of ds ++ ids_of es
  unfolding ids_of
  ids_of-append [] es = refl
  ids_of-append (d ∷ ds) es = rw (ids_of-append ds es) refl

  count-ordered :
      (docs : List RerankDoc) (order : List ℕ)
      → count x (ordered docs order) ≡ count x (ids_of docs)
  unfolding ordered
  count-ordered docs order =
      let head = take max_rerank_candidates docs in
      let tail = drop max_rerank_candidates docs in
      let (ids, seen) = place head order [] in
      let whole : count x (ids_of docs) ≡ count x (ids_of head) + count x (ids_of tail) =
        ap (λ ds. count x (ids_of ds)) (sym (take-append-drop max_rerank_candidates docs))
        ∙ ap (count x) (ids_of-append head tail)
        ∙ count-append x (ids_of head) (ids_of tail) in
      omega (
        arith,
        whole,
        count-append x ids (omitted 0 seen head ++ ids_of tail),
        count-append x (omitted 0 seen head) (ids_of tail),
        count-place head order [],
        ap (count x) (omitted_none 0 head),
      )

  count-by_answer :
      (docs : List RerankDoc) (answer : Option Text)
      → count x (by_answer docs answer) ≡ count x (ids_of docs)
  unfolding by_answer
  count-by_answer docs none = refl
  count-by_answer docs (some out) =
      elim (parse_rank_order out (length (take max_rerank_candidates docs)))
        as (λ order.
          count x (elim order [ [] ↦ ids_of docs | i ∷ order ↦ ordered docs (i ∷ order) ])
          ≡ count x (ids_of docs)) [ [] ↦ refl | i ∷ order ↦ count-ordered docs (i ∷ order) ]

-- Whatever the model answers, and if it fails, reranking gives the ids of the candidates, each as
-- often as it stands among them.
pub count-rerank :
    (completer : Option (Option Text)) (query : Text) (docs : List RerankDoc) (x : Text)
    → count x (rerank completer query docs) ≡ count x (ids_of docs)
unfolding rerank ids_of
count-rerank completer query [] x = refl
count-rerank none query (d ∷ ds) x = refl
count-rerank (some answer) query (d ∷ ds) x =
    elim (Bool-cases (is_empty (trim_space query) || length (d ∷ ds) == 1)) [
      | inl e ↦ rw (e, rerank) refl
      | inr e ↦ rw (e, rerank) (count-by_answer x (d ∷ ds) answer)
    ]
