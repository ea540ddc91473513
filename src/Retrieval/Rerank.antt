-- ===== src/Retrieval/Rerank.antt =====
-- Rerank of internal/retrieval/rerank.go. What the model answers to the prompt is an argument, so the
-- text of the prompt is left out.
pub mod Laws
use ragamuffin.Base.{
  ℕ, zero, suc, ◌+◌, ◌-◌, ◌*◌, ◌^◌, Bool, true, false, not, ◌&&◌, ◌||◌, Option, none, some, List,
  [], ◌∷◌, ◌++◌, map, ltb, leb, ◌==◌, if◌then◌else◌, length, take, drop,
}
use ragamuffin.Base.Int.{ℤ, pos, negsuc}
use ragamuffin.Text.{Text, codes}
use ragamuffin.Text.Words.{trim_space}
use ragamuffin.Chunker.Links.{is_empty}

-- RerankDoc
pub record RerankDoc : Type 0 where
  pub id : Text
  pub text : Text

abbrev pub max_rerank_candidates : ℕ
max_rerank_candidates = 50

-- strings.FieldsFunc, for the separators of parseRankOrder
unfoldable pub is_separator : ℕ → Bool
is_separator c = c == b',' || c == 32 || c == 10 || c == 9 || c == b'[' || c == b']' || c == b'.'

unfoldable pub rank_fields : Text → Text → List Text
unfolding is_separator
rank_fields [] [] = []
rank_fields (a ∷ cur) [] = (a ∷ cur) ∷ []
rank_fields cur (c ∷ s) =
    let more = rank_fields (cur ++ c ∷ []) s in
    let cut = rank_fields [] s in
    if is_separator c then (if is_empty cur then cut else cur ∷ cut) else more

-- The digits of a decimal number, to the end of the text.
unfoldable pub all_digits : Text → ℕ → Option ℕ
all_digits [] n = some n
all_digits (c ∷ s) n =
    let rest = all_digits s (n * 10 + (c - b'0')) in if leb b'0' c && leb c b'9' then rest else none

unfoldable pub natural : Text → Option ℕ
unfolding all_digits
natural [] = none
natural (c ∷ s) = all_digits (c ∷ s) 0

negated : ℕ → ℤ
negated zero = pos 0
negated (suc n) = negsuc n

below : ℕ → (ℕ → ℤ) → Option ℕ → Option ℤ
below bound f none = none
below bound f (some n) = if ltb n bound then some (f n) else none

-- strconv.Atoi: a sign, and digits; out of the range of int64 it fails.
unfoldable pub atoi : Text → Option ℤ
unfolding natural negated below
atoi [] = none
atoi (c ∷ s) =
    if c == b'-'
    then below (2 ^ 63 + 1) negated (natural s)
    else if c == b'+'
    then below (2 ^ 63) pos (natural s)
    else below (2 ^ 63) pos (natural (c ∷ s))

-- Behind the checks `v >= 1 && v <= n`: the index of the passage.
unfoldable pub index_of : ℕ → Option ℤ → Option ℕ
index_of n (some (pos (suc v))) = if leb (suc v) n then some v else none
index_of n _ = none

unfoldable pub indices : ℕ → List Text → List ℕ
unfolding index_of atoi
indices n [] = []
indices n (f ∷ fs) = elim (index_of n (atoi (trim_space f))) [
  | none ↦ indices n fs
  | some v ↦ v ∷ indices n fs
]

-- parseRankOrder
unfoldable pub parse_rank_order : Text → ℕ → List ℕ
unfolding indices rank_fields
parse_rank_order s n = indices n (rank_fields [] s)

unfoldable pub is_seen : List ℕ → ℕ → Bool
is_seen [] i = false
is_seen (j ∷ js) i = j == i || is_seen js i

-- head[idx].ID
unfoldable pub id_of : List RerankDoc → ℕ → Option Text
id_of [] i = none
id_of (d ∷ ds) zero = some d.id
id_of (d ∷ ds) (suc i) = id_of ds i

-- The loop over the order: what it appends, and what it has seen.
unfoldable pub place : List RerankDoc → List ℕ → List ℕ → List Text × List ℕ
unfolding is_seen id_of
place head [] seen = ([], seen)
place head (i ∷ order) seen =
    let skip = place head order seen in
    let (ids, all) = place head order (i ∷ seen) in
    elim (id_of head i) [ none ↦ skip | some id ↦ if is_seen seen i then skip else (id ∷ ids, all) ]

-- The loop over the candidates that the model left out; `k` is the index of the first.
unfoldable pub omitted : ℕ → List ℕ → List RerankDoc → List Text
omitted k seen [] = []
omitted k seen (d ∷ ds) =
    let rest = omitted (suc k) seen ds in if is_seen seen k then rest else d.id ∷ rest

unfoldable pub ids_of : List RerankDoc → List Text
ids_of ds = map (λ (d : RerankDoc). d.id) ds

-- The two loops, and the tail.
unfoldable pub ordered : List RerankDoc → List ℕ → List Text
unfolding place omitted ids_of
ordered docs order =
    let head = take max_rerank_candidates docs in
    let (ids, seen) = place head order [] in
    ids ++ (omitted 0 seen head ++ ids_of (drop max_rerank_candidates docs))

unfoldable pub by_answer : List RerankDoc → Option Text → List Text
by_answer docs none = ids_of docs
by_answer docs (some out) = elim (parse_rank_order out (length (take max_rerank_candidates docs))) [
  | [] ↦ ids_of docs
  | i ∷ order ↦ ordered docs (i ∷ order)
]

-- Rerank. The completer is nil, or fails on the prompt, or answers it.
unfoldable pub rerank : Option (Option Text) → Text → List RerankDoc → List Text
unfolding by_answer
rerank completer query [] = []
rerank completer query (d ∷ ds) = elim completer [
  | none ↦ ids_of (d ∷ ds)
  | some answer ↦
      if is_empty (trim_space query) || length (d ∷ ds) == 1
      then ids_of (d ∷ ds)
      else by_answer (d ∷ ds) answer
]
