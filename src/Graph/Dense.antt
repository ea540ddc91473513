-- ===== src/Graph/Dense.antt =====
-- The dense renumbering of labels.
use ragamuffin.Base.{
  ℕ, zero, suc, ◌+◌, ◌<◌, ◌≡◌, ◌↔◌, refl, ap, none, some, List, [], ◌∷◌, arith, length, ◌==◌,
  Bool-cases, Option-cases, inl, inr,
}
use ragamuffin.Graph.{at, lookup_label, dense_from, dense_labels}

abbrev Remap : Type 0
Remap = List (ℕ × ℕ)

-- Different labels have different numbers, below the next one.
record IsRemap (r : Remap) (next : ℕ) : Type 0 where
  below : (l d : ℕ) → lookup_label l r ≡ some d → d < next
  apart : (l j d : ℕ) → lookup_label l r ≡ some d → lookup_label j r ≡ some d → l ≡ j

IsRemap-new :
    (r : Remap) (next l : ℕ)
    → lookup_label l r ≡ none
    → IsRemap r next
    → IsRemap ((l, next) ∷ r) (next + 1)
unfolding lookup_label
IsRemap-new r next l e h = record {
  below = λ j d f. elim (Bool-cases (l == j)) [
    | inl same ↦ ground (arith, f, same)
    | inr other ↦ let old = h.below j d (ground (arith, f, other)) in omega arith
  ];
  apart = λ i j d f g. elim (Bool-cases (l == i)) [
    | inl a ↦ elim (Bool-cases (l == j)) [
      | inl b ↦ ground (arith, a, b)
      | inr b ↦ let old = h.below j d (ground (arith, g, b)) in absurd (ground (arith, f, a, old))
    ]
    | inr a ↦ elim (Bool-cases (l == j)) [
      | inl b ↦ let old = h.below i d (ground (arith, f, a)) in absurd (ground (arith, g, b, old))
      | inr b ↦ h.apart i j d (ground (arith, f, a)) (ground (arith, g, b))
    ]
  ];
}

-- The numbers are those that the map gives the labels.
abbrev Matches : Remap → List ℕ → List ℕ → Type 0
Matches r [] [] = Unit {0}
Matches r [] (d ∷ out) = ⊥
Matches r (l ∷ labels) [] = ⊥
Matches r (l ∷ labels) (d ∷ out) = (lookup_label l r ≡ some d) × Matches r labels out

record IsRenumbered (r : Remap) (next : ℕ) (labels : List ℕ) (out : List ℕ) (k : ℕ) : Type 0 where
  remap : Remap
  remapped : IsRemap remap k
  extended : (l d : ℕ) → lookup_label l r ≡ some d → lookup_label l remap ≡ some d
  matched : Matches remap labels out

IsRenumbered-dense_from :
    (labels : List ℕ) (r : Remap) (next : ℕ)
    → IsRemap r next
    → let (out, k) = dense_from r next labels in IsRenumbered r next labels out k
unfolding dense_from lookup_label
IsRenumbered-dense_from [] r next h = record {
  remap = r;
  remapped = h;
  extended = λ l d e. e;
  matched = tt;
}
IsRenumbered-dense_from (l ∷ labels) r next h = elim (Option-cases (lookup_label l r)) [
  | inr (d, e) ↦
      let rest = IsRenumbered-dense_from labels r next h in
      rw (e, dense_from)
        (record {
          remap = rest.remap;
          remapped = rest.remapped;
          extended = rest.extended;
          matched = (rest.extended l d e, rest.matched);
        })
  | inl e ↦
      let rest =
        IsRenumbered-dense_from labels ((l, next) ∷ r) (next + 1) (IsRemap-new r next l e h) in
      rw (e, dense_from)
        (record {
          remap = rest.remap;
          remapped = rest.remapped;
          extended = λ j d f. rest.extended j d (ground (arith, e, f));
          matched = (rest.extended l next (ground arith), rest.matched);
        })
]

lookup-at :
    (r : Remap) (labels out : List ℕ) (i : ℕ)
    → Matches r labels out
    → i < length labels
    → lookup_label (at i labels) r ≡ some (at i out)
unfolding at
lookup-at r [] out i m h = absurd (omega arith)
lookup-at r (l ∷ labels) [] i m h = absurd m
lookup-at r (l ∷ labels) (d ∷ out) zero (e, m) h = e
lookup-at r (l ∷ labels) (d ∷ out) (suc i) (e, m) h = lookup-at r labels out i m (omega arith)

length-Matches :
    (r : Remap) (labels out : List ℕ) → Matches r labels out → length out ≡ length labels
length-Matches r [] [] m = refl
length-Matches r [] (d ∷ out) m = absurd m
length-Matches r (l ∷ labels) [] m = absurd m
length-Matches r (l ∷ labels) (d ∷ out) (e, m) = ap suc (length-Matches r labels out m)

IsRemap-nil : IsRemap [] 0
unfolding lookup_label
IsRemap-nil = record {
  below = λ l d e. absurd (ground (arith, e));
  apart = λ l j d e f. absurd (ground (arith, e));
}

-- Two nodes have one number in the dense labels exactly when they have one label, and each number is
-- below the count of the numbers; there is a number for every node.
pub dense_labels_iff :
    (labels : List ℕ) (i j : ℕ)
    → i < length labels
    → j < length labels
    → let (out, k) = dense_labels labels in
      ((at i out ≡ at j out) ↔ (at i labels ≡ at j labels))
      × (at i out < k)
      × (length out ≡ length labels)
unfolding dense_labels
dense_labels_iff labels i j a b =
    let (out, k) = dense_from [] 0 labels in
    let h = IsRenumbered-dense_from labels [] 0 IsRemap-nil in
    let at_i = lookup-at h.remap labels out i h.matched a in
    let at_j = lookup-at h.remap labels out j h.matched b in
    (
      (
        (λ e.
            h.remapped.apart (at i labels) (at j labels) (at j out) (ground (arith, at_i, e)) at_j),
        (λ e. ground (arith, at_i, at_j, e)),
      ),
      h.remapped.below (at i labels) (at i out) at_i,
      length-Matches h.remap labels out h.matched,
    )
