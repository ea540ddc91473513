-- ===== src/Graph/Sums.antt =====
-- Sums over the lists of a graph.
use ragamuffin.Base.{
  ℕ, zero, suc, ◌+◌, ◌*◌, ◌<◌, ◌≡◌, refl, ap, List, [], ◌∷◌, arith, length, ltb, if◌then◌else◌,
}
use ragamuffin.Graph.{add_at, add_to, add_neighbour, Neighbours, fold_degrees, fold_total, repeated}

unfoldable pub sum : List ℕ → ℕ
sum [] = 0
sum (x ∷ xs) = x + sum xs

pub sum-add_at : (i w : ℕ) (xs : List ℕ) → i < length xs → sum (add_at i w xs) ≡ sum xs + w
unfolding sum add_at
sum-add_at i w [] h = absurd (omega arith)
sum-add_at zero w (x ∷ xs) h = omega arith
sum-add_at (suc i) w (x ∷ xs) h = let e = sum-add_at i w xs (omega arith) in omega arith

pub length-add_at : (i w : ℕ) (xs : List ℕ) → length (add_at i w xs) ≡ length xs
unfolding add_at
length-add_at i w [] = refl
length-add_at zero w (x ∷ xs) = refl
length-add_at (suc i) w (x ∷ xs) = ap suc (length-add_at i w xs)

pub length-add_neighbour :
    (u v w : ℕ) (ms : List Neighbours) → length (add_neighbour u v w ms) ≡ length ms
unfolding add_neighbour
length-add_neighbour u v w [] = refl
length-add_neighbour zero v w (m ∷ ms) = refl
length-add_neighbour (suc u) v w (m ∷ ms) = ap suc (length-add_neighbour u v w ms)

-- The weights of a node's edges to the nodes with a greater number.
unfoldable pub upper : ℕ → Neighbours → ℕ
upper u [] = 0
upper u ((v, w) ∷ m) = (if ltb u v then w else 0) + upper u m

-- Every edge between two nodes counted once; the lists are those of the nodes from u on.
unfoldable pub edges_from : ℕ → List Neighbours → ℕ
edges_from u [] = 0
edges_from u (m ∷ ms) = upper u m + edges_from (u + 1) ms

upper-add_to :
    (u v w : ℕ) (m : Neighbours) → upper u (add_to v w m) ≡ upper u m + (if ltb u v then w else 0)
unfolding upper add_to
upper-add_to u v w [] = ground arith
upper-add_to u v w ((j, x) ∷ m) = ground (arith, upper-add_to u v w m)

pub edges_from-add_neighbour :
    (i u v w : ℕ) (ms : List Neighbours)
    → u < length ms
    → edges_from i (add_neighbour u v w ms) ≡ edges_from i ms + (if ltb (i + u) v then w else 0)
unfolding edges_from add_neighbour
edges_from-add_neighbour i u v w [] h = absurd (omega arith)
edges_from-add_neighbour i zero v w (m ∷ ms) h = ground (arith, upper-add_to i v w m)
edges_from-add_neighbour i (suc u) v w (m ∷ ms) h =
    ground (arith, edges_from-add_neighbour (i + 1) u v w ms (omega arith))

pub fold_total-sum : (xs : List ℕ) (t : ℕ) → fold_total xs t ≡ t + 2 * sum xs
unfolding fold_total sum
fold_total-sum [] t = omega arith
fold_total-sum (x ∷ xs) t = ground (arith, fold_total-sum xs t, fold_total-sum xs (t + 2 * x))

pub sum-fold_degrees :
    (xs ds : List ℕ) → length xs ≡ length ds → sum (fold_degrees xs ds) ≡ sum ds + 2 * sum xs
unfolding fold_degrees sum
sum-fold_degrees [] ds h = omega arith
sum-fold_degrees (x ∷ xs) [] h = absurd (omega arith)
sum-fold_degrees (x ∷ xs) (d ∷ ds) h = ground (arith, sum-fold_degrees xs ds (omega arith))

pub length-fold_degrees :
    (xs ds : List ℕ) → length xs ≡ length ds → length (fold_degrees xs ds) ≡ length ds
unfolding fold_degrees
length-fold_degrees [] ds h = refl
length-fold_degrees (x ∷ xs) [] h = absurd (omega arith)
length-fold_degrees (x ∷ xs) (d ∷ ds) h = ap suc (length-fold_degrees xs ds (omega arith))

pub length-repeated {ℓ} : {A : Type ℓ} (n : ℕ) (a : A) → length (repeated n a) ≡ n
unfolding repeated
length-repeated zero a = refl
length-repeated (suc n) a = ap suc (length-repeated n a)

pub sum-repeated : (n : ℕ) → sum (repeated n 0) ≡ 0
unfolding repeated sum
sum-repeated zero = refl
sum-repeated (suc n) = let e = sum-repeated n in omega arith

pub edges_from-repeated : (u n : ℕ) → edges_from u (repeated n []) ≡ 0
unfolding repeated edges_from upper
edges_from-repeated u zero = refl
edges_from-repeated u (suc n) = let e = edges_from-repeated (u + 1) n in omega arith
