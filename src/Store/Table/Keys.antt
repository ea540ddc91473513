-- ===== src/Store/Table/Keys.antt =====
-- The order of the keys, and tables that keep it.
use ragamuffin.Base.{◌≡◌, refl, ap, inl, inr, true, false, [], ◌∷◌, arith, Bool-cases, All}
use ragamuffin.Text.{Text, same_text}
use ragamuffin.Text.Order.{same_text_iff, same_text_refl, same_text_comm, eq_of_same_text}
use ragamuffin.Store.Table.{Row, Table, less_text, put_row, rows_in, one_of}

pub less_text_irrefl : (s : Text) → less_text s s ≡ false
unfolding less_text
less_text_irrefl [] = refl
less_text_irrefl (a ∷ s) = ground (arith, less_text_irrefl s)

pub less_text_trans :
    (s t u : Text) → less_text s t ≡ true → less_text t u ≡ true → less_text s u ≡ true
unfolding less_text
less_text_trans s t [] h k = cc
less_text_trans s [] (c ∷ u) h k = cc
less_text_trans [] (b ∷ t) (c ∷ u) h k = refl
less_text_trans (a ∷ s) (b ∷ t) (c ∷ u) h k = ground (arith, less_text_trans s t u)

less_text_total :
    (s t : Text) → same_text s t ≡ false → less_text s t ≡ false → less_text t s ≡ true
unfolding less_text same_text
less_text_total [] [] h k = cc
less_text_total [] (b ∷ t) h k = cc
less_text_total (a ∷ s) [] h k = refl
less_text_total (a ∷ s) (b ∷ t) h k = ground (arith, less_text_total s t)

pub less_text_ne : (s t : Text) → less_text s t ≡ true → same_text s t ≡ false
less_text_ne s t h = elim (Bool-cases (same_text s t)) [
  | inl e ↦
      let same : s ≡ t = eq_of_same_text s t e in
      absurd (cc (less_text_irrefl t, ap (λ x. less_text x t) same))
  | inr e ↦ e
]

pub less_text_asym : (s t : Text) → less_text s t ≡ true → less_text t s ≡ false
less_text_asym s t h = elim (Bool-cases (less_text t s)) [
  | inl e ↦ absurd (cc (less_text_irrefl s, less_text_trans s t s h e))
  | inr e ↦ e
]

-- Every key lies above `k`.
abbrev pub Above : Text → Table → Type 0
Above k = All (λ (q : Row). less_text k q.id_key ≡ true)

abbrev pub IsSorted : Table → Type 0
IsSorted [] = Unit
IsSorted (q ∷ t) = Above q.id_key t × IsSorted t

pub Above-trans : (j k : Text) (t : Table) → less_text j k ≡ true → Above k t → Above j t
Above-trans j k [] h a = tt
Above-trans j k (q ∷ t) h (p, a) = (less_text_trans j k q.id_key h p, Above-trans j k t h a)

Above-put_row :
    (k : Text) (r : Row) (t : Table)
    → less_text k r.id_key ≡ true
    → Above k t
    → Above k (put_row r t)
unfolding put_row
Above-put_row k r [] h a = (h, tt)
Above-put_row k r (q ∷ t) h (p, a) = elim (Bool-cases (same_text r.id_key q.id_key)) [
  | inl e ↦ rw (e, put_row) (h, a)
  | inr e ↦ elim (Bool-cases (less_text r.id_key q.id_key)) [
    | inl l ↦ rw (e, put_row) (rw l (h, (p, a)))
    | inr l ↦ rw (e, put_row) (rw l (p, Above-put_row k r t h a))
  ]
]

-- Writing a row keeps the rows of a table in the order of their keys, each key once.
pub IsSorted-put_row : (r : Row) (t : Table) → IsSorted t → IsSorted (put_row r t)
unfolding put_row
IsSorted-put_row r [] s = (tt, tt)
IsSorted-put_row r (q ∷ t) (a, s) = elim (Bool-cases (same_text r.id_key q.id_key)) [
  | inl e ↦ rw (e, put_row) (rw (eq_of_same_text r.id_key q.id_key e) a, s)
  | inr e ↦ elim (Bool-cases (less_text r.id_key q.id_key)) [
    | inl l ↦ rw (e, put_row) (rw l ((l, Above-trans r.id_key q.id_key t l a), (a, s)))
    | inr l ↦
        rw (e, put_row)
          (rw l (
            Above-put_row q.id_key r t (less_text_total r.id_key q.id_key e l) a,
            IsSorted-put_row r t s,
          ))
  ]
]

-- No row above a key has that key.
rows_in-Above : (k : Text) (t : Table) → Above k t → rows_in (k ∷ []) t ≡ []
unfolding rows_in
rows_in-Above k [] a = refl
rows_in-Above k (q ∷ t) (p, a) = ground (
  arith,
  rows_in-Above k t a,
  less_text_ne k q.id_key p,
  same_text_iff k q.id_key,
  same_text_iff q.id_key k,
)

-- After a write, the row with that key is the one that was written.
pub rows_in-put_row :
    (r : Row) (t : Table) → IsSorted t → rows_in (r.id_key ∷ []) (put_row r t) ≡ r ∷ []
unfolding put_row rows_in one_of
rows_in-put_row r [] s = rw same_text_refl
rows_in-put_row r (q ∷ t) (a, s) = elim (Bool-cases (same_text r.id_key q.id_key)) [
  | inl e ↦
      rw (e, put_row)
        (rw (same_text_refl r.id_key, rows_in)
          (ap (λ x. r ∷ x) (rows_in-Above r.id_key t (rw (eq_of_same_text r.id_key q.id_key e) a))))
  | inr e ↦ elim (Bool-cases (less_text r.id_key q.id_key)) [
    | inl l ↦
        rw (e, put_row)
          (rw l (
            rw (same_text_refl r.id_key, rows_in)
              (ap (λ x. r ∷ x)
                (rows_in-Above r.id_key (q ∷ t) (l, Above-trans r.id_key q.id_key t l a)))))
    | inr l ↦
        rw (e, put_row)
          (rw l (ground (arith, same_text_comm q.id_key r.id_key, rows_in-put_row r t s)))
  ]
]
