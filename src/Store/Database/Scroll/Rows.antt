-- ===== src/Store/Database/Scroll/Rows.antt =====
-- The rows behind a key, and what reading them gives.
use ragamuffin.Base.{
  ℕ, zero, suc, ◌≤◌, ◌≡◌, refl, ap, inl, inr, true, some, List, [], ◌∷◌, arith, Bool-cases,
  Option-cases, All, length, take, drop, length-take,
}
use ragamuffin.Text.{Text}
use ragamuffin.Store.PointId.{PointId, encode_point_id, decode_point_id}
use ragamuffin.Store.Table.{Row, Table, less_text, rows_above}
use ragamuffin.Store.Table.Keys.{less_text_trans, Above, IsSorted}
use ragamuffin.Store.Payload.{decode_payload}
use ragamuffin.Store.Database.Points.{vectors_output, Retrieved, retrieved, retrieve_all}

-- A row whose id is read back as it was written.
abbrev pub IsReadable : Row → Type 0
IsReadable r =
    (id : PointId) × (decode_point_id r.id_key r.id_kind ≡ some id)
    × (encode_point_id id ≡ some (r.id_key, r.id_kind))

-- The points that rows were read as: the id of each is the key of its row.
abbrev pub ReadAs : Table → List Retrieved → Type 0
ReadAs [] [] = Unit
ReadAs (r ∷ t) (p ∷ ps) = (encode_point_id p.id ≡ some (r.id_key, r.id_kind)) × ReadAs t ps
ReadAs _ _ = ⊥

pub retrieve_readable :
    (t : Table)
    → All IsReadable t
    → (ps : List Retrieved) × (retrieve_all t ≡ some ps) × ReadAs t ps
unfolding retrieve_all retrieved
retrieve_readable [] h = ([], refl, tt)
retrieve_readable (r ∷ t) ((id, d, e), h) =
    let (ps, read, keys) = retrieve_readable t h in
    (
      record { id = id; payload = decode_payload r.payload; vectors = vectors_output r.vector }
          ∷ ps,
      rw (d, read),
      (e, keys),
    )

-- Reading goes row by row.
retrieve_cons :
    (r : Row) (t : Table) (ps : List Retrieved)
    → retrieve_all (r ∷ t) ≡ some ps
    → (p : Retrieved) × (qs : List Retrieved) × (ps ≡ p ∷ qs)
      × (retrieved r ≡ some p)
      × (retrieve_all t ≡ some qs)
unfolding retrieve_all
retrieve_cons r t ps h = elim (Option-cases (retrieved r)) [
  | inl e ↦ absurd (ground arith)
  | inr (p, e) ↦ elim (Option-cases (retrieve_all t)) [
    | inl e' ↦ absurd (ground arith)
    | inr (qs, e') ↦ (p, qs, ground arith, e, e')
  ]
]

-- So it commutes with cutting.
pub retrieve-take :
    (n : ℕ) (t : Table) (ps : List Retrieved)
    → retrieve_all t ≡ some ps
    → retrieve_all (take n t) ≡ some (take n ps)
unfolding retrieve_all
retrieve-take zero t ps h = refl
retrieve-take (suc n) [] ps h = ground arith
retrieve-take (suc n) (r ∷ t) ps h =
    let (p, qs, e, read, rest) = retrieve_cons r t ps h in rw (e, read, retrieve-take n t qs rest)

pub retrieve-drop :
    (n : ℕ) (t : Table) (ps : List Retrieved)
    → retrieve_all t ≡ some ps
    → retrieve_all (drop n t) ≡ some (drop n ps)
retrieve-drop zero t ps h = h
retrieve-drop (suc n) [] ps h = unfold retrieve_all in ground arith
retrieve-drop (suc n) (r ∷ t) ps h =
    let (p, qs, e, read, rest) = retrieve_cons r t ps h in rw e (retrieve-drop n t qs rest)

pub length-ReadAs : (t : Table) (ps : List Retrieved) → ReadAs t ps → length ps ≡ length t
length-ReadAs [] [] h = refl
length-ReadAs [] (p ∷ ps) h = absurd h
length-ReadAs (r ∷ t) [] h = absurd h
length-ReadAs (r ∷ t) (p ∷ ps) (e, h) = ap suc (length-ReadAs t ps h)

pub take-take {ℓ} : {A : Type ℓ} (n : ℕ) (xs : List A) → take n (take (suc n) xs) ≡ take n xs
take-take zero [] = refl
take-take zero (x ∷ xs) = refl
take-take (suc n) [] = refl
take-take (suc n) (x ∷ xs) = ap (λ ys. x ∷ ys) (take-take n xs)

pub take_all {ℓ} : {A : Type ℓ} (n : ℕ) (xs : List A) → length xs ≤ n → take n xs ≡ xs
take_all zero [] h = refl
take_all zero (x ∷ xs) h = absurd (omega arith)
take_all (suc n) [] h = refl
take_all (suc n) (x ∷ xs) h = ap (λ ys. x ∷ ys) (take_all n xs (omega arith))

pub length-take_less {ℓ} :
    {A : Type ℓ} (n : ℕ) (xs : List A) → n ≤ length xs → length (take n xs) ≡ n
length-take_less n xs h = omega (arith, length-take n xs)

-- A row above a key is above every smaller key.
pub rows_above-rows_above :
    (j k : Text) (t : Table) → less_text j k ≡ true → rows_above k (rows_above j t) ≡ rows_above k t
unfolding rows_above
rows_above-rows_above j k [] h = refl
rows_above-rows_above j k (q ∷ t) h =
    ground (arith, rows_above-rows_above j k t h, less_text_trans j k q.id_key h)

Above-rows_above : (j k : Text) (t : Table) → Above j t → Above j (rows_above k t)
unfolding rows_above
Above-rows_above j k [] a = tt
Above-rows_above j k (q ∷ t) (p, a) = elim (Bool-cases (less_text k q.id_key)) [
  | inl e ↦ rw (e, rows_above) (p, Above-rows_above j k t a)
  | inr e ↦ rw (e, rows_above) (Above-rows_above j k t a)
]

pub IsSorted-rows_above : (k : Text) (t : Table) → IsSorted t → IsSorted (rows_above k t)
unfolding rows_above
IsSorted-rows_above k [] s = tt
IsSorted-rows_above k (q ∷ t) (a, s) = elim (Bool-cases (less_text k q.id_key)) [
  | inl e ↦ rw (e, rows_above) (Above-rows_above q.id_key k t a, IsSorted-rows_above k t s)
  | inr e ↦ rw (e, rows_above) (IsSorted-rows_above k t s)
]

pub All-rows_above {κ} :
    (P : Row → Type κ) (k : Text) (t : Table) → All P t → All P (rows_above k t)
unfolding rows_above
All-rows_above P k [] h = tt
All-rows_above P k (q ∷ t) (p, h) = elim (Bool-cases (less_text k q.id_key)) [
  | inl e ↦ rw (e, rows_above) (p, All-rows_above P k t h)
  | inr e ↦ rw (e, rows_above) (All-rows_above P k t h)
]

pub Above-self : (k : Text) (t : Table) → Above k (rows_above k t)
unfolding rows_above
Above-self k [] = tt
Above-self k (q ∷ t) = elim (Bool-cases (less_text k q.id_key)) [
  | inl e ↦ rw (e, rows_above) (e, Above-self k t)
  | inr e ↦ rw (e, rows_above) (Above-self k t)
]

pub rows_above_all : (k : Text) (t : Table) → Above k t → rows_above k t ≡ t
unfolding rows_above
rows_above_all k [] a = refl
rows_above_all k (q ∷ t) (p, a) = rw (p, rows_above) (ap (λ u. q ∷ u) (rows_above_all k t a))
