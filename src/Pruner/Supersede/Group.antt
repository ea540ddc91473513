-- ===== src/Pruner/Supersede/Group.antt =====
-- Which facts of one group are marked.
use ragamuffin.Base.{
  ℕ, ◌≤◌, ◌<◌, ◌≡◌, ◌↔◌, refl, sym, ap, ◌∙◌, inl, inr, ◌⊎◌, List, [], ◌∷◌, ◌++◌, arith,
  if◌then◌else◌, Bool-cases, ltb, ltb→lt, leb, length,
}
use ragamuffin.Text.{Text, same_text}
use ragamuffin.Chunker.Links.{is_empty}
use ragamuffin.Pruner.Supersede.{
  Fact, VersionedFact, max_version, lower, mark_group, parse_versioned_key,
}

abbrev pub IsIn : VersionedFact → List VersionedFact → Type 0
IsIn f [] = ⊥
IsIn f (g ∷ gs) = (f ≡ g) ⊎ IsIn f gs

pub IsIn-append :
    (f : VersionedFact) (xs ys : List VersionedFact) → IsIn f (xs ++ ys) ↔ (IsIn f xs ⊎ IsIn f ys)
IsIn-append f [] ys = (λ h. inr h, λ h. elim h [ inl e ↦ absurd e | inr k ↦ k ])
IsIn-append f (x ∷ xs) ys =
    let (split, join) = IsIn-append f xs ys in
    (
      λ h. elim h [
        | inl e ↦ inl (inl e)
        | inr k ↦ elim (split k) [ inl a ↦ inl (inr a) | inr b ↦ inr b ]
      ],
      λ h. elim h [
        | inl (inl e) ↦ inl e
        | inl (inr a) ↦ inr (join (inl a))
        | inr b ↦ inr (join (inr b))
      ],
    )

-- The facts of a prefix that have a key and a version, as they come.
unfoldable pub versions_of : Text → List Fact → List VersionedFact
versions_of prefix [] = []
versions_of prefix (f ∷ facts) =
    let rest = versions_of prefix facts in
    let fact : VersionedFact = record {
      point_id = f.point_id;
      version = (parse_versioned_key f.key).1;
      key = f.key;
    } in
    if is_empty f.key
    then rest
    else if leb 1 (parse_versioned_key f.key).1
    then (if same_text (parse_versioned_key f.key).0 prefix then fact ∷ rest else rest)
    else rest

IsIn-lower :
    (f : VersionedFact) (m : ℕ) (g : List VersionedFact)
    → IsIn f (lower m g) ↔ (IsIn f g × (f.version < m))
unfolding lower
IsIn-lower f m [] = (λ h. absurd h, λ h. absurd h.0)
IsIn-lower f m (x ∷ g) =
    let (to, from) = IsIn-lower f m g in
    elim (Bool-cases (ltb x.version m)) [
      | inl e ↦ rw e (
        λ h. elim h [
          | inl same ↦ (inl same, rw same (ltb→lt _ _ e))
          | inr k ↦ (inr (to k).0, (to k).1)
        ],
        λ h. elim h.0 [ inl same ↦ inl same | inr k ↦ inr (from (k, h.1)) ],
      )
      | inr e ↦ rw e (
        λ h. (inr (to h).0, (to h).1),
        λ h. elim h.0 [
          | inl same ↦ absurd (ground (arith, e, h.1, ap (λ (v : VersionedFact). v.version) same))
          | inr k ↦ from (k, h.1)
        ],
      )
    ]

-- The greatest version is that of a fact, or the one that the loop began with; none is greater.
max_version_lem :
    (m : ℕ) (g : List VersionedFact)
    → (m ≤ max_version m g)
      × ((f : VersionedFact) → IsIn f g → f.version ≤ max_version m g)
      × ((max_version m g ≡ m) ⊎ ((f : VersionedFact) × IsIn f g × (f.version ≡ max_version m g)))
unfolding max_version
max_version_lem m [] = (omega arith, (λ f h. absurd h), inl refl)
max_version_lem m (x ∷ g) =
    let next = if ltb m x.version then x.version else m in
    let (above, all, attained) = max_version_lem next g in
    let from_m : m ≤ next = ground arith in
    let from_x : x.version ≤ next = ground arith in
    (
      omega (arith, above, from_m),
      (λ f h. elim h [
        | inl same ↦ omega (arith, above, from_x, ap (λ (v : VersionedFact). v.version) same)
        | inr k ↦ all f k
      ]),
      elim attained [
        | inr (f, k, e) ↦ inr (f, inr k, e)
        | inl e ↦ elim (Bool-cases (ltb m x.version)) [
          | inl l ↦
              let is_x : next ≡ x.version = ground (arith, l) in inr (x, inl refl, sym is_x ∙ sym e)
          | inr l ↦ inl (e ∙ ground (arith, l))
        ]
      ],
    )

same_of_short :
    (f h : VersionedFact) (g : List VersionedFact) → length g < 2 → IsIn f g → IsIn h g → f ≡ h
same_of_short f h [] short a b = absurd a
same_of_short f h (x ∷ []) short (inl a) (inl b) = a ∙ sym b
same_of_short f h (x ∷ []) short (inl a) (inr b) = absurd b
same_of_short f h (x ∷ []) short (inr a) b = absurd a
same_of_short f h (x ∷ y ∷ g) short a b = absurd (omega arith)

pub IsIn-mark_group :
    (f : VersionedFact) (g : List VersionedFact)
    → IsIn f (mark_group g)
      ↔ (IsIn f g × ((h : VersionedFact) × IsIn h g × (f.version < h.version)))
unfolding mark_group
IsIn-mark_group f g =
    let (above, all, attained) = max_version_lem 0 g in
    let (to, from) = IsIn-lower f (max_version 0 g) g in
    elim (Bool-cases (ltb (length g) 2)) [
      | inl e ↦ rw e (
        λ k. absurd k,
        λ (a, (h, b, lt)).
            let same = same_of_short f h g (ltb→lt _ _ e) a b in
            absurd (omega (arith, lt, ap (λ (v : VersionedFact). v.version) same)),
      )
      | inr e ↦ rw e (
        λ k.
            let (a, lt) = to k in
            (
              a,
              elim attained [
                | inl zero_max ↦ absurd (omega (arith, lt, zero_max))
                | inr (h, b, greatest) ↦ (h, b, rw greatest lt)
              ],
            ),
        λ (a, (h, b, lt)). from (a, omega (arith, lt, all h b)),
      )
    ]
