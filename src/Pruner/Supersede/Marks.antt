-- ===== src/Pruner/Supersede/Marks.antt =====
-- Which facts are marked: exactly those that a higher version of the same prefix supersedes.
use ragamuffin.Base.{
  ◌<◌, ◌≡◌, ◌↔◌, refl, sym, ap, ◌∙◌, inl, inr, Bool, true, false, Option, none, some, List, [], ◌∷◌,
  ◌++◌, append_assoc, append-nil, arith, if◌then◌else◌, Bool-cases, leb,
}
use ragamuffin.Text.{Text, same_text}
use ragamuffin.Text.Order.{same_text_refl, same_text_comm, eq_of_same_text}
use ragamuffin.Text.Maps.{lookup, insert, lookup-insert}
use ragamuffin.Chunker.Links.{is_empty}
use ragamuffin.Pruner.Supersede.{
  Fact, VersionedFact, members, group, mark_group, mark_groups, parse_versioned_key,
  supersede_key_pattern,
}
use ragamuffin.Pruner.Supersede.Group.{IsIn, IsIn-append, versions_of, IsIn-mark_group}

abbrev IsDistinct : List (Text × List VersionedFact) → Type 0
IsDistinct [] = Unit
IsDistinct ((k, g) ∷ m) = (lookup k m ≡ none) × IsDistinct m

IsDistinct-insert :
    (k : Text) (g : List VersionedFact) (m : List (Text × List VersionedFact))
    → IsDistinct m
    → IsDistinct (insert k g m)
unfolding insert lookup
IsDistinct-insert k g [] u = (refl, tt)
IsDistinct-insert k g ((j, s) ∷ m) (h, u) = elim (Bool-cases (same_text j k)) [
  | inl e ↦ rw e (rw (← eq_of_same_text j k e) h, u)
  | inr e ↦
      let other : same_text k j ≡ false = rw (same_text_comm k j) e in
      let missing : lookup j (insert k g m) ≡ none = rw (lookup-insert k j g m, other) h in
      rw e (missing, IsDistinct-insert k g m u)
]

no_marks : (f : VersionedFact) → IsIn f (mark_group (members none)) → ⊥
unfolding mark_group members
no_marks f h = h

lookup_empty : (q : Text) → lookup {V = List VersionedFact} q [] ≡ none
unfolding lookup
lookup_empty q = refl

-- The facts that are marked in the group of a prefix, if it has one.
abbrev IsMarkedIn : VersionedFact → Option (List VersionedFact) → Type 0
IsMarkedIn f o = IsIn f (mark_group (members o))

move_mark :
    (f : VersionedFact) (a b : Option (List VersionedFact))
    → a ≡ b
    → IsMarkedIn f a
    → IsMarkedIn f b
move_mark f a b e k = rw (← e) k

lookup_head :
    (p q : Text) (g : List VersionedFact) (m : List (Text × List VersionedFact))
    → lookup q ((p, g) ∷ m) ≡ (if same_text p q then some g else lookup q m)
unfolding lookup
lookup_head p q g m = refl

some_marks :
    (f : VersionedFact) (g : List VersionedFact) → IsMarkedIn f (some g) → IsIn f (mark_group g)
unfolding members
some_marks f g k = k

marks_some :
    (f : VersionedFact) (g : List VersionedFact) → IsIn f (mark_group g) → IsMarkedIn f (some g)
unfolding members
marks_some f g k = k

IsIn-mark_groups :
    (f : VersionedFact) (groups : List (Text × List VersionedFact))
    → IsDistinct groups
    → IsIn f (mark_groups groups) ↔ ((prefix : Text) × IsMarkedIn f (lookup prefix groups))
unfolding mark_groups
IsIn-mark_groups f [] u =
    (λ h. absurd h, λ (q, h). no_marks f (move_mark f (lookup q []) none (lookup_empty q) h))
IsIn-mark_groups f ((p, g) ∷ groups) (missing, u) =
    let (to, from) = IsIn-mark_groups f groups u in
    let (split, join) = IsIn-append f (mark_group g) (mark_groups groups) in
    (
      λ h. elim (split h) [
        | inl k ↦
            let here : some g ≡ lookup p ((p, g) ∷ groups) =
              ground (arith, lookup_head p p g groups, same_text_refl p) in
            (p, move_mark f (some g) (lookup p ((p, g) ∷ groups)) here (marks_some f g k))
        | inr k ↦
            let (q, k') = to k in
            elim (Bool-cases (same_text p q)) [
              | inl e ↦
                  let gone : lookup q groups ≡ none = rw (← eq_of_same_text p q e) missing in
                  absurd (no_marks f (move_mark f (lookup q groups) none gone k'))
              | inr e ↦
                  let there : lookup q groups ≡ lookup q ((p, g) ∷ groups) =
                    ground (arith, lookup_head p q g groups, e) in
                  (q, move_mark f (lookup q groups) (lookup q ((p, g) ∷ groups)) there k')
            ]
      ],
      λ (q, k). elim (Bool-cases (same_text p q)) [
        | inl e ↦
            let here : lookup q ((p, g) ∷ groups) ≡ some g =
              ground (arith, lookup_head p q g groups, e) in
            join (inl (some_marks f g (move_mark f (lookup q ((p, g) ∷ groups)) (some g) here k)))
        | inr e ↦
            let there : lookup q ((p, g) ∷ groups) ≡ lookup q groups =
              ground (arith, lookup_head p q g groups, e) in
            join
              (inr (from (q, move_mark f (lookup q ((p, g) ∷ groups)) (lookup q groups) there k)))
      ],
    )

IsDistinct-group :
    (facts : List Fact) (groups : List (Text × List VersionedFact))
    → IsDistinct groups
    → IsDistinct (group facts groups)
unfolding group
IsDistinct-group [] groups u = u
IsDistinct-group (f ∷ facts) groups u = elim (Bool-cases (is_empty f.key)) [
  | inl e ↦ rw (e, group) (IsDistinct-group facts groups u)
  | inr e ↦ elim (Bool-cases (leb 1 (parse_versioned_key f.key).1)) [
    | inl l ↦ rw (e, group) (rw l (IsDistinct-group facts _ (IsDistinct-insert _ _ groups u)))
    | inr l ↦ rw (e, group) (rw l (IsDistinct-group facts groups u))
  ]
]

members-insert :
    (q prefix : Text) (v : VersionedFact) (m : List (Text × List VersionedFact))
    → members (lookup prefix (insert q (members (lookup q m) ++ v ∷ []) m))
      ≡ members (lookup prefix m) ++ (if same_text q prefix then v ∷ [] else [])
unfolding members
members-insert q prefix v m = elim (Bool-cases (same_text q prefix)) [
  | inl e ↦
      rw (lookup-insert q prefix (members (lookup q m) ++ v ∷ []) m, e, eq_of_same_text q prefix e)
        refl
  | inr e ↦
      rw (lookup-insert q prefix (members (lookup q m) ++ v ∷ []) m, e)
        (sym (append-nil (members (lookup prefix m))))
]

members-none : (xs : List VersionedFact) → members none ++ xs ≡ xs
unfolding members
members-none xs = refl

append_if :
    (b : Bool) (v : VersionedFact) (xs ys : List VersionedFact)
    → (xs ++ (if b then v ∷ [] else [])) ++ ys ≡ xs ++ (if b then v ∷ ys else ys)
append_if true v xs ys = append_assoc xs (v ∷ []) ys
append_if false v xs ys = ap (λ zs. zs ++ ys) (append-nil xs)

-- The group of a prefix is what was in it, and the facts of that prefix.
members-group :
    (prefix : Text) (facts : List Fact) (groups : List (Text × List VersionedFact))
    → members (lookup prefix (group facts groups))
      ≡ members (lookup prefix groups) ++ versions_of prefix facts
unfolding group versions_of
members-group prefix [] groups = sym (append-nil (members (lookup prefix groups)))
members-group prefix (f ∷ facts) groups =
    let q = (parse_versioned_key f.key).0 in
    let v : VersionedFact = record {
      point_id = f.point_id;
      version = (parse_versioned_key f.key).1;
      key = f.key;
    } in
    elim (Bool-cases (is_empty f.key)) [
      | inl e ↦ rw (e, group, versions_of) (members-group prefix facts groups)
      | inr e ↦ elim (Bool-cases (leb 1 (parse_versioned_key f.key).1)) [
        | inr l ↦ rw (e, group, versions_of) (rw l (members-group prefix facts groups))
        | inl l ↦
            let next =
              members-group prefix facts (insert q (members (lookup q groups) ++ v ∷ []) groups) in
            rw (e, group, versions_of)
              (rw l (
                next
                ∙ ap (λ xs. xs ++ versions_of prefix facts) (members-insert q prefix v groups)
                ∙ append_if (same_text q prefix) v (members (lookup prefix groups))
                    (versions_of prefix facts)))
      ]
    ]

members-start :
    (prefix : Text) (facts : List Fact)
    → members (lookup prefix (group facts [])) ≡ versions_of prefix facts
members-start prefix facts =
    members-group prefix facts []
    ∙ ap (λ o. members o ++ versions_of prefix facts) (lookup_empty prefix)
    ∙ members-none (versions_of prefix facts)

-- A fact is marked exactly if it has a key with a version, and another such fact of the same prefix has
-- a higher one.
pub IsIn-supersede_key_pattern :
    (facts : List Fact) (f : VersionedFact)
    → IsIn f (supersede_key_pattern facts) ↔ (
        (prefix : Text) × IsIn f (versions_of prefix facts)
        × ((h : VersionedFact) × IsIn h (versions_of prefix facts) × (f.version < h.version)))
unfolding supersede_key_pattern
IsIn-supersede_key_pattern facts f =
    let groups = group facts [] in
    let (to, from) = IsIn-mark_groups f groups (IsDistinct-group facts [] tt) in
    (
      λ k.
          let (q, k') = to k in
          let (a, higher) = (IsIn-mark_group f (members (lookup q groups))).0 k' in
          (q, rw (← members-start q facts) a, rw (← members-start q facts) higher),
      λ (q, a, higher). from (
        q,
        (IsIn-mark_group f (members (lookup q groups))).1
            (rw (members-start q facts) a, rw (members-start q facts) higher),
      ),
    )
