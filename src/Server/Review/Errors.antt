-- ===== src/Server/Review/Errors.antt =====
-- A resolution that is refused.
use ragamuffin.Base.{
  ℕ, ◌≡◌, refl, true, false, Option, none, some, [], ◌∷◌, arith, Bool-cases, Option-cases, inl, inr,
  ◌⊎◌,
}
use ragamuffin.Text.{Text, codes, same_text}
use ragamuffin.Text.Order.{same_text_iff}
use ragamuffin.Auth.{Claims}
use ragamuffin.Chunker.Links.{is_empty}
use ragamuffin.Store.Payload.{Fields}
use ragamuffin.Server.{
  Settings, FactStore, Point, Write, write_failed, write_done, refused, refuse, lacks_write,
  scroll_key,
}
use ragamuffin.Server.Contract.{Write-cases}
use ragamuffin.Server.Review.{
  ResolveRequest, Action, to_confirm, to_supersede, to_reject, to_reclassify, resolve_fields, touch,
  action_of, handle_review_post, resolve, write_back, supersede_with, creates,
  review_supersede_create, point_at, replacement_fields, invalid_replacement,
}

creates-true :
    (a : Action) (req : ResolveRequest)
    → creates a req ≡ true
    → (a ≡ to_supersede) × (is_empty req.new_value ≡ false)
unfolding creates
creates-true to_confirm req h = absurd (ground (arith, h))
creates-true to_supersede req h = (refl, ground (arith, h))
creates-true to_reject req h = absurd (ground (arith, h))
creates-true to_reclassify req h = absurd (ground (arith, h))

action_of-supersede : (s : Text) → action_of s ≡ some to_supersede → s ≡ codes "supersede"
unfolding action_of
action_of-supersede s h = elim (Bool-cases (same_text s (codes "confirm"))) [
  | inl e ↦ absurd (ground (arith, h, e))
  | inr e ↦ elim (Bool-cases (same_text s (codes "supersede"))) [
    | inl f ↦ (same_text_iff s (codes "supersede")).0 f
    | inr f ↦ elim (Bool-cases (same_text s (codes "reject"))) [
      | inl g ↦ absurd (ground (arith, h, e, f, g))
      | inr g ↦ absurd (ground (arith, h, e, f, g, Bool-cases (same_text s (codes "reclassify"))))
    ]
  ]
]

module _ {S : Type 0} (cfg : Settings) (store : FactStore S) where
  -- A write of the point of a key
  abbrev pub IsUpserted : S → Text → Write S → Type 0
  IsUpserted s key w = (p : Point) × (p.id ≡ cfg.key_hash key) × (store.upsert s p ≡ w)

  -- The first write is the one that failed: that of the fact itself, or that of the new fact.
  abbrev pub IsFailedFirst : S → S → Text → ResolveRequest → ℕ → Text → Type 0
  IsFailedFirst s t key req status code =
      (IsUpserted s key (write_failed t) × (status ≡ 500) × (code ≡ codes "UPSERT_FAILED"))
      ⊎ (IsUpserted s req.new_key (write_failed t)
          × (req.action ≡ codes "supersede")
          × (status ≡ 400)
          × (code ≡ codes "SUPERSEDE_CREATE_FAILED"))

  -- The new fact is stored, and the write of the old one failed.
  abbrev pub IsHalfDone : S → S → Text → ResolveRequest → ℕ → Text → Type 0
  IsHalfDone s t key req status code =
      (middle : S) × (req.action ≡ codes "supersede")
      × (is_empty req.new_value ≡ false)
      × IsUpserted s req.new_key (write_done middle)
      × IsUpserted middle key (write_failed t)
      × (status ≡ 500)
      × (code ≡ codes "UPSERT_FAILED")

  abbrev IsRefusal : S → S → Text → ResolveRequest → ℕ → Text → Type 0
  IsRefusal s t key req status code =
      (t ≡ s) ⊎ (IsFailedFirst s t key req status code ⊎ IsHalfDone s t key req status code)

  refused-write_back :
      (s : S) (now : ℕ) (key : Text) (req : ResolveRequest) (p : Fields) (status : ℕ) (code : Text)
      → (write_back cfg store s now key req p).reply ≡ refused status code
      → IsFailedFirst s (write_back cfg store s now key req p).state key req status code
  unfolding write_back refuse point_at
  refused-write_back s now key req p status code h =
      elim (Write-cases (store.upsert s (point_at cfg key (touch cfg now p)))) [
        | inl (t, e) ↦ inl (
          (point_at cfg key (touch cfg now p), refl, ground (arith, e)),
          ground (arith, h, e),
          ground (arith, h, e),
        )
        | inr (t, e) ↦ absurd (ground (arith, h, e))
      ]

  refused-supersede_with :
      (s : S) (now : ℕ) (key : Text) (req : ResolveRequest) (p : Fields) (status : ℕ) (code : Text)
      → req.action ≡ codes "supersede"
      → is_empty req.new_value ≡ false
      → (supersede_with cfg store s now key req p).reply ≡ refused status code
      → IsRefusal s (supersede_with cfg store s now key req p).state key req status code
  unfolding supersede_with refuse point_at review_supersede_create
  refused-supersede_with s now key req p status code named given h =
      let new = point_at cfg req.new_key (replacement_fields cfg now req p) in
      let old = point_at cfg key (touch cfg now p) in
      elim (Bool-cases (invalid_replacement req)) [
        | inl e ↦ inl (ground (arith, e))
        | inr e ↦ elim (Write-cases (store.upsert s new)) [
          | inl (t, f) ↦ inr (
              inl (
                inr (
                  (new, refl, ground (arith, e, f)),
                  named,
                  ground (arith, h, e, f),
                  ground (arith, h, e, f),
                )))
          | inr (t, f) ↦ elim (Write-cases (store.upsert t old)) [
            | inl (u, g) ↦ inr (
                inr (
                  t,
                  named,
                  given,
                  (new, refl, f),
                  (old, refl, ground (arith, e, f, g)),
                  ground (arith, h, e, f, g),
                  ground (arith, h, e, f, g),
                ))
            | inr (u, g) ↦ absurd (ground (arith, h, e, f, g))
          ]
        ]
      ]

  refused-resolve :
      (s : S) (now : ℕ) (key : Text) (req : ResolveRequest) (a : Action) (old : Fields) (status : ℕ)
      (code : Text)
      → action_of req.action ≡ some a
      → (resolve cfg store s now key req a old).reply ≡ refused status code
      → IsRefusal s (resolve cfg store s now key req a old).state key req status code
  unfolding resolve
  refused-resolve s now key req a old status code chosen h =
      let p = resolve_fields cfg now req a old in
      elim (Bool-cases (creates a req)) [
        | inl e ↦
            let (action, given) = creates-true a req e in
            let named = action_of-supersede req.action (ground (arith, chosen, action)) in
            rw (e, resolve)
              (refused-supersede_with s now key req p status code named given
                (ground (arith, h, e)))
        | inr e ↦
            rw (e, resolve)
              (inr (inl (refused-write_back s now key req p status code (ground (arith, h, e)))))
      ]

  -- What a request that is refused leaves behind.
  abbrev pub IsRefused : S → S → Text → Option ResolveRequest → ℕ → Text → Type 0
  IsRefused s t key body status code =
      (t ≡ s)
      ⊎ ((req : ResolveRequest) × (body ≡ some req)
          × (IsFailedFirst s t key req status code ⊎ IsHalfDone s t key req status code))

  with_request :
      (s t : S) (key : Text) (req : ResolveRequest) (status : ℕ) (code : Text)
      → IsRefusal s t key req status code
      → IsRefused s t key (some req) status code
  with_request s t key req status code (inl same) = inl same
  with_request s t key req status code (inr failed) = inr (req, refl, failed)

  -- A request that is refused leaves the store as it was, or as its first write has left it that
  -- failed, with the status and the code that go with that write. The exception is a request to supersede
  -- with a new value whose new fact is stored already when the write of the old one fails: then the new
  -- fact's write is not undone, and the answer is 500, UPSERT_FAILED.
  pub refused-handle_review_post :
      (s : S) (now : ℕ) (claims : Option Claims) (key : Text) (body : Option ResolveRequest)
      (status : ℕ) (code : Text)
      → (handle_review_post cfg store s now claims key body).reply ≡ refused status code
      → IsRefused s (handle_review_post cfg store s now claims key body).state key body status code
  unfolding handle_review_post refuse
  refused-handle_review_post s now claims key none status code h =
      inl (ground (arith, Bool-cases (lacks_write claims), Bool-cases (is_empty key)))
  refused-handle_review_post s now claims key (some req) status code h =
      elim (Bool-cases (lacks_write claims)) [
        | inl e ↦ inl (ground (arith, e))
        | inr e1 ↦ elim (Bool-cases (is_empty key)) [
          | inl e ↦ inl (ground (arith, e1, e))
          | inr e2 ↦ elim (Bool-cases (is_empty req.action)) [
            | inl e ↦ inl (ground (arith, e1, e2, e))
            | inr e3 ↦ elim (Option-cases (scroll_key store s key)) [
              | inl e ↦ inl (ground (arith, e1, e2, e3, e))
              | inr ([], e) ↦ inl (ground (arith, e1, e2, e3, e))
              | inr (old ∷ points, e4) ↦ elim (Option-cases (action_of req.action)) [
                | inl e ↦ inl (ground (arith, e1, e2, e3, e4, e))
                | inr (a, e5) ↦
                    let same : handle_review_post cfg store s now claims key (some req)
                        ≡ resolve cfg store s now key req a old.payload =
                      ground (arith, e1, e2, e3, e4, e5) in
                    rw same (
                      with_request s (resolve cfg store s now key req a old.payload).state key req
                        status code
                        (refused-resolve s now key req a old.payload status code e5
                          (rw (← same) h)))
              ]
            ]
          ]
        ]
      ]
