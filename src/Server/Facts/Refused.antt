-- ===== src/Server/Facts/Refused.antt =====
-- What a request on a fact does to the store: at most one write.
use ragamuffin.Base.{
  ℕ, ◌≡◌, refl, Option, none, some, [], ◌∷◌, arith, Bool, Bool-cases, Option-cases, inl, inr, ◌⊎◌,
}
use ragamuffin.Text.{Text, codes}
use ragamuffin.Auth.{Claims}
use ragamuffin.Chunker.Links.{is_empty}
use ragamuffin.Server.{
  Settings, FactStore, Outcome, Write, write_failed, write_done, refused, answered, refuse,
  lacks_write, scroll_key, fact_key_filter, embed_fact_vector, Point,
}
use ragamuffin.Server.Contract.{Write-cases}
use ragamuffin.Server.Facts.{
  FactPayload, handle_facts_post, Lifecycle, invalid_body, existing_lifecycle, store_fact,
  post_payload, with_defaults, point_to_fact_response,
}
use ragamuffin.Server.Facts.Update.{
  FactUpdate, handle_facts_put, handle_facts_delete, put_point, put_payload,
}
use ragamuffin.Store.Payload.{string_payload}

-- A request that is refused without a write, one whose write fails, and one whose write is done. `Tries`
-- says which write is tried, from the state before.
abbrev pub IsOneWrite {ℓ} :
    {S A : Type ℓ} → (Tries : Write S → Type ℓ) → Text → S → Outcome S A → Type ℓ
IsOneWrite {A = A} Tries failure s o =
    ((o.state ≡ s) × (status : ℕ) × (code : Text) × (o.reply ≡ refused status code))
    ⊎ ((Tries (write_failed o.state) × (o.reply ≡ refused 500 failure))
        ⊎ (Tries (write_done o.state) × (a : A) × (o.reply ≡ answered a)))

module _ {S : Type 0} (cfg : Settings) (store : FactStore S) where
  -- The upsert of a point of the key
  abbrev pub IsUpsert : S → Text → Write S → Type 0
  IsUpsert s key w = (p : Point) × (p.id ≡ cfg.key_hash key) × (store.upsert s p ≡ w)

  abbrev pub IsPost : S → Option FactPayload → Write S → Type 0
  IsPost s body w = (fp : FactPayload) × (body ≡ some fp) × IsUpsert s fp.key w

  abbrev pub IsDelete : S → Text → Write S → Type 0
  IsDelete s key w = store.delete_filtered s (fact_key_filter key) ≡ w

  IsOneWrite-store_fact :
      (s : S) (now : ℕ) (fp : FactPayload) (l : Lifecycle)
      → IsOneWrite (IsPost s (some fp)) (codes "UPSERT_FAILED") s (store_fact cfg store s now fp l)
  unfolding store_fact refuse
  IsOneWrite-store_fact s now fp l =
      let point : Point = record {
        id = cfg.key_hash fp.key;
        payload = post_payload cfg now (with_defaults (cfg.format_time now) l) fp;
        vectors = embed_fact_vector cfg fp.value;
      } in
      elim (Write-cases (store.upsert s point)) [
        | inl (t, e) ↦ inr (inl ((fp, refl, (point, refl, ground (arith, e))), ground (arith, e)))
        | inr (t, e) ↦ inr (
            inr (
              (fp, refl, (point, refl, ground (arith, e))),
              point_to_fact_response point.payload fp.key,
              ground (arith, e),
            ))
      ]

  IsOneWrite-handle_facts_post :
      (s : S) (now : ℕ) (read_again : Bool) (claims : Option Claims) (body : Option FactPayload)
      → IsOneWrite
          (IsPost s body)
          (codes "UPSERT_FAILED")
          s
          (handle_facts_post cfg store s now read_again claims body)
  unfolding handle_facts_post refuse
  IsOneWrite-handle_facts_post s now read_again claims none =
      elim (Bool-cases (lacks_write claims)) [
        | inl e ↦ inl (ground (arith, e), 403, codes "FORBIDDEN", ground (arith, e))
        | inr e ↦ inl (ground (arith, e), 400, codes "INVALID_REQUEST", ground (arith, e))
      ]
  IsOneWrite-handle_facts_post s now read_again claims (some fp) =
      elim (Bool-cases (lacks_write claims)) [
        | inl e ↦ inl (ground (arith, e), 403, codes "FORBIDDEN", ground (arith, e))
        | inr e1 ↦ elim (Option-cases (invalid_body fp)) [
          | inr (c, e) ↦ inl (ground (arith, e1, e), 400, c, ground (arith, e1, e))
          | inl e2 ↦ elim (Option-cases (existing_lifecycle cfg store s read_again fp.key)) [
            | inl e ↦
                inl (ground (arith, e1, e2, e), 500, codes "INTERNAL", ground (arith, e1, e2, e))
            | inr (l, e3) ↦
                let same : handle_facts_post cfg store s now read_again claims (some fp)
                    ≡ store_fact cfg store s now fp l =
                  ground (arith, e1, e2, e3) in
                rw same (IsOneWrite-store_fact s now fp l)
          ]
        ]
      ]

  IsOneWrite-put_point :
      (s : S) (now : ℕ) (key : Text) (req : FactUpdate) (old : Point)
      → IsOneWrite
          (IsUpsert s key)
          (codes "UPSERT_FAILED")
          s
          (put_point cfg store s now key req old)
  unfolding put_point refuse
  IsOneWrite-put_point s now key req old =
      let payload = put_payload cfg now req old.payload in
      let point : Point = record {
        id = cfg.key_hash key;
        payload = payload;
        vectors = embed_fact_vector cfg (string_payload payload (codes "fact_value"));
      } in
      elim (Write-cases (store.upsert s point)) [
        | inl (t, e) ↦ inr (inl ((point, refl, ground (arith, e)), ground (arith, e)))
        | inr (t, e) ↦ inr (
            inr (
              (point, refl, ground (arith, e)),
              point_to_fact_response payload key,
              ground (arith, e),
            ))
      ]

  IsOneWrite-handle_facts_put :
      (s : S) (now : ℕ) (claims : Option Claims) (key : Text) (body : Option FactUpdate)
      → IsOneWrite
          (IsUpsert s key)
          (codes "UPSERT_FAILED")
          s
          (handle_facts_put cfg store s now claims key body)
  unfolding handle_facts_put refuse
  IsOneWrite-handle_facts_put s now claims key body = elim (Bool-cases (lacks_write claims)) [
    | inl e ↦ inl (ground (arith, e), 403, codes "FORBIDDEN", ground (arith, e))
    | inr e1 ↦ elim (Bool-cases (is_empty key)) [
      | inl e ↦ inl (ground (arith, e1, e), 400, codes "MISSING_KEY", ground (arith, e1, e))
      | inr e2 ↦ elim (Option-cases body) [
        | inl e ↦
            inl (ground (arith, e1, e2, e), 400, codes "INVALID_REQUEST", ground (arith, e1, e2, e))
        | inr (req, e3) ↦ elim (Option-cases (scroll_key store s key)) [
          | inl e ↦ inl (
            ground (arith, e1, e2, e3, e),
            500,
            codes "SCROLL_FAILED",
            ground (arith, e1, e2, e3, e),
          )
          | inr ([], e) ↦
              inl (
                ground (arith, e1, e2, e3, e),
                404,
                codes "NOT_FOUND",
                ground (arith, e1, e2, e3, e),
              )
          | inr (old ∷ points, e4) ↦
              let same : handle_facts_put cfg store s now claims key body
                  ≡ put_point cfg store s now key req old =
                ground (arith, e1, e2, e3, e4) in
              rw same (IsOneWrite-put_point s now key req old)
        ]
      ]
    ]
  ]

  IsOneWrite-handle_facts_delete :
      (s : S) (claims : Option Claims) (key : Text)
      → IsOneWrite
          (IsDelete s key)
          (codes "DELETE_FAILED")
          s
          (handle_facts_delete cfg store s claims key)
  unfolding handle_facts_delete refuse
  IsOneWrite-handle_facts_delete s claims key = elim (Bool-cases (lacks_write claims)) [
    | inl e ↦ inl (ground (arith, e), 403, codes "FORBIDDEN", ground (arith, e))
    | inr e1 ↦ elim (Bool-cases (is_empty key)) [
      | inl e ↦ inl (ground (arith, e1, e), 400, codes "MISSING_KEY", ground (arith, e1, e))
      | inr e2 ↦ elim (Write-cases (store.delete_filtered s (fact_key_filter key))) [
        | inl (t, e) ↦ inr (inl (ground (arith, e1, e2, e), ground (arith, e1, e2, e)))
        | inr (t, e) ↦ inr (inr (ground (arith, e1, e2, e), key, ground (arith, e1, e2, e)))
      ]
    ]
  ]

  -- A POST, a PUT or a DELETE of a fact makes one write at most. It is refused and the store is as it
  -- was; or it has tried to write the fact of its own key, or to delete it, and the store is what that
  -- one write has left: the request is answered if the write is done, and refused with 500 if it
  -- fails, which need not leave the store as it was.
  pub IsOneWrite-handlers :
      (s : S) (now : ℕ) (read_again : Bool) (claims : Option Claims) (key : Text)
      (fp : Option FactPayload) (req : Option FactUpdate)
      → IsOneWrite
          (IsPost s fp)
          (codes "UPSERT_FAILED")
          s
          (handle_facts_post cfg store s now read_again claims fp)
        × IsOneWrite
            (IsUpsert s key)
            (codes "UPSERT_FAILED")
            s
            (handle_facts_put cfg store s now claims key req)
        × IsOneWrite
            (IsDelete s key)
            (codes "DELETE_FAILED")
            s
            (handle_facts_delete cfg store s claims key)
  IsOneWrite-handlers s now read_again claims key fp req = (
    IsOneWrite-handle_facts_post s now read_again claims fp,
    IsOneWrite-handle_facts_put s now claims key req,
    IsOneWrite-handle_facts_delete s claims key,
  )
