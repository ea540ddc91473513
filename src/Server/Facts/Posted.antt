-- ===== src/Server/Facts/Posted.antt =====
-- The whole handler of a POST, over a store that keeps to its contract.
use ragamuffin.Base.{ℕ, ◌≡◌, Bool, true, false, ◌⊎◌, List, Option, none, some, [], ◌∷◌}
use ragamuffin.Text.{Text, codes, same_text}
use ragamuffin.Auth.{Claims}
use ragamuffin.Store.Payload.{Fields, string_payload}
use ragamuffin.Server.{Settings, FactStore, Point, scroll_key, embed_fact_vector, write_done}
use ragamuffin.Server.Contract.{IsFactStore}
use ragamuffin.Server.Facts.{
  FactPayload, FactResponse, Lifecycle, no_lifecycle, read_lifecycle, with_defaults, post_payload,
  point_to_fact_response, existing_lifecycle, handle_facts_post, invalid_body,
}
use ragamuffin.Server.Facts.Laws.{IsFresh}

module _ {S : Type 0} (cfg : Settings) (store : FactStore S) where
  -- A POST that is answered is the storing of a valid body.
  abbrev Posting : S → ℕ → Bool → Option Claims → Option FactPayload → FactResponse → Type 0
  Posting s now read_again claims body r =
      (fp : FactPayload) × (l : Lifecycle) × (t : S) × (body ≡ some fp)
      × (invalid_body fp ≡ none)
      × (existing_lifecycle cfg store s read_again fp.key ≡ some l)
      × (store.upsert s (record {
        id = cfg.key_hash fp.key;
        payload = post_payload cfg now (with_defaults (cfg.format_time now) l) fp;
        vectors = embed_fact_vector cfg fp.value;
      })
          ≡ write_done t)
      × (r
          ≡ point_to_fact_response (post_payload cfg now (with_defaults (cfg.format_time now) l) fp)
              fp.key)
      × ((handle_facts_post cfg store s now read_again claims body).state ≡ t)

module _ {S : Type 0} (cfg : Settings) (store : FactStore S) where
  -- What a POST starts from: a fact that was there and was read again, or nothing.
  abbrev pub IsCarried : S → Bool → Text → Lifecycle → Type 0
  IsCarried s read_again key l =
      ((p : Point) × (points : List Point) × (scroll_key store s key ≡ some (p ∷ points))
        × (read_again ≡ true)
        × (l ≡ read_lifecycle p.payload))
      ⊎ (((scroll_key store s key ≡ some []) ⊎ (read_again ≡ false)) × (l ≡ no_lifecycle))

module _ {S : Type 0} (cfg : Settings) (store : FactStore S) (find : S → Text → Option Fields)
    (lawful : IsFactStore store find) where
  -- What a POST that is answered has stored and says.
  abbrev pub IsPosted : S → ℕ → Bool → Option Claims → Option FactPayload → FactResponse → Type 0
  IsPosted s now read_again claims body r =
      (fp : FactPayload) × (l : Lifecycle) × (p : Fields) × (body ≡ some fp)
      × IsCarried cfg store s read_again fp.key l
      × (find (handle_facts_post cfg store s now read_again claims body).state (cfg.key_hash fp.key)
          ≡ some p)
      × (string_payload p (codes "fact_value") ≡ fp.value)
      × (read_lifecycle p ≡ with_defaults (cfg.format_time now) l)
      × IsFresh p
      × (r ≡ point_to_fact_response p fp.key)
      × ((id : Text)
          → same_text (cfg.key_hash fp.key) id ≡ false
          → find (handle_facts_post cfg store s now read_again claims body).state id ≡ find s id)
