-- ===== src/Server/Review/Handler.antt =====
-- The whole handler of a resolution, over a store that keeps to its contract.
use ragamuffin.Base.{ℕ, ◌≡◌, false, Option, some, List, ◌∷◌}
use ragamuffin.Text.{Text, codes, same_text}
use ragamuffin.Auth.{Claims}
use ragamuffin.Store.Payload.{Fields, string, lookup_field}
use ragamuffin.Server.{Settings, FactStore, Point, scroll_key}
use ragamuffin.Server.Contract.{IsFactStore}
use ragamuffin.Server.Review.{ResolveRequest, Action, action_of, handle_review_post, resolve}
use ragamuffin.Server.Review.Laws.{final_status}

module _ {S : Type 0} (cfg : Settings) (store : FactStore S) (find : S → Text → Option Fields)
    (lawful : IsFactStore store find) where
  -- What is written for a key: its own point, and no point but that one and the new key's.
  pub record IsWritten (s t : S) (key new_key : Text) (p : Fields) : Type 0 where
    pub written : find t (cfg.key_hash key) ≡ some p
    pub kept :
        (id : Text)
        → same_text (cfg.key_hash key) id ≡ false
        → same_text (cfg.key_hash new_key) id ≡ false
        → find t id ≡ find s id

  -- A handler that answers has found the fact and knows the action, and is the resolution itself.
  abbrev Resolution :
      (s : S) (now : ℕ) (claims : Option Claims) (key : Text) (body : Option ResolveRequest)
      → Type 0
  Resolution s now claims key body =
      (req : ResolveRequest) × (action : Action) × (old : Point) × (points : List Point) × (body
        ≡ some req)
      × (action_of req.action ≡ some action)
      × (scroll_key store s key ≡ some (old ∷ points))
      × (handle_review_post cfg store s now claims key body
          ≡ resolve cfg store s now key req action old.payload)

  -- What a resolution that is answered has read and stored.
  abbrev pub IsResolved : S → ℕ → Option Claims → Text → Option ResolveRequest → Type 0
  IsResolved s now claims key body =
      (req : ResolveRequest) × (action : Action) × (old : Point) × (points : List Point)
      × (p : Fields) × (body ≡ some req)
      × (action_of req.action ≡ some action)
      × (scroll_key store s key ≡ some (old ∷ points))
      × (lookup_field p (codes "status") ≡ some (string (final_status action)))
      × (lookup_field p (codes "fact_value") ≡ lookup_field old.payload (codes "fact_value"))
      × IsWritten s (handle_review_post cfg store s now claims key body).state key req.new_key p
