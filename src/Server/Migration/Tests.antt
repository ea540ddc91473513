-- ===== src/Server/Migration/Tests.antt =====
-- The migration of one fact.
use ragamuffin.Base.{◌≡◌, refl, false, some}
use ragamuffin.Text.{codes, same_text}
use ragamuffin.Store.Payload.{Fields, end, field, string, lookup_field}
use ragamuffin.Server.Migration.{fill_defaults, lifecycle_defaults}
use ragamuffin.Server.Migration.Laws.{payload_of, HasKeys, fill_defaults-fill_defaults}

abbrev old_fact : Fields
old_fact =
    field (codes "fact_key") (string (codes "a/v2"))
      (field (codes "status") (string (codes "rejected")) end)

fill_defaults-fill_defaults_example :
    (let filled = payload_of (fill_defaults (codes "now") old_fact) in
      (lookup_field filled (codes "status") ≡ some (string (codes "rejected")))
      × HasKeys (lifecycle_defaults (codes "now")) filled
      × (fill_defaults (codes "later") filled ≡ (filled, false)))
unfolding lookup_field same_text
fill_defaults-fill_defaults_example =
    fill_defaults-fill_defaults (codes "now") (codes "later") old_fact (codes "status")
      (string (codes "rejected")) refl
