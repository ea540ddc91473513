-- ===== src/Server/Fixtures.antt =====
-- Settings, facts and a store for the runs of the handlers. A time is written as one rune.
use ragamuffin.Base.{ℕ, true, Option, none, some, [], ◌∷◌}
use ragamuffin.Base.Int.{pos}
use ragamuffin.Text.{Text, codes}
use ragamuffin.Auth.{Claims}
use ragamuffin.Store.Payload.{Fields, end, field, string}
use ragamuffin.Store.Vector.{unset}
use ragamuffin.Server.{Settings, Point}
use ragamuffin.Server.Contract.Memory.{Memory}
use ragamuffin.Server.Facts.{FactPayload}
use ragamuffin.Server.Facts.Update.{FactUpdate}
use ragamuffin.Server.Review.{ResolveRequest}

abbrev pub parse_rune : Text → Option ℕ
parse_rune (t ∷ []) = some t
parse_rune _ = none

abbrev pub second : ℕ
second = 1000000000

abbrev pub settings : Settings
settings = record {
  key_hash = λ key. key;
  format_time = λ t. t ∷ [];
  parse_time = parse_rune;
  embed = none;
  facts_vector_size = 2;
  reconsolidation_enabled = true;
  reconsolidation_window = 600000000000;
}

abbrev pub writer : Option Claims
writer = some (record { access = codes "write" ∷ []; vaults = [] })

abbrev pub reader : Option Claims
reader = some (record { access = codes "read" ∷ []; vaults = [] })

abbrev pub fact_fields_of : Text → Text → Text → Fields
fact_fields_of key value status = field (codes "fact_key") (string key) (
    field (codes "fact_value") (string value)
      (field (codes "status") (string status) (field (codes "created_at") (string (5 ∷ [])) end)))

abbrev pub point_of : Text → Fields → Point
point_of key p = record { id = key; payload = p; vectors = unset }

-- A fact that waits for its review, and two versions of another.
abbrev pub facts : Memory
facts =
    (
      codes "k",
      point_of (codes "k") (fact_fields_of (codes "k") (codes "old") (codes "needs_review")),
    )
    ∷ (
      codes "a/v1",
      point_of (codes "a/v1") (fact_fields_of (codes "a/v1") (codes "one") (codes "active")),
    )
    ∷ (
      codes "a/v3",
      point_of (codes "a/v3") (fact_fields_of (codes "a/v3") (codes "three") (codes "active")),
    )
    ∷ []

abbrev pub new_fact : FactPayload
new_fact = record {
  key = codes "k";
  value = codes "new";
  tags = codes "t" ∷ [];
  source = [];
  source_type = [];
  confidence = none;
  ttl_days = none;
  version = some (pos 7);
  valid_from = none;
  valid_until = none;
}

abbrev pub no_update : FactUpdate
no_update = record {
  value = none;
  tags = none;
  source = none;
  source_type = none;
  status = none;
  supersedes = none;
  refines = none;
  supports = none;
  confidence = none;
  conflict_resolved = none;
  confirmation_count = none;
  last_confirmed_at = none;
  ttl_days = none;
  valid_from = none;
  valid_until = none;
}

abbrev pub request : Text → Text → Text → ResolveRequest
request action new_key new_value = record {
  action = action;
  confidence = none;
  new_key = new_key;
  new_value = new_value;
  conflict_resolved = none;
  ttl_days = none;
  tags = none;
  source = [];
  source_type = [];
}
