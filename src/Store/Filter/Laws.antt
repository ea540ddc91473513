-- ===== src/Store/Filter/Laws.antt =====
-- A filter sees the same in a payload and in what is read back of it.
use ragamuffin.Base.{◌≡◌, refl, Option, none, some, List, [], ◌∷◌}
use ragamuffin.Store.Payload.{Fields, Members, encode_payload, decode_payload}
use ragamuffin.Store.Payload.Laws.{string_payload-decode_payload}
use ragamuffin.Store.Filter.{Filter, Condition, on_field, of_other_kind, all_match, filter_matches}

module _ (p : Fields) (m : Members) (encoded : encode_payload p ≡ some m) where
  all_match_stored : (cs : List Condition) → all_match (decode_payload m) cs ≡ all_match p cs
  unfolding all_match
  all_match_stored [] = refl
  all_match_stored (on_field fc ∷ cs) =
      rw (string_payload-decode_payload p m fc.key encoded, all_match_stored cs)
  all_match_stored (of_other_kind ∷ cs) = rw (all_match_stored cs)

  -- A filter matches the payload that is read back exactly when it matches the one that was stored.
  pub filter_matches-decode_payload :
      (f : Option Filter) → filter_matches (decode_payload m) f ≡ filter_matches p f
  unfolding filter_matches
  filter_matches-decode_payload none = refl
  filter_matches-decode_payload (some f) = all_match_stored f.must
