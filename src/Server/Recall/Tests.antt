-- ===== src/Server/Recall/Tests.antt =====
-- Recalls at concrete times.
use ragamuffin.Base.{ℕ, ◌*◌, ◌≡◌, ◌≢◌, refl, some, List, [], ◌∷◌, ◌++◌, arith, ◌⊎◌}
use ragamuffin.Base.Int.{pos}
use ragamuffin.Text.{codes, same_text}
use ragamuffin.Text.Maps.{lookup, insert}
use ragamuffin.Chunker.Links.{is_empty}
use ragamuffin.Store.Payload.{
  Fields, end, field, string, double, string_payload, lookup_field, or_zero, get_string_value,
  get_double_value,
}
use ragamuffin.Store.Payload.Double.{to_double}
use ragamuffin.Store.Payload.Numbers.{to_int}
use ragamuffin.Store.Payload.Access.{get_payload_int, get_payload_float, present, set_fields}
use ragamuffin.Store.Filter.{filter_matches}
use ragamuffin.Server.{scroll_key, fact_key_filter}
use ragamuffin.Server.Fixtures.{settings, point_of, second}
use ragamuffin.Server.Contract.Memory.{Memory, memory, find, scroll, put, set, memory-IsFactStore}
use ragamuffin.Server.Recall.{
  increment_fact_access, next_count, fifth, recall_stamp, apply_reconsolidation_v,
}
use ragamuffin.Server.Recall.Laws.{
  recalls, recalls-debounced, recorded-increment_fact_access, chain-apply_reconsolidation_v,
  chain_of, IsRecent,
}

-- A fact that was read once, at second 100.
abbrev read_once : Fields
read_once = field (codes "fact_key") (string (codes "k")) (
    field (codes "access_count") (double 0x3FF0000000000000) (
      field (codes "last_accessed_at") (string ((100 * second) ∷ []))
        (field (codes "last_recalled_at") (string ((100 * second) ∷ [])) end)))

abbrev store : Memory
store = (codes "k", point_of (codes "k") read_once) ∷ []

program : Unit {0}
unfolding scroll_key fact_key_filter memory scroll put set find filter_matches same_text insert
    lookup string_payload lookup_field or_zero get_string_value get_double_value get_payload_int
    get_payload_float present to_int next_count fifth is_empty
program = tt

abbrev in_a_minute : List ℕ
in_a_minute =
    (101 * second)
    ∷ (110 * second)
    ∷ (120 * second)
    ∷ (130 * second)
    ∷ (140 * second)
    ∷ (150 * second)
    ∷ []

not_empty : (100 * second) ∷ [] ≢ []
not_empty = λ e. absurd (ground (arith, e))

recalls-debounced_example : recalls settings memory store (codes "k") in_a_minute ≡ store
unfolding program
recalls-debounced_example =
    recalls-debounced settings memory store (codes "k") in_a_minute (point_of (codes "k") read_once)
      [] (100 * second) refl not_empty refl refl
      (omega arith, (omega arith, (omega arith, (omega arith, (omega arith, (omega arith, tt))))))

k_not_empty : codes "k" ≢ []
k_not_empty = λ e. absurd (ground (arith, e))

abbrev stamped : Memory
stamped =
    insert (codes "k")
      (record (point_of (codes "k") read_once) {
        payload = set_fields (recall_stamp settings (160 * second) read_once) read_once;
      })
      store

recorded-increment_fact_access_example :
    (p : Fields) × (find
        (increment_fact_access settings memory store (160 * second) (codes "k"))
        (codes "k")
      ≡ some p)
    × (lookup_field p (codes "access_count") ≡ some (double (to_double (pos 2))))
    × (lookup_field p (codes "last_accessed_at") ≡ some (string ((160 * second) ∷ [])))
unfolding program
recorded-increment_fact_access_example =
    recorded-increment_fact_access settings memory find memory-IsFactStore store stamped
      (160 * second) (codes "k") (point_of (codes "k") read_once) [] (100 * second) 1 refl refl
      k_not_empty refl refl (omega arith) refl

chain-apply_reconsolidation_v_example :
    (¬ IsRecent settings read_once (300 * second)
      × (chain_of (apply_reconsolidation_v settings read_once (300 * second)) ≡ chain_of read_once))
    ⊎ (IsRecent settings read_once (300 * second)
        × (chain_of (apply_reconsolidation_v settings read_once (300 * second))
            ≡ chain_of read_once ++ ((300 * second) ∷ []) ∷ []))
chain-apply_reconsolidation_v_example =
    chain-apply_reconsolidation_v settings read_once (300 * second)
      (λ e. absurd (ground (arith, e)))
