-- ===== src/Server/Recall.antt =====
-- Reconsolidation and the stamps of a recall in internal/server/facts.go: reconsolidationChain,
-- applyReconsolidation, stampFactPointRecalled, incrementFactAccess.
pub mod Laws
mod Tests
use ragamuffin.Base.{
  ℕ, zero, suc, ◌+◌, ◌-◌, ◌*◌, ◌%◌, Bool, true, false, not, ◌&&◌, ◌||◌, Option, none, some, List,
  [], ◌∷◌, ◌++◌, ltb, leb, ◌==◌, if◌then◌else◌,
}
use ragamuffin.Base.Int.{ℤ, pos, negsuc}
use ragamuffin.Text.{Text, codes}
use ragamuffin.Chunker.Links.{is_empty}
use ragamuffin.Store.Payload.{Fields, end, string, double, string_payload}
use ragamuffin.Store.Payload.Double.{to_double}
use ragamuffin.Store.Payload.Access.{
  set_field, set_fields, get_payload_string, get_payload_int, get_payload_string_list, nv_list,
}
use ragamuffin.Server.{
  Write, write_failed, write_done, state_after, Settings, Point, FactStore, scroll_key,
  nanoseconds_per_second,
}

-- `err == nil` of time.Parse, and a test on the time.
unfoldable pub holds_at : Option ℕ → (ℕ → Bool) → Bool
holds_at none test = false
holds_at (some t) test = test t

-- Neither `now.Sub(last) > window` nor `now.Before(last)`.
unfoldable pub within_window : Settings → ℕ → Text → Bool
unfolding holds_at
within_window cfg now recalled =
    not (is_empty recalled)
    && holds_at (cfg.parse_time recalled)
        (λ last. not (ltb cfg.reconsolidation_window (now - last)) && not (ltb now last))

-- reconsolidationChain: the time that is recorded and the longer chain; `none` is false.
unfoldable pub reconsolidation_chain : Settings → Fields → ℕ → Option (Text × List Text)
reconsolidation_chain cfg current now =
    elim (get_payload_string current (codes "last_recalled_at")) [
      | none ↦ none
      | some recalled ↦
          if cfg.reconsolidation_enabled && within_window cfg now recalled
          then some (
            cfg.format_time now,
            get_payload_string_list current (codes "reconsolidation_chain")
                ++ cfg.format_time now ∷ [],
          )
          else none
    ]

unfoldable pub record_chain : Option (Text × List Text) → Fields → Fields
record_chain none p = p
record_chain (some (now, chain)) p =
    set_field (codes "reconsolidation_chain") (nv_list chain)
      (set_field (codes "reconsolidated_at") (string now) p)

-- applyReconsolidation: reads `current` and writes into the fields of the update.
unfoldable pub apply_reconsolidation : Settings → Fields → ℕ → Fields → Fields
apply_reconsolidation cfg current now updates =
    record_chain (reconsolidation_chain cfg current now) updates

-- applyReconsolidationV
unfoldable pub apply_reconsolidation_v : Settings → Fields → ℕ → Fields
apply_reconsolidation_v cfg payload now =
    record_chain (reconsolidation_chain cfg payload now) payload

-- newCount
unfoldable pub next_count : ℤ → ℤ
next_count (pos n) = pos (suc n)
next_count (negsuc zero) = pos 0
next_count (negsuc (suc n)) = negsuc n

-- `newCount%5 != 0`
unfoldable pub fifth : ℤ → Bool
fifth (pos n) = n % 5 == 0
fifth (negsuc n) = suc n % 5 == 0

-- The debounce: read within the last 60 seconds, and not a fifth read. The difference of two times is
-- negative when the clock is behind, and then it is below 60 seconds too.
unfoldable pub debounced : Settings → ℕ → Fields → Bool
debounced cfg now p =
    let last = string_payload p (codes "last_accessed_at") in
    not (is_empty last)
    && holds_at (cfg.parse_time last) (λ t.
      ltb (now - t) (60 * nanoseconds_per_second)
      && not (fifth (next_count (get_payload_int p (codes "access_count")))))

-- The fields of the stamp.
unfoldable pub recall_stamp : Settings → ℕ → Fields → Fields
recall_stamp cfg now p =
    let count = next_count (get_payload_int p (codes "access_count")) in
    let access =
      set_field (codes "last_accessed_at") (string (cfg.format_time now))
        (set_field (codes "access_count") (double (to_double count)) end) in
    if cfg.reconsolidation_enabled
    then set_field (codes "last_recalled_at") (string (cfg.format_time now)) access
    else access

module _ {ℓ} {S : Type ℓ} (cfg : Settings) (store : FactStore S) where
  -- stampFactPointRecalled. An error of the store is logged only.
  unfoldable pub stamp_fact_point_recalled : S → ℕ → Point → S
  stamp_fact_point_recalled s now pt =
      if is_empty pt.id || debounced cfg now pt.payload
      then s
      else state_after (store.set_payload s pt.id (recall_stamp cfg now pt.payload))

  -- stampFactsRecalled
  unfoldable pub stamp_facts_recalled : S → ℕ → List Point → S
  stamp_facts_recalled s now [] = s
  stamp_facts_recalled s now (pt ∷ points) =
      stamp_facts_recalled (stamp_fact_point_recalled s now pt) now points

  -- incrementFactAccess
  unfoldable pub increment_fact_access : S → ℕ → Text → S
  increment_fact_access s now key = elim (scroll_key store s key) [
    | none ↦ s
    | some [] ↦ s
    | some (pt ∷ points) ↦ stamp_fact_point_recalled s now pt
  ]
