-- ===== src/Server/Recall/Laws.antt =====
-- Recalls of a fact, and the chain of its reconsolidations.
use ragamuffin.Base.{
  ℕ, ◌+◌, ◌-◌, ◌*◌, ◌<◌, ◌≤◌, ◌≡◌, ◌≢◌, refl, ap, ◌∙◌, true, false, ◌&&◌, Option, none, some, List,
  [], ◌∷◌, ◌++◌, arith, All, All-append, lt→ltb, Bool-cases, Option-cases, inl, inr, ◌⊎◌,
}
use ragamuffin.Base.Int.{pos}
use ragamuffin.Text.{Text, codes, same_text}
use ragamuffin.Text.Order.{same_text_refl}
use ragamuffin.Chunker.Links.{is_empty}
use ragamuffin.Store.Payload.{Fields, string_payload, lookup_field, double, string}
use ragamuffin.Store.Payload.Double.{to_double}
use ragamuffin.Store.Payload.Access.{
  get_payload_int, get_payload_string, get_payload_string_list, set_field, set_fields,
}
use ragamuffin.Store.Payload.Access.Laws.{lookup_field-set_field}
use ragamuffin.Store.Payload.Access.Lists.{
  IsNotEmpty, string_list-nv_list, All-get_payload_string_list,
}
use ragamuffin.Server.{
  Settings, FactStore, Point, scroll_key, nanoseconds_per_second, write_done, state_after,
}
use ragamuffin.Server.Contract.{IsFactStore}
use ragamuffin.Server.Recall.{
  debounced, fifth, next_count, holds_at, increment_fact_access, stamp_fact_point_recalled,
  recall_stamp, apply_reconsolidation_v, record_chain, reconsolidation_chain, within_window,
}

not_empty : (s : Text) → s ≢ [] → is_empty s ≡ false
unfolding is_empty
not_empty [] h = absurd (h refl)
not_empty (c ∷ s) h = refl

module _ {ℓ} {S : Type ℓ} (cfg : Settings) (store : FactStore S) where
  -- Recalls of one fact at the given times, one after the other.
  unfoldable pub recalls : S → Text → List ℕ → S
  recalls s key [] = s
  recalls s key (now ∷ times) = recalls (increment_fact_access cfg store s now key) key times

  quiet :
      (s : S) (now : ℕ) (key : Text) (pt : Point) (points : List Point)
      → scroll_key store s key ≡ some (pt ∷ points)
      → debounced cfg now pt.payload ≡ true
      → increment_fact_access cfg store s now key ≡ s
  unfolding increment_fact_access stamp_fact_point_recalled state_after
  quiet s now key pt points h d = ground (arith, h, d)

  -- While less than 60 seconds have passed since the recorded access, and the recorded count plus one
  -- is no multiple of five, no number of recalls changes the store: none of them is counted.
  pub recalls-debounced :
      (s : S) (key : Text) (times : List ℕ) (pt : Point) (points : List Point) (last : ℕ)
      → scroll_key store s key ≡ some (pt ∷ points)
      → string_payload pt.payload (codes "last_accessed_at") ≢ []
      → cfg.parse_time (string_payload pt.payload (codes "last_accessed_at")) ≡ some last
      → fifth (next_count (get_payload_int pt.payload (codes "access_count"))) ≡ false
      → All (λ now. now < last + 60 * nanoseconds_per_second) times
      → recalls s key times ≡ s
  unfolding recalls debounced holds_at
  recalls-debounced s key [] pt points last read given parsed count soon = refl
  recalls-debounced s key (now ∷ times) pt points last read given parsed count (soon, later) =
      let d : debounced cfg now pt.payload ≡ true = rw (not_empty _ given) (
        rw (parsed, holds_at)
          (rw (lt→ltb (now - last) (60 * nanoseconds_per_second) (omega arith), count) refl)) in
      rw (quiet s now key pt points read d)
        (recalls-debounced s key times pt points last read given parsed count later)

-- The chain of a payload.
abbrev pub chain_of : Fields → List Text
chain_of p = get_payload_string_list p (codes "reconsolidation_chain")

-- A time that a mutation counts as a reconsolidation at.
abbrev pub IsRecent : Settings → Fields → ℕ → Type 0
IsRecent cfg p now =
    (recalled : Text) × (last : ℕ) × (get_payload_string p (codes "last_recalled_at")
      ≡ some recalled)
    × (recalled ≢ [])
    × (cfg.parse_time recalled ≡ some last)
    × (cfg.reconsolidation_enabled ≡ true)
    × (last ≤ now)
    × (now ≤ last + cfg.reconsolidation_window)

within :
    (cfg : Settings) (now : ℕ) (recalled : Text)
    → within_window cfg now recalled ≡ true
    → (last : ℕ) × (cfg.parse_time recalled ≡ some last)
      × (last ≤ now)
      × (now ≤ last + cfg.reconsolidation_window)
unfolding within_window holds_at
within cfg now recalled h = elim (Option-cases (cfg.parse_time recalled)) [
  | inl e ↦ absurd (ground (arith, h, e))
  | inr (last, e) ↦ (last, e, ground (arith, h, e), ground (arith, h, e))
]

within_not_empty :
    (cfg : Settings) (now : ℕ) (recalled : Text)
    → within_window cfg now recalled ≡ true
    → recalled ≢ []
unfolding within_window is_empty
within_not_empty cfg now [] h = absurd (ground (arith, h))
within_not_empty cfg now (c ∷ s) h = λ e. absurd (ground (arith, e))

recent_within :
    (cfg : Settings) (now : ℕ) (recalled : Text) (last : ℕ)
    → cfg.parse_time recalled ≡ some last
    → recalled ≢ []
    → last ≤ now
    → now ≤ last + cfg.reconsolidation_window
    → within_window cfg now recalled ≡ true
unfolding within_window holds_at
recent_within cfg now recalled last parsed given before after =
    rw (not_empty recalled given, parsed, within_window) (ground arith)

chain_cases :
    (cfg : Settings) (p : Fields) (now : ℕ)
    → ((reconsolidation_chain cfg p now ≡ none) × ¬ IsRecent cfg p now)
      ⊎ ((reconsolidation_chain cfg p now
            ≡ some (cfg.format_time now, chain_of p ++ cfg.format_time now ∷ []))
          × IsRecent cfg p now)
unfolding reconsolidation_chain
chain_cases cfg p now = elim (Option-cases (get_payload_string p (codes "last_recalled_at"))) [
  | inl e ↦ inl (
    ground (arith, e),
    λ (r, last, f, some_text, parsed, on, before, after). absurd (ground (arith, e, f)),
  )
  | inr (recalled, e) ↦
      elim (Bool-cases (cfg.reconsolidation_enabled && within_window cfg now recalled)) [
        | inr f ↦ inl (
          ground (arith, e, f),
          λ (r, last, given, some_text, parsed, on, before, after).
              let same : recalled ≡ r = ground (arith, e, given) in
              let inside =
                recent_within cfg now recalled last (rw same parsed) (rw same some_text) before
                  after in
              absurd (ground (arith, f, on, inside)),
        )
        | inl f ↦
            let (last, parsed, before, after) = within cfg now recalled (ground (arith, f)) in
            inr (
              ground (arith, e, f),
              (
                recalled,
                last,
                e,
                within_not_empty cfg now recalled (ground (arith, f)),
                parsed,
                ground (arith, f),
                before,
                after,
              ),
            )
      ]
]

chain-record_chain :
    (now : Text) (chain : List Text) (p : Fields)
    → All IsNotEmpty chain
    → chain_of (record_chain (some (now, chain)) p) ≡ chain
unfolding record_chain get_payload_string_list same_text
chain-record_chain now chain p h = simp (lookup_field-set_field) (string_list-nv_list chain h)

-- The time of the change is appended to the chain of reconsolidations exactly when reconsolidation is
-- enabled and the fact was recalled at most a window ago; else the chain stays as it is. A time is
-- written as a text that is not empty.
pub chain-apply_reconsolidation_v :
    (cfg : Settings) (p : Fields) (now : ℕ)
    → cfg.format_time now ≢ []
    → (¬ IsRecent cfg p now × (chain_of (apply_reconsolidation_v cfg p now) ≡ chain_of p))
      ⊎ (IsRecent cfg p now
          × (chain_of (apply_reconsolidation_v cfg p now) ≡ chain_of p ++ cfg.format_time now ∷ []))
unfolding apply_reconsolidation_v record_chain
chain-apply_reconsolidation_v cfg p now written = elim (chain_cases cfg p now) [
  | inl (e, old) ↦ inl (old, rw (e, record_chain) refl)
  | inr (e, recent) ↦ inr (
    recent,
    rw e (
        chain-record_chain (cfg.format_time now) (chain_of p ++ cfg.format_time now ∷ []) p (
          All-append IsNotEmpty (chain_of p) (cfg.format_time now ∷ [])
            (All-get_payload_string_list p (codes "reconsolidation_chain")) (written, tt))),
  )
]

next_count-pos : (count : ℕ) → next_count (pos count) ≡ pos (count + 1)
unfolding next_count
next_count-pos count = ap pos (omega arith)

lookup-recall_stamp :
    (cfg : Settings) (now : ℕ) (p : Fields)
    → (lookup_field (set_fields (recall_stamp cfg now p) p) (codes "access_count")
        ≡ some (double (to_double (next_count (get_payload_int p (codes "access_count"))))))
      × (lookup_field (set_fields (recall_stamp cfg now p) p) (codes "last_accessed_at")
          ≡ some (string (cfg.format_time now)))
unfolding recall_stamp set_fields set_field same_text
lookup-recall_stamp cfg now p = elim (Bool-cases cfg.reconsolidation_enabled) [
  | inl e ↦ (
    rw (e, set_fields) (simp (lookup_field-set_field)),
    rw (e, set_fields) (simp (lookup_field-set_field)),
  )
  | inr e ↦ (
    rw (e, set_fields) (simp (lookup_field-set_field)),
    rw (e, set_fields) (simp (lookup_field-set_field)),
  )
]

module _ {ℓ} {S : Type ℓ} (cfg : Settings) (store : FactStore S) (find : S → Text → Option Fields)
    (lawful : IsFactStore store find) where
  loud :
      (now : ℕ) (p : Fields) (last : ℕ)
      → cfg.parse_time (string_payload p (codes "last_accessed_at")) ≡ some last
      → last + 60 * nanoseconds_per_second ≤ now
      → debounced cfg now p ≡ false
  unfolding debounced holds_at
  loud now p last parsed late = rw (parsed, holds_at) (ground arith)

  -- A recall that comes 60 seconds behind the recorded access or later is recorded: the fact is
  -- stored with a count that is one more than it was, and the time of the recall. The store keeps to its contract and takes
  -- the update, and the fact that is read is the one under its identifier.
  pub recorded-increment_fact_access :
      (s t : S) (now : ℕ) (key : Text) (pt : Point) (points : List Point) (last count : ℕ)
      → scroll_key store s key ≡ some (pt ∷ points)
      → get_payload_int pt.payload (codes "access_count") ≡ pos count
      → pt.id ≢ []
      → find s pt.id ≡ some pt.payload
      → cfg.parse_time (string_payload pt.payload (codes "last_accessed_at")) ≡ some last
      → last + 60 * nanoseconds_per_second ≤ now
      → store.set_payload s pt.id (recall_stamp cfg now pt.payload) ≡ write_done t
      → (p : Fields) × (find (increment_fact_access cfg store s now key) pt.id ≡ some p)
        × (lookup_field p (codes "access_count") ≡ some (double (to_double (pos (count + 1)))))
        × (lookup_field p (codes "last_accessed_at") ≡ some (string (cfg.format_time now)))
  unfolding increment_fact_access stamp_fact_point_recalled state_after
  recorded-increment_fact_access s t now key pt points last count read before named found parsed
        late taken =
      let (stamped, time) = lookup-recall_stamp cfg now pt.payload in
      let state : increment_fact_access cfg store s now key ≡ t =
        ground (arith, read, not_empty pt.id named, loud now pt.payload last parsed late, taken) in
      (
        set_fields (recall_stamp cfg now pt.payload) pt.payload,
        rw state (
            lawful.find_set_payload s t pt.id (recall_stamp cfg now pt.payload) pt.id taken
            ∙ rw (same_text_refl pt.id, found) refl),
        stamped ∙ ap (λ n. some (double (to_double n))) (rw before (next_count-pos count)),
        time,
      )
