-- ===== src/Events/Broker/Laws.antt =====
-- What a subscriber receives.
use ragamuffin.Base.{
  ℕ, zero, suc, ◌-◌, ◌<◌, ◌≡◌, refl, sym, ap, ◌∙◌, inl, inr, true, false, List, [], ◌∷◌, ◌++◌,
  append_assoc, append-nil, arith, if◌then◌else◌, Bool-cases, ltb, ltb→lt, ◌==◌, ==_iff, length,
  take, length-append,
}
use ragamuffin.Events.Broker.{
  CloudEvent, Channel, Channels, Broker, subscribed, subscribe, unsubscribe, send, update, publish,
}

-- Each subscriber once, as the keys of a map.
abbrev pub IsKeys : Broker → Type 0
IsKeys [] = Unit
IsKeys (ch ∷ b) = (subscribed ch b ≡ false) × IsKeys b

subscribed-unsubscribe :
    (i ch : ℕ) (b : Broker)
    → subscribed i (unsubscribe ch b) ≡ (if i == ch then false else subscribed i b)
unfolding subscribed unsubscribe
subscribed-unsubscribe i ch [] = ground arith
subscribed-unsubscribe i ch (c ∷ b) = ground (arith, subscribed-unsubscribe i ch b)

-- Subscribe keeps the map of subscribers to one entry for a channel.
pub IsKeys-subscribe : (ch : ℕ) (b : Broker) → IsKeys b → IsKeys (subscribe ch b)
unfolding subscribe
IsKeys-subscribe ch b s = elim (Bool-cases (subscribed ch b)) [
  | inl e ↦ rw e s
  | inr e ↦ rw e (e, s)
]

-- Unsubscribe keeps the map of subscribers to one entry for a channel.
pub IsKeys-unsubscribe : (ch : ℕ) (b : Broker) → IsKeys b → IsKeys (unsubscribe ch b)
unfolding unsubscribe
IsKeys-unsubscribe ch [] s = tt
IsKeys-unsubscribe ch (c ∷ b) (h, s) = elim (Bool-cases (c == ch)) [
  | inl e ↦ rw e (IsKeys-unsubscribe ch b s)
  | inr e ↦
      let gone : subscribed c (unsubscribe ch b) ≡ false =
        ground (arith, subscribed-unsubscribe c ch b, h) in
      rw e (gone, IsKeys-unsubscribe ch b s)
]

update_here :
    (evt : CloudEvent) (c ch : ℕ) (w : Channels)
    → c ≡ ch
    → update c (send evt (w c)) w ch ≡ send evt (w ch)
unfolding update
update_here evt c ch w e = rw e (ground arith)

update_elsewhere :
    (x : Channel) (c ch : ℕ) (w : Channels) → (c == ch) ≡ false → update c x w ch ≡ w ch
unfolding update
update_elsewhere x c ch w e = ground (arith, e)

-- One event at one channel.
publish-at :
    (evt : CloudEvent) (b : Broker) (w : Channels) (ch : ℕ)
    → IsKeys b
    → publish evt b w ch ≡ (if subscribed ch b then send evt (w ch) else w ch)
unfolding publish subscribed
publish-at evt [] w ch s = refl
publish-at evt (c ∷ b) w ch (h, s) =
    let rest = publish-at evt b (update c (send evt (w c)) w) ch s in
    elim (Bool-cases (c == ch)) [
      | inl e ↦
          let same : c ≡ ch = (==_iff c ch).0 e in
          let gone : subscribed ch b ≡ false = rw (← same) h in
          rw e (
            rest
            ∙ ap
                (λ t.
                  if t
                  then send evt (update c (send evt (w c)) w ch)
                  else update c (send evt (w c)) w ch)
                gone
            ∙ update_here evt c ch w same)
      | inr e ↦ rw e (
          rest
          ∙ ap (λ x. if subscribed ch b then send evt x else x)
              (update_elsewhere (send evt (w c)) c ch w e))
    ]

-- The events are published in turn, and nothing is received meanwhile.
unfoldable pub publish_all : List CloudEvent → Broker → Channels → Channels
publish_all [] b w = w
publish_all (evt ∷ evts) b w = publish_all evts b (publish evt b w)

take-nil : (n : ℕ) → take {A = CloudEvent} n [] ≡ []
take-nil zero = refl
take-nil (suc n) = refl

room_for_one :
    (evt : CloudEvent) (n : ℕ) (buffer evts : List CloudEvent)
    → length buffer < n
    → (buffer ++ evt ∷ []) ++ take (n - length (buffer ++ evt ∷ [])) evts
      ≡ buffer ++ take (n - length buffer) (evt ∷ evts)
room_for_one evt n buffer evts h =
    let less : n - length buffer ≡ suc (n - length (buffer ++ evt ∷ [])) =
      omega (arith, h, length-append buffer (evt ∷ [])) in
    rw less (append_assoc buffer (evt ∷ []) (take (n - length (buffer ++ evt ∷ [])) evts))

send_room :
    (evt : CloudEvent) (c : Channel)
    → ltb (length c.buffer) c.capacity ≡ true
    → send evt c ≡ record { capacity = c.capacity; buffer = c.buffer ++ evt ∷ [] }
unfolding send
send_room evt c e = ground (arith, e)

send_full :
    (evt : CloudEvent) (c : Channel) → ltb (length c.buffer) c.capacity ≡ false → send evt c ≡ c
unfolding send
send_full evt c e = ground (arith, e)

-- When events are published in turn and nothing is received meanwhile, a subscriber gets them in
-- order, as many as its buffer has room for, and loses the rest; any other channel stays as it is.
-- The map of subscribers holds each once.
pub buffer-publish_all :
    (evts : List CloudEvent) (b : Broker) (w : Channels) (ch : ℕ)
    → IsKeys b
    → (subscribed ch b ≡ true
        → (publish_all evts b w ch).buffer
          ≡ (w ch).buffer ++ take ((w ch).capacity - length (w ch).buffer) evts)
      × (subscribed ch b ≡ false → publish_all evts b w ch ≡ w ch)
unfolding publish_all
buffer-publish_all [] b w ch s = (
  λ e. sym (
      ap (λ t. (w ch).buffer ++ t) (take-nil ((w ch).capacity - length (w ch).buffer))
      ∙ append-nil (w ch).buffer),
  λ e. refl,
)
buffer-publish_all (evt ∷ evts) b w ch s =
    let (got, kept) = buffer-publish_all evts b (publish evt b w) ch s in
    let one = publish-at evt b w ch s in
    (
      λ e. elim (Bool-cases (ltb (length (w ch).buffer) (w ch).capacity)) [
        | inl room ↦
            let now =
              one ∙ ap (λ t. if t then send evt (w ch) else w ch) e ∙ send_room evt (w ch) room in
            got e
            ∙ ap (λ (c : Channel). c.buffer ++ take (c.capacity - length c.buffer) evts) now
            ∙ room_for_one evt (w ch).capacity (w ch).buffer evts (ltb→lt _ _ room)
        | inr full ↦
            let now =
              one ∙ ap (λ t. if t then send evt (w ch) else w ch) e ∙ send_full evt (w ch) full in
            let zero_left : (w ch).capacity - length (w ch).buffer ≡ 0 = ground (arith, full) in
            got e
            ∙ ap (λ (c : Channel). c.buffer ++ take (c.capacity - length c.buffer) evts) now
            ∙ rw zero_left refl
      ],
      λ e. kept e ∙ one ∙ ap (λ t. if t then send evt (w ch) else w ch) e,
    )
