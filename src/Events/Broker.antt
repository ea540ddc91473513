-- ===== src/Events/Broker.antt =====
-- Broker of internal/events/broker.go, and the events of internal/events/events.go. A channel is a
-- number, and the store gives each its buffer: what was sent and not received. A reader that waits at a
-- channel is not modelled, so that a send succeeds exactly if the buffer has room; the locks make each
-- call one step. The data of an event is left out.
pub mod Laws
use ragamuffin.Base.{
  ℕ, zero, suc, ◌≡◌, Bool, true, false, ◌||◌, List, [], ◌∷◌, ◌++◌, ltb, ◌==◌, if◌then◌else◌, length,
}
use ragamuffin.Text.{Text, codes}
use ragamuffin.Events.Uuid.{Random, uuid_v7}

pub record CloudEvent : Type 0 where
  pub spec_version : Text
  pub id : Text
  pub source : Text
  pub event_type : Text
  pub time : Text

-- New, at a time in milliseconds and in its RFC 3339 form
unfoldable pub new_event : Text → Text → ℕ → Text → Random → CloudEvent
new_event event_type source ts time r = record {
  spec_version = codes "1.0";
  id = uuid_v7 ts r;
  source = source;
  event_type = event_type;
  time = time;
}

pub record Channel : Type 0 where
  pub capacity : ℕ
  pub buffer : List CloudEvent

abbrev pub Channels : Type 0
Channels = ℕ → Channel

-- The keys of the map `subscribers`.
abbrev pub Broker : Type 0
Broker = List ℕ

unfoldable pub new_broker : Broker
new_broker = []

unfoldable pub subscribed : ℕ → Broker → Bool
subscribed ch [] = false
subscribed ch (c ∷ b) = c == ch || subscribed ch b

-- Subscribe
unfoldable pub subscribe : ℕ → Broker → Broker
unfolding subscribed
subscribe ch b = if subscribed ch b then b else ch ∷ b

-- Unsubscribe
unfoldable pub unsubscribe : ℕ → Broker → Broker
unsubscribe ch [] = []
unsubscribe ch (c ∷ b) = let rest = unsubscribe ch b in if c == ch then rest else c ∷ rest

-- select { case ch <- evt: default: }
unfoldable pub send : CloudEvent → Channel → Channel
send evt c =
    if ltb (length c.buffer) c.capacity then record c { buffer = c.buffer ++ evt ∷ [] } else c

unfoldable pub update : ℕ → Channel → Channels → Channels
update ch c w i = if i == ch then c else w i

-- Publish
unfoldable pub publish : CloudEvent → Broker → Channels → Channels
unfolding send update
publish evt [] w = w
publish evt (ch ∷ b) w = publish evt b (update ch (send evt (w ch)) w)

-- Len
unfoldable pub len : Broker → ℕ
len b = length b
