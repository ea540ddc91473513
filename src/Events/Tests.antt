-- ===== src/Events/Tests.antt =====
-- Runs of the events, and their theorems at concrete inputs.
use ragamuffin.Base.{◌-◌, ◌≡◌, refl, true, false, [], ◌∷◌, ◌++◌, arith, length, take}
use ragamuffin.Text.{codes}
use ragamuffin.Store.Table.{less_text}
use ragamuffin.Events.Uuid.{Random, hex_digit, hex_byte, hex_bytes, random_part, uuid_v7}
use ragamuffin.Events.Uuid.Laws.{less_text-uuid_v7}
use ragamuffin.Events.Broker.{
  CloudEvent, Channels, Broker, new_broker, subscribed, subscribe, unsubscribe, send, update,
  publish, new_event,
}
use ragamuffin.Events.Broker.Laws.{IsKeys, IsKeys-subscribe, publish_all, buffer-publish_all}

program : Unit {0}
unfolding hex_digit hex_byte hex_bytes random_part uuid_v7 new_broker subscribed subscribe
    unsubscribe send update publish publish_all new_event
program = tt

abbrev zeros : Random
zeros = record { b6 = 255; b7 = 0; b8 = 255; b9 = 0; node = 0 ∷ 0 ∷ 0 ∷ 0 ∷ 0 ∷ 1 ∷ [] }

id_of_2023 : uuid_v7 1700000000000 zeros ≡ codes "018bcfe5-6800-7f00-bf00-000000000001"
unfolding program
id_of_2023 = refl

less_text-uuid_v7_example :
    less_text (uuid_v7 1700000000000 zeros) (uuid_v7 1700000000001 zeros) ≡ true
less_text-uuid_v7_example =
    less_text-uuid_v7 1700000000000 1700000000001 zeros zeros (omega arith) (omega arith)

abbrev started : CloudEvent
started = new_event (codes "ragamuffin.started") (codes "/") 1 (codes "t") zeros

abbrev one_place : Channels
one_place ch = record { capacity = 1; buffer = [] }

abbrev one_reader : Broker
one_reader = subscribe 3 new_broker

IsKeys-one_reader : IsKeys one_reader
unfolding new_broker
IsKeys-one_reader = IsKeys-subscribe 3 [] tt

buffer-publish_all_example :
    (subscribed 3 one_reader ≡ true
      → (publish_all (started ∷ started ∷ []) one_reader one_place 3).buffer
        ≡ [] ++ take (1 - length {A = CloudEvent} []) (started ∷ started ∷ []))
    × (subscribed 3 one_reader ≡ false
        → publish_all (started ∷ started ∷ []) one_reader one_place 3 ≡ one_place 3)
unfolding new_broker
buffer-publish_all_example =
    buffer-publish_all (started ∷ started ∷ []) one_reader one_place 3 IsKeys-one_reader
