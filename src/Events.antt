-- ===== src/Events.antt =====
-- internal/events: the ids of events, and how they reach the subscribers.
pub mod Uuid
pub mod Broker
mod Tests
