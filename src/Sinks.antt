-- ===== src/Sinks.antt =====
-- pkg/sinks: the messages to chat services.
pub mod Messages
pub mod Delivery
pub mod Tests
