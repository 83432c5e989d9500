-- ===== src/Stun.antt =====
-- rtc-stun/src: the messages of STUN (RFC 5389) and the transactions that wait for answers.
pub mod Agent
pub mod MessageType
pub mod Attributes
pub mod Message
mod Tests
