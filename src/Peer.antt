-- ===== src/Peer.antt =====
-- The rtc crate: the offer/answer state machine and the direction of a transceiver.
pub mod Signaling
pub mod Direction
mod Tests
