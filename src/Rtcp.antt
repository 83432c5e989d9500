-- ===== src/Rtcp.antt =====
-- rtc-rtcp/src: the header of RTCP packets, and the feedback on lost packets.
pub mod Header
pub mod Nack
pub mod Tests
