-- ===== src/Rtp.antt =====
-- rtc-rtp: an RTP packet and its header.
pub mod Header
pub mod Packet
mod Tests
