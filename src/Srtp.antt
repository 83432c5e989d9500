-- ===== src/Srtp.antt =====
-- rtc-srtp: the state that a context keeps for each SSRC.
pub mod Rollover
mod Tests
