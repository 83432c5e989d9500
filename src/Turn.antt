-- ===== src/Turn.antt =====
-- rtc-turn: the framing of channel data.
pub mod ChannelData
mod Tests
