-- ===== src/Channel.antt =====
-- rtc-datachannel/src/message: the messages that open a data channel (RFC 8832), over the buffers of
-- the `bytes` crate (Common.Buffer): the OPEN message (Open), any message (Message), the wire
-- (RoundTrip and Frames).
pub mod Open
pub mod Message
pub mod RoundTrip
pub mod Frames
pub mod Tests
