-- ===== src/Dtls.antt =====
-- rtc-dtls/src: the parts of the DTLS implementation that are modelled.
pub mod FragmentBuffer
mod Tests
