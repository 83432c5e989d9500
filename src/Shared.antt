-- ===== src/Shared.antt =====
-- rtc-shared/src/replay_detector: the detection of replayed packets, which SRTP and DTLS use. A bit
-- field of fixed size (FixedBigInt) under the detectors with a sliding window (ReplayDetector).
pub mod FixedBigInt
pub mod ReplayDetector
pub mod Tests
