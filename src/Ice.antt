-- ===== src/Ice.antt =====
-- rtc-ice/src: the parts of the ICE implementation that are modelled.
pub mod Candidate
pub mod CandidatePair
mod Tests
