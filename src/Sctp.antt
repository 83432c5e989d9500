-- ===== src/Sctp.antt =====
-- rtc-sctp: the parts of the SCTP implementation that are modelled.
pub mod Sna
pub mod Timers
pub mod Association
pub mod Chunk
pub mod PayloadQueue
pub mod PendingQueue
pub mod Chunks
pub mod ReassemblyQueue
pub mod Receiver
mod Tests
