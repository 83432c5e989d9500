-- ===== src/Sctp/Tests.antt =====
-- Runs of the SCTP model and its theorems at concrete inputs.
mod Serial
mod Associations
mod Queues
mod Reassembly
mod Receivers
