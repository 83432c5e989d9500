-- ===== src/Lib.antt =====
-- A model of parts of the WebRTC stack of this repository (a Sans-IO implementation in Rust) and
-- the theorems that make these parts correct.
--
-- The parts and where they stand:
--   Sctp    rtc-sctp/src: the data transport below the data channels. Sctp.Sna is the serial
--           number arithmetic of util.rs; Sctp.Chunk the record of a DATA chunk
--           (chunk/chunk_payload_data.rs). The three queues of src/queue are Sctp.PayloadQueue
--           (payload_queue.rs: chunks in flight, or received out of order, by TSN),
--           Sctp.PendingQueue (pending_queue.rs: chunks waiting to be sent) and
--           Sctp.ReassemblyQueue with Sctp.Chunks (reassembly_queue.rs: fragments to messages).
--           All three use Sctp.Sna for the order of TSNs and SSNs. Sctp.Timers is the timer table
--           and the manager of the retransmission timeout (association/timer.rs), over operations
--           of f64 that are a parameter. Sctp.Association is the state that the handling of a SACK
--           uses (association/mod.rs, state.rs, stream.rs), and its children the handling:
--           Sack (process_selective_ack), Congestion (the window and fast retransmission) and
--           Handler (handle_sack as a whole), over the queue of chunks in flight and the timers;
--           Timeout is the expiry of the T3-rtx timer in handle_timeout. Sctp.Receiver is the state
--           that the receiving side uses, and its children what it does with chunks: Data
--           (handle_data), Forward (handle_forward_tsn) and Reset (the stream resets of RE-CONFIG,
--           and the advance of peer_last_tsn, which the other two end with), over the queue of
--           chunks received and the reassembly queue of each stream.
--   Channel rtc-datachannel/src/message: the messages that open a data channel, over an interface
--           for the buffers of the `bytes` crate (Common.Buffer), whose operations and laws are
--           parameters.
--   Shared  rtc-shared/src/replay_detector: the bit field of fixed_big_int (Shared.FixedBigInt) and
--           the detectors with a sliding window over it (Shared.ReplayDetector, and its child
--           Wrapped for numbers that start again at 0).
--   Stun    rtc-stun/src: message.rs with its type field (Stun.Message, Stun.MessageType),
--           attributes.rs (Stun.Attributes) and agent.rs (Stun.Agent).
--   Dtls    rtc-dtls/src/fragment_buffer: how handshake messages are put together from fragments.
--   Ice     rtc-ice/src/candidate: mod.rs, the priority of a candidate (Ice.Candidate), and
--           candidate_pair.rs, that of a pair (Ice.CandidatePair).
--   Rtcp    rtc-rtcp/src: header.rs and the padding of util.rs (Rtcp.Header); and
--           transport_feedbacks/transport_layer_nack/mod.rs, the pairs (Rtcp.Nack) and the packet
--           (Rtcp.Nack.Feedback), over the same interface for buffers.
--   Rtp     rtc-rtp/src/header.rs: the header of an RTP packet (Rtp.Header), written (Marshal) and read
--           (Unmarshal) over the same interface for buffers, and its table of extensions; and
--           packet/mod.rs (Rtp.Packet).
--   Srtp    rtc-srtp/src/context/mod.rs: the rollover counter of an SSRC.
--   Peer    rtc/src: peer_connection/signaling_state.rs (Peer.Signaling) and
--           rtp_transceiver/rtp_transceiver_direction.rs (Peer.Direction).
--   Turn    rtc-turn/src/proto: chandata.rs and the range of channum.rs (Turn.ChannelData).
--   Common  names, tests, lists, byte strings, the bits of words and maps that the parts share.
--
-- How the code is modelled: a struct is a record with the source's fields, a method that changes
-- `self` returns the new record beside its result, and the definitions have the source's names.
-- Numbers are natural numbers; where a machine word can wrap, the wrap is written out, as it is in
-- a build without overflow checks (a build with them panics there). A subtraction that the source
-- makes behind a test that keeps it from underflow is the truncated one. `Vec`, `VecDeque` and
-- `Bytes` are lists, a `HashMap` is an association list (Common.Map), and `sort_by` is a sort by
-- insertion with the source's comparison. The clock is an argument. Loops are recursions on
-- lists or on an index that goes down, except these on fuel: `decode_loop` of Stun.Message, with one
-- more than the size of the body, since a round reads four bytes at least; and three loops of the
-- association, with one more than the chunks in flight (`pop_acked`, `skip_abandoned`) or than the
-- TSNs up to the last (`fast_loop`); `advance_loop` of Sctp.Receiver.Reset, with one more than the
-- TSNs held, and `skip_loop` of Sctp.Receiver.Forward, with one more than the TSNs to the new point;
-- `append_message` of Dtls.FragmentBuffer, with one more than the fragments; and the two loops of
-- Rtp.Header.Unmarshal over a block of extensions, with the bytes of the block, of which every round
-- reads one; `scan` of Rtcp.Nack, with the 16 bits of a u16, and `collect`, with 18 rounds: the packet,
-- 16 bits and the end. The `bytes` crate is not part of the repository: its buffers are parameters, with
-- what its documentation says of them as hypotheses.
--
-- Not modelled: input and output, cryptography and checksums, random numbers, text formatting,
-- the rest of DTLS and of ICE, and the other crates (SDP, the rest of RTP and of RTCP, the media engine).
pub mod Channel
pub mod Common
pub mod Dtls
pub mod Ice
pub mod Peer
pub mod Rtcp
pub mod Rtp
pub mod Sctp
pub mod Shared
pub mod Srtp
pub mod Stun
pub mod Turn
