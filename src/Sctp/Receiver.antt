-- ===== src/Sctp/Receiver.antt =====
-- rtc-sctp/src/association: the state that the receiving side of an association reads and writes
-- (fields of mod.rs, state.rs, stream.rs), and what it reports. The timestamp that
-- `ReassemblyQueue::push` takes of the clock is an argument.
pub mod Reset
pub mod Data
pub mod Forward
pub mod Ahead
pub mod Progress
pub mod Handed
pub mod Account
pub mod Once
pub mod Skip
use ortc.Common.{
  ℕ, ◌+◌, ◌-◌, ◌%◌, ◌^◌, Bool, true, false, not, ◌&&◌, ◌||◌, Option, none, some, List, [], ◌∷◌,
  ◌++◌, leb, if◌then◌else◌, ◌==◌,
}
use ortc.Common.Map
use ortc.Common.Map.{total}
use ortc.Sctp.Chunk.{ChunkPayloadData}
use ortc.Sctp.PayloadQueue.{PayloadQueue}
use ortc.Sctp.PayloadQueue
use ortc.Sctp.ReassemblyQueue.{ReassemblyQueue}
use ortc.Sctp.ReassemblyQueue
use ortc.Sctp.Timers.{Timer, TimerTable, start, stop}
use ortc.Sctp.Association.Sack.{ChunkSelectiveAck}

pub data AckState : Type 0 where
  idle immediate delay : AckState

pub data AckMode : Type 0 where
  normal no_delay always_delay : AckMode

abbrev is_immediate : AckState → Bool
is_immediate AckState.immediate = true
is_immediate _ = false

abbrev is_idle : AckState → Bool
is_idle AckState.idle = true
is_idle _ = false

abbrev is_normal : AckMode → Bool
is_normal AckMode.normal = true
is_normal _ = false

abbrev is_always_delay : AckMode → Bool
is_always_delay AckMode.always_delay = true
is_always_delay _ = false

-- The events that the receiving side puts on the queue.
pub data Event : Type 0 where
  datagram_received : Event
  opened : Event
  readable : ℕ → Event

-- What the association reads of `StreamState` when data arrive.
pub record StreamState : Type 0 where
  pub stream_identifier : ℕ
  pub unordered : Bool
  pub reassembly_queue : ReassemblyQueue

pub record ParamOutgoingResetRequest : Type 0 where
  pub reconfig_request_sequence_number : ℕ
  pub reconfig_response_sequence_number : ℕ
  pub sender_last_tsn : ℕ
  pub stream_identifiers : List ℕ

pub data ReconfigResult : Type 0 where
  success_performed in_progress : ReconfigResult

-- The parameters of a RE-CONFIG chunk; `other` stands for one of another type.
pub data Param : Type 0 where
  outgoing_reset_request : ParamOutgoingResetRequest → Param
  reconfig_response : ℕ → ReconfigResult → Param
  other : Param

pub record ChunkReconfig : Type 0 where
  pub param_a : Option Param
  pub param_b : Option Param

pub data OutChunk : Type 0 where
  reconfig : ChunkReconfig → OutChunk
  unrecognized_chunk_type : OutChunk

pub record Packet : Type 0 where
  pub verification_tag : ℕ
  pub source_port : ℕ
  pub destination_port : ℕ
  pub chunks : List OutChunk

pub record Receiver : Type 0 where
  pub peer_verification_tag : ℕ
  pub source_port : ℕ
  pub destination_port : ℕ
  pub my_next_tsn : ℕ
  pub my_next_rsn : ℕ
  pub peer_last_tsn : ℕ
  pub reconfigs : List (ℕ × ChunkReconfig)
  pub reconfig_requests : List (ℕ × ParamOutgoingResetRequest)
  pub max_receive_buffer_size : ℕ
  pub payload_queue : PayloadQueue
  pub use_forward_tsn : Bool
  pub timers : TimerTable
  pub streams : List (ℕ × StreamState)
  pub stream_queue : List ℕ
  pub events : List Event
  pub ack_mode : AckMode
  pub ack_state : AckState
  pub delayed_ack_triggered : Bool
  pub immediate_ack_triggered : Bool

unfoldable pub create_packet : Receiver → List OutChunk → Packet
create_packet r chunks = record {
  verification_tag = r.peer_verification_tag;
  source_port = r.source_port;
  destination_port = r.destination_port;
  chunks = chunks;
}

unfoldable new_stream : ℕ → StreamState
unfolding ReassemblyQueue.new
new_stream stream_identifier = record {
  stream_identifier = stream_identifier;
  unordered = false;
  reassembly_queue = ReassemblyQueue.new stream_identifier;
}

unfoldable pub create_stream : Receiver → ℕ → Bool → Receiver
unfolding new_stream
create_stream r stream_identifier accept = record r {
  stream_queue = if accept then r.stream_queue ++ (stream_identifier ∷ []) else r.stream_queue;
  events = if accept then r.events ++ (Event.opened ∷ []) else r.events;
  streams = Map.insert stream_identifier (new_stream stream_identifier) r.streams;
}

-- There always is a stream afterwards.
unfoldable pub get_or_create_stream : Receiver → ℕ → Receiver
unfolding create_stream
get_or_create_stream r stream_identifier =
    if Map.contains_key stream_identifier r.streams
    then r
    else create_stream r stream_identifier true

unfoldable pub unregister_stream : Receiver → ℕ → Receiver
unregister_stream r stream_identifier = record r {
  streams = Map.remove stream_identifier r.streams;
}

-- The sum of u32 wraps, as in a build without overflow checks.
unfoldable pub get_my_receiver_window_credit : Receiver → ℕ
get_my_receiver_window_credit r =
    let bytes_queued = total (λ s. s.reassembly_queue.n_bytes % 2 ^ 32) r.streams % 2 ^ 32 in
    if leb r.max_receive_buffer_size bytes_queued
    then 0
    else r.max_receive_buffer_size - bytes_queued

unfoldable pub handle_chunk_start : Receiver → Receiver
handle_chunk_start r = record r { delayed_ack_triggered = false; immediate_ack_triggered = false }

-- `ACK_INTERVAL`, in milliseconds.
abbrev ack_interval : ℕ
ack_interval = 200

unfoldable pub handle_chunk_end : Receiver → ℕ → Receiver
handle_chunk_end r now =
    if r.immediate_ack_triggered
    then record r { ack_state = AckState.immediate; timers = stop r.timers Timer.ack }
    else (if r.delayed_ack_triggered
        then record r {
          ack_state = AckState.delay;
          timers = start r.timers Timer.ack now ack_interval;
        }
        else r)

-- The end of `handle_peer_last_tsn_and_acknowledgement`: whether the chunk is acknowledged at once.
unfoldable pub trigger_ack : Receiver → Bool → Receiver
unfolding PayloadQueue.is_empty
trigger_ack r sack_immediately =
    let has_packet_loss = not (PayloadQueue.is_empty r.payload_queue) in
    if (not (is_immediate r.ack_state)
        && not sack_immediately
        && not has_packet_loss
        && is_normal r.ack_mode)
      || is_always_delay r.ack_mode
    then (if is_idle r.ack_state
        then record r { delayed_ack_triggered = true }
        else record r { immediate_ack_triggered = true })
    else record r { immediate_ack_triggered = true }

unfoldable pub on_ack_timeout : Receiver → Receiver
on_ack_timeout r = record r { ack_state = AckState.immediate }

unfoldable pub create_selective_ack_chunk : Receiver → Receiver × ChunkSelectiveAck
unfolding PayloadQueue.pop_duplicates get_my_receiver_window_credit
create_selective_ack_chunk r =
    let (q, duplicate_tsn) = PayloadQueue.pop_duplicates r.payload_queue in
    let sack : ChunkSelectiveAck = record {
      cumulative_tsn_ack = r.peer_last_tsn;
      advertised_receiver_window_credit = get_my_receiver_window_credit r;
      gap_ack_blocks = PayloadQueue.get_gap_ack_blocks r.payload_queue r.peer_last_tsn;
      duplicate_tsn = duplicate_tsn;
    } in
    (record r { payload_queue = q }, sack)

-- `gather_outbound_sack_packets` up to the marshalling of the chunk.
unfoldable pub gather_sack : Receiver → Receiver × Option ChunkSelectiveAck
unfolding create_selective_ack_chunk
gather_sack r =
    if is_immediate r.ack_state
    then (let (s, sack) = create_selective_ack_chunk (record r { ack_state = AckState.idle }) in
        (s, some sack))
    else (r, none)
