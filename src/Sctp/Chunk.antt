-- ===== src/Sctp/Chunk.antt =====
-- rtc-sctp/src/chunk/chunk_payload_data.rs and chunk_selective_ack.rs: the records of a DATA chunk
-- and of a gap in a SACK. `Bytes` is the list of its bytes, and an `Instant` is a number.
use ortc.Common.{ℕ, Bool, false, ◌&&◌, Option, none, List, [], if◌then◌else◌, true}

pub data PayloadProtocolIdentifier : Type 0 where
  dcep string binary string_empty binary_empty unknown : PayloadProtocolIdentifier

pub record ChunkPayloadData : Type 0 where
  pub unordered : Bool
  pub beginning_fragment : Bool
  pub ending_fragment : Bool
  pub immediate_sack : Bool
  pub tsn : ℕ
  pub stream_identifier : ℕ
  pub stream_sequence_number : ℕ
  pub payload_type : PayloadProtocolIdentifier
  pub user_data : List ℕ
  pub acked : Bool
  pub miss_indicator : ℕ
  pub since : Option ℕ
  pub nsent : ℕ
  pub abandoned : Bool
  pub all_inflight : Bool
  pub retransmit : Bool

-- `ChunkPayloadData::default`.
abbrev pub default_chunk : ChunkPayloadData
default_chunk = record {
  unordered = false;
  beginning_fragment = false;
  ending_fragment = false;
  immediate_sack = false;
  tsn = 0;
  stream_identifier = 0;
  stream_sequence_number = 0;
  payload_type = PayloadProtocolIdentifier.unknown;
  user_data = [];
  acked = false;
  miss_indicator = 0;
  since = none;
  nsent = 0;
  abandoned = false;
  all_inflight = false;
  retransmit = false;
}

-- `ChunkPayloadData::abandoned`.
unfoldable pub is_abandoned : ChunkPayloadData → Bool
is_abandoned c = c.abandoned && c.all_inflight

unfoldable set_abandoned : ChunkPayloadData → Bool → ChunkPayloadData
set_abandoned c b = record c { abandoned = b }

unfoldable set_all_inflight : ChunkPayloadData → ChunkPayloadData
set_all_inflight c = if c.ending_fragment then record c { all_inflight = true } else c

pub record GapAckBlock : Type 0 where
  pub start : ℕ
  pub end : ℕ
