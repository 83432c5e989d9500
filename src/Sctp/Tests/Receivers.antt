-- ===== src/Sctp/Tests/Receivers.antt =====
-- The receiving side of an association at concrete inputs.
use ortc.Common.{
  ℕ, ◌-◌, ◌^◌, ◌<◌, ◌≤◌, ◌≡◌, refl, true, false, Option, none, some, List, [], ◌∷◌, arith, All,
  length,
}
use ortc.Common.Map
use ortc.Common.Map.{count}
use ortc.Sctp.Sna.{ahead, sna32lte}
use ortc.Sctp.Chunk.{ChunkPayloadData, default_chunk}
use ortc.Sctp.PayloadQueue.{empty_queue}
use ortc.Sctp.PayloadQueue.Invariant.{empty_queue-IsValid}
use ortc.Sctp.Timers.{new_table, default_config}
use ortc.Sctp.Association.Sack.{next_tsn}
use ortc.Sctp.Receiver.{Receiver, Packet, AckState, AckMode, create_selective_ack_chunk}
use ortc.Sctp.Receiver.Forward.{ChunkForwardTsn, handle_forward_tsn}
use ortc.Sctp.Receiver.Progress.{SameTsns, passed}
use ortc.Sctp.Receiver.Handed.{queue_of, pushes}
use ortc.Sctp.Receiver.Once.{Input, Among, tsns, feed, feed-once}
use ortc.Sctp.Receiver.Skip.{IsReceiving, handle_forward_tsn_lem}

-- Nothing has been received after the TSN 2 ^ 32 - 2.
abbrev receiver : Receiver
receiver = record {
  peer_verification_tag = 7;
  source_port = 5000;
  destination_port = 5000;
  my_next_tsn = 100;
  my_next_rsn = 100;
  peer_last_tsn = 2 ^ 32 - 2;
  reconfigs = [];
  reconfig_requests = [];
  max_receive_buffer_size = 1024;
  payload_queue = empty_queue;
  use_forward_tsn = true;
  timers = new_table default_config;
  streams = [];
  stream_queue = [];
  events = [];
  ack_mode = AckMode.normal;
  ack_state = AckState.idle;
  delayed_ack_triggered = false;
  immediate_ack_triggered = false;
}

abbrev fragment : ℕ → ChunkPayloadData
fragment tsn = record default_chunk {
  tsn = tsn;
  beginning_fragment = true;
  ending_fragment = true;
  user_data = 1 ∷ [];
}

-- Out of order, across the wrap of the TSNs, and one of them twice.
abbrev inputs : List Input
inputs =
    Input.packet_start
    ∷ Input.data_chunk (fragment 0) 1
    ∷ Input.data_chunk (fragment (2 ^ 32 - 1)) 2
    ∷ Input.packet_end 3
    ∷ Input.sack_sent
    ∷ Input.data_chunk (fragment 0) 4
    ∷ Input.data_chunk (fragment 2) 5
    ∷ []

abbrev point_and_events : Option Receiver → Option (ℕ × ℕ)
point_and_events none = none
point_and_events (some r) = some (r.peer_last_tsn, length r.events)

feed-once_example :
    (out : Receiver) × (given : List (ChunkPayloadData × ℕ)) × (feed inputs receiver ≡ some out)
    × All (λ (g : ChunkPayloadData × ℕ). Among (Input.data_chunk g.0 g.1) inputs) given
    × ((id : ℕ) → queue_of id out.streams ≡ pushes id given (queue_of id receiver.streams))
    × ((t : ℕ)
        → t < 2 ^ 32
        → (count t (tsns given) ≤ 1)
          × (passed
                  (2 ^ 32 - 2)
                  (ahead
                    (2 ^ 32)
                    (2 ^ 32 - 2)
                    (create_selective_ack_chunk out).1.cumulative_tsn_ack)
                  t
                ≡ true
              → count t (tsns given) ≡ 1))
feed-once_example =
    feed-once inputs receiver (omega arith) refl refl
      (tt, (omega arith, (omega arith, (tt, (tt, (omega arith, (omega arith, tt)))))))

abbrev skipping : ChunkForwardTsn
skipping = record { new_cumulative_tsn = 1; streams = [] }

receiver-IsReceiving : IsReceiving receiver
unfolding empty_queue
receiver-IsReceiving = record { last = omega arith; valid = empty_queue-IsValid; waits = tt }

handle_forward_tsn_example :
    (out : Receiver × List Packet) × (handle_forward_tsn receiver skipping ≡ some out)
    × IsReceiving out.0
    × (sna32lte 1 (2 ^ 32 - 2) ≡ true → SameTsns receiver out.0)
    × (sna32lte 1 (2 ^ 32 - 2) ≡ false
        → (sna32lte 1 out.0.peer_last_tsn ≡ true)
          × (Map.contains_key (next_tsn out.0.peer_last_tsn) out.0.payload_queue.chunk_map ≡ false))
handle_forward_tsn_example =
    handle_forward_tsn_lem receiver skipping refl receiver-IsReceiving (omega arith) (omega arith)

-- The cumulative TSN, and the number of events: the chunk that comes twice makes none.
feed-inputs : point_and_events (feed inputs receiver) ≡ some (0, 6)
unfolding feed empty_queue ortc.Sctp.PayloadQueue.pop ortc.Sctp.PayloadQueue.can_push
    Map.contains_key sna32lte Map.insert Map.get ortc.Sctp.PayloadQueue.push
    ortc.Sctp.ReassemblyQueue.push ortc.Sctp.Sna.sna16lt ortc.Sctp.Sna.sna16lte
    ortc.Sctp.ReassemblyQueue.is_readable Map.remove
feed-inputs = refl
