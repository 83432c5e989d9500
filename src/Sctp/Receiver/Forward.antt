-- ===== src/Sctp/Receiver/Forward.antt =====
-- rtc-sctp/src/association/mod.rs: `handle_forward_tsn` (RFC 3758), behind the test that the
-- extension is in use, and what it makes of each stream (stream.rs).
use ortc.Common.{
  ℕ, zero, suc, ◌^◌, true, false, Option, none, some, List, [], ◌∷◌, ◌++◌, if◌then◌else◌,
}
use ortc.Common.Map
use ortc.Sctp.Sna.{sna32lt, sna32lte, ahead}
use ortc.Sctp.PayloadQueue
use ortc.Sctp.ReassemblyQueue
use ortc.Sctp.ReassemblyQueue.Forward.{forward_tsn_for_ordered, forward_tsn_for_unordered}
use ortc.Sctp.Timers.{Timer, stop}
use ortc.Sctp.Association.Sack.{next_tsn}
use ortc.Sctp.Receiver.{Receiver, Packet, OutChunk, Event, StreamState, AckState, create_packet}
use ortc.Sctp.Receiver.Reset.{handle_peer_last_tsn_and_acknowledgement}

pub record ChunkForwardTsnStream : Type 0 where
  pub identifier : ℕ
  pub sequence : ℕ

pub record ChunkForwardTsn : Type 0 where
  pub new_cumulative_tsn : ℕ
  pub streams : List ChunkForwardTsnStream

unfoldable handle_forward_tsn_for_ordered : StreamState → ℕ → StreamState
handle_forward_tsn_for_ordered s ssn =
    if s.unordered
    then s
    else record s { reassembly_queue = forward_tsn_for_ordered s.reassembly_queue ssn }

unfoldable handle_forward_tsn_for_unordered : StreamState → ℕ → StreamState
handle_forward_tsn_for_unordered s new_cumulative_tsn =
    if s.unordered
    then record s {
      reassembly_queue = forward_tsn_for_unordered s.reassembly_queue new_cumulative_tsn;
    }
    else s

unfoldable report_readable : StreamState → List Event → List Event
unfolding ReassemblyQueue.is_readable
report_readable s events =
    if ReassemblyQueue.is_readable s.reassembly_queue
    then events ++ (Event.readable s.stream_identifier ∷ [])
    else events

-- The loop that moves `peer_last_tsn` to the new point, on fuel.
unfoldable pub skip_loop : ℕ → ℕ → Receiver → Option Receiver
skip_loop zero cum r = none
skip_loop (suc fuel) cum r = elim (sna32lt r.peer_last_tsn cum) [
  | false ↦ some r
  | true ↦ skip_loop fuel cum (record r {
    payload_queue = (PayloadQueue.pop r.payload_queue (next_tsn r.peer_last_tsn)).0;
    peer_last_tsn = next_tsn r.peer_last_tsn;
  })
]

unfoldable pub forward_ordered : List ChunkForwardTsnStream → Receiver → Receiver
unfolding handle_forward_tsn_for_ordered report_readable
forward_ordered [] r = r
forward_ordered (f ∷ l) r = forward_ordered l (elim (Map.get f.identifier r.streams) [
  | none ↦ r
  | some s ↦
      let t = handle_forward_tsn_for_ordered s f.sequence in
      record r {
        streams = Map.insert f.identifier t r.streams;
        events = report_readable t r.events;
      }
])

-- The loop over all the streams, in the order of the map.
unfoldable forward_unordered :
    ℕ → List (ℕ × StreamState) → List Event → List (ℕ × StreamState) × List Event
unfolding handle_forward_tsn_for_unordered report_readable
forward_unordered cum [] events = ([], events)
forward_unordered cum ((id, s) ∷ l) events =
    let t = handle_forward_tsn_for_unordered s cum in
    let (m, e) = forward_unordered cum l (report_readable t events) in ((id, t) ∷ m, e)

-- Behind the move of `peer_last_tsn`.
unfoldable pub forward_streams : ChunkForwardTsn → Receiver → Receiver
unfolding forward_ordered forward_unordered
forward_streams c r =
    let s = forward_ordered c.streams r in
    let (m, e) = forward_unordered c.new_cumulative_tsn s.streams s.events in
    record s { streams = m; events = e }

unfoldable pub forwarded : ChunkForwardTsn → Option Receiver → Option (Receiver × List Packet)
unfolding forward_streams handle_peer_last_tsn_and_acknowledgement
forwarded c none = none
forwarded c (some r) = handle_peer_last_tsn_and_acknowledgement (forward_streams c r) false

-- `none` means that the fuel of a loop ran out: that of `skip_loop` is the distance to the new
-- point.
unfoldable pub handle_forward_tsn : Receiver → ChunkForwardTsn → Option (Receiver × List Packet)
unfolding skip_loop forwarded create_packet
handle_forward_tsn r c =
    if r.use_forward_tsn
    then (if sna32lte c.new_cumulative_tsn r.peer_last_tsn
        then some
            (record r { ack_state = AckState.immediate; timers = stop r.timers Timer.ack }, [])
        else forwarded c (
            skip_loop (suc (ahead (2 ^ 32) r.peer_last_tsn c.new_cumulative_tsn))
              c.new_cumulative_tsn r))
    else some (r, create_packet r (OutChunk.unrecognized_chunk_type ∷ []) ∷ [])
