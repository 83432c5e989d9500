-- ===== src/Sctp/Receiver/Data.antt =====
-- rtc-sctp/src/association/mod.rs: `handle_data`.
use ortc.Common.{
  ℕ, Bool, true, false, Option, none, some, List, [], ◌∷◌, ◌++◌, ◌&&◌, ltb, if◌then◌else◌,
}
use ortc.Common.Map
use ortc.Sctp.Sna.{sna32lt}
use ortc.Sctp.Chunk.{ChunkPayloadData}
use ortc.Sctp.PayloadQueue
use ortc.Sctp.ReassemblyQueue
use ortc.Sctp.Receiver.{
  Receiver, Packet, Event, get_or_create_stream, get_my_receiver_window_credit,
}
use ortc.Sctp.Receiver.Reset.{handle_peer_last_tsn_and_acknowledgement}

-- Whether a chunk that can be pushed is taken: with credit left, or where it fills a gap.
unfoldable has_room : Receiver → ChunkPayloadData → Bool
unfolding get_my_receiver_window_credit PayloadQueue.get_last_tsn_received
has_room r d =
    if ltb 0 (get_my_receiver_window_credit r)
    then true
    else elim (PayloadQueue.get_last_tsn_received r.payload_queue) [
      | some last_tsn ↦ sna32lt d.tsn last_tsn
      | none ↦ false
    ]

-- `stream_handle_data`: whether the chunk goes to its stream. The stream is there by then.
unfoldable pub takes : Receiver → ChunkPayloadData → Bool
unfolding has_room get_or_create_stream
takes r d =
    if PayloadQueue.can_push r.payload_queue d r.peer_last_tsn
    then has_room (get_or_create_stream r d.stream_identifier) d
    else false

-- The chunk is pushed, and its stream there.
unfoldable pub store_data : Receiver → ChunkPayloadData → Receiver
unfolding takes get_or_create_stream
store_data r d =
    if PayloadQueue.can_push r.payload_queue d r.peer_last_tsn
    then (let s = get_or_create_stream r d.stream_identifier in
        if takes r d
        then record s { payload_queue = (PayloadQueue.push s.payload_queue d s.peer_last_tsn).0 }
        else s)
    else r

unfoldable pub stream_handle_data : Receiver → ChunkPayloadData → ℕ → Receiver
stream_handle_data r d now = elim (Map.get d.stream_identifier r.streams) [
  | none ↦ r
  | some s ↦
      let (q, complete) = ReassemblyQueue.push s.reassembly_queue d now in
      let received = r.events ++ (Event.datagram_received ∷ []) in
      record r {
        streams = Map.insert d.stream_identifier (record s { reassembly_queue = q }) r.streams;
        events =
            if complete && ReassemblyQueue.is_readable q
            then received ++ (Event.readable s.stream_identifier ∷ [])
            else received;
      }
]

unfoldable pub receive_data : Receiver → ChunkPayloadData → ℕ → Receiver
unfolding store_data takes stream_handle_data
receive_data r d now =
    if takes r d then stream_handle_data (store_data r d) d now else store_data r d

-- `none` would mean that the fuel of the loop ran out. Without a stream the source would return
-- early, but `get_or_create_stream` always gives one.
unfoldable pub handle_data : Receiver → ChunkPayloadData → ℕ → Option (Receiver × List Packet)
unfolding receive_data handle_peer_last_tsn_and_acknowledgement
handle_data r d now =
    handle_peer_last_tsn_and_acknowledgement (receive_data r d now) d.immediate_sack
