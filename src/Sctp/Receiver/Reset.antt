-- ===== src/Sctp/Receiver/Reset.antt =====
-- rtc-sctp/src/association/mod.rs: the resets of incoming streams (RFC 6525) and the advance of
-- `peer_last_tsn`, which may set off resets that waited for it.
use ortc.Common.{
  ℕ, zero, suc, ◌+◌, ◌-◌, ◌%◌, ◌^◌, Bool, true, false, Option, none, some, List, [], ◌∷◌, ◌++◌,
  length, if◌then◌else◌,
}
use ortc.Common.Map
use ortc.Sctp.Sna.{sna32lte}
use ortc.Sctp.Chunk.{ChunkPayloadData}
use ortc.Sctp.PayloadQueue
use ortc.Sctp.PayloadQueue.{PayloadQueue}
use ortc.Sctp.Timers.{Timer, TimerTable, stop}
use ortc.Sctp.Association.Sack.{next_tsn}
use ortc.Sctp.Receiver.{
  Receiver, Packet, OutChunk, Param, ParamOutgoingResetRequest, ChunkReconfig, ReconfigResult,
  create_packet, unregister_stream, trigger_ack,
}

-- The loop over the identifiers: those that have a stream are unregistered, and returned.
unfoldable pub reset_ids : List ℕ → Receiver → Receiver × List ℕ
unfolding unregister_stream
reset_ids [] r = (r, [])
reset_ids (id ∷ l) r =
    let known = Map.contains_key id r.streams in
    let (s, ids) = reset_ids l (if known then unregister_stream r id else r) in
    (s, if known then id ∷ ids else ids)

unfoldable generate_next_rsn : Receiver → Receiver × ℕ
generate_next_rsn r = (record r { my_next_rsn = (r.my_next_rsn + 1) % 2 ^ 32 }, r.my_next_rsn)

-- The answer to a request: a request of our own for the same streams.
unfoldable pub answer_reset :
    ParamOutgoingResetRequest → List ℕ → Receiver × List Packet → Receiver × List Packet
unfolding generate_next_rsn create_packet
answer_reset p [] (r, reply) = (r, reply)
answer_reset p (id ∷ ids) (r, reply) =
    let (s, rsn) = generate_next_rsn r in
    let request : ParamOutgoingResetRequest = record {
      reconfig_request_sequence_number = rsn;
      reconfig_response_sequence_number = p.reconfig_request_sequence_number;
      sender_last_tsn = (s.my_next_tsn + 2 ^ 32 - 1) % 2 ^ 32;
      stream_identifiers = id ∷ ids;
    } in
    let c : ChunkReconfig = record {
      param_a = some (Param.outgoing_reset_request request);
      param_b = none;
    } in
    (
      record s { reconfigs = Map.insert rsn c s.reconfigs },
      reply ++ (create_packet s (OutChunk.reconfig c ∷ []) ∷ []),
    )

unfoldable pub respond_reset :
    ParamOutgoingResetRequest → ReconfigResult → Receiver × List Packet → Receiver × List Packet
unfolding create_packet
respond_reset p result (r, reply) =
    let c : ChunkReconfig = record {
      param_a = some (Param.reconfig_response p.reconfig_request_sequence_number result);
      param_b = none;
    } in
    (r, reply ++ (create_packet r (OutChunk.reconfig c ∷ []) ∷ []))

-- Never an error in the source.
unfoldable pub reset_streams_if_any :
    ParamOutgoingResetRequest → Bool → Receiver × List Packet → Receiver × List Packet
unfolding reset_ids answer_reset respond_reset
reset_streams_if_any p respond (r, reply) =
    if sna32lte p.sender_last_tsn r.peer_last_tsn
    then (let (s, ids) = reset_ids p.stream_identifiers r in
        let t = record s {
          reconfig_requests = Map.remove p.reconfig_request_sequence_number s.reconfig_requests;
        } in
        respond_reset p ReconfigResult.success_performed
          (answer_reset p (if respond then ids else []) (t, reply)))
    else respond_reset p ReconfigResult.in_progress (r, reply)

unfoldable pub reset_all :
    List (ℕ × ParamOutgoingResetRequest) → Receiver × List Packet → Receiver × List Packet
unfolding reset_streams_if_any
reset_all [] s = s
reset_all ((n, p) ∷ l) s = reset_all l (reset_streams_if_any p false s)

-- A round of the loop in `handle_peer_last_tsn_and_acknowledgement` by what `pop` has returned, with
-- the rounds that follow.
unfoldable pub advance_by :
    (Receiver → List Packet → Option (Receiver × List Packet))
    → Receiver
    → List Packet
    → PayloadQueue × Option ChunkPayloadData
    → Option (Receiver × List Packet)
unfolding reset_all
advance_by rounds r reply (q, none) = some (record r { payload_queue = q }, reply)
advance_by rounds r reply (q, some c) =
    let next = record r { payload_queue = q; peer_last_tsn = next_tsn r.peer_last_tsn } in
    let s = reset_all r.reconfig_requests (next, reply) in rounds s.0 s.1

-- The loop, which advances `peer_last_tsn` while the next TSN is held, on fuel.
unfoldable pub advance_loop : ℕ → Receiver → List Packet → Option (Receiver × List Packet)
unfolding advance_by
advance_loop zero r reply = none
advance_loop (suc fuel) r reply =
    advance_by (advance_loop fuel) r reply
      (PayloadQueue.pop r.payload_queue (next_tsn r.peer_last_tsn))

unfoldable pub acknowledged :
    Bool → Option (Receiver × List Packet) → Option (Receiver × List Packet)
unfolding trigger_ack
acknowledged sack_immediately none = none
acknowledged sack_immediately (some (r, reply)) = some (trigger_ack r sack_immediately, reply)

unfoldable pub handle_peer_last_tsn_and_acknowledgement :
    Receiver → Bool → Option (Receiver × List Packet)
unfolding advance_loop acknowledged
handle_peer_last_tsn_and_acknowledgement r sack_immediately =
    acknowledged sack_immediately (advance_loop (suc (length r.payload_queue.sorted)) r [])

-- The state, the packets, and whether the type of the parameter is known (an error if not).
unfoldable handle_reconfig_param : Param → Receiver × List Packet → (Receiver × List Packet) × Bool
unfolding reset_streams_if_any
handle_reconfig_param (Param.outgoing_reset_request p) (r, reply) =
    let requests = Map.insert p.reconfig_request_sequence_number p r.reconfig_requests in
    (reset_streams_if_any p true (record r { reconfig_requests = requests }, reply), true)
handle_reconfig_param (Param.reconfig_response n result) (r, reply) =
    let rest = Map.remove n r.reconfigs in
    let stopped : TimerTable = elim rest [ [] ↦ stop r.timers Timer.reconfig | c ∷ l ↦ r.timers ] in
    ((record r { reconfigs = rest; timers = stopped }, reply), true)
handle_reconfig_param Param.other s = (s, false)

unfoldable handle_optional :
    Option Param → (Receiver × List Packet) × Bool → (Receiver × List Packet) × Bool
unfolding handle_reconfig_param
handle_optional none s = s
handle_optional (some p) (s, false) = (s, false)
handle_optional (some p) (s, true) = handle_reconfig_param p s

-- With `false` the caller gets the error in place of the packets.
unfoldable handle_reconfig : Receiver → ChunkReconfig → (Receiver × List Packet) × Bool
unfolding handle_optional
handle_reconfig r c = handle_optional c.param_b (handle_optional c.param_a ((r, []), true))
