-- ===== src/Sctp/Association/Handler.antt =====
-- rtc-sctp/src/association/mod.rs: `handle_sack` as a whole.
pub mod Termination
use ortc.Common.{
  ℕ, zero, suc, ◌+◌, ◌-◌, ◌%◌, ◌^◌, Bool, true, false, not, ◌&&◌, ◌||◌, Option, none, some, List,
  [], ◌∷◌, ◌++◌, length, ◌==◌, ltb, leb, if◌then◌else◌,
}
use ortc.Common.Map
use ortc.Common.Map.{total}
use ortc.Sctp.Sna.{sna32lt, sna32gt}
use ortc.Sctp.Chunk.{is_abandoned}
use ortc.Sctp.PayloadQueue
use ortc.Sctp.Timers.{Floats}
use ortc.Sctp.Association.{
  Association, AssociationState, is_state, StreamState, on_buffer_released, Event, SackError,
}
use ortc.Sctp.Association.Sack.{ChunkSelectiveAck, next_tsn, Progress, process_selective_ack}
use ortc.Sctp.Association.Congestion.{
  restart_t3, on_cumulative_tsn_ack_point_advanced, process_fast_retransmission,
}

-- A state in which a SACK is read.
unfoldable pub reads_sacks : AssociationState → Bool
reads_sacks state =
    is_state state AssociationState.established
    || is_state state AssociationState.shutdown_pending
    || is_state state AssociationState.shutdown_received

module _ {F : Type 0} where
  -- The loop over the acknowledged bytes of each stream.
  unfoldable pub release : ℕ → ℕ → Association F → Association F
  unfolding on_buffer_released
  release si n a = elim (Map.get si a.streams) [
    | none ↦ a
    | some s ↦
        let (t, low) = on_buffer_released s n in
        record a {
          streams = Map.insert si t a.streams;
          events = if low then a.events ++ (Event.buffered_amount_low si ∷ []) else a.events;
        }
  ]

  unfoldable pub release_all : List (ℕ × ℕ) → Association F → Association F
  unfolding release
  release_all [] a = a
  release_all ((si, n) ∷ l) a = release_all l (release si n a)

  -- The new window of the peer.
  unfoldable pub set_rwnd : ℕ → Association F → Association F
  set_rwnd credit a =
      let outstanding = PayloadQueue.get_num_bytes a.inflight_queue % 2 ^ 32 in
      record a { rwnd = if leb credit outstanding then 0 else credit - outstanding }

  -- The advance over abandoned chunks (RFC 3758, section 3.5), on fuel.
  unfoldable pub skip_abandoned : ℕ → ℕ → Association F → Option (Association F)
  skip_abandoned zero i a = none
  skip_abandoned (suc fuel) i a = elim (PayloadQueue.get a.inflight_queue i) [
    | none ↦ some a
    | some c ↦ elim (is_abandoned c) [
      | false ↦ some a
      | true ↦ skip_abandoned fuel (next_tsn i) (record a { advanced_peer_tsn_ack_point = i })
    ]
  ]

  -- The point is not behind the cumulative one.
  unfoldable pub catch_up : Association F → Association F
  catch_up a =
      if sna32lt a.advanced_peer_tsn_ack_point a.cumulative_tsn_ack_point
      then record a { advanced_peer_tsn_ack_point = a.cumulative_tsn_ack_point }
      else a

  -- A point ahead of the cumulative one is announced.
  unfoldable pub announce : Association F → Association F
  announce a =
      if sna32gt a.advanced_peer_tsn_ack_point a.cumulative_tsn_ack_point
      then record a { will_send_forward_tsn = true }
      else a

  unfoldable pub announced : Option (Association F) → Option (Association F)
  unfolding announce
  announced none = none
  announced (some a) = some (announce a)

  -- The advance over abandoned chunks with the announcement.
  unfoldable pub advance_point : Association F → Option (Association F)
  unfolding skip_abandoned announced
  advance_point a = announced (
      skip_abandoned (suc (length a.inflight_queue.chunk_map))
        (next_tsn a.advanced_peer_tsn_ack_point) a)

  unfoldable pub advance_peer_point : Association F → Option (Association F)
  unfolding catch_up advance_point
  advance_peer_point a = advance_point (catch_up a)

  unfoldable pub postprocess_sack : AssociationState → ℕ → Association F → Association F
  unfolding restart_t3
  postprocess_sack state now a =
      if not (PayloadQueue.is_empty a.inflight_queue)
      then restart_t3 now a
      else (if is_state state AssociationState.shutdown_pending
          then record a { will_send_shutdown = true; state = AssociationState.shutdown_sent }
          else (if is_state state AssociationState.shutdown_received
              then record a {
                will_send_shutdown_ack = true;
                state = AssociationState.shutdown_ack_sent;
              }
              else a))

  unfoldable pub postprocessed :
      AssociationState → ℕ → Option (Association F) → Option (Association F × Option SackError)
  unfolding postprocess_sack
  postprocessed state now none = none
  postprocessed state now (some a) = some (postprocess_sack state now a, none)

  -- The end of `handle_sack`, behind the fast retransmission.
  unfoldable pub finish_sack :
      AssociationState
      → ℕ
      → Option (Association F × Option SackError)
      → Option (Association F × Option SackError)
  unfolding advance_peer_point postprocessed
  finish_sack state now none = none
  finish_sack state now (some (a, some error)) = some (a, some error)
  finish_sack state now (some (a, none)) =
      postprocessed state now (if a.use_forward_tsn then advance_peer_point a else some a)

  -- The middle of `handle_sack`, from the new cumulative point to the window.
  unfoldable pub take_sack : ChunkSelectiveAck → ℕ → Progress F → Association F
  unfolding on_cumulative_tsn_ack_point_advanced release_all set_rwnd
  take_sack d now p =
      let a = p.association in
      let moved = record a { cumulative_tsn_ack_point = d.cumulative_tsn_ack } in
      set_rwnd d.advertised_receiver_window_credit (
        release_all p.bytes (
          if sna32lt a.cumulative_tsn_ack_point d.cumulative_tsn_ack
          then on_cumulative_tsn_ack_point_advanced (total (λ n. n) p.bytes) now moved
          else a))

  unfoldable pub after_ack :
      ChunkSelectiveAck
      → ℕ
      → AssociationState
      → Option (Progress F × Option SackError)
      → Option (Association F × Option SackError)
  unfolding take_sack finish_sack process_fast_retransmission
  after_ack d now state none = none
  after_ack d now state (some (p, some error)) = some (p.association, some error)
  after_ack d now state (some (p, none)) =
      let advanced = sna32lt p.association.cumulative_tsn_ack_point d.cumulative_tsn_ack in
      finish_sack state now
        (process_fast_retransmission d.cumulative_tsn_ack p.htna advanced (take_sack d now p))

  unfoldable pub handle_sack :
      Floats F → ChunkSelectiveAck → ℕ → Association F → Option (Association F × Option SackError)
  unfolding process_selective_ack after_ack reads_sacks
  handle_sack f64 d now a =
      if not (reads_sacks a.state)
      then some (a, none)
      else (if sna32gt a.cumulative_tsn_ack_point d.cumulative_tsn_ack
          then some (a, none)
          else after_ack d now a.state (process_selective_ack f64 d now a))
