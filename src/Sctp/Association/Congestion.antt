-- ===== src/Sctp/Association/Congestion.antt =====
-- rtc-sctp/src/association/mod.rs: the congestion window after a SACK, and fast retransmission.
pub mod Termination
use ortc.Common.{
  ℕ, zero, suc, ◌+◌, ◌-◌, ◌*◌, ◌/◌, ◌%◌, ◌^◌, max, min, Bool, true, false, not, ◌&&◌, ◌||◌, Option,
  none, some, ◌==◌, ltb, leb, if◌then◌else◌,
}
use ortc.Common.Map
use ortc.Sctp.Sna.{sna32lt, ahead}
use ortc.Sctp.Chunk.{ChunkPayloadData, is_abandoned}
use ortc.Sctp.PayloadQueue
use ortc.Sctp.PayloadQueue.{PayloadQueue}
use ortc.Sctp.PendingQueue
use ortc.Sctp.Timers.{Timer, stop, restart_if_stale}
use ortc.Sctp.Association.{Association, SackError}
use ortc.Sctp.Association.Sack.{next_tsn}

unfoldable pub count_miss : ChunkPayloadData → ChunkPayloadData
count_miss c = record c { miss_indicator = c.miss_indicator + 1 }

module _ {F : Type 0} where
  unfoldable pub restart_t3 : ℕ → Association F → Association F
  restart_t3 now a = record a { timers = restart_if_stale a.timers Timer.t3_rtx now a.rto_mgr.rto }

  -- Slow start and congestion avoidance.
  unfoldable pub grow_window : ℕ → Association F → Association F
  grow_window total_bytes_acked a =
      let acked = total_bytes_acked % 2 ^ 32 in
      let waiting = not (PendingQueue.is_empty a.pending_queue) in
      let partial = (a.partial_bytes_acked + acked) % 2 ^ 32 in
      if leb a.cwnd a.ssthresh
      then (if not a.in_fast_recovery && waiting
          then record a { cwnd = (a.cwnd + min acked a.cwnd) % 2 ^ 32 }
          else a)
      else (if leb a.cwnd partial && waiting
          then record a { partial_bytes_acked = partial - a.cwnd; cwnd = (a.cwnd + a.mtu) % 2 ^ 32 }
          else record a { partial_bytes_acked = partial })

  unfoldable pub on_cumulative_tsn_ack_point_advanced : ℕ → ℕ → Association F → Association F
  unfolding restart_t3 grow_window
  on_cumulative_tsn_ack_point_advanced total_bytes_acked now a = grow_window total_bytes_acked (
      if PayloadQueue.is_empty a.inflight_queue
      then record a { timers = stop a.timers Timer.t3_rtx }
      else restart_t3 now a)

  -- The third report of a missing chunk outside fast recovery.
  unfoldable pub enter_recovery : ℕ → Association F → Association F
  enter_recovery htna a =
      let ssthresh = max (a.cwnd / 2) (4 * a.mtu % 2 ^ 32) in
      record a {
        in_fast_recovery = true;
        fast_recover_exit_point = htna;
        ssthresh = ssthresh;
        cwnd = ssthresh;
        partial_bytes_acked = 0;
        will_retransmit_fast = true;
      }

  -- A round of the loop of `process_fast_retransmission`, at a chunk that is in flight.
  unfoldable pub report_missing : ℕ → ℕ → ChunkPayloadData → Association F → Association F
  unfolding enter_recovery count_miss
  report_missing htna tsn c a =
      let q = a.inflight_queue in
      let counted = record a {
        inflight_queue = record q { chunk_map = Map.modify tsn count_miss q.chunk_map };
      } in
      if not c.acked && not (is_abandoned c) && ltb c.miss_indicator 3
      then (if c.miss_indicator + 1 == 3 && not a.in_fast_recovery
          then enter_recovery htna counted
          else counted)
      else a

  unfoldable pub fast_loop :
      ℕ → ℕ → ℕ → ℕ → Association F → Option (Association F × Option SackError)
  unfolding report_missing
  fast_loop zero htna max_tsn tsn a = none
  fast_loop (suc fuel) htna max_tsn tsn a = elim (sna32lt tsn max_tsn) [
    | false ↦ some (a, none)
    | true ↦ elim (PayloadQueue.get a.inflight_queue tsn) [
      | none ↦ some (a, some SackError.tsn_request_not_exist)
      | some c ↦ fast_loop fuel htna max_tsn (next_tsn tsn) (report_missing htna tsn c a)
    ]
  ]

  -- The end of `process_fast_retransmission`.
  unfoldable pub keep_retransmitting :
      Bool → Option (Association F × Option SackError) → Option (Association F × Option SackError)
  keep_retransmitting advanced none = none
  keep_retransmitting advanced (some (a, some error)) = some (a, some error)
  keep_retransmitting advanced (some (a, none)) = some (
    (if a.in_fast_recovery && advanced then record a { will_retransmit_fast = true } else a),
    none,
  )

  unfoldable pub process_fast_retransmission :
      ℕ → ℕ → Bool → Association F → Option (Association F × Option SackError)
  unfolding fast_loop keep_retransmitting
  process_fast_retransmission cum htna advanced a =
      let max_tsn =
        if not a.in_fast_recovery
        then htna
        else (cum + PayloadQueue.len a.inflight_queue % 2 ^ 32 + 1) % 2 ^ 32 in
      keep_retransmitting advanced (
        if not a.in_fast_recovery || advanced
        then fast_loop (suc (ahead (2 ^ 32) (next_tsn cum) max_tsn)) htna max_tsn (next_tsn cum) a
        else some (a, none))
