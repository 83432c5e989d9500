-- ===== src/Sctp/Tests/Associations.antt =====
-- The timers and the handling of a SACK at concrete inputs.
use ortc.Common.{
  ℕ, ◌+◌, ◌*◌, ◌/◌, ◌^◌, ◌≤◌, ◌<◌, ◌≡◌, refl, min, true, false, Option, none, some, List, [], ◌∷◌,
  arith,
}
use ortc.Common.Map
use ortc.Sctp.Sna.{sna32lt, sna32lte}
use ortc.Sctp.Chunk.{ChunkPayloadData, default_chunk}
use ortc.Sctp.PayloadQueue.{PayloadQueue, get}
use ortc.Sctp.PendingQueue
use ortc.Sctp.Timers.{
  set_at, max_of, Timer, TimerTable, new_table, default_config, start, stop, Floats, new_manager,
}
use ortc.Sctp.Timers.Backoff.{Call, run, rounds, failures, start-backoff, stop-rounds}
use ortc.Sctp.Association.{Association, AssociationState, SackError}
use ortc.Sctp.Association.Sack.{ChunkSelectiveAck, Progress, process_selective_ack}
use ortc.Sctp.Association.Removal.{IsSettled}
use ortc.Sctp.Association.Balance.{total_bytes, acked_for, stream_bytes}
use ortc.Sctp.Association.Accounting.{process_selective_ack_lem}
use ortc.Sctp.Association.Acked.{process_selective_ack-gone}
use ortc.Sctp.Association.Timeout.{handle_t3}
use ortc.Sctp.Association.Timeout.Retransmission.{none_or_cared_for, handle_t3_retransmits}
use ortc.Sctp.Association.Handler.{handle_sack}
use ortc.Sctp.Association.Handler.Termination.{handle_sack-total}

-- Natural numbers in place of f64.
abbrev whole : Floats ℕ
whole = record {
  from_u64 = λ n. n;
  add = λ a b. a + b;
  mul = λ a b. a * b;
  div = λ a b. a / b;
  to_u64 = λ n. n;
}

abbrev table : TimerTable
table = new_table default_config

abbrev measurements : List Call
measurements = Call.measured 400 ∷ Call.measured 90000 ∷ Call.restarted ∷ Call.measured 700 ∷ []

start-backoff_example :
    let rto = (run whole (new_manager whole) measurements).rto in
    (1000 ≤ rto)
    × (rto ≤ 60000)
    × ((start table Timer.t3_rtx 5 rto).deadlines Timer.t3_rtx
        ≡ some (5 + min (rto * 2 ^ table.retrans Timer.t3_rtx) 60000))
start-backoff_example = start-backoff whole measurements table Timer.t3_rtx 5 refl

abbrev times : List (ℕ × ℕ)
times = (0, 60000) ∷ (60000, 120000) ∷ (120000, 190000) ∷ []

stop-rounds_example :
    rounds (stop table Timer.t3_rtx) Timer.t3_rtx 1000 times
    ≡ failures (table.max_retrans Timer.t3_rtx) 0 times
stop-rounds_example =
    stop-rounds table Timer.t3_rtx 1000 times (omega arith)
      (omega arith, (omega arith, (omega arith, tt))) (omega arith)

abbrev chunk : ℕ → List ℕ → ChunkPayloadData
chunk t d = record default_chunk { tsn = t; user_data = d; nsent = 1; since = some 100 }

abbrev in_transit : PayloadQueue
in_transit = record {
  chunk_map = (11, chunk 11 (1 ∷ 2 ∷ [])) ∷ (12, chunk 12 (3 ∷ [])) ∷ (13, chunk 13 (4 ∷ [])) ∷ [];
  sorted = 11 ∷ 12 ∷ 13 ∷ [];
  dup_tsn = [];
  n_bytes = 4;
}

in_transit-IsSettled : IsSettled in_transit
in_transit-IsSettled = record {
  valid = record { counted = refl; distinct = λ t. ground arith; listed = λ t. refl };
  released = refl;
  few = omega arith;
}

abbrev sender : Association ℕ
sender = record {
  state = AssociationState.established;
  will_send_shutdown = false;
  will_send_shutdown_ack = false;
  my_next_tsn = 14;
  min_tsn2measure_rtt = 11;
  will_send_forward_tsn = false;
  will_retransmit_fast = false;
  inflight_queue = in_transit;
  pending_queue = PendingQueue.empty_queue;
  mtu = 1200;
  cumulative_tsn_ack_point = 10;
  advanced_peer_tsn_ack_point = 10;
  use_forward_tsn = true;
  rto_mgr = new_manager whole;
  timers = table;
  cwnd = 4380;
  rwnd = 10000;
  ssthresh = 10000;
  partial_bytes_acked = 0;
  in_fast_recovery = false;
  fast_recover_exit_point = 0;
  streams = (0, record { buffered_amount = 4; buffered_amount_low = 2 }) ∷ [];
  events = [];
}

-- It acknowledges 11 and, in a gap block, 13.
abbrev sack : ChunkSelectiveAck
sack = record {
  cumulative_tsn_ack = 11;
  advertised_receiver_window_credit = 9000;
  gap_ack_blocks = record { start = 2; end = 2 } ∷ [];
  duplicate_tsn = [];
}

process_selective_ack_lem_example :
    (p : Progress ℕ) × (e : Option SackError) × (process_selective_ack whole sack 500 sender
      ≡ some (p, e))
    × IsSettled p.association.inflight_queue
    × (p.association.inflight_queue.n_bytes + total_bytes p.bytes ≡ 4)
    × ((si : ℕ)
        → stream_bytes si p.association.inflight_queue + acked_for si p.bytes
          ≡ stream_bytes si in_transit)
process_selective_ack_lem_example =
    process_selective_ack_lem whole sack 500 sender in_transit-IsSettled

handle_sack-total_example :
    (b : Association ℕ) × (e : Option SackError) × (handle_sack whole sack 500 sender ≡ some (b, e))
handle_sack-total_example = handle_sack-total whole sack 500 sender in_transit-IsSettled

abbrev progress_of : Option (Progress ℕ × Option SackError) → Progress ℕ
progress_of none = record { association = sender; bytes = []; htna = 0 }
progress_of (some (p, e)) = p

abbrev acknowledged : Progress ℕ
acknowledged = progress_of (process_selective_ack whole sack 500 sender)

acknowledged-bytes : acknowledged.bytes ≡ (0, 3) ∷ []
unfolding process_selective_ack sna32lte ortc.Sctp.PayloadQueue.pop Map.get get Map.remove
    ortc.Sctp.PayloadQueue.mark_as_acked Map.modify Map.insert
acknowledged-bytes = refl

acknowledged_done : process_selective_ack whole sack 500 sender ≡ some (acknowledged, none)
unfolding process_selective_ack sna32lte ortc.Sctp.PayloadQueue.pop Map.get get Map.remove
    ortc.Sctp.PayloadQueue.mark_as_acked Map.modify
acknowledged_done = refl

serial_order : (sna32lt 10 11 ≡ true) × (sna32lte 11 11 ≡ true) × (sna32lte 10 11 ≡ true)
unfolding sna32lt sna32lte
serial_order = (refl, refl, refl)

process_selective_ack-gone_example : get acknowledged.association.inflight_queue 11 ≡ none
process_selective_ack-gone_example =
    process_selective_ack-gone whole sack 500 11 sender acknowledged in_transit-IsSettled
      (omega arith) (omega arith) (omega arith) serial_order.0 serial_order.1 serial_order.2
      acknowledged_done

-- The timer is due at 500.
abbrev waiting : Association ℕ
waiting = record sender {
  timers = record table { deadlines = set_at Timer.t3_rtx (some 500) table.deadlines };
}

-- It has expired as often as it may.
abbrev worn_out : Association ℕ
worn_out = record waiting {
  timers = record waiting.timers { retrans = set_at Timer.t3_rtx 5 table.retrans };
}

retries_left : table.retrans Timer.t3_rtx < table.max_retrans Timer.t3_rtx
unfolding new_table max_of
retries_left = omega arith

retries_small : table.max_retrans Timer.t3_rtx < 2 ^ 64
unfolding new_table max_of
retries_small = omega arith

handle_t3_retransmits_example :
    (b : Association ℕ) × (handle_t3 600 waiting ≡ some b)
    × (none_or_cared_for (get b.inflight_queue 12) ≡ true)
    × (b.cwnd ≡ 1200)
handle_t3_retransmits_example =
    handle_t3_retransmits 600 12 waiting (omega arith) refl retries_left retries_small
