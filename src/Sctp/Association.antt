-- ===== src/Sctp/Association.antt =====
-- rtc-sctp/src/association: the state of an association (state.rs, stream.rs and the fields of
-- mod.rs that the modelled handlers read or write). The counters of `stats` are left out, and
-- `awake_write_loop` does nothing in the source.
pub mod Sack
pub mod Balance
pub mod Accounting
pub mod Removal
pub mod Congestion
pub mod Handler
pub mod Acked
pub mod Timeout
use ortc.Common.{
  ℕ, zero, suc, ◌-◌, Bool, true, false, ◌&&◌, Option, none, some, List, ltb, leb, if◌then◌else◌,
  ◌==◌,
}
use ortc.Sctp.PayloadQueue.{PayloadQueue}
use ortc.Sctp.PendingQueue.{PendingQueue}
use ortc.Sctp.Timers.{RtoManager, TimerTable}

pub data AssociationState : Type 0 where
  closed cookie_wait cookie_echoed established shutdown_ack_sent shutdown_pending shutdown_received
        shutdown_sent :
      AssociationState

-- `state as u8` and `AssociationState::from`.
abbrev state_index : AssociationState → ℕ
state_index AssociationState.closed = 0
state_index AssociationState.cookie_wait = 1
state_index AssociationState.cookie_echoed = 2
state_index AssociationState.established = 3
state_index AssociationState.shutdown_ack_sent = 4
state_index AssociationState.shutdown_pending = 5
state_index AssociationState.shutdown_received = 6
state_index AssociationState.shutdown_sent = 7

abbrev pub is_state : AssociationState → AssociationState → Bool
is_state a b = state_index a == state_index b

-- A stream: what the association reads of `StreamState` when bytes are acknowledged.
pub record StreamState : Type 0 where
  pub buffered_amount : ℕ
  pub buffered_amount_low : ℕ

-- `StreamState::on_buffer_released`: the new amount, and whether it has fallen to the mark.
unfoldable pub on_buffer_released : StreamState → ℕ → StreamState × Bool
on_buffer_released s zero = (s, false)
on_buffer_released s (suc n) =
    let from_amount = s.buffered_amount in
    let new_amount = from_amount - suc n in
    (
      record s { buffered_amount = new_amount },
      ltb s.buffered_amount_low from_amount && leb new_amount s.buffered_amount_low,
    )

pub data Event : Type 0 where
  buffered_amount_low : ℕ → Event

pub data SackError : Type 0 where
  inflight_queue_tsn_pop : SackError
  tsn_request_not_exist : SackError

pub record Association (F : Type 0) : Type 0 where
  pub state : AssociationState
  pub will_send_shutdown : Bool
  pub will_send_shutdown_ack : Bool
  pub my_next_tsn : ℕ
  pub min_tsn2measure_rtt : ℕ
  pub will_send_forward_tsn : Bool
  pub will_retransmit_fast : Bool
  pub inflight_queue : PayloadQueue
  pub pending_queue : PendingQueue
  pub mtu : ℕ
  pub cumulative_tsn_ack_point : ℕ
  pub advanced_peer_tsn_ack_point : ℕ
  pub use_forward_tsn : Bool
  pub rto_mgr : RtoManager F
  pub timers : TimerTable
  pub cwnd : ℕ
  pub rwnd : ℕ
  pub ssthresh : ℕ
  pub partial_bytes_acked : ℕ
  pub in_fast_recovery : Bool
  pub fast_recover_exit_point : ℕ
  pub streams : List (ℕ × StreamState)
  pub events : List Event
