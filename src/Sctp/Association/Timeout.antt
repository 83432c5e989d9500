-- ===== src/Sctp/Association/Timeout.antt =====
-- rtc-sctp/src/association/mod.rs: the expiry of the T3-rtx timer, as `handle_timeout` looks at it,
-- with `on_retransmission_timeout` and `on_retransmission_failure` at that timer. The latter only
-- writes to the log.
pub mod Retransmission
pub mod Exhaustion
use ortc.Common.{◌*◌, ◌/◌, ◌%◌, ◌^◌, ℕ, max, Bool, true, false, Option, none, some, if◌then◌else◌}
use ortc.Sctp.PayloadQueue.{mark_all_to_retrasmit}
use ortc.Sctp.Timers.{Timer, TimerTable, is_expired, set, start}
use ortc.Sctp.Association.{Association}
use ortc.Sctp.Association.Handler.{advance_point}

module _ {F : Type 0} where
  -- The window falls to one packet.
  unfoldable pub collapse_window : Association F → Association F
  collapse_window a = record a { ssthresh = max (a.cwnd / 2) (4 * a.mtu % 2 ^ 32); cwnd = a.mtu }

  unfoldable pub retransmit_all : Association F → Association F
  retransmit_all a = record a { inflight_queue = mark_all_to_retrasmit a.inflight_queue }

  unfoldable pub restart_after : ℕ → Option (Association F) → Option (Association F)
  unfolding retransmit_all
  restart_after now none = none
  restart_after now (some a) =
      some (record (retransmit_all a) { timers = start a.timers Timer.t3_rtx now a.rto_mgr.rto })

  -- `on_retransmission_timeout`, and then the timer again.
  unfoldable pub on_t3_timeout : ℕ → Association F → Option (Association F)
  unfolding collapse_window restart_after
  on_t3_timeout now a =
      let b = collapse_window a in
      restart_after now (if b.use_forward_tsn then advance_point b else some b)

  -- What follows the check of the timer: whether it has expired, and whether too often.
  unfoldable pub after_check :
      ℕ → Association F → TimerTable × (Bool × Bool × ℕ) → Option (Association F)
  unfolding on_t3_timeout
  after_check now a (table, (false, failure, n)) = some (record a { timers = table })
  after_check now a (table, (true, true, n)) =
      some (record a { timers = set table Timer.t3_rtx none })
  after_check now a (table, (true, false, n)) =
      on_t3_timeout now (record a { timers = set table Timer.t3_rtx none })

  unfoldable pub handle_t3 : ℕ → Association F → Option (Association F)
  unfolding after_check
  handle_t3 now a = after_check now a (is_expired a.timers Timer.t3_rtx now)
