-- ===== src/Sctp/Association/Timeout/Exhaustion.antt =====
-- What becomes of the T3-rtx timer when no SACK comes.
use ortc.Common.{ℕ, ◌+◌, ◌≤◌, ◌≡◌, Bool, true, false, Option, none, some, List, [], ◌∷◌}
use ortc.Common.Map
use ortc.Common.Map.{keys}
use ortc.Sctp.Timers.{Timer, TimerTable, set_at}
use ortc.Sctp.Association.{Association}
use ortc.Sctp.Association.Congestion.Termination.{chunks}
use ortc.Sctp.Association.Timeout.{handle_t3}

-- Each time is a minute or more after the one before.
abbrev pub Minutes : ℕ → List ℕ → Type 0
Minutes before [] = Unit {0}
Minutes before (now ∷ l) = (before + 60000 ≤ now) × Minutes now l

abbrev pub expiries : {F : Type 0} → Association F → ℕ
expiries a = a.timers.retrans Timer.t3_rtx

abbrev pub most : {F : Type 0} → Association F → ℕ
most a = a.timers.max_retrans Timer.t3_rtx

abbrev then_handle :
    {F : Type 0}
    → (Association F → Option (Association F))
    → Option (Association F)
    → Option (Association F)
then_handle f none = none
then_handle f (some a) = f a

-- The timer looked at, at each of the times.
unfoldable pub handle_all : {F : Type 0} → List ℕ → Association F → Option (Association F)
unfolding handle_t3
handle_all [] a = some a
handle_all (now ∷ l) a = then_handle (handle_all l) (handle_t3 now a)

abbrev pub is_set : Option ℕ → Bool
is_set none = false
is_set (some x) = true

module _ {F : Type 0} where
  -- An expiry more, with all the chunks still in flight.
  record IsExpiry (a b : Association F) : Type 0 where
    kept : keys b.inflight_queue.chunk_map ≡ keys a.inflight_queue.chunk_map
    few : chunks b ≡ chunks a
    same : most b ≡ most a
    more : expiries b ≡ expiries a + 1

  counted : Association F → TimerTable
  counted a = record a.timers { retrans = set_at Timer.t3_rtx (expiries a + 1) a.timers.retrans }
