-- ===== src/Sctp/Association/Timeout/Retransmission.antt =====
-- What an expiry of the T3-rtx timer leaves to be sent again.
use ortc.Common.{
  ℕ, ◌+◌, ◌^◌, ◌<◌, ◌≡◌, refl, ap, ◌∙◌, Bool, true, false, ◌||◌, Option, none, some, List, [], ◌∷◌,
  ◌==◌, ltb, if◌then◌else◌, arith, Bool-cases, inl, inr,
}
use ortc.Common.Map
use ortc.Sctp.Chunk.{ChunkPayloadData, is_abandoned}
use ortc.Sctp.PayloadQueue.{PayloadQueue, get, mark_all_to_retrasmit, mark_to_retransmit}
use ortc.Sctp.Timers.{Timer, TimerTable, elapsed, set, start, set_at}
use ortc.Sctp.Timers.Backoff.{is_expired-due}
use ortc.Sctp.Association.{Association}
use ortc.Sctp.Association.Congestion.Termination.{chunks}
use ortc.Sctp.Association.Handler.{advance_point}
use ortc.Sctp.Association.Handler.Termination.{advance_point-total}
use ortc.Sctp.Association.Timeout.{
  collapse_window, retransmit_all, restart_after, on_t3_timeout, after_check, handle_t3,
}

-- A chunk that needs no care, or is marked to be sent again.
abbrev is_cared_for : ChunkPayloadData → Bool
is_cared_for c = c.acked || is_abandoned c || c.retransmit

abbrev pub none_or_cared_for : Option ChunkPayloadData → Bool
none_or_cared_for none = true
none_or_cared_for (some c) = is_cared_for c

mark_to_retransmit_lem : (c : ChunkPayloadData) → is_cared_for (mark_to_retransmit c) ≡ true
unfolding mark_to_retransmit is_abandoned
mark_to_retransmit_lem c = ground arith

map_values_cared :
    (t : ℕ) (m : List (ℕ × ChunkPayloadData))
    → none_or_cared_for (Map.get t (Map.map_values mark_to_retransmit m)) ≡ true
unfolding Map.get Map.map_values
map_values_cared t [] = refl
map_values_cared t ((k, c) ∷ m) = elim (Bool-cases (t == k)) [
  | inl e ↦ rw e (mark_to_retransmit_lem c)
  | inr e ↦ rw e (map_values_cared t m)
]

marked :
    (q r : PayloadQueue) (t : ℕ) → r ≡ mark_all_to_retrasmit q → none_or_cared_for (get r t) ≡ true
unfolding get mark_all_to_retrasmit
marked q r t e =
    ap (λ (x : PayloadQueue). none_or_cared_for (Map.get t x.chunk_map)) e
    ∙ map_values_cared t q.chunk_map

module _ {F : Type 0} where
  forwarded :
      (used : Bool) (a : Association F)
      → chunks a < 2 ^ 32
      → (b : Association F) × ((if used then advance_point a else some a) ≡ some b)
        × (b.inflight_queue ≡ a.inflight_queue)
        × (b.cwnd ≡ a.cwnd)
        × (b.timers ≡ a.timers)
  forwarded true a h = advance_point-total a h
  forwarded false a h = (a, refl, refl, refl, refl)

  pub on_t3_timeout_lem :
      (now : ℕ) (a : Association F)
      → chunks a < 2 ^ 32
      → (b : Association F) × (on_t3_timeout now a ≡ some b)
        × (b.inflight_queue ≡ mark_all_to_retrasmit a.inflight_queue)
        × (b.cwnd ≡ a.mtu)
        × (b.timers ≡ start a.timers Timer.t3_rtx now b.rto_mgr.rto)
  unfolding on_t3_timeout restart_after retransmit_all collapse_window
  on_t3_timeout_lem now a h =
      let (b, done, same, window, timers) = forwarded a.use_forward_tsn (collapse_window a) h in
      (
        record (retransmit_all b) { timers = start b.timers Timer.t3_rtx now b.rto_mgr.rto },
        ap (restart_after now) done,
        ap mark_all_to_retrasmit same,
        window,
        ap (λ (t : TimerTable). start t Timer.t3_rtx now b.rto_mgr.rto) timers,
      )

  -- When the T3-rtx timer has expired, and no more often than its maximum of retransmissions allows,
  -- every chunk that is then in flight is acknowledged, abandoned or marked to be sent again, and
  -- the congestion window is one packet; for fewer than 2 ^ 32 chunks in flight, and a maximum
  -- below 2 ^ 64.
  pub handle_t3_retransmits :
      (now t : ℕ) (a : Association F)
      → chunks a < 2 ^ 32
      → elapsed (a.timers.deadlines Timer.t3_rtx) now ≡ true
      → a.timers.retrans Timer.t3_rtx < a.timers.max_retrans Timer.t3_rtx
      → a.timers.max_retrans Timer.t3_rtx < 2 ^ 64
      → (b : Association F) × (handle_t3 now a ≡ some b)
        × (none_or_cared_for (get b.inflight_queue t) ≡ true)
        × (b.cwnd ≡ a.mtu)
  unfolding handle_t3 after_check
  handle_t3_retransmits now t a few due below small =
      let e = is_expired-due a.timers Timer.t3_rtx now due (omega arith) in
      let going : ltb (a.timers.max_retrans Timer.t3_rtx) (a.timers.retrans Timer.t3_rtx + 1)
          ≡ false =
        ground arith in
      let table = record a.timers {
        retrans = set_at Timer.t3_rtx (a.timers.retrans Timer.t3_rtx + 1) a.timers.retrans;
      } in
      let checked = e ∙ ap (λ b. (table, (true, b, a.timers.retrans Timer.t3_rtx + 1))) going in
      let (b, done, same, window, timers) =
        on_t3_timeout_lem now (record a { timers = set table Timer.t3_rtx none }) few in
      (
        b,
        ap (after_check now a) checked ∙ done,
        marked a.inflight_queue b.inflight_queue t same,
        window,
      )
