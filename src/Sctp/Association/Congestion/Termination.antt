-- ===== src/Sctp/Association/Congestion/Termination.antt =====
-- The loops of a SACK that follow the chunks in flight end.
use ortc.Common.{
  ℕ, zero, suc, ◌+◌, ◌%◌, ◌^◌, ◌<◌, ◌≡◌, refl, ap, ◌∙◌, Bool, true, false, not, ◌&&◌, ◌||◌, Option,
  none, some, length, ◌==◌, ltb, if◌then◌else◌, arith, Bool-cases, Option-cases, inl, inr,
}
use ortc.Common.Map
use ortc.Sctp.Sna.{sna32lt, ahead}
use ortc.Sctp.Chunk.{ChunkPayloadData, is_abandoned}
use ortc.Sctp.PayloadQueue
use ortc.Sctp.PayloadQueue.{get}
use ortc.Sctp.Timers.{Timer, stop}
use ortc.Sctp.Association.{Association, SackError}
use ortc.Sctp.Association.Sack.{next_tsn}
use ortc.Sctp.Association.Congestion.{
  enter_recovery, count_miss, grow_window, on_cumulative_tsn_ack_point_advanced, restart_t3,
  report_missing, fast_loop, keep_retransmitting, process_fast_retransmission,
}

-- A TSN that lies before another comes one nearer.
ahead-next :
    (tsn max_tsn : ℕ)
    → tsn < 2 ^ 32
    → sna32lt tsn max_tsn ≡ true
    → suc (ahead (2 ^ 32) (next_tsn tsn) max_tsn) ≡ ahead (2 ^ 32) tsn max_tsn
unfolding sna32lt
ahead-next tsn max_tsn h e = ground arith

module _ {F : Type 0} where
  abbrev pub chunks : Association F → ℕ
  chunks a = length a.inflight_queue.chunk_map

  pub if_chunks :
      (b : Bool) (x y : Association F) (k : ℕ)
      → chunks x ≡ k
      → chunks y ≡ k
      → chunks (if b then x else y) ≡ k
  if_chunks true x y k h g = h
  if_chunks false x y k h g = g

  report_missing-chunks :
      (htna tsn : ℕ) (c : ChunkPayloadData) (a : Association F)
      → chunks (report_missing htna tsn c a) ≡ chunks a
  unfolding report_missing enter_recovery
  report_missing-chunks htna tsn c a =
      let q = a.inflight_queue in
      let counted = record a {
        inflight_queue = record q { chunk_map = Map.modify tsn count_miss q.chunk_map };
      } in
      let same = Map.length-modify tsn count_miss q.chunk_map in
      if_chunks (not c.acked && not (is_abandoned c) && ltb c.miss_indicator 3)
        (if c.miss_indicator + 1 == 3 && not a.in_fast_recovery
          then enter_recovery htna counted
          else counted)
        a (chunks a)
        (if_chunks (c.miss_indicator + 1 == 3 && not a.in_fast_recovery)
          (enter_recovery htna counted) counted (chunks a) same same)
        refl

  fast_loop-total :
      (fuel htna max_tsn tsn : ℕ) (a : Association F)
      → tsn < 2 ^ 32
      → ahead (2 ^ 32) tsn max_tsn < fuel
      → (b : Association F) × (e : Option SackError) × (fast_loop fuel htna max_tsn tsn a
          ≡ some (b, e))
        × (chunks b ≡ chunks a)
  unfolding fast_loop
  fast_loop-total zero htna max_tsn tsn a u h = absurd (omega arith)
  fast_loop-total (suc fuel) htna max_tsn tsn a u h = elim (Bool-cases (sna32lt tsn max_tsn)) [
    | inr e ↦ (a, none, rw (e, fast_loop) refl, refl)
    | inl e ↦ elim (Option-cases (get a.inflight_queue tsn)) [
      | inl f ↦ (a, some SackError.tsn_request_not_exist, rw (e, f, fast_loop) refl, refl)
      | inr (c, f) ↦
          let next = report_missing htna tsn c a in
          let (b, error, done, kept) =
            fast_loop-total fuel htna max_tsn (next_tsn tsn) next (omega arith)
              (omega (arith, ahead-next tsn max_tsn u e)) in
          (b, error, rw (e, f, fast_loop) done, kept ∙ report_missing-chunks htna tsn c a)
    ]
  ]

  grow_window-chunks : (n : ℕ) (a : Association F) → chunks (grow_window n a) ≡ chunks a
  unfolding grow_window
  grow_window-chunks n a = ground arith

  pub on_cumulative_tsn_ack_point_advanced-chunks :
      (n now : ℕ) (a : Association F)
      → chunks (on_cumulative_tsn_ack_point_advanced n now a) ≡ chunks a
  unfolding on_cumulative_tsn_ack_point_advanced restart_t3
  on_cumulative_tsn_ack_point_advanced-chunks n now a =
      let empty = PayloadQueue.is_empty a.inflight_queue in
      let stopped = record a { timers = stop a.timers Timer.t3_rtx } in
      grow_window-chunks n (if empty then stopped else restart_t3 now a)
      ∙ if_chunks empty stopped (restart_t3 now a) (chunks a) refl refl

  keep_retransmitting-total :
      (advanced : Bool) (b : Association F) (e : Option SackError)
      → (c : Association F) × (f : Option SackError) × (keep_retransmitting advanced (some (b, e))
          ≡ some (c, f))
        × (chunks c ≡ chunks b)
  unfolding keep_retransmitting
  keep_retransmitting-total advanced b (some error) = (b, some error, refl, refl)
  keep_retransmitting-total advanced b none =
      let x = record b { will_retransmit_fast = true } in
      let test = b.in_fast_recovery && advanced in
      ((if test then x else b), none, refl, if_chunks test x b (chunks b) refl refl)

  looped-total :
      (run : Bool) (fuel htna max_tsn tsn : ℕ) (a : Association F)
      → tsn < 2 ^ 32
      → ahead (2 ^ 32) tsn max_tsn < fuel
      → (b : Association F) × (e : Option SackError) × ((if run
            then fast_loop fuel htna max_tsn tsn a
            else some (a, none))
          ≡ some (b, e))
        × (chunks b ≡ chunks a)
  looped-total true fuel htna max_tsn tsn a u h = fast_loop-total fuel htna max_tsn tsn a u h
  looped-total false fuel htna max_tsn tsn a u h = (a, none, refl, refl)

  pub process_fast_retransmission-total :
      (cum htna : ℕ) (advanced : Bool) (a : Association F)
      → (b : Association F) × (e : Option SackError) × (process_fast_retransmission cum htna
            advanced a
          ≡ some (b, e))
        × (chunks b ≡ chunks a)
  unfolding process_fast_retransmission
  process_fast_retransmission-total cum htna advanced a =
      let max_tsn =
        if not a.in_fast_recovery
        then htna
        else (cum + PayloadQueue.len a.inflight_queue % 2 ^ 32 + 1) % 2 ^ 32 in
      let (b, e, h, k) =
        looped-total (not a.in_fast_recovery || advanced)
          (suc (ahead (2 ^ 32) (next_tsn cum) max_tsn)) htna max_tsn (next_tsn cum) a (omega arith)
          (omega arith) in
      let (c, f, i, j) = keep_retransmitting-total advanced b e in
      (c, f, ap (keep_retransmitting advanced) h ∙ i, j ∙ k)
