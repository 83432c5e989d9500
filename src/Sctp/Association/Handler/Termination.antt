-- ===== src/Sctp/Association/Handler/Termination.antt =====
-- `handle_sack` ends.
use ortc.Common.{
  ℕ, zero, suc, ◌+◌, ◌%◌, ◌^◌, ◌≤◌, ◌<◌, ◌≡◌, refl, ap, ◌∙◌, Bool, true, false, Option, none, some,
  List, [], ◌∷◌, length, ◌==◌, leb, bit_of, if◌then◌else◌, arith, Bool-cases, Option-cases, inl,
  inr,
}
use ortc.Common.Map
use ortc.Common.Map.{total}
use ortc.Sctp.Sna.{sna32lt, sna32gt, ahead}
use ortc.Sctp.Chunk.{ChunkPayloadData, is_abandoned}
use ortc.Sctp.PayloadQueue.{get}
use ortc.Sctp.Timers.{Floats}
use ortc.Sctp.Association.{Association, AssociationState, SackError}
use ortc.Sctp.Association.Sack.{ChunkSelectiveAck, next_tsn, Progress}
use ortc.Sctp.Association.Accounting.{process_selective_ack_lem}
use ortc.Sctp.Association.Removal.{IsSettled}
use ortc.Sctp.Association.Congestion.{on_cumulative_tsn_ack_point_advanced}
use ortc.Sctp.Association.Congestion.Termination.{
  chunks, if_chunks, on_cumulative_tsn_ack_point_advanced-chunks, process_fast_retransmission-total,
}
use ortc.Sctp.Association.Handler.{
  release, release_all, set_rwnd, skip_abandoned, catch_up, announce, announced, advance_point,
  advance_peer_point, postprocess_sack, postprocessed, finish_sack, take_sack, after_ack,
  reads_sacks, handle_sack,
}

-- How many keys lie `k` or more ahead of a TSN.
abbrev from_on : ℕ → ℕ → List (ℕ × ChunkPayloadData) → ℕ
from_on start k [] = 0
from_on start k ((t, c) ∷ m) = bit_of (leb k (ahead (2 ^ 32) start t)) + from_on start k m

from_on_le :
    (start k : ℕ) (m : List (ℕ × ChunkPayloadData)) → from_on start (suc k) m ≤ from_on start k m
from_on_le start k [] = omega arith
from_on_le start k ((t, c) ∷ m) = ground (arith, from_on_le start k m)

from_on-length : (start k : ℕ) (m : List (ℕ × ChunkPayloadData)) → from_on start k m ≤ length m
from_on-length start k [] = omega arith
from_on-length start k ((t, c) ∷ m) = ground (arith, from_on-length start k m)

from_on_lt :
    (start k i : ℕ) (m : List (ℕ × ChunkPayloadData)) (c : ChunkPayloadData)
    → ahead (2 ^ 32) start i ≡ k
    → Map.get i m ≡ some c
    → from_on start (suc k) m < from_on start k m
unfolding Map.get
from_on_lt start k i [] c e h = absurd (ground (arith, h))
from_on_lt start k i ((t, d) ∷ m) c e h = elim (Bool-cases (i == t)) [
  | inl same ↦ ground (arith, from_on_le start k m, e, same)
  | inr other ↦ ground (arith, from_on_lt start k i m c e (rw other at h))
]

module _ {F : Type 0} where
  skip_abandoned-total :
      (fuel start k i : ℕ) (a : Association F)
      → start < 2 ^ 32
      → i ≡ (start + k) % 2 ^ 32
      → k + from_on start k a.inflight_queue.chunk_map < 2 ^ 32
      → from_on start k a.inflight_queue.chunk_map < fuel
      → (b : Association F) × (skip_abandoned fuel i a ≡ some b)
        × (b.inflight_queue ≡ a.inflight_queue)
        × (b.cwnd ≡ a.cwnd)
        × (b.timers ≡ a.timers)
  unfolding skip_abandoned
  skip_abandoned-total zero start k i a u e h g = absurd (omega arith)
  skip_abandoned-total (suc fuel) start k i a u e h g =
      elim (Option-cases (get a.inflight_queue i)) [
        | inl f ↦ (a, rw (f, skip_abandoned) refl, refl, refl, refl)
        | inr (c, f) ↦ elim (Bool-cases (is_abandoned c)) [
          | inr n ↦ (a, rw (f, n, skip_abandoned) refl, refl, refl, refl)
          | inl y ↦
              let m = a.inflight_queue.chunk_map in
              let less = from_on_lt start k i m c (omega arith) (unfold get in f) in
              let (b, done, same, window, timers) =
                skip_abandoned-total fuel start (suc k) (next_tsn i)
                  (record a { advanced_peer_tsn_ack_point = i }) u (omega arith) (omega arith)
                  (omega arith) in
              (b, rw (f, y, skip_abandoned) done, same, window, timers)
        ]
      ]

  release-chunks : (si n : ℕ) (a : Association F) → chunks (release si n a) ≡ chunks a
  unfolding release
  release-chunks si n a = elim (Option-cases (Map.get si a.streams)) [
    | inl e ↦ rw (e, release) refl
    | inr (s, e) ↦ rw (e, release) refl
  ]

  release_all-chunks : (l : List (ℕ × ℕ)) (a : Association F) → chunks (release_all l a) ≡ chunks a
  unfolding release_all
  release_all-chunks [] a = refl
  release_all-chunks ((si, n) ∷ l) a = release_all-chunks l (release si n a) ∙ release-chunks si n a

  take_sack-chunks :
      (d : ChunkSelectiveAck) (now : ℕ) (p : Progress F)
      → chunks (take_sack d now p) ≡ chunks p.association
  unfolding take_sack set_rwnd
  take_sack-chunks d now p =
      let a = p.association in
      let moved = record a { cumulative_tsn_ack_point = d.cumulative_tsn_ack } in
      let advanced = sna32lt a.cumulative_tsn_ack_point d.cumulative_tsn_ack in
      let grown = on_cumulative_tsn_ack_point_advanced (total (λ n. n) p.bytes) now moved in
      release_all-chunks p.bytes (if advanced then grown else a)
      ∙ if_chunks advanced grown a (chunks a)
          (on_cumulative_tsn_ack_point_advanced-chunks (total (λ n. n) p.bytes) now moved) refl

  catch_up-chunks : (a : Association F) → chunks (catch_up a) ≡ chunks a
  unfolding catch_up
  catch_up-chunks a =
      if_chunks (sna32lt a.advanced_peer_tsn_ack_point a.cumulative_tsn_ack_point) _ a (chunks a)
        refl refl

  announce_lem :
      (a : Association F)
      → ((announce a).inflight_queue ≡ a.inflight_queue)
        × ((announce a).cwnd ≡ a.cwnd)
        × ((announce a).timers ≡ a.timers)
  unfolding announce
  announce_lem a =
      elim (Bool-cases (sna32gt a.advanced_peer_tsn_ack_point a.cumulative_tsn_ack_point)) [
        | inl e ↦ rw e (refl, refl, refl)
        | inr e ↦ rw e (refl, refl, refl)
      ]

  pub advance_point-total :
      (a : Association F)
      → chunks a < 2 ^ 32
      → (b : Association F) × (advance_point a ≡ some b)
        × (b.inflight_queue ≡ a.inflight_queue)
        × (b.cwnd ≡ a.cwnd)
        × (b.timers ≡ a.timers)
  unfolding advance_point announced
  advance_point-total a h =
      let m = a.inflight_queue.chunk_map in
      let start = next_tsn a.advanced_peer_tsn_ack_point in
      let few = from_on-length start 0 m in
      let (b, done, same, window, timers) =
        skip_abandoned-total (suc (length m)) start 0 start a (omega arith) (omega arith)
          (omega arith) (omega arith) in
      let (same', window', timers') = announce_lem b in
      (announce b, ap announced done, same' ∙ same, window' ∙ window, timers' ∙ timers)

  advance_peer_point-total :
      (a : Association F)
      → chunks a < 2 ^ 32
      → (b : Association F) × (advance_peer_point a ≡ some b)
  unfolding advance_peer_point
  advance_peer_point-total a h =
      let (b, done, same, window, timers) =
        advance_point-total (catch_up a) (omega (arith, catch_up-chunks a)) in
      (b, done)

  point-total :
      (used : Bool) (a : Association F)
      → chunks a < 2 ^ 32
      → (b : Association F) × ((if used then advance_peer_point a else some a) ≡ some b)
  point-total true a h = advance_peer_point-total a h
  point-total false a h = (a, refl)

  finish_sack-total :
      (state : AssociationState) (now : ℕ) (a : Association F) (e : Option SackError)
      → chunks a < 2 ^ 32
      → (b : Association F) × (f : Option SackError) × (finish_sack state now (some (a, e))
          ≡ some (b, f))
  unfolding finish_sack postprocessed
  finish_sack-total state now a (some error) h = (a, some error, refl)
  finish_sack-total state now a none h =
      let (b, done) = point-total a.use_forward_tsn a h in
      (postprocess_sack state now b, none, ap (postprocessed state now) done)

  after_ack-total :
      (d : ChunkSelectiveAck) (now : ℕ) (state : AssociationState) (p : Progress F)
      (e : Option SackError)
      → chunks p.association < 2 ^ 32
      → (b : Association F) × (f : Option SackError) × (after_ack d now state (some (p, e))
          ≡ some (b, f))
  unfolding after_ack
  after_ack-total d now state p (some error) h = (p.association, some error, refl)
  after_ack-total d now state p none h =
      let advanced = sna32lt p.association.cumulative_tsn_ack_point d.cumulative_tsn_ack in
      let (b, e, done, same) =
        process_fast_retransmission-total d.cumulative_tsn_ack p.htna advanced
          (take_sack d now p) in
      let (c, f, finished) =
        finish_sack-total state now b e (omega (arith, take_sack-chunks d now p)) in
      (c, f, ap (finish_sack state now) done ∙ finished)

  -- `handle_sack` ends on every SACK and in every state, with or without an error, if the queue of
  -- chunks in flight is valid, its acknowledged chunks hold no data and it holds fewer than 2 ^ 32
  -- chunks: the fuel of its loops is enough.
  pub handle_sack-total :
      (f64 : Floats F) (d : ChunkSelectiveAck) (now : ℕ) (a : Association F)
      → IsSettled a.inflight_queue
      → (b : Association F) × (e : Option SackError) × (handle_sack f64 d now a ≡ some (b, e))
  unfolding handle_sack
  handle_sack-total f64 d now a s =
      let (p, e, done, settled, bytes, shares) = process_selective_ack_lem f64 d now a s in
      let (b, f, handled) = after_ack-total d now a.state p e settled.few in
      elim (Bool-cases (reads_sacks a.state)) [
        | inr g ↦ (a, none, rw (g, handle_sack) refl)
        | inl g ↦ elim (Bool-cases (sna32gt a.cumulative_tsn_ack_point d.cumulative_tsn_ack)) [
          | inl old ↦ (a, none, rw (g, old, handle_sack) refl)
          | inr new ↦ (b, f, rw (g, new, handle_sack) (ap (after_ack d now a.state) done ∙ handled))
        ]
      ]
