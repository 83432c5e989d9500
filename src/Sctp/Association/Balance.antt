-- ===== src/Sctp/Association/Balance.antt =====
-- What a round of a loop of `process_selective_ack` does to the queue of chunks in flight and to the
-- bytes counted.
use ortc.Common.{
  ℕ, ◌+◌, ◌≡◌, refl, ap, ◌∙◌, Bool, true, false, ◌&&◌, List, length, ◌==◌, if◌then◌else◌, arith,
  Bool-cases, Option-cases, none, some, inl, inr,
}
use ortc.Common.Map
use ortc.Common.Map.{total}
use ortc.Sctp.Sna.{sna32gte}
use ortc.Sctp.Chunk.{ChunkPayloadData}
use ortc.Sctp.PayloadQueue.{PayloadQueue}
use ortc.Sctp.PayloadQueue.Invariant.{size}
use ortc.Sctp.Timers.{Floats, Timer, stop}
use ortc.Sctp.Association.{Association}
use ortc.Sctp.Association.Sack.{
  next_tsn, add_bytes, Progress, measure_rtt, newly_acked, exit_recovery, popped, gap_acked,
}
use ortc.Sctp.Association.Removal.{acked_size, IsSettled}

abbrev pub total_bytes : List (ℕ × ℕ) → ℕ
total_bytes m = total (λ n. n) m

pub add_bytes_lem :
    (si n : ℕ) (m : List (ℕ × ℕ)) → total_bytes (add_bytes si n m) ≡ total_bytes m + n
unfolding add_bytes
add_bytes_lem si n m = elim (Option-cases (Map.get si m)) [
  | inl e ↦ rw (e, add_bytes) (Map.total-insert-none (λ (k : ℕ). k) si n m e)
  | inr (a, e) ↦
      rw (e, add_bytes) (omega (arith, Map.total-insert-some (λ (k : ℕ). k) si (a + n) m e))
]

-- The bytes reported as acknowledged for a stream.
abbrev pub acked_for : ℕ → List (ℕ × ℕ) → ℕ
acked_for si m = elim (Map.get si m) [ none ↦ 0 | some n ↦ n ]

pub acked_for-add_bytes :
    (si sj n : ℕ) (m : List (ℕ × ℕ))
    → acked_for si (add_bytes sj n m) ≡ acked_for si m + (if si == sj then n else 0)
unfolding add_bytes
acked_for-add_bytes si sj n m = elim (Option-cases (Map.get sj m)) [
  | inl e ↦
      rw (e, add_bytes)
        (ground (arith, e, Map.get-insert sj si n m, ap (λ (k : ℕ). Map.get k m) {x = si} {y = sj}))
  | inr (a, e) ↦
      rw (e, add_bytes)
        (ground
          (arith, e, Map.get-insert sj si (a + n) m, ap (λ (k : ℕ). Map.get k m) {x = si} {y = sj}))
]

-- What a chunk of the stream holds, and what the queue holds of the stream.
abbrev pub stream_size : ℕ → ChunkPayloadData → ℕ
stream_size si c = if si == c.stream_identifier then length c.user_data else 0

abbrev pub stream_bytes : ℕ → PayloadQueue → ℕ
stream_bytes si q = total (stream_size si) q.chunk_map

-- Of `n` bytes, and of `base si` bytes of each stream, those in flight and those acknowledged are
-- all.
pub record IsBalanced {F : Type 0} (n : ℕ) (base : ℕ → ℕ) (p : Progress F) : Type 0 where
  pub settled : IsSettled p.association.inflight_queue
  pub balance : p.association.inflight_queue.n_bytes + total_bytes p.bytes ≡ n
  pub shares :
      (si : ℕ) → stream_bytes si p.association.inflight_queue + acked_for si p.bytes ≡ base si

module _ {F : Type 0} (f64 : Floats F) where
  measure_rtt-queue :
      (now : ℕ) (c : ChunkPayloadData) (a : Association F)
      → (measure_rtt f64 now c a).inflight_queue ≡ a.inflight_queue
  unfolding measure_rtt
  measure_rtt-queue now c a = elim (Option-cases c.since) [
    | inl e ↦ rw e refl
    | inr (t, e) ↦ rw e refl
  ]

  if_queue :
      (b : Bool) (x y : Association F) (q : PayloadQueue)
      → x.inflight_queue ≡ q
      → y.inflight_queue ≡ q
      → (if b then x else y).inflight_queue ≡ q
  if_queue true x y q h k = h
  if_queue false x y q h k = k

  exit_recovery-queue :
      (c : ChunkPayloadData) (p : Progress F)
      → (exit_recovery f64 c p).association.inflight_queue ≡ p.association.inflight_queue
  unfolding exit_recovery
  exit_recovery-queue c p =
      let a = p.association in
      if_queue (a.in_fast_recovery && c.tsn == a.fast_recover_exit_point)
        (record a { in_fast_recovery = false }) a a.inflight_queue refl refl

  newly_acked-queue :
      (now i : ℕ) (c : ChunkPayloadData) (p : Progress F)
      → (newly_acked f64 now i c p).association.inflight_queue ≡ p.association.inflight_queue
  unfolding newly_acked
  newly_acked-queue now i c p =
      let a = p.association in
      let first = i == next_tsn a.cumulative_tsn_ack_point in
      let halted = record a { timers = stop a.timers Timer.t3_rtx } in
      let stopped = if first then halted else a in
      let same = if_queue first halted a a.inflight_queue refl refl in
      if_queue (c.nsent == 1 && sna32gte c.tsn stopped.min_tsn2measure_rtt)
        (measure_rtt f64 now c stopped) stopped a.inflight_queue
        (measure_rtt-queue now c stopped ∙ same) same

  pub gap_acked-queue :
      (now tsn : ℕ) (c : ChunkPayloadData) (n : ℕ) (p : Progress F)
      → (gap_acked f64 now tsn c n p).association.inflight_queue ≡ p.association.inflight_queue
  unfolding gap_acked
  gap_acked-queue now tsn c n p =
      let a = p.association in
      if_queue (c.nsent == 1) (measure_rtt f64 now c a) a a.inflight_queue
        (measure_rtt-queue now c a) refl

  module _ (n : ℕ) (base : ℕ → ℕ) where
    pub balanced :
        (q : PayloadQueue) (r : Progress F)
        → r.association.inflight_queue ≡ q
        → IsSettled q
        → q.n_bytes + total_bytes r.bytes ≡ n
        → ((si : ℕ) → stream_bytes si q + acked_for si r.bytes ≡ base si)
        → IsBalanced n base r
    balanced q r e s h share = record {
      settled = rw e s;
      balance = ap (λ x. x.n_bytes + total_bytes r.bytes) e ∙ h;
      shares = λ si. ap (λ x. stream_bytes si x + acked_for si r.bytes) e ∙ share si;
    }

    if-IsBalanced :
        (b : Bool) (x y : Progress F)
        → (b ≡ true → IsBalanced n base x)
        → (b ≡ false → IsBalanced n base y)
        → IsBalanced n base (if b then x else y)
    if-IsBalanced true x y h k = h refl
    if-IsBalanced false x y h k = k refl

    exit_recovery-IsBalanced :
        (c : ChunkPayloadData) (p : Progress F)
        → IsBalanced n base p
        → IsBalanced n base (exit_recovery f64 c p)
    unfolding exit_recovery
    exit_recovery-IsBalanced c p b =
        balanced p.association.inflight_queue (exit_recovery f64 c p) (exit_recovery-queue c p)
          b.settled b.balance b.shares

    newly_acked-IsBalanced :
        (now i : ℕ) (c : ChunkPayloadData) (p : Progress F)
        → IsSettled p.association.inflight_queue
        → p.association.inflight_queue.n_bytes + size c + total_bytes p.bytes ≡ n
        → ((si : ℕ)
            → stream_bytes si p.association.inflight_queue + stream_size si c + acked_for si p.bytes
              ≡ base si)
        → IsBalanced n base (newly_acked f64 now i c p)
    unfolding newly_acked
    newly_acked-IsBalanced now i c p s h share =
        balanced p.association.inflight_queue (newly_acked f64 now i c p)
          (newly_acked-queue now i c p) s
          (omega (arith, add_bytes_lem c.stream_identifier (length c.user_data) p.bytes))
          (λ si.
            let more = acked_for-add_bytes si c.stream_identifier (length c.user_data) p.bytes in
            omega (arith, share si, more))

    pub popped-IsBalanced :
        (now i : ℕ) (c : ChunkPayloadData) (p : Progress F)
        → IsSettled p.association.inflight_queue
        → acked_size c ≡ 0
        → p.association.inflight_queue.n_bytes + size c + total_bytes p.bytes ≡ n
        → ((si : ℕ)
            → stream_bytes si p.association.inflight_queue + stream_size si c + acked_for si p.bytes
              ≡ base si)
        → IsBalanced n base (popped f64 now i c p)
    unfolding popped
    popped-IsBalanced now i c p s z h share =
        let kept : c.acked ≡ true → IsBalanced n base p = λ e. record {
          settled = s;
          balance = ground (arith, z, h, e);
          shares = λ si. ground (arith, z, share si, e);
        } in
        exit_recovery-IsBalanced c (if c.acked then p else newly_acked f64 now i c p) (
          if-IsBalanced c.acked p (newly_acked f64 now i c p) kept
            (λ e. newly_acked-IsBalanced now i c p s h share))

  pub popped-queue :
      (now i : ℕ) (c : ChunkPayloadData) (p : Progress F)
      → (popped f64 now i c p).association.inflight_queue ≡ p.association.inflight_queue
  unfolding popped
  popped-queue now i c p =
      exit_recovery-queue c (if c.acked then p else newly_acked f64 now i c p)
      ∙ elim (Bool-cases c.acked) [ inl e ↦ rw e refl | inr e ↦ rw e (newly_acked-queue now i c p) ]
