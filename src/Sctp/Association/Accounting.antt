-- ===== src/Sctp/Association/Accounting.antt =====
-- The bytes in flight against the bytes that `process_selective_ack` reports.
use ortc.Common.{
  ℕ, zero, suc, ◌+◌, ◌-◌, ◌%◌, ◌^◌, ◌<◌, ◌≡◌, refl, ap, sym, ◌∙◌, Option, none, some, List, [], ◌∷◌,
  length, arith, Bool-cases, Option-cases, inl, inr,
}
use ortc.Sctp.Sna.{sna32lte}
use ortc.Common.Map
use ortc.Sctp.Chunk.{ChunkPayloadData, GapAckBlock}
use ortc.Sctp.PayloadQueue.{PayloadQueue, pop, get, mark_as_acked, acked_chunk}
use ortc.Sctp.Timers.{Floats}
use ortc.Sctp.Association.{Association, SackError}
use ortc.Sctp.Association.Sack.{
  ChunkSelectiveAck, next_tsn, Progress, popped, with_queue, pop_acked, gap_acked, ack_one,
  ack_offsets, ack_blocks, after_pops, process_selective_ack, add_bytes,
}
use ortc.Sctp.Association.Removal.{
  IsSettled, pop-IsSettled, pop_kept, mark_as_acked-IsSettled, mark_as_acked_held, none_is_some,
  pop-IsRemoval, pop-total, pop-total_kept, mark_as_acked-total, mark_as_acked-some,
}
use ortc.Sctp.Association.Balance.{
  total_bytes, add_bytes_lem, IsBalanced, balanced, popped-IsBalanced, gap_acked-queue,
  popped-queue, acked_for, acked_for-add_bytes, stream_size, stream_bytes,
}

-- What a gap block takes off a stream's bytes in flight it adds to those acknowledged.
gap_share :
    (si tsn : ℕ) (old c : ChunkPayloadData) (q : PayloadQueue) (m : List (ℕ × ℕ)) (n : ℕ)
    → get q tsn ≡ some old
    → get (mark_as_acked q tsn).0 tsn ≡ some c
    → stream_bytes si q + acked_for si m ≡ n
    → stream_bytes si (mark_as_acked q tsn).0
        + acked_for si (add_bytes c.stream_identifier (mark_as_acked q tsn).1 m)
      ≡ n
unfolding acked_chunk
gap_share si tsn old c q m n e g h =
    let held = mark_as_acked_held q tsn old e in
    let taken : (mark_as_acked q tsn).1 ≡ length old.user_data =
      ap (λ r. r.1) (mark_as_acked-some q tsn old e) in
    let same : c.stream_identifier ≡ old.stream_identifier = ground (arith, held, g) in
    ground (
      arith,
      h,
      same,
      taken,
      mark_as_acked-total (stream_size si) q tsn old e,
      acked_for-add_bytes si c.stream_identifier (mark_as_acked q tsn).1 m,
    )

module _ {F : Type 0} (f64 : Floats F) where
  module _ (n : ℕ) (base : ℕ → ℕ) where
    -- What comes out of a loop is balanced.
    abbrev Balances : Option (Progress F × Option SackError) → Type 0
    Balances none = Unit
    Balances (some (r, e)) = IsBalanced n base r

    pop_acked-Balances :
        (fuel now cum i : ℕ) (p : Progress F)
        → IsBalanced n base p
        → Balances (pop_acked f64 fuel now cum i p)
    unfolding pop_acked
    pop_acked-Balances zero now cum i p b = tt
    pop_acked-Balances (suc fuel) now cum i p b = elim (Bool-cases (sna32lte i cum)) [
      | inr e ↦ rw (e, pop_acked) b
      | inl e ↦
          let q = p.association.inflight_queue in
          elim (Option-cases (pop q i).1) [
            | inl f ↦
                let (s, bytes) = pop_kept q i b.settled f in
                rw (e, f, pop_acked)
                  (record {
                    settled = s;
                    balance = omega (arith, b.balance);
                    shares =
                        λ si. omega (arith, b.shares si, pop-total_kept (stream_size si) q i f);
                  })
            | inr (c, f) ↦
                let (s, bytes, z) = pop-IsSettled q i c b.settled f in
                rw (e, f, pop_acked)
                  (pop_acked-Balances fuel now cum (next_tsn i)
                    (popped f64 now i c (with_queue f64 p (pop q i).0))
                    (popped-IsBalanced f64 n base now i c (with_queue f64 p (pop q i).0) s z
                      (omega (arith, b.balance))
                      (λ si.
                        omega (
                          arith,
                          b.shares si,
                          pop-total (stream_size si) q i c b.settled.valid f,
                        ))))
          ]
    ]

    -- One more TSN of a gap block.
    ack_one-IsBalanced :
        (now tsn : ℕ) (p : Progress F)
        → IsBalanced n base p
        → IsBalanced n base (ack_one f64 now tsn p).0
    unfolding ack_one
    ack_one-IsBalanced now tsn p b =
        let q = p.association.inflight_queue in
        elim (Option-cases (get q tsn)) [
          | inl e ↦ rw (e, ack_one) b
          | inr (old, e) ↦ elim (Bool-cases old.acked) [
            | inl f ↦ rw (e, f, ack_one) b
            | inr f ↦
                let r = (mark_as_acked q tsn).0 in
                let k = (mark_as_acked q tsn).1 in
                let (s, bytes) = mark_as_acked-IsSettled q tsn old b.settled e in
                elim (Option-cases (get r tsn)) [
                  | inl g ↦ absurd (none_is_some (sym g ∙ mark_as_acked_held q tsn old e))
                  | inr (c, g) ↦
                      let p' = with_queue f64 p r in
                      rw (e, f, g, ack_one)
                        (balanced f64 n base r (gap_acked f64 now tsn c k p')
                          (gap_acked-queue f64 now tsn c k p') s
                          (unfold gap_acked in
                            omega (
                              arith,
                              b.balance,
                              bytes,
                              add_bytes_lem c.stream_identifier k p.bytes,
                            ))
                          (λ si.
                            unfold gap_acked in
                            gap_share si tsn old c q p.bytes (base si) e g (b.shares si)))
                ]
          ]
        ]

    ack_offsets-IsBalanced :
        (now cum start k : ℕ) (p : Progress F)
        → IsBalanced n base p
        → IsBalanced n base (ack_offsets f64 now cum start k p).0
    unfolding ack_offsets
    ack_offsets-IsBalanced now cum start zero p b = b
    ack_offsets-IsBalanced now cum start (suc k) p b =
        let r = ack_one f64 now ((cum + start) % 2 ^ 32) p in
        let first = ack_one-IsBalanced now ((cum + start) % 2 ^ 32) p b in
        elim (Option-cases r.1) [
          | inr (error, e) ↦ rw (e, ack_offsets) first
          | inl e ↦ rw (e, ack_offsets) (ack_offsets-IsBalanced now cum (start + 1) k r.0 first)
        ]

    ack_blocks-IsBalanced :
        (now cum : ℕ) (l : List GapAckBlock) (p : Progress F)
        → IsBalanced n base p
        → IsBalanced n base (ack_blocks f64 now cum l p).0
    unfolding ack_blocks
    ack_blocks-IsBalanced now cum [] p b = b
    ack_blocks-IsBalanced now cum (g ∷ l) p b =
        let r = ack_offsets f64 now cum g.start (g.end + 1 - g.start) p in
        let first = ack_offsets-IsBalanced now cum g.start (g.end + 1 - g.start) p b in
        elim (Option-cases r.1) [
          | inr (error, e) ↦ rw (e, ack_blocks) first
          | inl e ↦ rw (e, ack_blocks) (ack_blocks-IsBalanced now cum l r.0 first)
        ]

    after_pops-IsBalanced :
        (now : ℕ) (d : ChunkSelectiveAck) (r : Progress F) (e : Option SackError)
        → IsBalanced n base r
        → IsBalanced n base (after_pops f64 now d (r, e)).0
    unfolding after_pops
    after_pops-IsBalanced now d r none b =
        ack_blocks-IsBalanced now d.cumulative_tsn_ack d.gap_ack_blocks r b
    after_pops-IsBalanced now d r (some error) b = b

  -- A round that goes on has taken a chunk, so fuel for the chunks is enough.
  pub pop_acked-total :
      (fuel now cum i : ℕ) (p : Progress F)
      → IsSettled p.association.inflight_queue
      → length p.association.inflight_queue.sorted < fuel
      → (r : Progress F) × (e : Option SackError) × (pop_acked f64 fuel now cum i p ≡ some (r, e))
  unfolding pop_acked
  pop_acked-total zero now cum i p s h = absurd (omega arith)
  pop_acked-total (suc fuel) now cum i p s h = elim (Bool-cases (sna32lte i cum)) [
    | inr e ↦ (p, none, rw (e, pop_acked) refl)
    | inl e ↦
        let q = p.association.inflight_queue in
        elim (Option-cases (pop q i).1) [
          | inl f ↦ (
            with_queue f64 p (pop q i).0,
            some SackError.inflight_queue_tsn_pop,
            rw (e, f, pop_acked) refl,
          )
          | inr (c, f) ↦
              let p' = popped f64 now i c (with_queue f64 p (pop q i).0) in
              let same = popped-queue f64 now i c (with_queue f64 p (pop q i).0) in
              let shorter = (pop-IsRemoval q i c s.valid f).sorted in
              rw (e, f, pop_acked)
                (pop_acked-total fuel now cum (next_tsn i) p' (rw same (pop-IsSettled q i c s f).0)
                  (omega (arith, ap (λ (r : PayloadQueue). length r.sorted) same)))
        ]
  ]

  pub after_pops_lem :
      (d : ChunkSelectiveAck) (now : ℕ) (a : Association F) (r : Progress F) (e : Option SackError)
      → pop_acked f64
          (suc (length a.inflight_queue.sorted))
          now
          d.cumulative_tsn_ack
          (next_tsn a.cumulative_tsn_ack_point)
          (record { association = a; bytes = []; htna = d.cumulative_tsn_ack })
        ≡ some (r, e)
      → process_selective_ack f64 d now a ≡ some (after_pops f64 now d (r, e))
  unfolding process_selective_ack
  after_pops_lem d now a r e h = rw (h, process_selective_ack) refl

  -- `process_selective_ack` ends, and whether it succeeds or fails, the queue of chunks in flight is
  -- as valid as before, and its bytes are those of before without the bytes that it reports as
  -- acknowledged, in all and for each stream: what the chunks of a stream in flight held before is
  -- what they hold after and what is reported for that stream; if the queue was valid before, with
  -- fewer than 2 ^ 32 chunks, and no acknowledged chunk in it held data.
  pub process_selective_ack_lem :
      (d : ChunkSelectiveAck) (now : ℕ) (a : Association F)
      → IsSettled a.inflight_queue
      → (p : Progress F) × (e : Option SackError) × (process_selective_ack f64 d now a
          ≡ some (p, e))
        × IsSettled p.association.inflight_queue
        × (p.association.inflight_queue.n_bytes + total_bytes p.bytes ≡ a.inflight_queue.n_bytes)
        × ((si : ℕ)
            → stream_bytes si p.association.inflight_queue + acked_for si p.bytes
              ≡ stream_bytes si a.inflight_queue)
  process_selective_ack_lem d now a s =
      let n = a.inflight_queue.n_bytes in
      let p : Progress F = record { association = a; bytes = []; htna = d.cumulative_tsn_ack } in
      let fuel = suc (length a.inflight_queue.sorted) in
      let first = next_tsn a.cumulative_tsn_ack_point in
      let (r, e, h) = pop_acked-total fuel now d.cumulative_tsn_ack first p s (omega arith) in
      let base : ℕ → ℕ = λ si. stream_bytes si a.inflight_queue in
      let start : IsBalanced n base p = record {
        settled = s;
        balance = omega arith;
        shares = λ si. unfold Map.get in omega arith;
      } in
      let popped_all : IsBalanced n base r =
        rw h at (pop_acked-Balances n base fuel now d.cumulative_tsn_ack first p start) in
      let done = after_pops-IsBalanced n base now d r e popped_all in
      (
        (after_pops f64 now d (r, e)).0,
        (after_pops f64 now d (r, e)).1,
        after_pops_lem d now a r e h,
        done.settled,
        done.balance,
        done.shares,
      )
