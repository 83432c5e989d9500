-- ===== src/Sctp/Association/Acked.antt =====
-- What a SACK takes out of the queue of chunks in flight.
use ortc.Common.{
  ℕ, zero, suc, ◌+◌, ◌-◌, ◌%◌, ◌^◌, ◌≤◌, ◌<◌, ◌≡◌, ◌⊎◌, refl, ap, sym, ◌∙◌, true, false, Option,
  none, some, List, [], ◌∷◌, length, ◌==◌, arith, bit_of, Bool-cases, Option-cases, inl, inr,
}
use mathlib.Core.Path.{subst}
use ortc.Common.Map
use ortc.Common.Map.{count, keys}
use ortc.Sctp.Sna.{sna32lt, sna32lte, ahead, sna32_by_distance}
use ortc.Sctp.Chunk.{GapAckBlock}
use ortc.Sctp.PayloadQueue.{PayloadQueue, pop, get, mark_as_acked, acked_chunk}
use ortc.Sctp.Timers.{Floats}
use ortc.Sctp.Association.{Association, SackError}
use ortc.Sctp.Association.Sack.{
  ChunkSelectiveAck, next_tsn, Progress, popped, with_queue, pop_acked, ack_one, ack_offsets,
  ack_blocks, after_pops, process_selective_ack,
}
use ortc.Sctp.Association.Removal.{IsSettled, pop-IsRemoval, pop-IsSettled, mark_as_acked-some}
use ortc.Sctp.Association.Balance.{popped-queue, gap_acked-queue}
use ortc.Sctp.Association.Accounting.{after_pops_lem, pop_acked-total}

module _ {F : Type 0} where
  -- How often a TSN is in flight.
  abbrev in_flight : ℕ → Progress F → ℕ
  in_flight t p = count t (keys p.association.inflight_queue.chunk_map)

  -- A result without an error holds no chunk with the TSN.
  abbrev IsGone : ℕ → Progress F × Option SackError → Type 0
  IsGone t (p, none) = in_flight t p ≡ 0
  IsGone t (p, some error) = Unit

  abbrev AllGone : ℕ → Option (Progress F × Option SackError) → Type 0
  AllGone t none = Unit
  AllGone t (some r) = IsGone t r

-- The TSN is gone, or lies from `i` on up to the cumulative TSN.
abbrev IsDue : ℕ → ℕ → ℕ → ℕ → Type 0
IsDue held i cum t =
    (held ≡ 0) ⊎ ((ahead (2 ^ 32) i t ≤ ahead (2 ^ 32) i cum) × (ahead (2 ^ 32) i cum < 2 ^ 31))

IsDue-next :
    (held i cum t : ℕ)
    → i < 2 ^ 32
    → cum < 2 ^ 32
    → t < 2 ^ 32
    → held ≤ 1
    → IsDue held i cum t
    → IsDue (held - bit_of (t == i)) (next_tsn i) cum t
IsDue-next held i cum t u v w one (inl e) = inl (omega arith)
IsDue-next held i cum t u v w one (inr (le, lt)) = elim (Bool-cases (t == i)) [
  | inl same ↦ inl (ground (arith, same, one))
  | inr other ↦ inr (ground (arith, other, le, lt), ground (arith, other, le, lt))
]

IsDue-end :
    (held i cum t : ℕ)
    → i < 2 ^ 32
    → cum < 2 ^ 32
    → sna32lte i cum ≡ false
    → IsDue held i cum t
    → held ≡ 0
IsDue-end held i cum t u v e (inl z) = z
IsDue-end held i cum t u v e (inr (le, lt)) =
    let (as_lt, as_gt, as_lte) = sna32_by_distance i cum u v in
    absurd (ground (arith, as_lte, lt, e))

module _ {F : Type 0} (f64 : Floats F) where
  pop_acked-AllGone :
      (fuel now cum i t : ℕ) (p : Progress F)
      → IsSettled p.association.inflight_queue
      → i < 2 ^ 32
      → cum < 2 ^ 32
      → t < 2 ^ 32
      → IsDue (in_flight t p) i cum t
      → AllGone t (pop_acked f64 fuel now cum i p)
  unfolding pop_acked
  pop_acked-AllGone zero now cum i t p s u v w h = tt
  pop_acked-AllGone (suc fuel) now cum i t p s u v w h = elim (Bool-cases (sna32lte i cum)) [
    | inr e ↦ rw (e, pop_acked) (IsDue-end (in_flight t p) i cum t u v e h)
    | inl e ↦
        let q = p.association.inflight_queue in
        elim (Option-cases (pop q i).1) [
          | inl f ↦ rw (e, f, pop_acked) tt
          | inr (c, f) ↦
              let p' = popped f64 now i c (with_queue f64 p (pop q i).0) in
              let same = popped-queue f64 now i c (with_queue f64 p (pop q i).0) in
              let r = pop-IsRemoval q i c s.valid f in
              let left : in_flight t p' ≡ in_flight t p - bit_of (t == i) =
                ap (λ (x : PayloadQueue). count t (keys x.chunk_map)) same
                ∙ ap (λ m. count t (keys m)) r.chunk_map
                ∙ Map.count-remove t i q.chunk_map in
              rw (e, f, pop_acked)
                (pop_acked-AllGone fuel now cum (next_tsn i) t p'
                  (rw same (pop-IsSettled q i c s f).0) (omega arith) v w
                  (rw left (IsDue-next (in_flight t p) i cum t u v w (s.valid.distinct t) h)))
        ]
  ]

  ack_one-in_flight :
      (now tsn t : ℕ) (p : Progress F) → in_flight t (ack_one f64 now tsn p).0 ≡ in_flight t p
  unfolding ack_one
  ack_one-in_flight now tsn t p =
      let q = p.association.inflight_queue in
      elim (Option-cases (get q tsn)) [
        | inl e ↦ rw (e, ack_one) refl
        | inr (old, e) ↦ elim (Bool-cases old.acked) [
          | inl f ↦ rw (e, f, ack_one) refl
          | inr f ↦
              let r = (mark_as_acked q tsn).0 in
              let k = (mark_as_acked q tsn).1 in
              let kept : count t (keys r.chunk_map) ≡ count t (keys q.chunk_map) =
                ap (λ x. count t (keys x.0.chunk_map)) (mark_as_acked-some q tsn old e)
                ∙ ap (count t) (Map.keys-modify tsn acked_chunk q.chunk_map) in
              elim (Option-cases (get r tsn)) [
                | inl g ↦ rw (e, f, g, ack_one) kept
                | inr (c, g) ↦
                    rw (e, f, g, ack_one)
                      (ap (λ (x : PayloadQueue). count t (keys x.chunk_map))
                          (gap_acked-queue f64 now tsn c k (with_queue f64 p r))
                        ∙ kept)
              ]
        ]
      ]

  ack_offsets-in_flight :
      (now cum start n t : ℕ) (p : Progress F)
      → in_flight t (ack_offsets f64 now cum start n p).0 ≡ in_flight t p
  unfolding ack_offsets
  ack_offsets-in_flight now cum start zero t p = refl
  ack_offsets-in_flight now cum start (suc n) t p =
      let r = ack_one f64 now ((cum + start) % 2 ^ 32) p in
      let first = ack_one-in_flight now ((cum + start) % 2 ^ 32) t p in
      elim (Option-cases r.1) [
        | inr (error, e) ↦ rw (e, ack_offsets) first
        | inl e ↦ rw (e, ack_offsets) (ack_offsets-in_flight now cum (start + 1) n t r.0 ∙ first)
      ]

  ack_blocks-in_flight :
      (now cum t : ℕ) (l : List GapAckBlock) (p : Progress F)
      → in_flight t (ack_blocks f64 now cum l p).0 ≡ in_flight t p
  unfolding ack_blocks
  ack_blocks-in_flight now cum t [] p = refl
  ack_blocks-in_flight now cum t (g ∷ l) p =
      let r = ack_offsets f64 now cum g.start (g.end + 1 - g.start) p in
      let first = ack_offsets-in_flight now cum g.start (g.end + 1 - g.start) t p in
      elim (Option-cases r.1) [
        | inr (error, e) ↦ rw (e, ack_blocks) first
        | inl e ↦ rw (e, ack_blocks) (ack_blocks-in_flight now cum t l r.0 ∙ first)
      ]

  pair-IsGone : (t : ℕ) (r : Progress F × Option SackError) → in_flight t r.0 ≡ 0 → IsGone t r
  pair-IsGone t (p, none) h = h
  pair-IsGone t (p, some error) h = tt

  after_pops-IsGone :
      (now t : ℕ) (d : ChunkSelectiveAck) (r : Progress F) (e : Option SackError)
      → IsGone t (r, e)
      → IsGone t (after_pops f64 now d (r, e))
  unfolding after_pops
  after_pops-IsGone now t d r (some error) h = tt
  after_pops-IsGone now t d r none h =
      pair-IsGone t (ack_blocks f64 now d.cumulative_tsn_ack d.gap_ack_blocks r)
        (ack_blocks-in_flight now d.cumulative_tsn_ack t d.gap_ack_blocks r ∙ h)

  IsDue-first :
      (held point cum t : ℕ)
      → point < 2 ^ 32
      → cum < 2 ^ 32
      → t < 2 ^ 32
      → sna32lt point t ≡ true
      → sna32lte t cum ≡ true
      → sna32lte point cum ≡ true
      → IsDue held (next_tsn point) cum t
  unfolding sna32lt sna32lte
  IsDue-first held point cum t u v w a b c = inr (ground arith, ground arith)

  -- A TSN that comes after the old cumulative point and not after the new one, by serial number, is
  -- not in flight any more after `process_selective_ack` without an error; the three numbers are
  -- u32, the new point is not before the old one, and the queue was valid, with fewer than 2 ^ 32
  -- chunks and no data in acknowledged ones.
  pub process_selective_ack-gone :
      (d : ChunkSelectiveAck) (now t : ℕ) (a : Association F) (p : Progress F)
      → IsSettled a.inflight_queue
      → a.cumulative_tsn_ack_point < 2 ^ 32
      → d.cumulative_tsn_ack < 2 ^ 32
      → t < 2 ^ 32
      → sna32lt a.cumulative_tsn_ack_point t ≡ true
      → sna32lte t d.cumulative_tsn_ack ≡ true
      → sna32lte a.cumulative_tsn_ack_point d.cumulative_tsn_ack ≡ true
      → process_selective_ack f64 d now a ≡ some (p, none)
      → get p.association.inflight_queue t ≡ none
  process_selective_ack-gone d now t a p s u v w h k l done =
      let q : Progress F = record { association = a; bytes = []; htna = d.cumulative_tsn_ack } in
      let fuel = suc (length a.inflight_queue.sorted) in
      let first = next_tsn a.cumulative_tsn_ack_point in
      let (r, e, found) =
        pop_acked-total f64 fuel now d.cumulative_tsn_ack first q s (omega arith) in
      let gone : IsGone t (r, e) = rw found at (
        pop_acked-AllGone fuel now d.cumulative_tsn_ack first t q s (omega arith) v w (
          IsDue-first (in_flight t q) a.cumulative_tsn_ack_point d.cumulative_tsn_ack t u v w h k
            l)) in
      let all : AllGone t (some (p, none)) =
        subst (AllGone t) (sym (after_pops_lem f64 d now a r e found) ∙ done)
          (after_pops-IsGone now t d r e gone) in
      unfold get in Map.get-count t p.association.inflight_queue.chunk_map all
