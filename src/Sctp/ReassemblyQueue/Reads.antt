-- ===== src/Sctp/ReassemblyQueue/Reads.antt =====
-- Which message `read` hands over, and which ones a FORWARD-TSN drops.
use ortc.Common.{
  ℕ, ◌+◌, ◌%◌, ◌^◌, ◌<◌, ◌≡◌, refl, Bool, true, false, not, ◌||◌, Option, none, some, List, [], ◌∷◌,
  ◌==◌, if◌then◌else◌, arith, All, ◌⊎◌,
}
use ortc.Sctp.Sna.{sna16lte, sna16gt, sna16_by_distance}
use ortc.Sctp.Chunk.{ChunkPayloadData}
use ortc.Sctp.Chunks
use ortc.Sctp.Chunks.{Chunks}
use ortc.Sctp.ReassemblyQueue.{ReassemblyQueue, read, is_readable, behind}
use ortc.Sctp.ReassemblyQueue.Release.{queue}
use ortc.Sctp.ReassemblyQueue.Delivery.{AllComplete}
use ortc.Sctp.ReassemblyQueue.Forward.{retained, forward_tsn_for_ordered}

abbrev pub is_some : Option Chunks → Bool
is_some none = false
is_some (some s) = true

-- The serial numbers of the ordered messages are u16.
abbrev pub SsnsFit : ReassemblyQueue → Type 0
SsnsFit q = (q.next_ssn < 2 ^ 16) × All (λ s. s.ssn < 2 ^ 16) q.ordered

lte-not_gt : (a b : ℕ) → a < 2 ^ 16 → b < 2 ^ 16 → sna16lte a b ≡ not (sna16gt a b)
lte-not_gt a b ha hb = ground (arith, sna16_by_distance a b ha hb)

module _ (si ssn n : ℕ) (cs : List ChunkPayloadData) where
  is_readable-read_of :
      (us os : List Chunks)
      → SsnsFit (queue si ssn n cs us os)
      → is_readable (queue si ssn n cs us os) ≡ is_some (read (queue si ssn n cs us os)).1
  unfolding is_readable read
  is_readable-read_of [] [] h = refl
  is_readable-read_of (u ∷ us) [] h = ground arith
  is_readable-read_of [] (o ∷ os) (a, (b, h)) = ground (arith, lte-not_gt o.ssn ssn b a)
  is_readable-read_of (u ∷ us) (o ∷ os) h = ground arith

  read-eq-some_of :
      (us os : List Chunks) (s : Chunks)
      → AllComplete (queue si ssn n cs us os)
      → SsnsFit (queue si ssn n cs us os)
      → (read (queue si ssn n cs us os)).1 ≡ some s
      → (Chunks.is_complete s ≡ true)
        × (((us ≡ s ∷ behind us) × ((read (queue si ssn n cs us os)).0.next_ssn ≡ ssn))
            ⊎ ((os ≡ s ∷ behind os)
                × (sna16lte s.ssn ssn ≡ true)
                × ((read (queue si ssn n cs us os)).0.next_ssn
                    ≡ (if s.ssn == ssn then (ssn + 1) % 2 ^ 16 else ssn))))
  unfolding read
  read-eq-some_of [] [] s c h e = ground arith
  read-eq-some_of (u ∷ us) [] s c h e = ground arith
  read-eq-some_of [] (o ∷ os) s c (a, (b, h)) e = ground (arith, lte-not_gt o.ssn ssn b a)
  read-eq-some_of (u ∷ us) (o ∷ os) s c (a, (b, h)) e = ground (arith, lte-not_gt o.ssn ssn b a)

-- `is_readable` answers whether `read` will hand a message over.
pub is_readable-read : (q : ReassemblyQueue) → SsnsFit q → is_readable q ≡ is_some (read q).1
is_readable-read q h =
    is_readable-read_of q.si q.next_ssn q.n_bytes q.unordered_chunks q.unordered q.ordered h

-- What `read` hands over is whole. It is the first unordered message, and then `next_ssn` stays;
-- or it is the first ordered one, whose SSN is not after `next_ssn`, and `next_ssn` moves on by one
-- exactly if the SSN is the expected one.
pub read-eq-some :
    (q : ReassemblyQueue) (s : Chunks)
    → AllComplete q
    → SsnsFit q
    → (read q).1 ≡ some s
    → (Chunks.is_complete s ≡ true)
      × (((q.unordered ≡ s ∷ behind q.unordered) × ((read q).0.next_ssn ≡ q.next_ssn))
          ⊎ ((q.ordered ≡ s ∷ behind q.ordered)
              × (sna16lte s.ssn q.next_ssn ≡ true)
              × ((read q).0.next_ssn
                  ≡ (if s.ssn == q.next_ssn then (q.next_ssn + 1) % 2 ^ 16 else q.next_ssn))))
read-eq-some q s c h e =
    read-eq-some_of q.si q.next_ssn q.n_bytes q.unordered_chunks q.unordered q.ordered s c h e

retained-All :
    (last : ℕ) (l : List Chunks)
    → All (λ s. (not (sna16lte s.ssn last) || Chunks.is_complete s) ≡ true) (retained last l)
unfolding retained
retained-All last [] = tt
retained-All last (s ∷ l) = ground (arith, retained-All last l)

-- After a FORWARD-TSN no ordered message up to `last_ssn` is left that still waits for fragments,
-- and the SSN expected next lies after `last_ssn`.
pub forward_tsn_for_ordered_lem :
    (q : ReassemblyQueue) (last_ssn : ℕ)
    → q.next_ssn < 2 ^ 16
    → last_ssn < 2 ^ 16
    → All
        (λ s. (not (sna16lte s.ssn last_ssn) || Chunks.is_complete s) ≡ true)
        (forward_tsn_for_ordered q last_ssn).ordered
      × (sna16lte (forward_tsn_for_ordered q last_ssn).next_ssn last_ssn ≡ false)
unfolding forward_tsn_for_ordered
forward_tsn_for_ordered_lem q last h k =
    (retained-All last q.ordered, unfold sna16lte in ground arith)
