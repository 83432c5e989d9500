-- ===== src/Sctp/ReassemblyQueue/Release.antt =====
-- `n_bytes` of the reassembly queue when messages are read or dropped.
use ortc.Common.{ℕ, zero, suc, ◌+◌, ◌-◌, ◌≤◌, ◌≡◌, refl, List, [], ◌∷◌, length, arith, drop}
use ortc.Sctp.Chunk.{ChunkPayloadData}
use ortc.Sctp.Chunks.{Chunks, data_len}
use ortc.Sctp.ReassemblyQueue.{ReassemblyQueue, subtract_num_bytes, read}
use ortc.Sctp.ReassemblyQueue.Counting.{IsCounted, sets_len}
use ortc.Sctp.ReassemblyQueue.Forward.{
  dropped_bytes, retained, forward_tsn_for_ordered, old_prefix, subtract_first,
  forward_tsn_for_unordered,
}

module _ (si ssn n : ℕ) (cs : List ChunkPayloadData) where
  abbrev pub queue : List Chunks → List Chunks → ReassemblyQueue
  queue us os = record {
    si = si;
    next_ssn = ssn;
    ordered = os;
    unordered = us;
    unordered_chunks = cs;
    n_bytes = n;
  }

  read-IsCounted_of :
      (us os : List Chunks) → IsCounted (queue us os) → IsCounted (read (queue us os)).0
  unfolding read
  read-IsCounted_of [] [] h = h
  read-IsCounted_of (u ∷ us) [] h = ground arith
  read-IsCounted_of [] (o ∷ os) h = ground arith
  read-IsCounted_of (u ∷ us) (o ∷ os) h = ground arith

-- `read` takes off `n_bytes` exactly the size of the message that it hands over.
pub read-IsCounted : (q : ReassemblyQueue) → IsCounted q → IsCounted (read q).0
read-IsCounted q h =
    read-IsCounted_of q.si q.next_ssn q.n_bytes q.unordered_chunks q.unordered q.ordered h

retained-dropped :
    (last : ℕ) (l : List Chunks) → dropped_bytes last l + sets_len (retained last l) ≡ sets_len l
unfolding dropped_bytes retained
retained-dropped last [] = refl
retained-dropped last (s ∷ l) = ground (arith, retained-dropped last l)

pub forward_tsn_for_ordered-IsCounted :
    (q : ReassemblyQueue) (last : ℕ) → IsCounted q → IsCounted (forward_tsn_for_ordered q last)
unfolding forward_tsn_for_ordered
forward_tsn_for_ordered-IsCounted q last h = ground (arith, retained-dropped last q.ordered)

subtract_first_lem :
    (n : ℕ) (l : List ChunkPayloadData) (q : ReassemblyQueue)
    → data_len l ≤ q.n_bytes
    → let r = subtract_first n l q in
      (r.n_bytes + data_len l ≡ q.n_bytes + data_len (drop n l))
      × (r.ordered ≡ q.ordered)
      × (r.unordered ≡ q.unordered)
unfolding subtract_first data_len
subtract_first_lem zero l q h = (refl, refl, refl)
subtract_first_lem (suc n) [] q h = (refl, refl, refl)
subtract_first_lem (suc n) (c ∷ l) q h =
    let e : subtract_num_bytes q (length c.user_data)
        ≡ record q { n_bytes = q.n_bytes - length c.user_data } =
      unfold subtract_num_bytes in ground arith in
    rw (subtract_first, e)
      (let (a, b, d) =
          subtract_first_lem n l (record q { n_bytes = q.n_bytes - length c.user_data })
            (omega arith) in
        (omega arith, b, d))

pub forward_tsn_for_unordered-IsCounted :
    (q : ReassemblyQueue) (cum : ℕ) → IsCounted q → IsCounted (forward_tsn_for_unordered q cum)
unfolding forward_tsn_for_unordered
forward_tsn_for_unordered-IsCounted q cum h = ground (
  arith,
  subtract_first_lem (old_prefix cum q.unordered_chunks) q.unordered_chunks q (omega arith),
)
