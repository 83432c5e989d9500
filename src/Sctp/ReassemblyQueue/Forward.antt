-- ===== src/Sctp/ReassemblyQueue/Forward.antt =====
-- rtc-sctp/src/queue/reassembly_queue.rs: what a FORWARD-TSN from the sender makes a stream drop.
use ortc.Common.{
  ℕ, ◌+◌, ◌%◌, ◌^◌, not, ◌&&◌, ◌||◌, List, [], ◌∷◌, length, if◌then◌else◌, drop, zero, suc,
}
use ortc.Sctp.Sna.{sna16lte, sna32gt}
use ortc.Sctp.Chunk.{ChunkPayloadData}
use ortc.Sctp.Chunks
use ortc.Sctp.Chunks.{Chunks}
use ortc.Sctp.ReassemblyQueue.{ReassemblyQueue, subtract_num_bytes}

-- The sum over the sets that are dropped.
unfoldable pub dropped_bytes : ℕ → List Chunks → ℕ
unfolding Chunks.is_complete
dropped_bytes last_ssn [] = 0
dropped_bytes last_ssn (s ∷ l) =
    if sna16lte s.ssn last_ssn && not (Chunks.is_complete s)
    then Chunks.data_len s.chunks + dropped_bytes last_ssn l
    else dropped_bytes last_ssn l

-- `ordered.retain(..)`.
unfoldable pub retained : ℕ → List Chunks → List Chunks
unfolding Chunks.is_complete
retained last_ssn [] = []
retained last_ssn (s ∷ l) =
    if not (sna16lte s.ssn last_ssn) || Chunks.is_complete s
    then s ∷ retained last_ssn l
    else retained last_ssn l

unfoldable pub forward_tsn_for_ordered : ReassemblyQueue → ℕ → ReassemblyQueue
unfolding dropped_bytes retained subtract_num_bytes
forward_tsn_for_ordered q last_ssn =
    let q' = subtract_num_bytes q (dropped_bytes last_ssn q.ordered) in
    record q' {
      ordered = retained last_ssn q.ordered;
      next_ssn = if sna16lte q.next_ssn last_ssn then (last_ssn + 1) % 2 ^ 16 else q.next_ssn;
    }

-- How many chunks stand before the first that is newer than the new cumulative TSN (`last_idx + 1`).
unfoldable pub old_prefix : ℕ → List ChunkPayloadData → ℕ
old_prefix cum [] = 0
old_prefix cum (c ∷ l) = if sna32gt c.tsn cum then 0 else suc (old_prefix cum l)

-- The loop that takes the size of the first `n` chunks off, one by one.
unfoldable pub subtract_first : ℕ → List ChunkPayloadData → ReassemblyQueue → ReassemblyQueue
subtract_first zero l q = q
subtract_first (suc n) [] q = q
subtract_first (suc n) (c ∷ l) q = subtract_first n l (subtract_num_bytes q (length c.user_data))

unfoldable pub forward_tsn_for_unordered : ReassemblyQueue → ℕ → ReassemblyQueue
unfolding old_prefix subtract_first
forward_tsn_for_unordered q cum =
    let n = old_prefix cum q.unordered_chunks in
    record (subtract_first n q.unordered_chunks q) { unordered_chunks = drop n q.unordered_chunks }
