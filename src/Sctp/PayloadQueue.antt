-- ===== src/Sctp/PayloadQueue.antt =====
-- rtc-sctp/src/queue/payload_queue.rs: the chunks in flight (or received out of order) by TSN.
-- `Vec::sort_by` is a sort by insertion with the source's comparison; on distinct TSNs within
-- half the circle of one another that order is total, so its result is the only sorted one.
pub mod Invariant
pub mod Order
pub mod Gaps
use ortc.Common.{
  ℕ, ◌+◌, ◌-◌, ◌%◌, ◌^◌, Bool, true, false, not, ◌||◌, Option, none, some, List, [], ◌∷◌, ◌++◌,
  length, ◌==◌, leb, if◌then◌else◌, zero, suc,
}
use ortc.Common.Map
use ortc.Sctp.Sna.{sna32lt, sna32lte}
use ortc.Sctp.Chunk.{ChunkPayloadData, GapAckBlock, is_abandoned}

pub record PayloadQueue : Type 0 where
  pub chunk_map : List (ℕ × ChunkPayloadData)
  pub sorted : List ℕ
  pub dup_tsn : List ℕ
  pub n_bytes : ℕ

unfoldable pub empty_queue : PayloadQueue
empty_queue = record { chunk_map = []; sorted = []; dup_tsn = []; n_bytes = 0 }

unfoldable pub insert_sorted : ℕ → List ℕ → List ℕ
insert_sorted a [] = a ∷ []
insert_sorted a (b ∷ l) = if sna32lt a b then a ∷ b ∷ l else b ∷ insert_sorted a l

-- `sorted.sort_by(..)`.
unfoldable pub sort_tsns : List ℕ → List ℕ
unfolding insert_sorted
sort_tsns [] = []
sort_tsns (a ∷ l) = insert_sorted a (sort_tsns l)

unfoldable update_sorted_keys : PayloadQueue → PayloadQueue
unfolding sort_tsns
update_sorted_keys q = record q { sorted = sort_tsns q.sorted }

unfoldable pub can_push : PayloadQueue → ChunkPayloadData → ℕ → Bool
can_push q p cumulative_tsn =
    not (Map.contains_key p.tsn q.chunk_map || sna32lte p.tsn cumulative_tsn)

unfoldable pub push_no_check : PayloadQueue → ChunkPayloadData → PayloadQueue
unfolding update_sorted_keys
push_no_check q p = update_sorted_keys (record q {
  n_bytes = q.n_bytes + length p.user_data;
  sorted = q.sorted ++ (p.tsn ∷ []);
  chunk_map = Map.insert p.tsn p q.chunk_map;
})

unfoldable pub push : PayloadQueue → ChunkPayloadData → ℕ → PayloadQueue × Bool
unfolding update_sorted_keys
push q p cumulative_tsn =
    if Map.contains_key p.tsn q.chunk_map || sna32lte p.tsn cumulative_tsn
    then (record q { dup_tsn = q.dup_tsn ++ (p.tsn ∷ []) }, false)
    else (
      update_sorted_keys (record q {
        n_bytes = q.n_bytes + length p.user_data;
        sorted = q.sorted ++ (p.tsn ∷ []);
        chunk_map = Map.insert p.tsn p q.chunk_map;
      }),
      true,
    )

-- `pop` behind the test of `sorted[0]`: the first TSN is gone, and so is its chunk.
unfoldable pub pop_front : PayloadQueue → ℕ → List ℕ → PayloadQueue × Option ChunkPayloadData
pop_front q tsn rest = elim (Map.get tsn q.chunk_map) [
  | some c ↦ (
    record q {
      sorted = rest;
      chunk_map = Map.remove tsn q.chunk_map;
      n_bytes = q.n_bytes - length c.user_data;
    },
    some c,
  )
  | none ↦ (record q { sorted = rest }, none)
]

unfoldable pub pop_from : PayloadQueue → ℕ → List ℕ → PayloadQueue × Option ChunkPayloadData
unfolding pop_front
pop_from q tsn [] = (q, none)
pop_from q tsn (a ∷ rest) = if tsn == a then pop_front q tsn rest else (q, none)

unfoldable pub pop : PayloadQueue → ℕ → PayloadQueue × Option ChunkPayloadData
unfolding pop_from
pop q tsn = pop_from q tsn q.sorted

unfoldable pub get : PayloadQueue → ℕ → Option ChunkPayloadData
get q tsn = Map.get tsn q.chunk_map

unfoldable pub pop_duplicates : PayloadQueue → PayloadQueue × List ℕ
pop_duplicates q = (record q { dup_tsn = [] }, q.dup_tsn)

-- `(*tsn - cumulative_tsn) as u16`, or 0 below it.
unfoldable pub gap_diff : ℕ → ℕ → ℕ
gap_diff cumulative_tsn tsn = if leb cumulative_tsn tsn then (tsn - cumulative_tsn) % 2 ^ 16 else 0

-- The loop of `get_gap_ack_blocks` after its first round, with `b` the open block. `b.end + 1` is
-- a sum of u16, which wraps where overflow is not checked.
unfoldable pub gap_loop : ℕ → GapAckBlock → List ℕ → List GapAckBlock
unfolding gap_diff
gap_loop cum b [] = b ∷ []
gap_loop cum b (tsn ∷ l) =
    let diff = gap_diff cum tsn in
    let longer = gap_loop cum (record b { end = diff }) l in
    let next = gap_loop cum (record { start = diff; end = diff }) l in
    if (b.end + 1) % 2 ^ 16 == diff then longer else b ∷ next

unfoldable pub gap_blocks : ℕ → List ℕ → List GapAckBlock
unfolding gap_loop
gap_blocks cum [] = record { start = 0; end = 0 } ∷ []
gap_blocks cum (tsn ∷ l) =
    gap_loop cum (record { start = gap_diff cum tsn; end = gap_diff cum tsn }) l

unfoldable pub get_gap_ack_blocks : PayloadQueue → ℕ → List GapAckBlock
unfolding gap_blocks
get_gap_ack_blocks q cumulative_tsn = elim q.chunk_map [
  | [] ↦ []
  | p ∷ m ↦ gap_blocks cumulative_tsn q.sorted
]

unfoldable pub acked_chunk : ChunkPayloadData → ChunkPayloadData
acked_chunk c = record c { acked = true; retransmit = false; user_data = [] }

unfoldable pub mark_as_acked : PayloadQueue → ℕ → PayloadQueue × ℕ
unfolding acked_chunk
mark_as_acked q tsn = elim (Map.get tsn q.chunk_map) [
  | some c ↦ (
    record q {
      n_bytes = q.n_bytes - length c.user_data;
      chunk_map = Map.modify tsn acked_chunk q.chunk_map;
    },
    length c.user_data,
  )
  | none ↦ (q, 0)
]

unfoldable last_of : List ℕ → Option ℕ
last_of [] = none
last_of (a ∷ []) = some a
last_of (a ∷ b ∷ l) = last_of (b ∷ l)

unfoldable pub get_last_tsn_received : PayloadQueue → Option ℕ
unfolding last_of
get_last_tsn_received q = last_of q.sorted

unfoldable pub mark_to_retransmit : ChunkPayloadData → ChunkPayloadData
unfolding is_abandoned
mark_to_retransmit c = if c.acked || is_abandoned c then c else record c { retransmit = true }

unfoldable pub mark_all_to_retrasmit : PayloadQueue → PayloadQueue
unfolding mark_to_retransmit
mark_all_to_retrasmit q = record q { chunk_map = Map.map_values mark_to_retransmit q.chunk_map }

unfoldable pub get_num_bytes : PayloadQueue → ℕ
get_num_bytes q = q.n_bytes

unfoldable pub len : PayloadQueue → ℕ
len q = length q.chunk_map

unfoldable pub is_empty : PayloadQueue → Bool
unfolding len
is_empty q = len q == 0
