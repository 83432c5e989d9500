-- ===== src/Sctp/Tests/Queues.antt =====
-- The payload queue and the pending queue at concrete inputs.
use ortc.Common.{
  ℕ, ◌+◌, ◌-◌, ◌^◌, ◌<◌, ◌≡◌, refl, true, false, ◌&&◌, some, List, [], ◌∷◌, ◌++◌, arith, ◌==◌,
  if◌then◌else◌, All,
}
use ortc.Common.Map
use ortc.Sctp.Sna.{sna32lt, sna32lte}
use ortc.Sctp.Chunk.{ChunkPayloadData, default_chunk}
use ortc.Sctp.PayloadQueue
use ortc.Sctp.PayloadQueue.{PayloadQueue}
use ortc.Sctp.PayloadQueue.Invariant
use ortc.Sctp.PayloadQueue.Order
use ortc.Sctp.PayloadQueue.Gaps
use ortc.Sctp.PendingQueue
use ortc.Sctp.PendingQueue.{PendingQueue}
use ortc.Sctp.PendingQueue.Laws

abbrev chunk : ℕ → List ℕ → ChunkPayloadData
chunk t d = record default_chunk {
  tsn = t;
  user_data = d;
  beginning_fragment = true;
  ending_fragment = true;
}

abbrev two : PayloadQueue
two = record {
  chunk_map = (11, chunk 11 (1 ∷ 2 ∷ [])) ∷ (13, chunk 13 (3 ∷ [])) ∷ [];
  sorted = 11 ∷ 13 ∷ [];
  dup_tsn = [];
  n_bytes = 3;
}

push_sorts : (PayloadQueue.push two (chunk 12 (9 ∷ [])) 10).0.sorted ≡ 11 ∷ 12 ∷ 13 ∷ []
unfolding PayloadQueue.push PayloadQueue.sort_tsns sna32lt sna32lte Map.contains_key
push_sorts = refl

two-IsValid : Invariant.IsValid two
two-IsValid = record { counted = refl; distinct = λ t. ground arith; listed = λ t. refl }

payload_queue-IsValid_example :
    Invariant.IsValid
      (PayloadQueue.pop (PayloadQueue.push PayloadQueue.empty_queue (chunk 5 (1 ∷ [])) 4).0 5).0
payload_queue-IsValid_example = Invariant.payload_queue-IsValid (
    Invariant.Reach.next
      (Invariant.Reach.next Invariant.Reach.here (Invariant.Step.pushed (chunk 5 (1 ∷ [])) 4))
      (Invariant.Step.popped 5))

push_lem_example :
    let (r, accepted) = PayloadQueue.push two (chunk 12 []) 10 in
    (accepted ≡ PayloadQueue.can_push two (chunk 12 []) 10)
    × (PayloadQueue.get r 12
        ≡ (if accepted && (12 == 12) then some (chunk 12 []) else PayloadQueue.get two 12))
    × (r.dup_tsn ≡ (if accepted then [] else [] ++ (12 ∷ [])))
    × (r.n_bytes ≡ (if accepted then 3 + 0 else 3))
push_lem_example = Invariant.push_lem two (chunk 12 []) 10 12

pop-oldest_example :
    ((PayloadQueue.pop two 11).1 ≡ PayloadQueue.get two 11)
    × ((c : ChunkPayloadData) × (PayloadQueue.get two 11 ≡ some c))
pop-oldest_example = Invariant.pop-oldest two 11 (13 ∷ []) two-IsValid refl

push-IsAscending_example :
    Order.IsAscending 10 (PayloadQueue.push two (chunk 12 []) 10).0.sorted
    × All (Order.InWindow 10) (PayloadQueue.push two (chunk 12 []) 10).0.sorted
push-IsAscending_example =
    Order.push-IsAscending 10 two (chunk 12 []) 10 (omega arith) (omega arith) (omega arith)
      (omega arith)

get_gap_ack_blocks_exact_example :
    Gaps.covers 3 (PayloadQueue.get_gap_ack_blocks two 10) ≡ Map.contains_key 13 two.chunk_map
get_gap_ack_blocks_exact_example = Gaps.get_gap_ack_blocks_exact two 10 3 two-IsValid (omega arith)

-- The cumulative TSN is 2 ^ 32 - 3, and the TSNs held cross the wrap.
abbrev across : PayloadQueue
across = record {
  chunk_map = (0xffff_ffff, chunk 0xffff_ffff (1 ∷ [])) ∷ (1, chunk 1 (3 ∷ [])) ∷ [];
  sorted = 0xffff_ffff ∷ 1 ∷ [];
  dup_tsn = [];
  n_bytes = 2;
}

across-IsValid : Invariant.IsValid across
across-IsValid = record { counted = refl; distinct = λ t. ground arith; listed = λ t. refl }

get_gap_ack_blocks-wrapped_example :
    ((x : ℕ)
      → 0 < x
      → Gaps.covers x (PayloadQueue.get_gap_ack_blocks across 0xffff_fffd)
        ≡ Gaps.holds 0xffff_fffd x (0xffff_ffff ∷ []))
    × All
        (λ t.
          Gaps.covers
            (t + 2 ^ 32 - 0xffff_fffd)
            (PayloadQueue.get_gap_ack_blocks across 0xffff_fffd)
          ≡ false)
        (1 ∷ [])
get_gap_ack_blocks-wrapped_example =
    Gaps.get_gap_ack_blocks-wrapped across 0xffff_fffd (0xffff_ffff ∷ []) (1 ∷ []) across-IsValid
      (omega arith) refl (omega arith) (omega arith) (omega arith)

abbrev fragment : ChunkPayloadData
fragment = record (chunk 1 (7 ∷ [])) { ending_fragment = false }

abbrev sending : PendingQueue
sending = record {
  unordered_queue = [];
  ordered_queue = fragment ∷ chunk 2 [] ∷ [];
  queue_len = 2;
  n_bytes = 1;
  selected = false;
  unordered_is_selected = false;
}

sending-IsValid : Laws.IsValid sending
sending-IsValid = record {
  bytes = refl;
  chunks = refl;
  all_unordered = tt;
  all_ordered = (refl, (refl, tt));
}

pending_queue-IsValid_example :
    Laws.IsValid
      (PendingQueue.pop (PendingQueue.push PendingQueue.empty_queue fragment) true false).0
pending_queue-IsValid_example = Laws.pending_queue-IsValid (
    Laws.Reach.next (Laws.Reach.next Laws.Reach.here (Laws.Step.pushed fragment))
      (Laws.Step.popped true false))

peek-sending : PendingQueue.peek sending ≡ some fragment
unfolding PendingQueue.peek
peek-sending = refl

peek-pop_example :
    let (r, out) = PendingQueue.pop sending true false in
    (out ≡ some fragment) × (r.n_bytes + 1 ≡ 1) × (r.queue_len + 1 ≡ 2) × (r.selected ≡ true)
peek-pop_example = Laws.peek-pop sending fragment sending-IsValid peek-sending refl

pop-selected_example :
    let q = record sending { selected = true } in
    ((PendingQueue.pop q true true).0.unordered_queue ≡ [])
    × ((PendingQueue.pop q true true).0.ordered_queue ≡ chunk 2 [] ∷ [])
    × ((PendingQueue.push q fragment).selected ≡ true)
    × ((PendingQueue.push q fragment).unordered_is_selected ≡ false)
pop-selected_example =
    Laws.pop-selected (record sending { selected = true }) fragment true true refl
