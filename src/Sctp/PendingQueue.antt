-- ===== src/Sctp/PendingQueue.antt =====
-- rtc-sctp/src/queue/pending_queue.rs: the chunks that wait to be sent, one queue for unordered
-- and one for ordered messages. While a fragmented message is being sent its queue is selected.
-- A `VecDeque` is the list of its elements from the front.
pub mod Laws
use ortc.Common.{
  ℕ, ◌+◌, ◌-◌, Bool, true, false, not, Option, none, some, List, [], ◌∷◌, ◌++◌, length, ◌==◌,
  if◌then◌else◌,
}
use ortc.Sctp.Chunk.{ChunkPayloadData}

pub record PendingQueue : Type 0 where
  pub unordered_queue : List ChunkPayloadData
  pub ordered_queue : List ChunkPayloadData
  pub queue_len : ℕ
  pub n_bytes : ℕ
  pub selected : Bool
  pub unordered_is_selected : Bool

unfoldable pub empty_queue : PendingQueue
empty_queue = record {
  unordered_queue = [];
  ordered_queue = [];
  queue_len = 0;
  n_bytes = 0;
  selected = false;
  unordered_is_selected = false;
}

unfoldable pub push : PendingQueue → ChunkPayloadData → PendingQueue
push q c =
    let counted = record q {
      n_bytes = q.n_bytes + length c.user_data;
      queue_len = q.queue_len + 1;
    } in
    if c.unordered
    then record counted { unordered_queue = q.unordered_queue ++ (c ∷ []) }
    else record counted { ordered_queue = q.ordered_queue ++ (c ∷ []) }

abbrev pub front : List ChunkPayloadData → Option ChunkPayloadData
front [] = none
front (c ∷ l) = some c

abbrev pub behind : List ChunkPayloadData → List ChunkPayloadData
behind [] = []
behind (c ∷ l) = l

abbrev or_else : Option ChunkPayloadData → Option ChunkPayloadData → Option ChunkPayloadData
or_else none d = d
or_else (some c) d = some c

unfoldable pub peek : PendingQueue → Option ChunkPayloadData
peek q =
    if q.selected
    then (if q.unordered_is_selected then front q.unordered_queue else front q.ordered_queue)
    else or_else (front q.unordered_queue) (front q.ordered_queue)

-- `pop_front` of one of the two queues.
unfoldable pub take_unordered : PendingQueue → PendingQueue
take_unordered q = record q { unordered_queue = behind q.unordered_queue }

unfoldable pub take_ordered : PendingQueue → PendingQueue
take_ordered q = record q { ordered_queue = behind q.ordered_queue }

-- The selection after a chunk of the selected queue.
unfoldable deselect : Option ChunkPayloadData → PendingQueue → PendingQueue
deselect none q = q
deselect (some p) q = if p.ending_fragment then record q { selected = false } else q

-- The selection after the first chunk of a message.
unfoldable select : Bool → Option ChunkPayloadData → PendingQueue → PendingQueue
select u none q = q
select u (some p) q =
    if not p.ending_fragment then record q { selected = true; unordered_is_selected = u } else q

-- The counters after a chunk was taken.
unfoldable count_out : Option ChunkPayloadData → PendingQueue → PendingQueue
count_out none q = q
count_out (some p) q = record q {
  n_bytes = q.n_bytes - length p.user_data;
  queue_len = q.queue_len - 1;
}

-- The early `return None` of the source, where no chunk is taken, leaves the queue as it is.
unfoldable pub pop : PendingQueue → Bool → Bool → PendingQueue × Option ChunkPayloadData
unfolding take_unordered take_ordered deselect select count_out
pop q beginning_fragment unordered =
    if q.selected
    then (if q.unordered_is_selected
        then (
          count_out (front q.unordered_queue)
              (deselect (front q.unordered_queue) (take_unordered q)),
          front q.unordered_queue,
        )
        else (
          count_out (front q.ordered_queue) (deselect (front q.ordered_queue) (take_ordered q)),
          front q.ordered_queue,
        ))
    else (if not beginning_fragment
        then (q, none)
        else (if unordered
            then (
              count_out (front q.unordered_queue)
                  (select true (front q.unordered_queue) (take_unordered q)),
              front q.unordered_queue,
            )
            else (
              count_out (front q.ordered_queue)
                  (select false (front q.ordered_queue) (take_ordered q)),
              front q.ordered_queue,
            )))

unfoldable pub get_num_bytes : PendingQueue → ℕ
get_num_bytes q = q.n_bytes

unfoldable pub len : PendingQueue → ℕ
len q = q.queue_len

unfoldable pub is_empty : PendingQueue → Bool
unfolding len
is_empty q = len q == 0
