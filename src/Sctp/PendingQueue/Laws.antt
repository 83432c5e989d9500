-- ===== src/Sctp/PendingQueue/Laws.antt =====
-- The counters of the pending queue, and what `peek` promises of the next `pop`.
use ortc.Common.{
  ℕ, ◌+◌, ◌≡◌, refl, Bool, true, false, some, List, [], ◌∷◌, ◌++◌, length, if◌then◌else◌, arith,
  All, All-append, length-append, Bool-cases, inl, inr, not, ◌||◌,
}
use ortc.Sctp.Chunk.{ChunkPayloadData}
use ortc.Sctp.PendingQueue.{PendingQueue, push, pop, peek, empty_queue, behind}

abbrev bytes_in : List ChunkPayloadData → ℕ
bytes_in [] = 0
bytes_in (c ∷ l) = length c.user_data + bytes_in l

bytes_in-append : (l m : List ChunkPayloadData) → bytes_in (l ++ m) ≡ bytes_in l + bytes_in m
bytes_in-append [] m = omega arith
bytes_in-append (c ∷ l) m = omega (arith, bytes_in-append l m)

-- The counters agree with the two queues, and each queue holds chunks of its own kind.
pub record IsValid (q : PendingQueue) : Type 0 where
  pub bytes : q.n_bytes ≡ bytes_in q.unordered_queue + bytes_in q.ordered_queue
  pub chunks : q.queue_len ≡ length q.unordered_queue + length q.ordered_queue
  pub all_unordered : All (λ c. c.unordered ≡ true) q.unordered_queue
  pub all_ordered : All (λ c. c.unordered ≡ false) q.ordered_queue

empty_queue-IsValid : IsValid empty_queue
unfolding empty_queue
empty_queue-IsValid = record { bytes = refl; chunks = refl; all_unordered = tt; all_ordered = tt }

push-IsValid : (q : PendingQueue) (c : ChunkPayloadData) → IsValid q → IsValid (push q c)
unfolding push
push-IsValid q c v = elim (Bool-cases c.unordered) [
  | inl u ↦ simp u (record {
    bytes = omega (arith, v.bytes, bytes_in-append q.unordered_queue (c ∷ []));
    chunks = omega (arith, v.chunks, length-append q.unordered_queue (c ∷ []));
    all_unordered =
        All-append (λ d. d.unordered ≡ true) q.unordered_queue (c ∷ []) v.all_unordered (u, tt);
    all_ordered = v.all_ordered;
  })
  | inr o ↦ simp o (record {
    bytes = omega (arith, v.bytes, bytes_in-append q.ordered_queue (c ∷ []));
    chunks = omega (arith, v.chunks, length-append q.ordered_queue (c ∷ []));
    all_unordered = v.all_unordered;
    all_ordered =
        All-append (λ d. d.unordered ≡ false) q.ordered_queue (c ∷ []) v.all_ordered (o, tt);
  })
]

module _ (us os : List ChunkPayloadData) (n k : ℕ) (sel u_sel : Bool) where
  abbrev queue : PendingQueue
  queue = record {
    unordered_queue = us;
    ordered_queue = os;
    queue_len = k;
    n_bytes = n;
    selected = sel;
    unordered_is_selected = u_sel;
  }

pop-IsValid_of :
    (us os : List ChunkPayloadData) (n k : ℕ) (sel u_sel b u : Bool)
    → IsValid (queue us os n k sel u_sel)
    → IsValid (pop (queue us os n k sel u_sel) b u).0
unfolding pop
pop-IsValid_of [] [] n k sel u_sel b u v = ground arith
pop-IsValid_of [] (c ∷ os) n k sel u_sel b u v = ground arith
pop-IsValid_of (c ∷ us) [] n k sel u_sel b u v = ground arith
pop-IsValid_of (c ∷ us) (d ∷ os) n k sel u_sel b u v = ground arith

pop-IsValid : (q : PendingQueue) (b u : Bool) → IsValid q → IsValid (pop q b u).0
pop-IsValid q b u v =
    pop-IsValid_of q.unordered_queue q.ordered_queue q.n_bytes q.queue_len q.selected
      q.unordered_is_selected b u v

-- The calls that change a pending queue.
pub data Step (q : PendingQueue) : PendingQueue → Type 0 where
  pushed : (c : ChunkPayloadData) → Step q (push q c)
  popped : (b u : Bool) → Step q (pop q b u).0

pub data Reach (q : PendingQueue) : PendingQueue → Type 0 where
  here : Reach q q
  next : {r s : PendingQueue} → Reach q r → Step r s → Reach q s

Step-IsValid : {q r : PendingQueue} → Step q r → IsValid q → IsValid r
Step-IsValid {q} (pushed c) v = push-IsValid q c v
Step-IsValid {q} (popped b u) v = pop-IsValid q b u v

-- After any calls of `push` and `pop` on a new pending queue `n_bytes` is the sum of the user data
-- in the two queues and `queue_len` the number of their chunks, and each of the two holds only
-- chunks of its own kind.
pub pending_queue-IsValid : {q : PendingQueue} → Reach empty_queue q → IsValid q
pending_queue-IsValid here = empty_queue-IsValid
pending_queue-IsValid (next {r} r' s) = Step-IsValid s (pending_queue-IsValid r')

peek-pop_of :
    (us os : List ChunkPayloadData) (n k : ℕ) (sel u_sel : Bool) (c : ChunkPayloadData)
    → IsValid (queue us os n k sel u_sel)
    → peek (queue us os n k sel u_sel) ≡ some c
    → (sel || c.beginning_fragment) ≡ true
    → let (r, out) = pop (queue us os n k sel u_sel) c.beginning_fragment c.unordered in
      (out ≡ some c)
      × (r.n_bytes + length c.user_data ≡ n)
      × (r.queue_len + 1 ≡ k)
      × (r.selected ≡ not c.ending_fragment)
unfolding pop peek
peek-pop_of [] [] n k sel u_sel c v e h = ground arith
peek-pop_of [] (d ∷ os) n k sel u_sel c v e h = ground arith
peek-pop_of (d ∷ us) [] n k sel u_sel c v e h = ground arith
peek-pop_of (d ∷ us) (d' ∷ os) n k sel u_sel c v e h = ground arith

-- What `peek` shows is what `pop` takes, when `pop` is called with that chunk's flags and the chunk
-- begins a message or a message is being sent: the counters fall by the chunk, and the queue stays
-- selected exactly until the last fragment.
pub peek-pop :
    (q : PendingQueue) (c : ChunkPayloadData)
    → IsValid q
    → peek q ≡ some c
    → (q.selected || c.beginning_fragment) ≡ true
    → let (r, out) = pop q c.beginning_fragment c.unordered in
      (out ≡ some c)
      × (r.n_bytes + length c.user_data ≡ q.n_bytes)
      × (r.queue_len + 1 ≡ q.queue_len)
      × (r.selected ≡ not c.ending_fragment)
peek-pop q c v e h =
    peek-pop_of q.unordered_queue q.ordered_queue q.n_bytes q.queue_len q.selected
      q.unordered_is_selected c v e h

-- While a message is being sent, fragments of the other queue are not taken in between: `pop`
-- leaves that queue as it is, and a `push` does not change which queue is selected.
pub pop-selected :
    (q : PendingQueue) (c : ChunkPayloadData) (b u : Bool)
    → q.selected ≡ true
    → ((pop q b u).0.unordered_queue
        ≡ (if q.unordered_is_selected then behind q.unordered_queue else q.unordered_queue))
      × ((pop q b u).0.ordered_queue
          ≡ (if q.unordered_is_selected then q.ordered_queue else behind q.ordered_queue))
      × ((push q c).selected ≡ true)
      × ((push q c).unordered_is_selected ≡ q.unordered_is_selected)
unfolding pop push
pop-selected q c b u h = ground arith
