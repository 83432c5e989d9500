-- ===== src/Sctp/PayloadQueue/Invariant.antt =====
-- The representation invariant of `PayloadQueue`, and that every operation keeps it.
use ortc.Common.{
  ℕ, ◌+◌, ◌≤◌, ◌≡◌, refl, true, false, some, List, [], ◌∷◌, ◌++◌, length, ◌==◌, ==_refl, ap, ◌∙◌,
  ◌&&◌, if◌then◌else◌, arith, bit_of, Bool-cases, Option-cases, inl, inr,
}
use ortc.Common.Map
use ortc.Common.Map.{count, count-append, keys, total}
use ortc.Sctp.Sna.{sna32lte}
use ortc.Sctp.Chunk.{ChunkPayloadData}
use ortc.Sctp.PayloadQueue.{
  PayloadQueue, insert_sorted, sort_tsns, push_no_check, push, pop_front, pop_from, pop, get,
  pop_duplicates, mark_as_acked, acked_chunk, mark_to_retransmit, mark_all_to_retrasmit,
  empty_queue, can_push,
}

abbrev pub size : ChunkPayloadData → ℕ
size c = length c.user_data

-- `n_bytes` is the sum of the user data held; no TSN is held twice; `sorted` lists the keys.
pub record IsValid (q : PayloadQueue) : Type 0 where
  pub counted : q.n_bytes ≡ total size q.chunk_map
  pub distinct : (t : ℕ) → count t (keys q.chunk_map) ≤ 1
  pub listed : (t : ℕ) → count t q.sorted ≡ count t (keys q.chunk_map)

pub empty_queue-IsValid : IsValid empty_queue
unfolding empty_queue
empty_queue-IsValid = record { counted = refl; distinct = λ t. omega arith; listed = λ t. refl }

count-insert_sorted :
    (t a : ℕ) (l : List ℕ) → count t (insert_sorted a l) ≡ bit_of (t == a) + count t l
unfolding insert_sorted
count-insert_sorted t a [] = refl
count-insert_sorted t a (b ∷ l) = ground (arith, count-insert_sorted t a l)

pub count-sort_tsns : (t : ℕ) (l : List ℕ) → count t (sort_tsns l) ≡ count t l
unfolding sort_tsns
count-sort_tsns t [] = refl
count-sort_tsns t (a ∷ l) =
    omega (arith, count-insert_sorted t a (sort_tsns l), count-sort_tsns t l)

-- A chunk with a new TSN is added.
push_no_check-IsValid :
    {q : PayloadQueue} (p : ChunkPayloadData)
    → IsValid q
    → Map.contains_key p.tsn q.chunk_map ≡ false
    → IsValid (push_no_check q p)
unfolding push_no_check
push_no_check-IsValid {q} p v new =
    let e = Map.insert-new p.tsn p q.chunk_map new in
    let zero_count = Map.contains_key-count p.tsn q.chunk_map new in
    rw e (record {
      counted = omega (arith, v.counted, Map.total-append size q.chunk_map ((p.tsn, p) ∷ []));
      distinct = λ t. ground (
        arith,
        v.distinct t,
        zero_count,
        Map.keys-append q.chunk_map ((p.tsn, p) ∷ []),
        count-append t (keys q.chunk_map) (p.tsn ∷ []),
      );
      listed = λ t. ground (
        arith,
        v.listed t,
        count-sort_tsns t (q.sorted ++ (p.tsn ∷ [])),
        count-append t q.sorted (p.tsn ∷ []),
        Map.keys-append q.chunk_map ((p.tsn, p) ∷ []),
        count-append t (keys q.chunk_map) (p.tsn ∷ []),
      );
    })

-- `push` keeps the invariant on both of its branches.
pub push-IsValid :
    {q : PayloadQueue} (p : ChunkPayloadData) (cum : ℕ) → IsValid q → IsValid (push q p cum).0
unfolding push
push-IsValid {q} p cum v = elim (Bool-cases (Map.contains_key p.tsn q.chunk_map)) [
  | inl old ↦ rw old (record { counted = v.counted; distinct = v.distinct; listed = v.listed })
  | inr new ↦ elim (Bool-cases (sna32lte p.tsn cum)) [
    | inl late ↦
        rw (new, late) (record { counted = v.counted; distinct = v.distinct; listed = v.listed })
    | inr fresh ↦ rw (new, fresh) (unfold push_no_check in push_no_check-IsValid p v new)
  ]
]

-- What the front of `sorted` holds is in the map, and both lose it.
pop_front-IsValid :
    {q : PayloadQueue} (t : ℕ) (rest : List ℕ)
    → IsValid q
    → q.sorted ≡ t ∷ rest
    → IsValid (pop_front q t rest).0
unfolding pop_front
pop_front-IsValid {q} t rest v e = elim (Option-cases (Map.get t q.chunk_map)) [
  | inl missing ↦ absurd (ground (arith, Map.get-none-count t q.chunk_map missing, v.listed t))
  | inr (c, found) ↦
      rw (found, pop_front)
        (record {
          counted = omega (arith, v.counted, Map.total-remove size t q.chunk_map found);
          distinct = λ s. omega (arith, v.distinct s, Map.count-remove s t q.chunk_map);
          listed = λ s. ground (arith, v.listed s, Map.count-remove s t q.chunk_map);
        })
]

pop_from-IsValid :
    {q : PayloadQueue} (tsn : ℕ) (l : List ℕ)
    → IsValid q
    → q.sorted ≡ l
    → IsValid (pop_from q tsn l).0
unfolding pop_from
pop_from-IsValid tsn [] v e = v
pop_from-IsValid {q} tsn (a ∷ rest) v e = elim (Bool-cases (tsn == a)) [
  | inl same ↦ rw same (pop_front-IsValid tsn rest v (ground arith))
  | inr other ↦ rw other v
]

-- `pop` keeps the invariant, whether it takes a chunk or not.
pub pop-IsValid : {q : PayloadQueue} (tsn : ℕ) → IsValid q → IsValid (pop q tsn).0
unfolding pop
pop-IsValid {q} tsn v = pop_from-IsValid tsn q.sorted v refl

-- `mark_as_acked` keeps the invariant: the bytes that it drops leave the count.
pub mark_as_acked-IsValid :
    {q : PayloadQueue} (tsn : ℕ) → IsValid q → IsValid (mark_as_acked q tsn).0
unfolding mark_as_acked
mark_as_acked-IsValid {q} tsn v = elim (Option-cases (Map.get tsn q.chunk_map)) [
  | inl missing ↦ rw (missing, mark_as_acked) v
  | inr (c, found) ↦
      rw (found, mark_as_acked)
        (record {
          counted =
              omega (arith, v.counted, Map.total-modify size tsn acked_chunk q.chunk_map found);
          distinct = λ t. rw (Map.keys-modify tsn acked_chunk q.chunk_map) (v.distinct t);
          listed = λ t. rw (Map.keys-modify tsn acked_chunk q.chunk_map) (v.listed t);
        })
]

total-mark_to_retransmit :
    (m : List (ℕ × ChunkPayloadData))
    → total size (Map.map_values mark_to_retransmit m) ≡ total size m
unfolding Map.map_values mark_to_retransmit
total-mark_to_retransmit [] = refl
total-mark_to_retransmit ((t, c) ∷ m) = ground (arith, total-mark_to_retransmit m)

mark_all_to_retrasmit-IsValid : {q : PayloadQueue} → IsValid q → IsValid (mark_all_to_retrasmit q)
unfolding mark_all_to_retrasmit
mark_all_to_retrasmit-IsValid {q} v = record {
  counted = omega (arith, v.counted, total-mark_to_retransmit q.chunk_map);
  distinct = λ t. rw (Map.keys-map_values mark_to_retransmit q.chunk_map) (v.distinct t);
  listed = λ t. rw (Map.keys-map_values mark_to_retransmit q.chunk_map) (v.listed t);
}

-- The calls that change a payload queue.
pub data Step (q : PayloadQueue) : PayloadQueue → Type 0 where
  pushed : (p : ChunkPayloadData) (cum : ℕ) → Step q (push q p cum).0
  pushed_unchecked :
      (p : ChunkPayloadData) (cum : ℕ) → can_push q p cum ≡ true → Step q (push_no_check q p)
  popped : (tsn : ℕ) → Step q (pop q tsn).0
  acked : (tsn : ℕ) → Step q (mark_as_acked q tsn).0
  marked : Step q (mark_all_to_retrasmit q)
  drained : Step q (pop_duplicates q).0

can_push-new :
    (q : PayloadQueue) (p : ChunkPayloadData) (cum : ℕ)
    → can_push q p cum ≡ true
    → Map.contains_key p.tsn q.chunk_map ≡ false
unfolding can_push
can_push-new q p cum h = ground arith

Step-IsValid : {q r : PayloadQueue} → Step q r → IsValid q → IsValid r
Step-IsValid (pushed p cum) v = push-IsValid p cum v
Step-IsValid {q} (pushed_unchecked p cum h) v = push_no_check-IsValid p v (can_push-new q p cum h)
Step-IsValid (popped tsn) v = pop-IsValid tsn v
Step-IsValid (acked tsn) v = mark_as_acked-IsValid tsn v
Step-IsValid marked v = mark_all_to_retrasmit-IsValid v
Step-IsValid drained v =
    unfold pop_duplicates in
    record { counted = v.counted; distinct = v.distinct; listed = v.listed }

pub data Reach (q : PayloadQueue) : PayloadQueue → Type 0 where
  here : Reach q q
  next : {r s : PayloadQueue} → Reach q r → Step r s → Reach q s

-- Whatever calls are made, in whatever order, on a queue that was made empty: `n_bytes` is the sum
-- of the user data held, no TSN is held twice, and `sorted` lists exactly the TSNs held. The
-- unchecked push is made of a chunk that `can_push` would take.
pub payload_queue-IsValid : {q : PayloadQueue} → Reach empty_queue q → IsValid q
payload_queue-IsValid here = empty_queue-IsValid
payload_queue-IsValid (next r s) = Step-IsValid s (payload_queue-IsValid r)

-- `push` accepts a chunk exactly if its TSN is not held and lies after the cumulative TSN. Then
-- the chunk is found under its TSN and every other look-up is unchanged; else the TSN is recorded
-- as a duplicate and nothing else changes.
pub push_lem :
    (q : PayloadQueue) (p : ChunkPayloadData) (cum t : ℕ)
    → let (r, accepted) = push q p cum in
      (accepted ≡ can_push q p cum)
      × (get r t ≡ (if accepted && (t == p.tsn) then some p else get q t))
      × (r.dup_tsn ≡ (if accepted then q.dup_tsn else q.dup_tsn ++ (p.tsn ∷ [])))
      × (r.n_bytes ≡ (if accepted then q.n_bytes + length p.user_data else q.n_bytes))
unfolding push can_push get
push_lem q p cum t = ground (arith, Map.get-insert p.tsn t p q.chunk_map)

get-pop_front :
    (q : PayloadQueue) (t : ℕ) (rest : List ℕ)
    → IsValid q
    → q.sorted ≡ t ∷ rest
    → ((pop_front q t rest).1 ≡ get q t) × ((c : ChunkPayloadData) × (get q t ≡ some c))
unfolding pop_front get
get-pop_front q t rest v e = elim (Option-cases (Map.get t q.chunk_map)) [
  | inl missing ↦ absurd (ground (arith, Map.get-none-count t q.chunk_map missing, v.listed t))
  | inr (c, found) ↦ rw (found, pop_front) (refl, (c, refl))
]

pop-eq-pop_front :
    (q : PayloadQueue) (t : ℕ) (rest : List ℕ) → q.sorted ≡ t ∷ rest → pop q t ≡ pop_front q t rest
unfolding pop
pop-eq-pop_front q t rest e = ap (pop_from q t) e ∙ unfold pop_from in rw (==_refl t)

-- `pop` at the oldest TSN of a valid queue returns the chunk that is held under it.
pub pop-oldest :
    (q : PayloadQueue) (t : ℕ) (rest : List ℕ)
    → IsValid q
    → q.sorted ≡ t ∷ rest
    → ((pop q t).1 ≡ get q t) × ((c : ChunkPayloadData) × (get q t ≡ some c))
pop-oldest q t rest v e = rw (pop-eq-pop_front q t rest e) (get-pop_front q t rest v e)
