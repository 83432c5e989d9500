-- ===== src/Sctp/ReassemblyQueue.antt =====
-- rtc-sctp/src/queue/reassembly_queue.rs: `ReassemblyQueue`, which puts the messages of a stream
-- together. `Instant::now()` is an argument of `push`, and `sort_by` is a sort by insertion.
pub mod Forward
pub mod Scan
pub mod Counting
pub mod Release
pub mod Delivery
pub mod Reads
use ortc.Common.{
  ℕ, ◌+◌, ◌-◌, ◌%◌, ◌^◌, Bool, true, false, not, ◌&&◌, ◌||◌, Option, none, some, List, [], ◌∷◌,
  ◌++◌, length, ◌==◌, ltb, leb, if◌then◌else◌, take, drop,
}
use ortc.Sctp.Sna.{sna16lt, sna16lte, sna16gt, sna32gt}
use ortc.Sctp.Chunk.{ChunkPayloadData, PayloadProtocolIdentifier}
use ortc.Sctp.Chunks
use ortc.Sctp.Chunks.{Chunks}

pub record ReassemblyQueue : Type 0 where
  pub si : ℕ
  pub next_ssn : ℕ
  pub ordered : List Chunks
  pub unordered : List Chunks
  pub unordered_chunks : List ChunkPayloadData
  pub n_bytes : ℕ

unfoldable pub new : ℕ → ReassemblyQueue
new si = record {
  si = si;
  next_ssn = 0;
  ordered = [];
  unordered = [];
  unordered_chunks = [];
  n_bytes = 0;
}

unfoldable pub insert_by_ssn : Chunks → List Chunks → List Chunks
insert_by_ssn a [] = a ∷ []
insert_by_ssn a (b ∷ l) = if sna16lt a.ssn b.ssn then a ∷ b ∷ l else b ∷ insert_by_ssn a l

unfoldable pub sort_chunks_by_ssn : List Chunks → List Chunks
unfolding insert_by_ssn
sort_chunks_by_ssn [] = []
sort_chunks_by_ssn (a ∷ l) = insert_by_ssn a (sort_chunks_by_ssn l)

-- The loop of `find_complete_unordered_chunk_set` from the chunk `i` on: `start` is `start_idx`
-- (`none` for -1), and the result is the range to extract, its start and its length. The sum of
-- u32 wraps where overflow is not checked.
unfoldable pub scan : ℕ → Option ℕ → ℕ → ℕ → List ChunkPayloadData → Option (ℕ × ℕ)
scan i start n_chunks last_tsn [] = none
scan i start n_chunks last_tsn (c ∷ l) =
    let begun = scan (i + 1) (some i) 1 c.tsn l in
    let skipped = scan (i + 1) none n_chunks last_tsn l in
    let grown = scan (i + 1) start (n_chunks + 1) c.tsn l in
    if c.beginning_fragment
    then (if c.ending_fragment then some (i, 1) else begun)
    else elim start [
      | none ↦ skipped
      | some s ↦
          if not (c.tsn == (last_tsn + 1) % 2 ^ 32)
          then skipped
          else (if c.ending_fragment then some (s, n_chunks + 1) else grown)
    ]

-- `chunks[0].payload_type`.
unfoldable first_ppi : List ChunkPayloadData → PayloadProtocolIdentifier
first_ppi [] = PayloadProtocolIdentifier.unknown
first_ppi (c ∷ l) = c.payload_type

-- The queue without the range `start..start + n`, and the set made of it. `first_ppi` is read at a
-- range that is not empty.
unfoldable extract : ReassemblyQueue → ℕ → ℕ → ℕ → ReassemblyQueue × Chunks
unfolding first_ppi Chunks.new
extract q start n now =
    let cs = take n (drop start q.unordered_chunks) in
    (
      record q {
        unordered_chunks = take start q.unordered_chunks ++ drop (start + n) q.unordered_chunks;
      },
      Chunks.new 0 (first_ppi cs) cs now,
    )

unfoldable pub find_complete_unordered_chunk_set :
    ReassemblyQueue → ℕ → ReassemblyQueue × Option Chunks
unfolding scan extract
find_complete_unordered_chunk_set q now = elim (scan 0 none 0 0 q.unordered_chunks) [
  | none ↦ (q, none)
  | some (start, n) ↦ let (q', cset) = extract q start n now in (q', some cset)
]

unfoldable pub push_unordered : ReassemblyQueue → ChunkPayloadData → ℕ → ReassemblyQueue × Bool
unfolding find_complete_unordered_chunk_set Chunks.sort_chunks_by_tsn
push_unordered q chunk now =
    let q' = record q {
      n_bytes = q.n_bytes + length chunk.user_data;
      unordered_chunks = Chunks.sort_chunks_by_tsn (q.unordered_chunks ++ (chunk ∷ []));
    } in
    let (r, found) = find_complete_unordered_chunk_set q' now in
    elim found [
      | none ↦ (r, false)
      | some cset ↦ (record r { unordered = r.unordered ++ (cset ∷ []) }, true)
    ]

-- The search of `push` for a set with the chunk's SSN, and the push into it.
unfoldable pub push_into : List Chunks → ChunkPayloadData → Option (List Chunks × Bool)
unfolding Chunks.push
push_into [] chunk = none
push_into (s ∷ l) chunk =
    if s.ssn == chunk.stream_sequence_number
    then (let (s', ok) = Chunks.push s chunk in some (s' ∷ l, ok))
    else elim (push_into l chunk) [ none ↦ none | some (l', ok) ↦ some (s ∷ l', ok) ]

unfoldable pub push_ordered : ReassemblyQueue → ChunkPayloadData → ℕ → ReassemblyQueue × Bool
unfolding push_into sort_chunks_by_ssn Chunks.push Chunks.new
push_ordered q chunk now =
    if sna16lt chunk.stream_sequence_number q.next_ssn
    then (q, false)
    else (let q' = record q { n_bytes = q.n_bytes + length chunk.user_data } in
        elim (push_into q.ordered chunk) [
          | some (sets, ok) ↦ (record q' { ordered = sets }, ok)
          | none ↦
              let (cset, ok) =
                Chunks.push (Chunks.new chunk.stream_sequence_number chunk.payload_type [] now)
                  chunk in
              let sets = q.ordered ++ (cset ∷ []) in
              (
                record q' {
                  ordered = if not chunk.unordered then sort_chunks_by_ssn sets else sets;
                },
                ok,
              )
        ])

unfoldable pub push : ReassemblyQueue → ChunkPayloadData → ℕ → ReassemblyQueue × Bool
unfolding push_unordered push_ordered
push q chunk now =
    if not (chunk.stream_identifier == q.si)
    then (q, false)
    else (if chunk.unordered then push_unordered q chunk now else push_ordered q chunk now)

unfoldable pub is_readable : ReassemblyQueue → Bool
unfolding Chunks.is_complete
is_readable q = elim q.unordered [
  | u ∷ us ↦ true
  | [] ↦ elim q.ordered [
    | [] ↦ false
    | cset ∷ os ↦ Chunks.is_complete cset && sna16lte cset.ssn q.next_ssn
  ]
]

unfoldable readable_unordered_chunks : ReassemblyQueue → Option Chunks
readable_unordered_chunks q = elim q.unordered [ [] ↦ none | u ∷ us ↦ some u ]

unfoldable readable_ordered_chunks : ReassemblyQueue → Option Chunks
unfolding Chunks.is_complete
readable_ordered_chunks q = elim q.ordered [
  | [] ↦ none
  | s ∷ l ↦
      if not (Chunks.is_complete s)
      then none
      else (if sna16gt s.ssn q.next_ssn then none else some s)
]

unfoldable pub subtract_num_bytes : ReassemblyQueue → ℕ → ReassemblyQueue
subtract_num_bytes q n_bytes =
    if leb n_bytes q.n_bytes
    then record q { n_bytes = q.n_bytes - n_bytes }
    else record q { n_bytes = 0 }

abbrev pub behind : List Chunks → List Chunks
behind [] = []
behind (s ∷ l) = l

-- `ordered.remove(0)` or `unordered.remove(0)`, and the count.
unfoldable pub take_unordered : ReassemblyQueue → Chunks → ReassemblyQueue
unfolding subtract_num_bytes Chunks.len
take_unordered q s = subtract_num_bytes (record q { unordered = behind q.unordered }) (Chunks.len s)

unfoldable pub take_ordered : ReassemblyQueue → Chunks → ReassemblyQueue
unfolding subtract_num_bytes Chunks.len
take_ordered q s =
    subtract_num_bytes
      (record q {
        next_ssn = if s.ssn == q.next_ssn then (q.next_ssn + 1) % 2 ^ 16 else q.next_ssn;
        ordered = behind q.ordered;
      })
      (Chunks.len s)

-- With a set readable on both sides the older one is taken.
unfoldable read_by :
    ReassemblyQueue → Option Chunks → Option Chunks → ReassemblyQueue × Option Chunks
unfolding take_unordered take_ordered Chunks.is_complete
read_by q (some u) (some o) =
    if ltb u.timestamp o.timestamp then (take_unordered q u, some u) else (take_ordered q o, some o)
read_by q (some u) none = (take_unordered q u, some u)
read_by q none (some o) = (take_ordered q o, some o)
read_by q none none = (q, none)

unfoldable pub read : ReassemblyQueue → ReassemblyQueue × Option Chunks
unfolding read_by readable_unordered_chunks readable_ordered_chunks
read q = read_by q (readable_unordered_chunks q) (readable_ordered_chunks q)
