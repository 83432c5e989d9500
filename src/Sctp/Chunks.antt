-- ===== src/Sctp/Chunks.antt =====
-- rtc-sctp/src/queue/reassembly_queue.rs: `Chunks`, the fragments of one message. `Instant::now()`
-- is an argument. `sort_by` is a sort by insertion with the source's comparison.
pub mod Complete
pub mod Reading
use ortc.Common.{
  ℕ, ◌+◌, ◌-◌, ◌%◌, ◌^◌, min, Bool, true, false, not, ◌&&◌, Option, none, some, List, [], ◌∷◌, ◌++◌,
  length, ◌==◌, ltb, leb, if◌then◌else◌, take, drop,
}
use ortc.Sctp.Sna.{sna32lt}
use ortc.Sctp.Chunk.{ChunkPayloadData, PayloadProtocolIdentifier}

pub record Chunks : Type 0 where
  pub ssn : ℕ
  pub ppi : PayloadProtocolIdentifier
  pub chunks : List ChunkPayloadData
  pub offset : ℕ
  pub index : ℕ
  pub timestamp : ℕ

unfoldable pub new : ℕ → PayloadProtocolIdentifier → List ChunkPayloadData → ℕ → Chunks
new ssn ppi cs now = record {
  ssn = ssn;
  ppi = ppi;
  chunks = cs;
  offset = 0;
  index = 0;
  timestamp = now;
}

-- The loop of `len`.
unfoldable pub data_len : List ChunkPayloadData → ℕ
data_len [] = 0
data_len (c ∷ l) = length c.user_data + data_len l

unfoldable pub len : Chunks → ℕ
unfolding data_len
len s = data_len s.chunks

unfoldable pub is_empty : Chunks → Bool
unfolding len
is_empty s = len s == 0

pub data ReadResult : Type 0 where
  ok : ℕ → ReadResult
  short_buffer : ReadResult

-- The loop of `read`: `buf[n_written..n_written + n].copy_from_slice(..)` for each chunk.
unfoldable pub read_loop : List ChunkPayloadData → List ℕ → ℕ → List ℕ × ReadResult
read_loop [] buf n_written = (buf, ok n_written)
read_loop (c ∷ l) buf n_written =
    let n = min (length c.user_data) (length buf - n_written) in
    let buf' = take n_written buf ++ (take n c.user_data ++ drop (n_written + n) buf) in
    let more = read_loop l buf' (n_written + n) in
    if ltb n (length c.user_data) then (buf', short_buffer) else more

-- The buffer after the call, and the result.
unfoldable pub read : Chunks → List ℕ → List ℕ × ReadResult
unfolding read_loop
read s buf = read_loop s.chunks buf 0

-- The loop of `next` over the chunks from `index` on: the index and the offset where it stops, and
-- the bytes that it has collected.
unfoldable pub next_loop : List ChunkPayloadData → ℕ → ℕ → ℕ → List ℕ → ℕ × ℕ × List ℕ
next_loop [] index offset room buf = (index, offset, buf)
next_loop (c ∷ l) index offset room buf =
    let rest = drop offset c.user_data in
    let n = min (length rest) room in
    let more = next_loop l (index + 1) 0 (room - n) (buf ++ take n rest) in
    if ltb n (length rest) then (index, offset + n, buf ++ take n rest) else more

unfoldable pub next : Chunks → ℕ → Chunks × Option (List ℕ)
unfolding next_loop
next s max_length =
    if leb (length s.chunks) s.index
    then (s, none)
    else (let (i, o, buf) = next_loop (drop s.index s.chunks) s.index s.offset max_length [] in
        (record s { index = i; offset = o }, some buf))

unfoldable pub has_tsn : ℕ → List ChunkPayloadData → Bool
has_tsn t [] = false
has_tsn t (c ∷ l) = if c.tsn == t then true else has_tsn t l

unfoldable pub insert_by_tsn : ChunkPayloadData → List ChunkPayloadData → List ChunkPayloadData
insert_by_tsn a [] = a ∷ []
insert_by_tsn a (b ∷ l) = if sna32lt a.tsn b.tsn then a ∷ b ∷ l else b ∷ insert_by_tsn a l

unfoldable pub sort_chunks_by_tsn : List ChunkPayloadData → List ChunkPayloadData
unfolding insert_by_tsn
sort_chunks_by_tsn [] = []
sort_chunks_by_tsn (a ∷ l) = insert_by_tsn a (sort_chunks_by_tsn l)

-- The flag of the last chunk.
unfoldable pub ends_message : List ChunkPayloadData → Bool
ends_message [] = false
ends_message (c ∷ []) = c.ending_fragment
ends_message (c ∷ d ∷ l) = ends_message (d ∷ l)

-- The loop of `is_complete` after its first round. The sum of u32 wraps where overflow is not
-- checked.
unfoldable pub contiguous_from : ℕ → List ChunkPayloadData → Bool
contiguous_from last_tsn [] = true
contiguous_from last_tsn (c ∷ l) =
    if not (c.tsn == (last_tsn + 1) % 2 ^ 32) then false else contiguous_from c.tsn l

unfoldable pub complete : List ChunkPayloadData → Bool
unfolding ends_message contiguous_from
complete [] = false
complete (c ∷ l) =
    if not c.beginning_fragment
    then false
    else (if not (ends_message (c ∷ l)) then false else contiguous_from c.tsn l)

unfoldable pub is_complete : Chunks → Bool
unfolding complete
is_complete s = complete s.chunks

unfoldable pub push : Chunks → ChunkPayloadData → Chunks × Bool
unfolding has_tsn sort_chunks_by_tsn is_complete
push s chunk =
    if has_tsn chunk.tsn s.chunks
    then (s, false)
    else (let s' = record s { chunks = sort_chunks_by_tsn (s.chunks ++ (chunk ∷ [])) } in
        (s', is_complete s'))
