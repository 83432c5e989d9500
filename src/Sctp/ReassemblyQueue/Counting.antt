-- ===== src/Sctp/ReassemblyQueue/Counting.antt =====
-- `n_bytes` of the reassembly queue against the user data that it holds.
use ortc.Common.{
  ℕ, ◌+◌, ◌≡◌, refl, Bool, false, none, some, List, [], ◌∷◌, ◌++◌, length, arith, All, Option-cases,
  inl, inr, ap, ◌∙◌,
}
use ortc.Sctp.Chunk.{ChunkPayloadData}
use ortc.Sctp.Chunks
use ortc.Sctp.Chunks.{Chunks, data_len, insert_by_tsn, sort_chunks_by_tsn, has_tsn}
use ortc.Sctp.ReassemblyQueue.{
  ReassemblyQueue, new, insert_by_ssn, sort_chunks_by_ssn, find_complete_unordered_chunk_set,
  push_unordered, push_into, push_ordered, push,
}
use ortc.Sctp.ReassemblyQueue.Scan.{find_complete_unordered_chunk_set_lem}

abbrev pub sets_len : List Chunks → ℕ
sets_len [] = 0
sets_len (s ∷ l) = data_len s.chunks + sets_len l

-- `n_bytes` is the size of all the user data that waits in the queue.
abbrev pub IsCounted : ReassemblyQueue → Type 0
IsCounted q = q.n_bytes ≡ sets_len q.ordered + sets_len q.unordered + data_len q.unordered_chunks

-- No set has the chunk's TSN already.
abbrev pub IsNew : ChunkPayloadData → List Chunks → Type 0
IsNew c l = All (λ s. has_tsn c.tsn s.chunks ≡ false) l

data_len-append : (l m : List ChunkPayloadData) → data_len (l ++ m) ≡ data_len l + data_len m
unfolding data_len
data_len-append [] m = omega arith
data_len-append (c ∷ l) m = omega (arith, data_len-append l m)

sets_len-append : (l m : List Chunks) → sets_len (l ++ m) ≡ sets_len l + sets_len m
sets_len-append [] m = omega arith
sets_len-append (c ∷ l) m = omega (arith, sets_len-append l m)

data_len-insert_by_tsn :
    (c : ChunkPayloadData) (l : List ChunkPayloadData)
    → data_len (insert_by_tsn c l) ≡ length c.user_data + data_len l
unfolding insert_by_tsn data_len
data_len-insert_by_tsn c [] = refl
data_len-insert_by_tsn c (d ∷ l) = ground (arith, data_len-insert_by_tsn c l)

data_len-sort : (l : List ChunkPayloadData) → data_len (sort_chunks_by_tsn l) ≡ data_len l
unfolding sort_chunks_by_tsn data_len
data_len-sort [] = refl
data_len-sort (c ∷ l) =
    omega (arith, data_len-insert_by_tsn c (sort_chunks_by_tsn l), data_len-sort l)

sets_len-insert_by_ssn :
    (s : Chunks) (l : List Chunks) → sets_len (insert_by_ssn s l) ≡ data_len s.chunks + sets_len l
unfolding insert_by_ssn
sets_len-insert_by_ssn s [] = refl
sets_len-insert_by_ssn s (d ∷ l) = ground (arith, sets_len-insert_by_ssn s l)

sets_len-sort : (l : List Chunks) → sets_len (sort_chunks_by_ssn l) ≡ sets_len l
unfolding sort_chunks_by_ssn
sets_len-sort [] = refl
sets_len-sort (c ∷ l) =
    omega (arith, sets_len-insert_by_ssn c (sort_chunks_by_ssn l), sets_len-sort l)

-- A chunk that is put at the end and sorted in.
data_len-sort_snoc :
    (l : List ChunkPayloadData) (c : ChunkPayloadData)
    → data_len (sort_chunks_by_tsn (l ++ (c ∷ []))) ≡ data_len l + length c.user_data
data_len-sort_snoc l c =
    data_len-sort (l ++ (c ∷ [])) ∙ (data_len-append l (c ∷ []) ∙ unfold data_len in omega arith)

sets_len-sort_snoc :
    (l : List Chunks) (s : Chunks)
    → sets_len (sort_chunks_by_ssn (l ++ (s ∷ []))) ≡ sets_len l + data_len s.chunks
sets_len-sort_snoc l s = sets_len-sort (l ++ (s ∷ [])) ∙ (sets_len-append l (s ∷ []) ∙ omega arith)

data_len-push :
    (s : Chunks) (c : ChunkPayloadData)
    → has_tsn c.tsn s.chunks ≡ false
    → data_len (Chunks.push s c).0.chunks ≡ data_len s.chunks + length c.user_data
unfolding Chunks.push
data_len-push s c h = ground (arith, data_len-sort_snoc s.chunks c)

sets_len-push_into :
    (l : List Chunks) (c : ChunkPayloadData) (l' : List Chunks) (done : Bool)
    → IsNew c l
    → push_into l c ≡ some (l', done)
    → sets_len l' ≡ sets_len l + length c.user_data
unfolding push_into
sets_len-push_into [] c l' done h e = cc
sets_len-push_into (s ∷ l) c l' done (h, hs) e = elim (Option-cases (push_into l c)) [
  | inl missing ↦ ground (arith, data_len-push s c h)
  | inr ((m, ok), found) ↦ ground (arith, data_len-push s c h, sets_len-push_into l c m ok hs found)
]

-- What a search for a complete set moves from the fragments to the set.
data_len-find :
    (q : ReassemblyQueue) (now : ℕ) (cset : Chunks)
    → (find_complete_unordered_chunk_set q now).1 ≡ some cset
    → data_len q.unordered_chunks
      ≡ data_len cset.chunks + data_len (find_complete_unordered_chunk_set q now).0.unordered_chunks
data_len-find q now cset e =
    let (done, (pre, post, whole, left)) = find_complete_unordered_chunk_set_lem q now cset e in
    omega (
      arith,
      ap data_len whole,
      ap data_len left,
      data_len-append pre (cset.chunks ++ post),
      data_len-append cset.chunks post,
      data_len-append pre post,
    )

pub find-frame :
    (q : ReassemblyQueue) (now : ℕ)
    → let r = (find_complete_unordered_chunk_set q now).0 in
      (r.n_bytes ≡ q.n_bytes) × (r.ordered ≡ q.ordered) × (r.unordered ≡ q.unordered)
unfolding find_complete_unordered_chunk_set
find-frame q now = ground arith

pub find-none :
    (q : ReassemblyQueue) (now : ℕ)
    → (find_complete_unordered_chunk_set q now).1 ≡ none
    → (find_complete_unordered_chunk_set q now).0 ≡ q
unfolding find_complete_unordered_chunk_set
find-none q now e = ground arith

push_unordered-IsCounted :
    (q : ReassemblyQueue) (c : ChunkPayloadData) (now : ℕ)
    → IsCounted q
    → IsCounted (push_unordered q c now).0
push_unordered-IsCounted q c now h =
    elim (Option-cases (find_complete_unordered_chunk_set q' now).1) [
      | inl nothing ↦
          unfold push_unordered in
          ground (arith, find-none q' now nothing, data_len-sort_snoc q.unordered_chunks c)
      | inr (cset, found) ↦
          unfold push_unordered in
          ground (
            arith,
            find-frame q' now,
            data_len-find q' now cset found,
            data_len-sort_snoc q.unordered_chunks c,
            sets_len-append q.unordered (cset ∷ []),
          )
    ]
  where
    q' : ReassemblyQueue
    q' = record q {
      n_bytes = q.n_bytes + length c.user_data;
      unordered_chunks = sort_chunks_by_tsn (q.unordered_chunks ++ (c ∷ []));
    }

fresh_set :
    (c : ChunkPayloadData) (now : ℕ)
    → data_len (Chunks.push (Chunks.new c.stream_sequence_number c.payload_type [] now) c).0.chunks
      ≡ length c.user_data
fresh_set c now =
    data_len-push (Chunks.new c.stream_sequence_number c.payload_type [] now) c
      (unfold Chunks.new has_tsn in refl)
    ∙ unfold Chunks.new data_len in omega arith

push_ordered-IsCounted :
    (q : ReassemblyQueue) (c : ChunkPayloadData) (now : ℕ)
    → IsNew c q.ordered
    → IsCounted q
    → IsCounted (push_ordered q c now).0
push_ordered-IsCounted q c now new h = elim (Option-cases (push_into q.ordered c)) [
  | inl nothing ↦
      unfold push_ordered in
      ground (
        arith,
        fresh_set c now,
        sets_len-sort_snoc q.ordered
            (Chunks.push (Chunks.new c.stream_sequence_number c.payload_type [] now) c).0,
        sets_len-append q.ordered
            ((Chunks.push (Chunks.new c.stream_sequence_number c.payload_type [] now) c).0 ∷ []),
      )
  | inr ((sets, ok), found) ↦
      unfold push_ordered in ground (arith, sets_len-push_into q.ordered c sets ok new found)
]

-- `push` adds to `n_bytes` exactly what it keeps of a chunk whose TSN no ordered set has yet.
pub push-IsCounted :
    (q : ReassemblyQueue) (c : ChunkPayloadData) (now : ℕ)
    → IsNew c q.ordered
    → IsCounted q
    → IsCounted (push q c now).0
push-IsCounted q c now new h =
    unfold push in
    ground (arith, push_unordered-IsCounted q c now h, push_ordered-IsCounted q c now new h)
