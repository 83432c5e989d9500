-- ===== src/Sctp/Chunks/Reading.antt =====
-- What `read` and `next` return of the bytes of a message.
use ortc.Common.{
  ℕ, suc, ◌+◌, ◌-◌, ◌≤◌, ◌<◌, min, ◌≡◌, refl, false, some, List, [], ◌∷◌, ◌++◌, length, leb, arith,
  take, drop, append_assoc, append-nil, ap, sym, ◌∙◌, length-append, length-drop, take-append_eq,
  take_all, drop_all, drop-append_le, take-append_le, take-append_ge, drop-append, drop-drop,
}
use native.Mathlib.Decide.{dec_le, dec_lt}
use native.Mathlib.Nat.{zero-add}
use ortc.Sctp.Chunk.{ChunkPayloadData}
use ortc.Sctp.Chunks.{Chunks, ok, short_buffer, data_len, len, read_loop, read, next_loop, next}

-- All the user data in order: the message.
abbrev pub message : List ChunkPayloadData → List ℕ
message [] = []
message (c ∷ l) = c.user_data ++ message l

length-message : (l : List ChunkPayloadData) → length (message l) ≡ data_len l
unfolding data_len
length-message [] = refl
length-message (c ∷ l) = omega (arith, length-append c.user_data (message l), length-message l)

-- One round of `read` on a chunk that fits.
read_loop_step :
    (c : ChunkPayloadData) (l : List ChunkPayloadData) (done rest : List ℕ)
    → length c.user_data ≤ length rest
    → read_loop (c ∷ l) (done ++ rest) (length done)
      ≡ read_loop l
          ((done ++ c.user_data) ++ drop (length c.user_data) rest)
          (length (done ++ c.user_data))
unfolding read_loop
read_loop_step c l done rest h =
    let fits : min (length c.user_data) (length (done ++ rest) - length done) ≡ length c.user_data =
      omega (arith, length-append done rest) in
    let kept = take-append_eq (length done) done rest refl in
    let copied = take_all (length c.user_data) c.user_data (omega arith) in
    let left = drop-append (length done + length c.user_data) (length c.user_data) done rest refl in
    rw (fits, kept, copied, left, length-append done c.user_data, append_assoc) (ground arith)

read_loop-fits :
    (l : List ChunkPayloadData) (done rest : List ℕ)
    → data_len l ≤ length rest
    → read_loop l (done ++ rest) (length done)
      ≡ (done ++ (message l ++ drop (data_len l) rest), ok (length done + data_len l))
read_loop-fits [] done rest h = unfold read_loop data_len in ground arith
read_loop-fits (c ∷ l) done rest h =
    let d = c.user_data in
    let n : data_len (c ∷ l) ≡ length d + data_len l = unfold data_len in refl in
    let left = drop-drop (data_len l) (length d) (length d + data_len l) rest refl in
    let room : data_len l ≤ length (drop (length d) rest) =
      omega (arith, n, length-drop (length d) rest) in
    read_loop_step c l done rest (omega (arith, n))
    ∙ (read_loop-fits l (done ++ d) (drop (length d) rest) room
        ∙ rw (left, n, length-append done d, append_assoc, append_assoc) (ground arith))

read_loop-short :
    (l : List ChunkPayloadData) (done rest : List ℕ)
    → length rest < data_len l
    → (read_loop l (done ++ rest) (length done)).1 ≡ short_buffer
read_loop-short [] done rest h = unfold data_len in absurd (omega arith)
read_loop-short (c ∷ l) done rest h =
    let d = c.user_data in
    let n : data_len (c ∷ l) ≡ length d + data_len l = unfold data_len in refl in
    elim (dec_le (length d) (length rest)) [
      | yes fits ↦ rw (read_loop_step c l done rest fits) (
          read_loop-short l (done ++ d) (drop (length d) rest)
            (omega (arith, n, length-drop (length d) rest)))
      | no over ↦ unfold read_loop in ground (arith, length-append done rest)
    ]

-- `read` copies the whole message to the front of a buffer that is long enough, leaves the rest of
-- the buffer as it was, and returns the message's length; at a shorter buffer it fails.
pub read_lem :
    (s : Chunks) (buf : List ℕ)
    → (len s ≤ length buf → read s buf ≡ (message s.chunks ++ drop (len s) buf, ok (len s)))
      × (length buf < len s → (read s buf).1 ≡ short_buffer)
unfolding read len
read_lem s buf =
    (λ h. read_loop-fits s.chunks [] buf h ∙ rw zero-add, λ h. read_loop-short s.chunks [] buf h)

-- What is left of the fragments `l` behind the first `o` bytes.
abbrev rem : List ChunkPayloadData → ℕ → List ℕ
rem [] o = []
rem (c ∷ l) o = drop o c.user_data ++ message l

rem-zero : (l : List ChunkPayloadData) → rem l 0 ≡ message l
rem-zero [] = refl
rem-zero (c ∷ l) = refl

-- The bytes that `next` has still to deliver.
abbrev pub remaining : Chunks → List ℕ
remaining s = rem (drop s.index s.chunks) s.offset

-- Where the loop of `next` stops, `j` chunks on.
abbrev Stops : List ChunkPayloadData → ℕ → ℕ → ℕ → List ℕ → ℕ × ℕ × List ℕ → Type 0
Stops l index offset room buf r =
    (j : ℕ) × (r.0 ≡ index + j)
    × (rem (drop j l) r.1 ≡ drop room (rem l offset))
    × (r.2 ≡ buf ++ take room (rem l offset))

next_loop_stop :
    (c : ChunkPayloadData) (l : List ChunkPayloadData) (index offset room : ℕ) (buf : List ℕ)
    → room < length (drop offset c.user_data)
    → next_loop (c ∷ l) index offset room buf
      ≡ (index, offset + room, buf ++ take room (drop offset c.user_data))
unfolding next_loop
next_loop_stop c l index offset room buf h =
    let n : min (length (drop offset c.user_data)) room ≡ room = omega arith in rw n (ground arith)

next_loop_go :
    (c : ChunkPayloadData) (l : List ChunkPayloadData) (index offset room : ℕ) (buf : List ℕ)
    → length (drop offset c.user_data) ≤ room
    → next_loop (c ∷ l) index offset room buf
      ≡ next_loop l
          (index + 1)
          0
          (room - length (drop offset c.user_data))
          (buf ++ drop offset c.user_data)
unfolding next_loop
next_loop_go c l index offset room buf h =
    let rest = drop offset c.user_data in
    let n : min (length rest) room ≡ length rest = omega arith in
    rw (n, take_all (length rest) rest (omega arith)) (ground arith)

next_loop-Stops :
    (l : List ChunkPayloadData) (index offset room : ℕ) (buf : List ℕ)
    → Stops l index offset room buf (next_loop l index offset room buf)
next_loop-Stops [] index offset room buf =
    unfold next_loop in
    (
      0,
      omega arith,
      sym (drop_all {A = ℕ} room [] (omega arith)),
      rw (take_all {A = ℕ} room [] (omega arith)) (sym (append-nil buf)),
    )
next_loop-Stops (c ∷ l) index offset room buf =
    let rest = drop offset c.user_data in
    elim (dec_lt room (length rest)) [
      | yes stops ↦ rw (next_loop_stop c l index offset room buf stops) (
        0,
        omega arith,
        rw (
          drop-append_le room rest (message l) (omega arith),
          drop-drop room offset (offset + room) c.user_data refl,
        ),
        rw (take-append_le room rest (message l) (omega arith)),
      )
      | no goes ↦ rw (next_loop_go c l index offset room buf (omega arith)) (
          let (j, i, m, b) = next_loop-Stops l (index + 1) 0 (room - length rest) (buf ++ rest) in
          (
            suc j,
            omega arith,
            m
                ∙ (ap (drop (room - length rest)) (rem-zero l)
                    ∙ sym (drop-append room (room - length rest) rest (message l) (omega arith))),
            b
                ∙ (append_assoc buf rest (take (room - length rest) (rem l 0))
                    ∙ (ap (λ t. buf ++ (rest ++ take (room - length rest) t)) (rem-zero l)
                        ∙ ap (λ t. buf ++ t)
                            (sym (
                              take-append_ge room (room - length rest) rest (message l)
                                (omega arith))))),
          ))
    ]

-- A call of `next` with chunks left returns the first `max_length` of the bytes still to deliver,
-- or all of them if there are fewer, and leaves the others for the next call.
pub next_lem :
    (s : Chunks) (max_length : ℕ)
    → s.index < length s.chunks
    → ((next s max_length).1 ≡ some (take max_length (remaining s)))
      × (remaining (next s max_length).0 ≡ drop max_length (remaining s))
unfolding next
next_lem s n h =
    let (j, i, m, b) = next_loop-Stops (drop s.index s.chunks) s.index s.offset n [] in
    let more : leb (length s.chunks) s.index ≡ false = ground arith in
    rw more (ap some b, rw (i, ← drop-drop j s.index (s.index + j) s.chunks refl) m)
