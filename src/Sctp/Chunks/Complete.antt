-- ===== src/Sctp/Chunks/Complete.antt =====
-- When `is_complete` holds: the fragments of a whole message.
use ortc.Common.{
  ℕ, zero, suc, ◌+◌, ◌%◌, ◌^◌, ◌≡◌, refl, true, some, List, [], ◌∷◌, arith, ◌↔◌, get_elem?,
}
use ortc.Sctp.Chunk.{ChunkPayloadData}
use ortc.Sctp.Chunks.{Chunks, contiguous_from, ends_message, complete, is_complete}

-- The fragment at place `i` has the TSN that is `i` after `t` on the circle of 2 ^ 32.
abbrev Consecutive : ℕ → List ChunkPayloadData → Type 0
Consecutive t l = (i : ℕ) (d : ChunkPayloadData) → get_elem? l i ≡ some d → d.tsn ≡ (t + i) % 2 ^ 32

-- The message is whole: from a first fragment to a last one, with no TSN missing between.
abbrev pub IsWhole : List ChunkPayloadData → Type 0
IsWhole [] = ⊥
IsWhole (c ∷ l) =
    (c.beginning_fragment ≡ true) × (ends_message (c ∷ l) ≡ true) × Consecutive (c.tsn + 1) l

contiguous_from-Consecutive :
    (t : ℕ) (l : List ChunkPayloadData) → contiguous_from t l ≡ true → Consecutive (t + 1) l
unfolding contiguous_from
contiguous_from-Consecutive t [] e i d h = cc
contiguous_from-Consecutive t (c ∷ l) e zero d h = ground arith
contiguous_from-Consecutive t (c ∷ l) e (suc i) d h =
    ground (arith, contiguous_from-Consecutive c.tsn l (ground arith) i d h)

Consecutive-contiguous_from :
    (t : ℕ) (l : List ChunkPayloadData) → Consecutive (t + 1) l → contiguous_from t l ≡ true
unfolding contiguous_from
Consecutive-contiguous_from t [] h = refl
Consecutive-contiguous_from t (c ∷ l) h = ground (
  arith,
  h 0 c refl,
  Consecutive-contiguous_from c.tsn l (λ i d e. ground (arith, h 0 c refl, h (suc i) d e)),
)

complete_iff : (l : List ChunkPayloadData) → (complete l ≡ true) ↔ IsWhole l
unfolding complete
complete_iff [] = (λ e. cc, λ h. absurd h)
complete_iff (c ∷ l) = (
  λ e. (ground arith, ground arith, contiguous_from-Consecutive c.tsn l (ground arith)),
  λ h. ground (arith, h.0, h.1, Consecutive-contiguous_from c.tsn l h.2),
)

-- `is_complete` answers true exactly if there is a first fragment, the last one ends the message,
-- and each TSN is one after the TSN before it on the circle of 2 ^ 32.
pub is_complete_iff : (s : Chunks) → (is_complete s ≡ true) ↔ IsWhole s.chunks
unfolding is_complete
is_complete_iff s = complete_iff s.chunks
