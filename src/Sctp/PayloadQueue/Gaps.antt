-- ===== src/Sctp/PayloadQueue/Gaps.antt =====
-- What the gap blocks of a SACK, computed by `get_gap_ack_blocks`, say of the TSNs held.
use ortc.Common.{
  ℕ, ◌+◌, ◌%◌, ◌^◌, ◌≤◌, ◌<◌, ◌≡◌, refl, Bool, false, ◌&&◌, ◌||◌, List, [], ◌∷◌, ◌++◌, ◌-◌, arith,
  All, All-imp, leb, ltb, ◌==◌, Bool-cases, inl, inr, ◌∙◌, sym, ap,
}
use ortc.Common.Map
use ortc.Common.Map.{count, keys}
use ortc.Sctp.Chunk.{ChunkPayloadData, GapAckBlock}
use ortc.Sctp.PayloadQueue.{PayloadQueue, gap_diff, gap_loop, gap_blocks, get_gap_ack_blocks}
use ortc.Sctp.PayloadQueue.Invariant.{IsValid}

-- Some block spans the offset `x`.
abbrev pub covers : ℕ → List GapAckBlock → Bool
covers x [] = false
covers x (b ∷ bs) = (leb b.start x && leb x b.end) || covers x bs

-- The TSN `cum + x` is in the list.
abbrev pub holds : ℕ → ℕ → List ℕ → Bool
holds cum x [] = false
holds cum x (t ∷ l) = t == cum + x || holds cum x l

-- Rising TSNs behind `low`, none more than 2 ^ 16 - 1 after `cum`.
abbrev Rising : ℕ → ℕ → List ℕ → Type 0
Rising cum low [] = Unit {0}
Rising cum low (t ∷ l) = (low < t) × (t < cum + 2 ^ 16) × Rising cum t l

-- The same, none more than 2 ^ 16 - 2 after `cum`.
abbrev pub RisingBelow : ℕ → ℕ → List ℕ → Type 0
RisingBelow cum low [] = Unit {0}
RisingBelow cum low (t ∷ l) = (low < t) × (t < cum + 2 ^ 16 - 1) × RisingBelow cum t l

gap_diff_lem : (cum t : ℕ) → cum ≤ t → t < cum + 2 ^ 16 → gap_diff cum t + cum ≡ t
unfolding gap_diff
gap_diff_lem cum t h k = ground arith

gap_loop-covers :
    (cum x : ℕ) (b : GapAckBlock) (l : List ℕ)
    → b.start ≤ b.end
    → b.end < 2 ^ 16
    → Rising cum (cum + b.end) l
    → covers x (gap_loop cum b l) ≡ ((leb b.start x && leb x b.end) || holds cum x l)
unfolding gap_loop
gap_loop-covers cum x b [] s e h = refl
gap_loop-covers cum x b (t ∷ l) s e (lo, hi, h) =
    let d = gap_diff_lem cum t (omega arith) hi in
    elim (Bool-cases ((b.end + 1) % 2 ^ 16 == gap_diff cum t)) [
      | inl joined ↦
          rw joined (ground (arith, d, gap_loop-covers cum x (record b { end = gap_diff cum t }) l))
      | inr apart ↦ rw apart (
          ground (
            arith,
            d,
            gap_loop-covers cum x (record { start = gap_diff cum t; end = gap_diff cum t }) l,
          ))
    ]

gap_blocks-covers :
    (cum x t : ℕ) (l : List ℕ)
    → Rising cum cum (t ∷ l)
    → covers x (gap_blocks cum (t ∷ l)) ≡ holds cum x (t ∷ l)
unfolding gap_blocks
gap_blocks-covers cum x t l (lo, hi, h) = ground (
  arith,
  gap_diff_lem cum t,
  gap_loop-covers cum x (record { start = gap_diff cum t; end = gap_diff cum t }) l,
)

holds-count : (cum x : ℕ) (l : List ℕ) → holds cum x l ≡ ltb 0 (count (cum + x) l)
holds-count cum x [] = refl
holds-count cum x (t ∷ l) = ground (arith, holds-count cum x l)

contains_key-count_pos :
    (k : ℕ) (m : List (ℕ × ChunkPayloadData)) → Map.contains_key k m ≡ ltb 0 (count k (keys m))
unfolding Map.contains_key
contains_key-count_pos k [] = refl
contains_key-count_pos k ((j, c) ∷ m) = ground (arith, contains_key-count_pos k m)

blocks_of :
    (cum x : ℕ) (m : List (ℕ × ChunkPayloadData)) (l : List ℕ) (dups : List ℕ) (n : ℕ)
    → ((t : ℕ) → count t l ≡ count t (keys m))
    → Rising cum cum l
    → covers x
        (get_gap_ack_blocks (record { chunk_map = m; sorted = l; dup_tsn = dups; n_bytes = n }) cum)
      ≡ Map.contains_key (cum + x) m
unfolding get_gap_ack_blocks
blocks_of cum x [] l dups n same h = unfold Map.contains_key in refl
blocks_of cum x ((j, c) ∷ m) [] dups n same h = absurd (ground (arith, same j))
blocks_of cum x ((j, c) ∷ m) (t ∷ l) dups n same h =
    let held = same (cum + x) in
    let here = gap_blocks-covers cum x t l h in
    here
    ∙ holds-count cum x (t ∷ l)
    ∙ ap (ltb 0) held
    ∙ sym (contains_key-count_pos (cum + x) ((j, c) ∷ m))

-- While the TSNs held rise after the cumulative TSN, without wrapping past 2 ^ 32 and by less than
-- 2 ^ 16, the gap blocks acknowledge exactly what is held: an offset is in a block if and only if
-- the chunk with that TSN is in the queue.
pub get_gap_ack_blocks_exact :
    (q : PayloadQueue) (cum x : ℕ)
    → IsValid q
    → Rising cum cum q.sorted
    → covers x (get_gap_ack_blocks q cum) ≡ Map.contains_key (cum + x) q.chunk_map
get_gap_ack_blocks_exact q cum x v h =
    blocks_of cum x q.chunk_map q.sorted q.dup_tsn q.n_bytes v.listed h

-- From the first TSN after the wrap on, every TSN has a block 0-0 of its own, which covers no offset
-- but 0.
gap_loop-below :
    (cum x : ℕ) (l : List ℕ) (b : GapAckBlock)
    → All (λ t. t < cum) l
    → 0 < x
    → b.end < 2 ^ 16 - 1
    → covers x (gap_loop cum b l) ≡ (leb b.start x && leb x b.end)
unfolding gap_loop gap_diff
gap_loop-below cum x [] b h hx e = ground arith
gap_loop-below cum x (t ∷ l) b (lt, h) hx e =
    ground (arith, gap_loop-below cum x l (record { start = 0; end = 0 }) h hx (omega arith))

-- The loop over TSNs before the wrap and then TSNs after it.
gap_loop-wrapped :
    (cum x : ℕ) (before after : List ℕ) (b : GapAckBlock)
    → b.start ≤ b.end
    → b.end < 2 ^ 16 - 1
    → RisingBelow cum (cum + b.end) before
    → All (λ t. t < cum) after
    → 0 < x
    → covers x (gap_loop cum b (before ++ after))
      ≡ ((leb b.start x && leb x b.end) || holds cum x before)
unfolding gap_loop
gap_loop-wrapped cum x [] after b s e r h hx = gap_loop-below cum x after b h hx e ∙ ground arith
gap_loop-wrapped cum x (t ∷ before) after b s e (lo, hi, r) h hx =
    let d = gap_diff_lem cum t (omega arith) (omega arith) in
    elim (Bool-cases ((b.end + 1) % 2 ^ 16 == gap_diff cum t)) [
      | inl joined ↦ rw joined (
          ground
            (arith, d, gap_loop-wrapped cum x before after (record b { end = gap_diff cum t })))
      | inr apart ↦ rw apart (
          ground (
            arith,
            d,
            gap_loop-wrapped cum x before after
                (record { start = gap_diff cum t; end = gap_diff cum t }),
          ))
    ]

gap_blocks-wrapped :
    (cum x : ℕ) (before after : List ℕ)
    → RisingBelow cum cum before
    → All (λ t. t < cum) after
    → 0 < x
    → covers x (gap_blocks cum (before ++ after)) ≡ holds cum x before
unfolding gap_blocks gap_diff
gap_blocks-wrapped cum x [] [] r h hx = ground arith
gap_blocks-wrapped cum x [] (t ∷ after) r (lt, h) hx =
    ground (arith, gap_loop-below cum x after (record { start = 0; end = 0 }) h hx (omega arith))
gap_blocks-wrapped cum x (t ∷ before) after (lo, hi, r) h hx =
    let d = gap_diff_lem cum t (omega arith) (omega arith) in
    ground (
      arith,
      d,
      gap_loop-wrapped cum x before after (record { start = gap_diff cum t; end = gap_diff cum t }),
    )

-- No TSN before the wrap stands at an offset behind it.
holds-behind :
    (cum x : ℕ) (l : List ℕ) → All (λ t. t < 2 ^ 32) l → 2 ^ 32 ≤ cum + x → holds cum x l ≡ false
holds-behind cum x [] h far = refl
holds-behind cum x (t ∷ l) (lt, h) far = ground (arith, holds-behind cum x l h far)

-- The blocks are those of the list of TSNs, also where it is empty, but for the offset 0.
covers-sorted :
    (cum x : ℕ) (m : List (ℕ × ChunkPayloadData)) (l dups : List ℕ) (n : ℕ)
    → ((t : ℕ) → count t l ≡ count t (keys m))
    → 0 < x
    → covers x
        (get_gap_ack_blocks (record { chunk_map = m; sorted = l; dup_tsn = dups; n_bytes = n }) cum)
      ≡ covers x (gap_blocks cum l)
unfolding get_gap_ack_blocks gap_blocks
covers-sorted cum x [] [] dups n same hx = ground arith
covers-sorted cum x [] (t ∷ l) dups n same hx = absurd (ground (arith, same t))
covers-sorted cum x (p ∷ m) l dups n same hx = refl

-- When the TSNs held by a valid queue cross the wrap of the TSN space, those before it rising after
-- the cumulative TSN by less than 2 ^ 16 - 1 and those after it, which are also later, being
-- numerically below the cumulative TSN, a u32: an offset above 0 is in a gap block if and only if it
-- is that of a TSN held before the wrap, and no chunk held after the wrap is in a block at its offset,
-- which is its distance modulo 2 ^ 32.
pub get_gap_ack_blocks-wrapped :
    (q : PayloadQueue) (cum : ℕ) (before after : List ℕ)
    → IsValid q
    → cum < 2 ^ 32
    → q.sorted ≡ before ++ after
    → RisingBelow cum cum before
    → All (λ t. t < 2 ^ 32) before
    → All (λ t. t < cum) after
    → ((x : ℕ) → 0 < x → covers x (get_gap_ack_blocks q cum) ≡ holds cum x before)
      × All (λ t. covers (t + 2 ^ 32 - cum) (get_gap_ack_blocks q cum) ≡ false) after
get_gap_ack_blocks-wrapped q cum before after v hc e r small h =
    let at : (x : ℕ) → 0 < x → covers x (get_gap_ack_blocks q cum) ≡ holds cum x before = λ x hx.
      covers-sorted cum x q.chunk_map q.sorted q.dup_tsn q.n_bytes v.listed hx
      ∙ ap (λ l. covers x (gap_blocks cum l)) e
      ∙ gap_blocks-wrapped cum x before after r h hx in
    (
      at,
      All-imp (λ t. t < cum) (λ t. covers (t + 2 ^ 32 - cum) (get_gap_ack_blocks q cum) ≡ false)
          after
          (λ t lt.
            at (t + 2 ^ 32 - cum) (omega arith)
            ∙ holds-behind cum (t + 2 ^ 32 - cum) before small (omega arith))
          h,
    )
