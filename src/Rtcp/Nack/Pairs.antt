-- ===== src/Rtcp/Nack/Pairs.antt =====
-- The pairs that are made of sequence numbers name these packets and no others.
use ortc.Common.{
  ℕ, zero, suc, ◌+◌, ◌-◌, ◌%◌, ◌^◌, ◌≤◌, ◌<◌, ◌≡◌, refl, ap, ◌∙◌, Bool, true, false, ◌&&◌, ◌||◌,
  List, [], ◌∷◌, ◌++◌, min, max, bit_or, bit_of, ◌==◌, ltb, leb, All, Bool-cases, inl, inr, arith,
}
use ortc.Common.Bits.{shl, digit, digit_le, digit-bit_or, digit-shl_one, zero-digit}
use ortc.Common.Bytes.{IsU16}
use ortc.Rtcp.Nack.{
  NackPair, new, packet_list, with_lost, pairs_loop, nack_pairs_from_sequence_numbers,
}
use ortc.Rtcp.Nack.Bits.{Within, lost_from, packet_list_lem}

unfoldable pub contains : List ℕ → ℕ → Bool
contains [] x = false
contains (y ∷ l) x = y == x || contains l x

-- All packets that the pairs name.
unfoldable pub packets : List NackPair → List ℕ
packets [] = []
packets (p ∷ l) = packet_list p ++ packets l

contains-append : (l r : List ℕ) (x : ℕ) → contains (l ++ r) x ≡ (contains l x || contains r x)
unfolding contains
contains-append [] r x = refl
contains-append (y ∷ l) r x = ground (arith, contains-append l r x)

contains-lost_zero : (id i n x : ℕ) → contains (lost_from id 0 i n) x ≡ false
unfolding contains lost_from
contains-lost_zero id i zero x = refl
contains-lost_zero id i (suc n) x = ground (arith, zero-digit i, contains-lost_zero id (i + 1) n x)

digit-or_one :
    (b k j : ℕ) → k < 16 → digit (bit_or b (shl 1 k)) j ≡ max (digit b j) (bit_of (j == k))
digit-or_one b k j h = ground (arith, digit-bit_or b (shl 1 k) j, digit-shl_one k j)

-- One bit more is one packet more.
contains-lost_or :
    (id b k n i x : ℕ)
    → k < 16
    → contains (lost_from id (bit_or b (shl 1 k)) i n) x ≡ (
        contains (lost_from id b i n) x
        || (leb i k && ltb k (i + n) && (id + (k + 1)) % 2 ^ 16 == x))
unfolding contains lost_from
contains-lost_or id b k zero i x h = ground arith
contains-lost_or id b k (suc n) i x h =
    let rest = contains-lost_or id b k n (i + 1) x h in
    let here = digit-or_one b k i h in
    let at = ap (λ (j : ℕ). (id + (j + 1)) % 2 ^ 16) {x = i} {y = k} in
    ground (arith, rest, here, at, digit_le b i)

-- A pair that the loop can have.
record IsPair (p : NackPair) : Type 0 where
  id : IsU16 p.packet_id
  bits : Within 0 p.lost_packets

new-IsPair : (seq : ℕ) → IsU16 seq → IsPair (new seq)
unfolding new
new-IsPair seq h = record { id = h; bits = λ j e. zero-digit j }

with_lost-IsPair :
    (p : NackPair) (seq : ℕ) → IsPair p → seq - p.packet_id - 1 < 16 → IsPair (with_lost p seq)
unfolding with_lost
with_lost-IsPair p seq v h = record {
  id = v.id;
  bits = λ j e. ground (arith, v.bits j, digit-or_one p.lost_packets (seq - p.packet_id - 1) j);
}

contains-new : (seq x : ℕ) → IsU16 seq → contains (packet_list (new seq)) x ≡ (seq == x)
unfolding new contains
contains-new seq x h =
    ap (λ (l : List ℕ). contains l x) (packet_list_lem (new seq) (new-IsPair seq h).bits)
    ∙ ground (arith, contains-lost_zero seq 0 16 x)

contains-with_lost :
    (p : NackPair) (seq x : ℕ)
    → IsPair p
    → IsU16 seq
    → p.packet_id < seq
    → seq ≤ p.packet_id + 16
    → contains (packet_list (with_lost p seq)) x ≡ (contains (packet_list p) x || seq == x)
unfolding with_lost contains
contains-with_lost p seq x v h low high =
    let k = seq - p.packet_id - 1 in
    let small : k < 16 = omega arith in
    let wrapped : (p.packet_id + (k + 1)) % 2 ^ 16 ≡ seq = omega arith in
    let more = contains-lost_or p.packet_id p.lost_packets k 16 0 x small in
    let old = ap (λ (l : List ℕ). contains l x) (packet_list_lem p v.bits) in
    let new =
      ap (λ (l : List ℕ). contains l x)
        (packet_list_lem (with_lost p seq) (with_lost-IsPair p seq v small).bits) in
    ground (arith, old, new, more, wrapped)

contains-own : (p : NackPair) → IsPair p → contains (packet_list p) p.packet_id ≡ true
unfolding contains
contains-own p v =
    ap (λ (l : List ℕ). contains l p.packet_id) (packet_list_lem p v.bits) ∙ ground arith

contains-packets :
    (p : NackPair) (l : List NackPair) (x : ℕ)
    → contains (packets (p ∷ l)) x ≡ (contains (packet_list p) x || contains (packets l) x)
unfolding packets
contains-packets p l x = contains-append (packet_list p) (packets l) x

-- The three cases of the loop.
abbrev is_far : NackPair → ℕ → Bool
is_far p seq = leb seq p.packet_id || ltb (min (p.packet_id + 16) (2 ^ 16 - 1)) seq

pairs_loop_same :
    (p : NackPair) (seq : ℕ) (l : List ℕ)
    → (seq == p.packet_id) ≡ true
    → pairs_loop p (seq ∷ l) ≡ pairs_loop p l
unfolding pairs_loop
pairs_loop_same p seq l same = rw (same, pairs_loop) refl

pairs_loop_far :
    (p : NackPair) (seq : ℕ) (l : List ℕ)
    → (seq == p.packet_id) ≡ false
    → is_far p seq ≡ true
    → pairs_loop p (seq ∷ l) ≡ p ∷ pairs_loop (new seq) l
unfolding pairs_loop
pairs_loop_far p seq l other far = rw (other, far, pairs_loop) refl

pairs_loop_near :
    (p : NackPair) (seq : ℕ) (l : List ℕ)
    → (seq == p.packet_id) ≡ false
    → is_far p seq ≡ false
    → pairs_loop p (seq ∷ l) ≡ pairs_loop (with_lost p seq) l
unfolding pairs_loop
pairs_loop_near p seq l other near = rw (other, near, pairs_loop) refl

pairs_loop-packets :
    (l : List ℕ) (p : NackPair) (x : ℕ)
    → IsPair p
    → All IsU16 l
    → contains (packets (pairs_loop p l)) x ≡ (contains (packet_list p) x || contains l x)
unfolding contains
pairs_loop-packets [] p x v h =
    unfold pairs_loop in contains-packets p [] x ∙ (unfold packets in refl)
pairs_loop-packets (seq ∷ l) p x v (h, hs) = elim (Bool-cases (seq == p.packet_id)) [
  | inl same ↦
      let own = contains-own p v in
      let at = ap (λ (y : ℕ). contains (packet_list p) y) {x = p.packet_id} {y = x} in
      rw (pairs_loop_same p seq l same)
        (ground (arith, pairs_loop-packets l p x v hs, own, at, same))
  | inr other ↦ elim (Bool-cases (is_far p seq)) [
    | inl far ↦ rw (pairs_loop_far p seq l other far) (
        ground (
          arith,
          contains-packets p (pairs_loop (new seq) l) x,
          pairs_loop-packets l (new seq) x (new-IsPair seq h) hs,
          contains-new seq x h,
        ))
    | inr near ↦
        let low : p.packet_id < seq = ground arith in
        let high : seq ≤ p.packet_id + 16 = ground (arith, h) in
        rw (pairs_loop_near p seq l other near) (
          ground (
            arith,
            pairs_loop-packets l (with_lost p seq) x (with_lost-IsPair p seq v (omega arith)) hs,
            contains-with_lost p seq x v h low high,
          ))
  ]
]

-- The pairs made of any sequence numbers, in whatever order and with whatever repetitions, name
-- exactly these packets: a number is among the packets that the iterators over the pairs yield if and only if it is
-- among the numbers.
pub nack_pairs-packets :
    (l : List ℕ)
    → All IsU16 l
    → (x : ℕ) → contains (packets (nack_pairs_from_sequence_numbers l)) x ≡ contains l x
unfolding nack_pairs_from_sequence_numbers
nack_pairs-packets [] h x = unfold packets in refl
nack_pairs-packets (seq ∷ l) (h, hs) x =
    unfold contains in
    ground (arith, pairs_loop-packets l (new seq) x (new-IsPair seq h) hs, contains-new seq x h)
