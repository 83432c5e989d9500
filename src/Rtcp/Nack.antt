-- ===== src/Rtcp/Nack.antt =====
-- rtc-rtcp/src/transport_feedbacks/transport_layer_nack/mod.rs: the pairs of a packet and a bitmask
-- that name lost RTP packets.
pub mod Bits
pub mod Pairs
pub mod Feedback
use ortc.Common.{
  ℕ, zero, suc, ◌+◌, ◌-◌, ◌%◌, ◌^◌, Bool, true, false, not, ◌||◌, Option, none, some, List, [], ◌∷◌,
  min, bit_and, bit_or, ◌==◌, ltb, leb, if◌then◌else◌,
}
use ortc.Common.Bits.{shl}

pub record NackPair : Type 0 where
  pub packet_id : ℕ
  pub lost_packets : ℕ

pub record NackIterator : Type 0 where
  pub packet_id : ℕ
  pub bitfield : ℕ
  pub has_yielded_packet_id : Bool

-- The loop of `next`: the first bit that is set from `i` on, and the bits without it. A u16 has no
-- bit from 16 on, so that 16 rounds from 0 are fuel enough.
unfoldable pub scan : ℕ → ℕ → ℕ → Option (ℕ × ℕ)
scan zero i bitfield = none
scan (suc fuel) i bitfield =
    if bitfield == 0
    then none
    else (if not (bit_and bitfield (shl 1 i) == 0)
        then some (i, bit_and bitfield (2 ^ 16 - 1 - shl 1 i))
        else scan fuel (i + 1) bitfield)

unfoldable pub next : NackIterator → Option (ℕ × NackIterator)
unfolding scan
next it =
    if not it.has_yielded_packet_id
    then some (it.packet_id, record it { has_yielded_packet_id = true })
    else elim (scan 16 0 it.bitfield) [
      | none ↦ none
      | some s ↦ some ((it.packet_id + (s.0 + 1)) % 2 ^ 16, record it { bitfield = s.1 })
    ]

unfoldable pub new : ℕ → NackPair
new seq = record { packet_id = seq; lost_packets = 0 }

unfoldable pub into_iter : NackPair → NackIterator
into_iter p = record {
  packet_id = p.packet_id;
  bitfield = p.lost_packets;
  has_yielded_packet_id = false;
}

-- All that an iterator yields. Every round takes the packet's id or a bit, so that 18 rounds end it.
unfoldable pub collect : ℕ → NackIterator → List ℕ
unfolding next
collect zero it = []
collect (suc fuel) it = elim (next it) [ none ↦ [] | some s ↦ s.0 ∷ collect fuel s.1 ]

unfoldable pub packet_list : NackPair → List ℕ
unfolding collect into_iter
packet_list p = collect 18 (into_iter p)

-- `self.lost_packets |= 1 << (seq - self.packet_id - 1)`.
unfoldable pub with_lost : NackPair → ℕ → NackPair
with_lost p seq = record p { lost_packets = bit_or p.lost_packets (shl 1 (seq - p.packet_id - 1)) }

-- The loop over the sequence numbers, with the pair that is being filled.
unfoldable pub pairs_loop : NackPair → List ℕ → List NackPair
unfolding new with_lost
pairs_loop p [] = p ∷ []
pairs_loop p (seq ∷ l) = elim (seq == p.packet_id) [
  | true ↦ pairs_loop p l
  | false ↦ elim (leb seq p.packet_id || ltb (min (p.packet_id + 16) (2 ^ 16 - 1)) seq) [
    | true ↦ p ∷ pairs_loop (new seq) l
    | false ↦ pairs_loop (with_lost p seq) l
  ]
]

unfoldable pub nack_pairs_from_sequence_numbers : List ℕ → List NackPair
unfolding pairs_loop new
nack_pairs_from_sequence_numbers [] = []
nack_pairs_from_sequence_numbers (seq ∷ l) = pairs_loop (new seq) l
