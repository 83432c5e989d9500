-- ===== src/Rtcp/Nack/Bits.antt =====
-- What the iterator over a pair yields: the packet's id, and one number per bit, the lowest first.
use ortc.Common.{
  ℕ, zero, suc, ◌+◌, ◌-◌, ◌%◌, ◌^◌, ◌≤◌, ◌<◌, ◌≡◌, refl, ap, sym, ◌∙◌, Bool, true, false, not, ◌&&◌,
  Option, none, some, List, [], ◌∷◌, bit_and, bit_of, ==_iff, ◌==◌, ltb, leb, if◌then◌else◌,
  if_true, if_false, Bool-cases, inl, inr, holds_below, holds_below-at, arith, Option-cases,
}
use ortc.Common.Bits.{shl, digit, digit_le, digit-bit_and, test_bit_lem, zero-digit, zero_of_digits}
use ortc.Rtcp.Nack.{NackPair, NackIterator, scan, next, collect, packet_list, into_iter}

-- Of `n` bits from bit `i` on, what each that is set stands for.
unfoldable pub lost_from : ℕ → ℕ → ℕ → ℕ → List ℕ
lost_from id bits i zero = []
lost_from id bits i (suc n) =
    let rest = lost_from id bits (i + 1) n in
    if digit bits i == 1 then (id + (i + 1)) % 2 ^ 16 ∷ rest else rest

-- A number that has no bit below `i`, and none from 16 on.
abbrev pub Within : ℕ → ℕ → Type 0
Within i bits = (j : ℕ) → (leb i j && ltb j 16) ≡ false → digit bits j ≡ 0

-- `!(1 << i)` of a u16.
abbrev mask_test : ℕ → ℕ → Bool
mask_test i j = digit (2 ^ 16 - 1 - shl 1 i) j + bit_of (j == i) == 1

mask_table : holds_below (λ i. holds_below (mask_test i) 16) 16 ≡ true
unfolding holds_below digit shl
mask_table = refl

digit-cleared :
    (i : ℕ) (bits : ℕ)
    → i < 16
    → Within 0 bits
    → (j : ℕ) → digit (bit_and bits (2 ^ 16 - 1 - shl 1 i)) j ≡ (if j == i then 0 else digit bits j)
digit-cleared i bits h small j = ground (
  arith,
  digit-bit_and bits (2 ^ 16 - 1 - shl 1 i) j,
  digit_le bits j,
  small j,
  holds_below-at (mask_test i) 16 j,
  holds_below-at (λ k. holds_below (mask_test k) 16) 16 i h mask_table,
)

Within-le : (i k bits : ℕ) → i ≤ k → Within k bits → Within i bits
Within-le i k bits h w j e = w j (ground arith)

Within-cleared :
    (i bits : ℕ) → i < 16 → Within i bits → Within (i + 1) (bit_and bits (2 ^ 16 - 1 - shl 1 i))
Within-cleared i bits h w j e =
    ground (arith, digit-cleared i bits h (Within-le 0 i bits (omega arith) w) j, w j)

Within-next : (i bits : ℕ) → Within i bits → digit bits i ≡ 0 → Within (i + 1) bits
Within-next i bits w e j h = ground (arith, w j, ap (digit bits) {x = i} {y = j})

Within-none : (bits : ℕ) → Within 16 bits → bits ≡ 0
Within-none bits w = zero_of_digits bits bits (omega arith) (λ j. w j (ground arith))

lost_from-cong :
    (id b c n i : ℕ)
    → ((j : ℕ) → i ≤ j → digit b j ≡ digit c j)
    → lost_from id b i n ≡ lost_from id c i n
unfolding lost_from
lost_from-cong id b c zero i h = refl
lost_from-cong id b c (suc n) i h =
    rw (h i (omega arith), lost_from-cong id b c n (i + 1) (λ j k. h j (omega arith))) refl

-- The scan passes over the bits that are not set.
scan-some :
    (n i bits : ℕ)
    → i + suc n ≡ 16
    → digit bits i ≡ 1
    → scan (suc n) i bits ≡ some (i, bit_and bits (2 ^ 16 - 1 - shl 1 i))
unfolding scan
scan-some n i bits e one =
    let some_bit : (bits == 0) ≡ false =
      ground (arith, zero-digit i, ap (λ (b : ℕ). digit b i) {x = bits} {y = 0}) in
    let set : not (bit_and bits (shl 1 i) == 0) ≡ true = ground (arith, test_bit_lem bits i) in
    rw (some_bit, set) refl

scan_zero :
    (n i bits : ℕ)
    → i + suc n ≡ 16
    → digit bits i ≡ 0
    → scan (suc n) i bits ≡ (if bits == 0 then none else scan n (i + 1) bits)
unfolding scan
scan_zero n i bits e off =
    let set : not (bit_and bits (shl 1 i) == 0) ≡ false = ground (arith, test_bit_lem bits i) in
    rw set refl

scan-none : (n i : ℕ) → scan n i 0 ≡ none
unfolding scan
scan-none zero i = refl
scan-none (suc n) i = refl

scan_skip :
    (n i bits : ℕ) → i + suc n ≡ 16 → digit bits i ≡ 0 → scan (suc n) i bits ≡ scan n (i + 1) bits
scan_skip n i bits e off = elim (Bool-cases (bits == 0)) [
  | inl nothing ↦
      scan_zero n i bits e off
      ∙ if_true none (scan n (i + 1) bits) nothing
      ∙ sym (scan-none n (i + 1))
      ∙ ap (scan n (i + 1)) (sym ((==_iff bits 0).0 nothing))
  | inr some_bit ↦ scan_zero n i bits e off ∙ if_false none (scan n (i + 1) bits) some_bit
]

scan_from : (i n bits : ℕ) → i + n ≡ 16 → Within i bits → scan 16 0 bits ≡ scan n i bits
scan_from zero n bits e w = ap (λ (k : ℕ). scan k 0 bits) (omega arith)
scan_from (suc i) n bits e w =
    scan_from i (suc n) bits (omega arith) (Within-le i (suc i) bits (omega arith) w)
    ∙ scan_skip n i bits (omega arith) (w i (ground arith))
    ∙ ap (λ (k : ℕ). scan n k bits) (omega arith)

abbrev started : ℕ → ℕ → NackIterator
started id bits = record { packet_id = id; bitfield = bits; has_yielded_packet_id = true }

abbrev yielded : ℕ → Option (ℕ × ℕ) → Option (ℕ × NackIterator)
yielded id none = none
yielded id (some s) = some ((id + (s.0 + 1)) % 2 ^ 16, started id s.1)

next-scan : (id bits : ℕ) → next (started id bits) ≡ yielded id (scan 16 0 bits)
unfolding next
next-scan id bits = elim (Option-cases (scan 16 0 bits)) [ inl e ↦ rw e refl | inr r ↦ rw r.1 refl ]

abbrev collected : ℕ → Option (ℕ × NackIterator) → List ℕ
collected f none = []
collected f (some s) = s.0 ∷ collect f s.1

collect-next :
    (f : ℕ) (it : NackIterator) (o : Option (ℕ × NackIterator))
    → next it ≡ o
    → collect (suc f) it ≡ collected f o
unfolding collect
collect-next f it o e =
    ap (λ (r : Option (ℕ × NackIterator)). elim r [ none ↦ [] | some s ↦ s.0 ∷ collect f s.1 ]) e
    ∙ elim o [ none ↦ refl | some s ↦ refl ]

collect-none : (f id bits : ℕ) → scan 16 0 bits ≡ none → collect (suc f) (started id bits) ≡ []
collect-none f id bits e =
    collect-next f (started id bits) none (next-scan id bits ∙ ap (yielded id) e)

collect-some :
    (f id bits i rest : ℕ)
    → scan 16 0 bits ≡ some (i, rest)
    → collect (suc f) (started id bits) ≡ (id + (i + 1)) % 2 ^ 16 ∷ collect f (started id rest)
collect-some f id bits i rest e =
    collect-next f (started id bits) (yielded id (some (i, rest)))
      (next-scan id bits ∙ ap (yielded id) e)

collect_bits :
    (n f i id bits : ℕ)
    → i + n ≡ 16
    → n < f
    → Within i bits
    → collect f (started id bits) ≡ lost_from id bits i n
unfolding lost_from
collect_bits n zero i id bits e h w = absurd (omega arith)
collect_bits zero (suc f) i id bits e h w =
    collect-none f id bits (scan_from i 0 bits e w ∙ (unfold scan in refl))
collect_bits (suc n) (suc f) i id bits e h w = elim (Bool-cases (digit bits i == 1)) [
  | inl one ↦
      let set : digit bits i ≡ 1 = (==_iff _ 1).0 one in
      let i_small : i < 16 = omega arith in
      let cleared = bit_and bits (2 ^ 16 - 1 - shl 1 i) in
      let rest : collect f (started id cleared) ≡ lost_from id bits (i + 1) n =
        collect_bits n f (i + 1) id cleared (omega arith) (omega arith)
          (Within-cleared i bits i_small w)
        ∙ lost_from-cong id cleared bits n (i + 1) (λ j k.
          ground (arith, digit-cleared i bits i_small (Within-le 0 i bits (omega arith) w) j, k)) in
      collect-some f id bits i cleared (scan_from i (suc n) bits e w ∙ scan-some n i bits e set)
      ∙ rw one (ap (λ l. (id + (i + 1)) % 2 ^ 16 ∷ l) rest)
  | inr off ↦
      let clear : digit bits i ≡ 0 = ground (arith, digit_le bits i) in
      rw off (
        collect_bits n (suc f) (i + 1) id bits (omega arith) (omega arith)
          (Within-next i bits w clear))
]

-- The packets of a pair.
pub packet_list_lem :
    (p : NackPair)
    → Within 0 p.lost_packets
    → packet_list p ≡ p.packet_id ∷ lost_from p.packet_id p.lost_packets 0 16
unfolding packet_list into_iter collect next
packet_list_lem p w =
    ap (λ l. p.packet_id ∷ l) (collect_bits 16 17 0 p.packet_id p.lost_packets refl (omega arith) w)
