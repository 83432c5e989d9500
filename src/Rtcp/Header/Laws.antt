-- ===== src/Rtcp/Header/Laws.antt =====
-- The header of an RTCP packet on the wire, and back.
use ortc.Common.{
  ℕ, ◌+◌, ◌*◌, ◌/◌, ◌%◌, ◌≤◌, ◌<◌, ◌≡◌, refl, ap, ap₂, ◌∙◌, Bool, true, false, List, [], ◌∷◌, ◌++◌,
  bit_of, ==_iff, ◌==◌, ltb, length, if_false, holds_below, holds_below-at, arith,
}
use ortc.Common.Buffer.{Buf, BufMut, IsBuf, IsBufMut}
use ortc.Common.Bytes.{be16, IsU16, from_be16_lem}
use ortc.Common.Writing.{Writes, Writes-trans, Writes-eq, Writes-u8, Writes-u16}
use ortc.Rtcp.Header.{
  Header, PacketType, as_u8, packet_type_from, first_byte, marshal_to, unmarshal, ok, header_length,
}

unfoldable pub layout : Header → List ℕ
layout h = (128 + bit_of h.padding * 32 + h.count) ∷ as_u8 h.packet_type ∷ be16 h.length []

pub length-layout : (h : Header) → length (layout h) ≡ 4
unfolding layout
length-layout h = refl

pub record IsHeader (h : Header) : Type 0 where
  pub count : h.count < 32
  pub length : IsU16 h.length

abbrev first_byte_test : Bool → ℕ → Bool
first_byte_test padding count = first_byte padding count == 128 + bit_of padding * 32 + count

first_byte_table : (padding : Bool) → holds_below (first_byte_test padding) 32 ≡ true
unfolding holds_below first_byte
first_byte_table true = refl
first_byte_table false = refl

first_byte_lem :
    (padding : Bool) (count : ℕ)
    → count < 32
    → first_byte padding count ≡ 128 + bit_of padding * 32 + count
first_byte_lem padding count h =
    (==_iff _ _).0 (holds_below-at (first_byte_test padding) 32 count h (first_byte_table padding))

as_u8-le : (t : PacketType) → as_u8 t < 256
unfolding as_u8
as_u8-le PacketType.unsupported = omega arith
as_u8-le PacketType.sender_report = omega arith
as_u8-le PacketType.receiver_report = omega arith
as_u8-le PacketType.source_description = omega arith
as_u8-le PacketType.goodbye = omega arith
as_u8-le PacketType.application_defined = omega arith
as_u8-le PacketType.transport_specific_feedback = omega arith
as_u8-le PacketType.payload_specific_feedback = omega arith
as_u8-le PacketType.extended_report = omega arith

packet_type_from-as_u8 : (t : PacketType) → packet_type_from (as_u8 t) ≡ t
unfolding as_u8 packet_type_from
packet_type_from-as_u8 PacketType.unsupported = refl
packet_type_from-as_u8 PacketType.sender_report = refl
packet_type_from-as_u8 PacketType.receiver_report = refl
packet_type_from-as_u8 PacketType.source_description = refl
packet_type_from-as_u8 PacketType.goodbye = refl
packet_type_from-as_u8 PacketType.application_defined = refl
packet_type_from-as_u8 PacketType.transport_specific_feedback = refl
packet_type_from-as_u8 PacketType.payload_specific_feedback = refl
packet_type_from-as_u8 PacketType.extended_report = refl

module _ {W : Type 0} (buf : BufMut W) (written : W → List ℕ) (i : IsBufMut buf written) where
  pub header-Writes :
      (h : Header) (w : W)
      → IsHeader h
      → 4 ≤ buf.remaining_mut w
      → (v : W) × (marshal_to buf h w ≡ ok (4, v)) × Writes buf written w (layout h) v
  unfolding marshal_to layout
  header-Writes h w v room =
      let b0 = first_byte h.padding h.count in
      let e0 : b0 % 256 ≡ 128 + bit_of h.padding * 32 + h.count =
        ground (arith, first_byte_lem h.padding h.count v.count, v.count) in
      let e1 : as_u8 h.packet_type % 256 ≡ as_u8 h.packet_type =
        omega (arith, as_u8-le h.packet_type) in
      let w1 = buf.put_u8 w b0 in
      let w2 = buf.put_u8 w1 (as_u8 h.packet_type) in
      let p1 = Writes-u8 buf written i w b0 (omega arith) in
      let p2 = Writes-u8 buf written i w1 (as_u8 h.packet_type) (omega (arith, p1.1)) in
      let p3 = Writes-u16 buf written i w2 h.length (omega (arith, p1.1, p2.1)) in
      let few : ltb 31 h.count ≡ false = ground (arith, v.count) in
      let fits : ltb (buf.remaining_mut w) header_length ≡ false = ground arith in
      (
        buf.put_u16 w2 h.length,
        if_false _ _ few ∙ if_false _ _ fits,
        Writes-eq buf written (ap₂ (λ (x y : ℕ). x ∷ y ∷ be16 h.length []) e0 e1)
            (Writes-trans buf written _ _ p1 (Writes-trans buf written _ _ p2 p3)),
      )

module _ {B : Type 0} (buf : Buf B) (contents : B → List ℕ) (i : IsBuf buf contents) where
  pub unmarshal-header :
      (h : Header) (b : B) (rest : List ℕ)
      → IsHeader h
      → contents b ≡ layout h ++ rest
      → (c : B) × (unmarshal buf b ≡ ok (h, c)) × (contents c ≡ rest)
  unfolding layout unmarshal
  unmarshal-header h b rest v e =
      let x0 = 128 + bit_of h.padding * 32 + h.count in
      let (p0, q0) = i.get_u8_eq b _ _ e in
      let r0 = (buf.get_u8 b).1 in
      let (p1, q1) = i.get_u8_eq r0 _ _ q0 in
      let r1 = (buf.get_u8 r0).1 in
      let (p2, q2) = i.get_u16_eq r1 _ _ _ q1 in
      let long : ltb (buf.remaining b) 4 ≡ false = ground (arith, i.remaining_eq b, ap length e) in
      let version : (x0 / 64 % 4 == 2) ≡ true = ground (arith, v.count) in
      let padding : ltb 0 (x0 / 32 % 2) ≡ h.padding = ground (arith, v.count) in
      let count : x0 % 32 ≡ h.count = ground (arith, v.count) in
      (
        (buf.get_u16 r1).1,
        rw
            (
              long,
              p0,
              version,
              padding,
              count,
              p1,
              packet_type_from-as_u8 h.packet_type,
              p2,
              from_be16_lem h.length v.length,
            )
            refl,
        q2,
      )
