-- ===== src/Channel/RoundTrip.antt =====
-- The OPEN message on the wire, and `marshal_to` and `unmarshal` of message_channel_open.rs against
-- it, over the buffers of the `bytes` crate.
use ortc.Common.{
  ℕ, ◌+◌, ◌%◌, ◌^◌, ◌≤◌, ◌≡◌, refl, ap, ◌∙◌, List, ◌∷◌, ◌++◌, length, false, length-append,
  append_assoc, take, drop, take-append_eq, drop-append_eq, ltb, arith,
}
use ortc.Common.Bytes.{IsU16, IsU32, be16, be32, from_be16_lem, from_be32_lem}
use ortc.Common.Buffer.{Buf, BufMut, IsBuf, IsBufMut}
use ortc.Channel.Open.{
  Result, ChannelType, channel_type_byte, channel_type_of, DataChannelOpen, marshal_size,
  marshal_channel_type, put_fields, marshal_to, unmarshal_channel_type, get_fields, unmarshal,
}

-- The layout of RFC 8832, section 5.1, behind the type byte.
unfoldable pub layout : DataChannelOpen → ℕ → ℕ → ℕ → List ℕ
layout m t label_len protocol_len =
    t
    ∷ be16 m.priority
        (be32 m.reliability_parameter (be16 label_len (be16 protocol_len (m.label ++ m.protocol))))

unfoldable pub encoded : DataChannelOpen → List ℕ
unfolding layout
encoded m = layout m (channel_type_byte m.channel_type) (length m.label) (length m.protocol)

-- The lengths fit their fields, and the numbers their types.
pub record IsMessage (m : DataChannelOpen) : Type 0 where
  pub priority : IsU16 m.priority
  pub reliability_parameter : IsU32 m.reliability_parameter
  pub label : IsU16 (length m.label)
  pub protocol : IsU16 (length m.protocol)

channel_type_byte-IsU8 : (t : ChannelType) → channel_type_byte t % 256 ≡ channel_type_byte t
unfolding channel_type_byte
channel_type_byte-IsU8 ChannelType.reliable = refl
channel_type_byte-IsU8 ChannelType.reliable_unordered = refl
channel_type_byte-IsU8 ChannelType.partial_reliable_rexmit = refl
channel_type_byte-IsU8 ChannelType.partial_reliable_rexmit_unordered = refl
channel_type_byte-IsU8 ChannelType.partial_reliable_timed = refl
channel_type_byte-IsU8 ChannelType.partial_reliable_timed_unordered = refl

channel_type_of-byte : (t : ChannelType) → channel_type_of (channel_type_byte t) ≡ Result.ok t
unfolding channel_type_byte channel_type_of
channel_type_of-byte ChannelType.reliable = refl
channel_type_of-byte ChannelType.reliable_unordered = refl
channel_type_of-byte ChannelType.partial_reliable_rexmit = refl
channel_type_of-byte ChannelType.partial_reliable_rexmit_unordered = refl
channel_type_of-byte ChannelType.partial_reliable_timed = refl
channel_type_of-byte ChannelType.partial_reliable_timed_unordered = refl

module _ {W : Type 0} (buf : BufMut W) (written : W → List ℕ) where
  put_step :
      (a b c : W) (l r : List ℕ)
      → written b ≡ written a ++ l
      → written c ≡ written b ++ r
      → written c ≡ written a ++ (l ++ r)
  put_step a b c l r p q = q ∙ ap (λ x. x ++ r) p ∙ append_assoc (written a) l r

  -- Where there is room, `marshal_to` writes the layout and nothing else, and returns its length,
  -- over a buffer that does what the crate documents, where the fields fit their types
  -- and the lengths of label and protocol 16 bits.
  pub marshal_to-encoded :
      (m : DataChannelOpen) (w : W)
      → IsBufMut buf written
      → IsMessage m
      → marshal_size m ≤ buf.remaining_mut w
      → (v : W) × (marshal_to buf m w ≡ Result.ok (marshal_size m, v))
        × (written v ≡ written w ++ encoded m)
  unfolding marshal_to marshal_channel_type put_fields layout encoded marshal_size
  marshal_to-encoded m w i v h =
      let a = buf.put_u8 w (channel_type_byte m.channel_type) in
      let b = buf.put_u16 a m.priority in
      let c = buf.put_u32 b m.reliability_parameter in
      let d = buf.put_u16 c (length m.label % 2 ^ 16) in
      let e = buf.put_u16 d (length m.protocol % 2 ^ 16) in
      let f = buf.put_slice e m.label in
      let g = buf.put_slice f m.protocol in
      let (a0, a1) = i.put_u8_eq w (channel_type_byte m.channel_type) (omega (arith, h)) in
      let (b0, b1) = i.put_u16_eq a m.priority (omega (arith, h, a1)) in
      let (c0, c1) = i.put_u32_eq b m.reliability_parameter (omega (arith, h, a1, b1)) in
      let (d0, d1) = i.put_u16_eq c (length m.label % 2 ^ 16) (omega (arith, h, a1, b1, c1)) in
      let (e0, e1) =
        i.put_u16_eq d (length m.protocol % 2 ^ 16) (omega (arith, h, a1, b1, c1, d1)) in
      let (f0, f1) = i.put_slice_eq e m.label (omega (arith, h, a1, b1, c1, d1, e1)) in
      let (g0, g1) = i.put_slice_eq f m.protocol (omega (arith, h, a1, b1, c1, d1, e1, f1)) in
      let s2 = put_step w a b _ _ a0 b0 in
      let s3 = put_step w b c _ _ s2 c0 in
      let s4 = put_step w c d _ _ s3 d0 in
      let s5 = put_step w d e _ _ s4 e0 in
      let s6 = put_step w e f _ _ s5 f0 in
      let s7 = put_step w f g _ _ s6 g0 in
      (
        g,
        ground (arith, h),
        s7
            ∙ ap
                (λ t.
                  written w ++ layout m t (length m.label % 2 ^ 16) (length m.protocol % 2 ^ 16))
                (channel_type_byte-IsU8 m.channel_type)
            ∙ ap
                (λ n.
                  written w
                  ++ layout m (channel_type_byte m.channel_type) n (length m.protocol % 2 ^ 16))
                (omega (arith, v.label))
            ∙ ap (λ n. written w ++ layout m (channel_type_byte m.channel_type) (length m.label) n)
                (omega (arith, v.protocol)),
      )

module _ {B : Type 0} (buf : Buf B) (contents : B → List ℕ) where
  get_fields_lem :
      (m : DataChannelOpen) (b : B) (rest : List ℕ)
      → IsBuf buf contents
      → IsMessage m
      → contents b
        ≡ be16 m.priority (
            be32 m.reliability_parameter
              (be16 (length m.label) (be16 (length m.protocol) ((m.label ++ m.protocol) ++ rest))))
      → (c : B) × (get_fields buf m.channel_type b ≡ Result.ok (m, c)) × (contents c ≡ rest)
  unfolding get_fields
  get_fields_lem m b rest i v h =
      let (p0, p1) = i.get_u16_eq _ _ _ _ h in
      let (r0, r1) = i.get_u32_eq _ _ _ _ _ _ p1 in
      let (l0, l1) = i.get_u16_eq _ _ _ _ r1 in
      let (n0, n1) = i.get_u16_eq _ _ _ _ l1 in
      let b4 = (buf.get_u16 (buf.get_u16 (buf.get_u32 (buf.get_u16 b).1).1).1).1 in
      let n2 : contents b4 ≡ m.label ++ (m.protocol ++ rest) =
        n1 ∙ append_assoc m.label m.protocol rest in
      let len : length (contents b4) ≡ length m.label + (length m.protocol + length rest) =
        ap length n2
        ∙ length-append m.label (m.protocol ++ rest)
        ∙ ap (λ (k : ℕ). length m.label + k) (length-append m.protocol rest) in
      let (s0, s1) = i.copy_to_slice_eq (length m.label) b4 (omega (arith, len)) in
      let b5 = (buf.copy_to_slice (length m.label) b4).1 in
      let s2 : contents b5 ≡ m.protocol ++ rest =
        s1 ∙ ap (drop (length m.label)) n2 ∙ drop-append_eq _ m.label (m.protocol ++ rest) refl in
      let (t0, t1) =
        i.copy_to_slice_eq (length m.protocol) b5
          (omega (arith, ap length s2, length-append m.protocol rest)) in
      let ep : (buf.get_u16 b).0 ≡ m.priority = p0 ∙ from_be16_lem m.priority v.priority in
      let er = r0 ∙ from_be32_lem m.reliability_parameter v.reliability_parameter in
      let el = l0 ∙ from_be16_lem (length m.label) v.label in
      let en = n0 ∙ from_be16_lem (length m.protocol) v.protocol in
      let room : ltb (buf.remaining b4) (length m.label + length m.protocol) ≡ false =
        ground (arith, i.remaining_eq b4, len) in
      let sl =
        s0 ∙ ap (take (length m.label)) n2 ∙ take-append_eq _ m.label (m.protocol ++ rest) refl in
      let tl = t0 ∙ ap (take (length m.protocol)) s2 ∙ take-append_eq _ m.protocol rest refl in
      (
        (buf.copy_to_slice (length m.protocol) b5).1,
        rw (ep, er, el, en, room, sl, tl),
        t1 ∙ ap (drop (length m.protocol)) s2 ∙ drop-append_eq _ m.protocol rest refl,
      )

  -- Reading the layout gives the message back and stops behind it, over such a buffer.
  pub unmarshal-encoded :
      (m : DataChannelOpen) (b : B) (rest : List ℕ)
      → IsBuf buf contents
      → IsMessage m
      → contents b ≡ encoded m ++ rest
      → (c : B) × (unmarshal buf b ≡ Result.ok (m, c)) × (contents c ≡ rest)
  unfolding unmarshal unmarshal_channel_type layout encoded
  unmarshal-encoded m b rest i v h =
      let (a0, a1) = i.get_u8_eq b _ _ h in
      let (c, e, f) = get_fields_lem m (buf.get_u8 b).1 rest i v a1 in
      let t : channel_type_of (buf.get_u8 b).0 ≡ Result.ok m.channel_type =
        ap channel_type_of a0 ∙ channel_type_of-byte m.channel_type in
      let n : 11 ≤ buf.remaining b = omega (arith, i.remaining_eq b, ap length h) in
      (c, ground (arith, t, n, e), f)
