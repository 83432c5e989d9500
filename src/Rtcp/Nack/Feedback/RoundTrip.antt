-- ===== src/Rtcp/Nack/Feedback/RoundTrip.antt =====
-- A packet of negative acknowledgements on the wire, and back.
use ortc.Common.{
  ℕ, ◌+◌, ◌-◌, ◌*◌, ◌/◌, ◌%◌, ◌^◌, ◌≤◌, ◌≡◌, refl, ap, sym, ◌∙◌, false, not, ◌||◌, List, [], ◌∷◌,
  ◌++◌, length, ◌==◌, ltb, if◌then◌else◌, if_true, if_false, All, drop, drop_all, arith,
  length-append, append_assoc, Bool-cases, inl, inr,
}
use ortc.Common.Buffer.{Buf, BufMut, IsBuf, IsBufMut}
use ortc.Common.Bytes.{be16, be32, IsU16, IsU32, from_be16_lem, from_be32_lem}
use ortc.Common.Writing.{Writes, Writes-nothing, Writes-trans, Writes-u16, Writes-u32}
use ortc.Rtcp.Header.{PacketType, ok, as_u8, get_padding_size}
use ortc.Rtcp.Header.Laws.{IsHeader, header-Writes, unmarshal-header}
use ortc.Rtcp.Header.Laws
use ortc.Rtcp.Nack.{NackPair}
use ortc.Rtcp.Nack.Feedback.{
  TransportLayerNack, raw_size, marshal_size, header, put_nacks, marshal_to, guarded, get_nacks,
  get_body, unmarshal, format_tln, tln_length,
}

unfoldable nack_bytes : List NackPair → List ℕ
nack_bytes [] = []
nack_bytes (p ∷ l) = be16 p.packet_id (be16 p.lost_packets (nack_bytes l))

unfoldable body_bytes : TransportLayerNack → List ℕ
body_bytes t = be32 t.sender_ssrc (be32 t.media_ssrc (nack_bytes t.nacks))

abbrev IsPair : NackPair → Type 0
IsPair p = IsU16 p.packet_id × IsU16 p.lost_packets

pub record IsNack (t : TransportLayerNack) : Type 0 where
  pub sender : IsU32 t.sender_ssrc
  pub media : IsU32 t.media_ssrc
  pub pairs : All IsPair t.nacks
  pub few : length t.nacks ≤ 253

length-nack_bytes : (l : List NackPair) → length (nack_bytes l) ≡ length l * 4
unfolding nack_bytes
length-nack_bytes [] = refl
length-nack_bytes (p ∷ l) = omega (arith, length-nack_bytes l)

-- The packet is in whole words, so that it has no padding.
whole_words : (t : TransportLayerNack) → get_padding_size (raw_size t) ≡ 0
unfolding get_padding_size raw_size
whole_words t = ground arith

marshal_size_lem : (t : TransportLayerNack) → marshal_size t ≡ 12 + length t.nacks * 4
unfolding marshal_size
marshal_size_lem t = unfold raw_size in omega (arith, whole_words t)

header-length :
    (t : TransportLayerNack) → length t.nacks ≤ 253 → (header t).length ≡ length t.nacks + 2
unfolding header
header-length t h = omega (arith, marshal_size_lem t)

header-padding : (t : TransportLayerNack) → (header t).padding ≡ false
unfolding header
header-padding t = ground (arith, whole_words t)

header-IsHeader : (t : TransportLayerNack) → IsHeader (header t)
unfolding header
header-IsHeader t = record { count = omega arith; length = omega arith }

module _ {W : Type 0} (buf : BufMut W) (written : W → List ℕ) (i : IsBufMut buf written) where
  put_nacks-Writes :
      (l : List NackPair) (w : W)
      → length l * 4 ≤ buf.remaining_mut w
      → Writes buf written w (nack_bytes l) (put_nacks buf l w)
  unfolding nack_bytes put_nacks
  put_nacks-Writes [] w room = Writes-nothing buf written w
  put_nacks-Writes (p ∷ l) w room =
      let w1 = buf.put_u16 w p.packet_id in
      let p1 = Writes-u16 buf written i w p.packet_id (omega arith) in
      let p2 = Writes-u16 buf written i w1 p.lost_packets (omega (arith, p1.1)) in
      Writes-trans buf written _ _ p1 (
        Writes-trans buf written _ _ p2
          (put_nacks-Writes l (buf.put_u16 w1 p.lost_packets) (omega (arith, p1.1, p2.1))))

  nack-Writes :
      (t : TransportLayerNack) (w : W)
      → IsNack t
      → marshal_size t ≤ buf.remaining_mut w
      → (v : W) × (marshal_to buf t w ≡ ok (marshal_size t, v))
        × Writes buf written w (Laws.layout (header t) ++ body_bytes t) v
  unfolding marshal_to body_bytes
  nack-Writes t w v room =
      let n = length t.nacks in
      let size = marshal_size_lem t in
      let (u, run, p0) =
        header-Writes buf written i (header t) w (header-IsHeader t) (omega (arith, size)) in
      let head : buf.remaining_mut u + 4 ≡ buf.remaining_mut w =
        omega (arith, p0.1, Laws.length-layout (header t)) in
      let w1 = buf.put_u32 u t.sender_ssrc in
      let w2 = buf.put_u32 w1 t.media_ssrc in
      let p1 = Writes-u32 buf written i u t.sender_ssrc (omega (arith, head, size)) in
      let p2 = Writes-u32 buf written i w1 t.media_ssrc (omega (arith, head, p1.1, size)) in
      let p3 = put_nacks-Writes t.nacks w2 (omega (arith, head, p1.1, p2.1, size)) in
      let few : ltb 255 (n + tln_length) ≡ false = ground (arith, v.few) in
      let fits : ltb (buf.remaining_mut w) (marshal_size t) ≡ false = ground arith in
      (
        put_nacks buf t.nacks w2,
        rw (few, fits, run, header-padding t) refl,
        Writes-trans buf written _ _ p0
            (Writes-trans buf written _ _ p1 (Writes-trans buf written _ _ p2 p3)),
      )

module _ {B : Type 0} (buf : Buf B) (contents : B → List ℕ) (i : IsBuf buf contents) where
  get_nacks_lem :
      (l : List NackPair) (b : B) (rest : List ℕ)
      → All IsPair l
      → contents b ≡ nack_bytes l ++ rest
      → (c : B) × (get_nacks buf (length l) b ≡ ok (l, c)) × (contents c ≡ rest)
  unfolding nack_bytes get_nacks guarded
  get_nacks_lem [] b rest v e = (b, refl, e)
  get_nacks_lem (p ∷ l) b rest ((hp, hl), v) e =
      let (p0, q0) = i.get_u16_eq b _ _ _ e in
      let b1 = (buf.get_u16 b).1 in
      let (p1, q1) = i.get_u16_eq b1 _ _ _ q0 in
      let (c, run, r) = get_nacks_lem l (buf.get_u16 b1).1 rest v q1 in
      let long : ltb (buf.remaining b) 4 ≡ false = ground (arith, i.remaining_eq b, ap length e) in
      (
        c,
        rw (long, run, p0, p1, from_be16_lem p.packet_id hp, from_be16_lem p.lost_packets hl) refl,
        r,
      )

  -- What is left is taken too.
  rest_taken :
      (c : B)
      → contents (if ltb 0 (buf.remaining c) then buf.advance (buf.remaining c) c else c) ≡ []
  rest_taken c =
      let n = buf.remaining c in
      let size = i.remaining_eq c in
      let none_left = drop_all n (contents c) (omega (arith, size)) in
      elim (Bool-cases (ltb 0 n)) [
        | inl more ↦
            ap contents (if_true (buf.advance n c) c more)
            ∙ i.advance_eq n c (omega (arith, size))
            ∙ none_left
        | inr done ↦
            let zero_left : n ≡ 0 = ground arith in
            ap contents (if_false (buf.advance n c) c done)
            ∙ sym (ap (λ (k : ℕ). drop k (contents c)) zero_left)
            ∙ none_left
      ]

  get_body_lem :
      (t : TransportLayerNack) (b : B) (rest : List ℕ)
      → IsNack t
      → contents b ≡ body_bytes t ++ rest
      → (c : B) × (get_body buf (length t.nacks + 2) b ≡ ok (t, c)) × (contents c ≡ [])
  unfolding body_bytes get_body guarded
  get_body_lem t b rest v e =
      let (p0, q0) = i.get_u32_eq b _ _ _ _ _ e in
      let b1 = (buf.get_u32 b).1 in
      let (p1, q1) = i.get_u32_eq b1 _ _ _ _ _ q0 in
      let (c, run, r) = get_nacks_lem t.nacks (buf.get_u32 b1).1 rest v.pairs q1 in
      let long : ltb (buf.remaining b) 8 ≡ false = ground (arith, i.remaining_eq b, ap length e) in
      let count : length t.nacks + 2 - 8 / 4 ≡ length t.nacks = omega arith in
      (
        if ltb 0 (buf.remaining c) then buf.advance (buf.remaining c) c else c,
        rw
            (
              long,
              count,
              run,
              p0,
              p1,
              from_be32_lem t.sender_ssrc v.sender,
              from_be32_lem t.media_ssrc v.media,
            )
            refl,
        rest_taken c,
      )

  unmarshal_lem :
      (t : TransportLayerNack) (b : B) (rest : List ℕ)
      → IsNack t
      → contents b ≡ (Laws.layout (header t) ++ body_bytes t) ++ rest
      → (c : B) × (unmarshal buf b ≡ ok (t, c)) × (contents c ≡ [])
  unfolding unmarshal
  unmarshal_lem t b rest v e =
      let all = e ∙ append_assoc (Laws.layout (header t)) (body_bytes t) rest in
      let (r, run, left) =
        unmarshal-header buf contents i (header t) b (body_bytes t ++ rest) (header-IsHeader t)
          all in
      let (c, got, done) = get_body_lem t r rest v left in
      let size : 12 + length t.nacks * 4 ≤ buf.remaining b =
        unfold Laws.layout in
        unfold body_bytes in
        omega (
          arith,
          i.remaining_eq b,
          ap length all,
          length-append (nack_bytes t.nacks) rest,
          length-nack_bytes t.nacks,
        ) in
      let len = header-length t v.few in
      let short : ltb (buf.remaining b) 8 ≡ false = ground arith in
      let whole : ltb (buf.remaining b) (4 + 4 * (header t).length % 2 ^ 16) ≡ false =
        ground (arith, len, v.few) in
      let right : (not
              (as_u8 (header t).packet_type == as_u8 PacketType.transport_specific_feedback)
            || not ((header t).count == format_tln))
          ≡ false =
        unfold header in unfold as_u8 in refl in
      (c, rw (short, run, whole, right, len, got) refl, done)

-- A packet of negative acknowledgements that is written, where there is room, and then read comes
-- back: `marshal_to` returns `marshal_size` and has put as many bytes, and `unmarshal` of these bytes,
-- whatever follows them, gives the packet and takes all of the buffer, over buffers that do what the
-- crate documents; for at most 253 pairs of u16 and SSRCs that are u32.
pub unmarshal-written_nack :
    {B W : Type 0} (buf : Buf B) (contents : B → List ℕ) (out : BufMut W) (written : W → List ℕ)
    → IsBuf buf contents
    → IsBufMut out written
    → (t : TransportLayerNack) (w : W) → IsNack t
    → marshal_size t ≤ out.remaining_mut w
    → (v : W) × (bytes : List ℕ) × (marshal_to out t w ≡ ok (marshal_size t, v))
      × (written v ≡ written w ++ bytes)
      × (out.remaining_mut v + length bytes ≡ out.remaining_mut w)
      × ((b : B) (rest : List ℕ)
          → contents b ≡ bytes ++ rest
          → (c : B) × (unmarshal buf b ≡ ok (t, c)) × (contents c ≡ []))
unmarshal-written_nack buf contents out written i j t w h room =
    let (v, run, put) = nack-Writes out written j t w h room in
    (
      v,
      Laws.layout (header t) ++ body_bytes t,
      run,
      put.0,
      put.1,
      λ b rest e. unmarshal_lem buf contents i t b rest h e,
    )
