-- ===== src/Rtp/Header/RoundTrip.antt =====
-- Reading the layout of an RTP header gives the header back.
use ortc.Common.{
  ℕ, zero, ◌+◌, ◌-◌, ◌*◌, ◌/◌, ◌%◌, ◌^◌, ◌≤◌, ◌<◌, ◌≡◌, refl, ap, ap₂, sym, ◌∙◌, true, false, List,
  [], ◌∷◌, ◌++◌, length, ◌==◌, ltb, if◌then◌else◌, arith, bit_of, replicate, append_assoc,
  length-append, Bool-cases, if_true, if_false, inl, inr,
}
use ortc.Common.Bytes.{from_be16_lem, from_be32_lem}
use ortc.Common.Buffer.{Buf, IsBuf}
use ortc.Rtp.Header.{
  Header, Extension, ok, extension_profile_one_byte, extension_profile_two_byte,
  get_extension_payload_len,
}
use ortc.Rtp.Header.Unmarshal.{
  get_csrcs, read_payload, read_single, read_extensions, read_extension_block, read_header,
  unmarshal,
}
use ortc.Rtp.Header.Layout.{
  csrc_bytes, single_bytes, extension_bytes, words, block_bytes, fixed_bytes, layout, IsSingle,
  IsExtensions, IsHeader, length-extension_bytes, length-block_bytes, length-csrc_bytes,
}
use ortc.Rtp.Header.Read.{get_csrcs_lem, read_payload_lem, one_byte_loop_lem, two_byte_loop_lem}

module _ {B : Type 0} (buf : Buf B) (contents : B → List ℕ) (i : IsBuf buf contents) where
  read_single_lem :
      (n : ℕ) (b c : B) (e : Extension)
      → read_payload buf 0 n b ≡ ok (e, c)
      → read_single buf n b ≡ ok (e ∷ [], c)
  unfolding read_single
  read_single_lem n b c e h = rw h refl

  read_extensions_lem :
      (profile n k : ℕ) (l : List Extension) (b : B) (rest : List ℕ)
      → IsExtensions profile l
      → n ≡ length (extension_bytes profile l) + k
      → n % 4 ≡ 0
      → k < 4
      → contents b ≡ extension_bytes profile l ++ (replicate k 0 ++ rest)
      → (c : B) × (read_extensions buf profile n b ≡ ok (l, c)) × (contents c ≡ rest)
  unfolding read_extensions extension_bytes single_bytes
  read_extensions_lem profile n k l b rest e s whole fill h =
      elim (Bool-cases (profile == extension_profile_one_byte)) [
        | inl one ↦
            let (c, run, q) =
              one_byte_loop_lem buf contents i l k n n [] b rest (rw one at e) (rw one at s)
                (omega arith) (rw one at h) in
            (c, if_true _ _ one ∙ run, q)
        | inr more ↦ elim (Bool-cases (profile == extension_profile_two_byte)) [
          | inl two ↦
              let (c, run, q) =
                two_byte_loop_lem buf contents i l k n n [] b rest (rw (more, two) at e)
                  (rw (more, two) at s) (omega arith) (rw (more, two) at h) in
              (c, if_false _ _ more ∙ if_true _ _ two ∙ run, q)
          | inr other ↦
              let (c, run, q) =
                single l (rw (more, other) at e) (rw (more, other) at s) (rw (more, other) at h) in
              (c, if_false _ _ more ∙ if_false _ _ other ∙ run, q)
        ]
      ]
    where
      single :
          (m : List Extension)
          → IsSingle m
          → n ≡ length (single_bytes m) + k
          → contents b ≡ single_bytes m ++ (replicate k 0 ++ rest)
          → (c : B) × (read_single buf n b ≡ ok (m, c)) × (contents c ≡ rest)
      single [] v t g = elim v [ ]
      single (x ∷ []) (zero_id, aligned) t g =
          let none_left : k ≡ 0 = omega arith in
          let size : n ≡ length x.payload = omega arith in
          let (c, read, q) =
            read_payload_lem buf contents i 0 x.payload b rest
              (g ∙ ap (λ (j : ℕ). x.payload ++ (replicate j 0 ++ rest)) none_left) in
          (
            c,
            ap (λ (j : ℕ). read_single buf j b) size
                ∙ read_single_lem (length x.payload) b c _ read
                ∙ ap (λ (j : ℕ). ok (record { id = j; payload = x.payload } ∷ [], c)) (sym zero_id),
            q,
          )
      single (x ∷ y ∷ m) v t g = elim v [ ]

  read_block_step :
      (len offset profile n : ℕ) (b c : B) (l : List Extension)
      → (buf.get_u16 b).0 ≡ profile
      → (buf.get_u16 (buf.get_u16 b).1).0 ≡ n
      → offset + 4 + n * 4 ≤ len
      → read_extensions buf profile (n * 4) (buf.get_u16 (buf.get_u16 b).1).1 ≡ ok (l, c)
      → read_extension_block buf len offset b ≡ ok ((profile, l), c)
  unfolding read_extension_block
  read_block_step len offset profile n b c l p q room run =
      let long : ltb len (offset + 4) ≡ false = ground arith in
      let enough : ltb len (offset + 4 + n * 4) ≡ false = ground arith in
      rw (long, p, q, enough, run) refl

  read_extension_block_lem :
      (h : Header) (len offset : ℕ) (b : B) (rest : List ℕ)
      → IsHeader h
      → h.extension ≡ true
      → offset + length (block_bytes h) ≤ len
      → contents b ≡ block_bytes h ++ rest
      → (c : B) × (read_extension_block buf len offset b
          ≡ ok ((h.extension_profile, h.extensions), c))
        × (contents c ≡ rest)
  unfolding block_bytes
  read_extension_block_lem h len offset b rest v on room e =
      let valid = v.extensions on in
      let payload = get_extension_payload_len h in
      let bytes = extension_bytes h.extension_profile h.extensions in
      let fill = words h * 4 - payload in
      let size = length-block_bytes h valid in
      let (p, p') = i.get_u16_eq b _ _ _ e in
      let b1 = (buf.get_u16 b).1 in
      let (q, q') = i.get_u16_eq b1 _ _ _ p' in
      let b2 = (buf.get_u16 b1).1 in
      let profile : (buf.get_u16 b).0 ≡ h.extension_profile =
        p ∙ from_be16_lem h.extension_profile v.profile in
      let few : words h < 2 ^ 16 = unfold words in omega (arith, v.size) in
      let n : (buf.get_u16 b1).0 ≡ words h = q ∙ from_be16_lem (words h) few in
      let (c, run, r) =
        read_extensions_lem h.extension_profile (words h * 4) fill h.extensions b2 rest valid
          (unfold words in omega (arith, length-extension_bytes h valid)) (omega arith)
          (unfold words in omega arith) (q' ∙ append_assoc bytes (replicate fill (zero)) rest) in
      (
        c,
        read_block_step len offset h.extension_profile (words h) b c h.extensions profile n
            (omega (arith, size, room)) run,
        r,
      )

  -- The fields by what the reads return.
  read_header_step :
      (h : Header) (len b0 b1 : ℕ) (b c : B)
      → let r1 = (buf.get_u8 b).1 in
        let r2 = (buf.get_u16 r1).1 in
        let r3 = (buf.get_u32 r2).1 in
        let r4 = (buf.get_u32 r3).1 in
        let r5 = (get_csrcs buf (b0 % 16) r4).1 in
        ((buf.get_u8 b).0 ≡ b1)
        → ((buf.get_u16 r1).0 ≡ h.sequence_number)
        → ((buf.get_u32 r2).0 ≡ h.timestamp)
        → ((buf.get_u32 r3).0 ≡ h.ssrc)
        → ((get_csrcs buf (b0 % 16) r4).0 ≡ h.csrc)
        → (b0 / 64 % 4 ≡ h.version)
        → (ltb 0 (b0 / 32 % 2) ≡ h.padding)
        → (ltb 0 (b0 / 16 % 2) ≡ h.extension)
        → (ltb 0 (b1 / 128 % 2) ≡ h.marker)
        → (b1 % 128 ≡ h.payload_type)
        → ((if h.extension
              then read_extension_block buf len (12 + b0 % 16 * 4) r5
              else ok ((0, []), r5))
            ≡ ok ((h.extension_profile, h.extensions), c))
        → read_header buf len b0 b ≡ ok (h, c)
  unfolding read_header
  read_header_step h len b0 b1 b c p1 p2 p3 p4 p5 v p x m t run =
      rw (p1, p2, p3, p4, p5, v, p, x, m, t, run) refl

  optional_block_lem :
      (h : Header) (len offset : ℕ) (b : B) (rest : List ℕ)
      → IsHeader h
      → offset + length (if h.extension then block_bytes h else []) ≤ len
      → contents b ≡ (if h.extension then block_bytes h else []) ++ rest
      → (c : B) × ((if h.extension then read_extension_block buf len offset b else ok ((0, []), b))
          ≡ ok ((h.extension_profile, h.extensions), c))
        × (contents c ≡ rest)
  optional_block_lem h len offset b rest v room e = elim (Bool-cases h.extension) [
    | inl on ↦
        let bytes = if_true (block_bytes h) [] on in
        let (c, run, r) =
          read_extension_block_lem h len offset b rest v on (omega (arith, ap length bytes, room))
            (e ∙ ap (λ l. l ++ rest) bytes) in
        (c, if_true _ _ on ∙ run, r)
    | inr off ↦
        let bytes = if_false (block_bytes h) [] off in
        let (profile, nothing) = v.without off in
        (
          b,
          if_false _ _ off
              ∙ ap₂ (λ (x : ℕ) (l : List Extension). ok ((x, l), b)) (sym profile) (sym nothing),
          e ∙ ap (λ l. l ++ rest) bytes,
        )
  ]

  unmarshal_step :
      (h : Header) (b0 : ℕ) (b c : B)
      → (buf.get_u8 b).0 ≡ b0
      → 12 + b0 % 16 * 4 ≤ buf.remaining b
      → read_header buf (buf.remaining b) b0 (buf.get_u8 b).1 ≡ ok (h, c)
      → unmarshal buf b ≡ ok (h, c)
  unfolding unmarshal
  unmarshal_step h b0 b c p room run =
      let long : ltb (buf.remaining b) 4 ≡ false = ground arith in
      let enough : ltb (buf.remaining b) (12 + b0 % 16 * 4) ≡ false = ground arith in
      rw (long, p, enough, run) refl

  -- Reading the layout of a header gives the header back and stops behind it, over a buffer that does
  -- what the crate documents; for a header whose numbers, the length of the extension block
  -- included, fit their fields and whose extensions fit their profile, with none and profile 0 where the header says that it has none.
  pub unmarshal-layout :
      (h : Header) (b : B) (rest : List ℕ)
      → IsHeader h
      → contents b ≡ layout h ++ rest
      → (c : B) × (unmarshal buf b ≡ ok (h, c)) × (contents c ≡ rest)
  unfolding layout fixed_bytes
  unmarshal-layout h b rest v e =
      let block = if h.extension then block_bytes h else [] in
      let len = buf.remaining b in
      let x0 = h.version * 64 + bit_of h.padding * 32 + bit_of h.extension * 16 + length h.csrc in
      let b1 = bit_of h.marker * 128 + h.payload_type in
      let cc : x0 % 16 ≡ length h.csrc = ground (arith, v.few) in
      let (p0, q0) = i.get_u8_eq b _ _ e in
      let r0 = (buf.get_u8 b).1 in
      let (p1, q1) = i.get_u8_eq r0 _ _ q0 in
      let r1 = (buf.get_u8 r0).1 in
      let (p2, q2) = i.get_u16_eq r1 _ _ _ q1 in
      let r2 = (buf.get_u16 r1).1 in
      let (p3, q3) = i.get_u32_eq r2 _ _ _ _ _ q2 in
      let r3 = (buf.get_u32 r2).1 in
      let (p4, q4) = i.get_u32_eq r3 _ _ _ _ _ q3 in
      let r4 = (buf.get_u32 r3).1 in
      let (r5, p5, q5) =
        get_csrcs_lem buf contents i h.csrc r4 (block ++ rest) v.csrc
          (q4 ∙ append_assoc (csrc_bytes h.csrc) block rest) in
      let csrcs : get_csrcs buf (x0 % 16) r4 ≡ (h.csrc, r5) =
        ap (λ (n : ℕ). get_csrcs buf n r4) cc ∙ p5 in
      let size : len ≡ 12 + (length h.csrc * 4 + (length block + length rest)) = omega (
        arith,
        i.remaining_eq b,
        ap length e,
        length-csrc_bytes h.csrc,
        length-append (csrc_bytes h.csrc) block,
        length-append (csrc_bytes h.csrc ++ block) rest,
      ) in
      let r5' = (get_csrcs buf (x0 % 16) r4).1 in
      let left : contents r5' ≡ block ++ rest = ap (λ s. contents s.1) csrcs ∙ q5 in
      let (c, run, r) =
        optional_block_lem h len (12 + x0 % 16 * 4) r5' rest v (omega (arith, size, cc)) left in
      (
        c,
        unmarshal_step h x0 b c p0 (omega (arith, size, cc)) (
            read_header_step h len x0 b1 r0 c p1
              (p2 ∙ from_be16_lem h.sequence_number v.sequence_number)
              (p3 ∙ from_be32_lem h.timestamp v.timestamp) (p4 ∙ from_be32_lem h.ssrc v.ssrc)
              (ap (λ s. s.0) csrcs) (ground (arith, v.version, v.few)) (ground (arith, v.few))
              (ground (arith, v.few)) (ground (arith, v.payload_type))
              (ground (arith, v.payload_type)) run),
        r,
      )
