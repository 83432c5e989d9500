-- ===== src/Rtp/Header/Written.antt =====
-- `marshal_to` against the layout of an RTP header.
use ortc.Common.{
  ℕ, zero, suc, ◌+◌, ◌-◌, ◌*◌, ◌/◌, ◌%◌, ◌^◌, ◌≤◌, ◌<◌, ◌≡◌, refl, ap, ap₂, sym, ◌∙◌, true, false,
  ◌&&◌, List, [], ◌∷◌, ◌++◌, length, ◌==◌, if◌then◌else◌, arith, All, bit_of, replicate, append-nil,
  length-append, length-replicate, Bool-cases, if_true, if_false, inl, inr, ltb, not,
}
use ortc.Common.Bytes.{be16, be32}
use ortc.Common.Buffer.{BufMut, IsBufMut}
use ortc.Common.Writing.{
  Writes, Writes-nothing, Writes-trans, Writes-eq, Writes-u8, Writes-u16, Writes-u32, Writes-slice,
}
use ortc.Rtp.Header.{
  Header, Extension, ok, extension_profile_one_byte, extension_profile_two_byte,
  get_extension_payload_len, payloads_len, extension_header_len, marshal_size,
}
use ortc.Rtp.Header.Marshal.{
  first_byte, second_byte, one_byte_head, put_csrcs, put_one_byte, put_two_byte, put_single,
  put_zeros, put_extensions, pad_extensions, put_extension_block, put_fixed, counted, marshal_to,
}
use ortc.Rtp.Header.Layout.{
  csrc_bytes, one_byte_bytes, two_byte_bytes, single_bytes, extension_bytes, words, block_bytes,
  fixed_bytes, layout, IsOneByte, IsTwoByte, IsSingle, IsExtensions, IsHeader, first_byte_lem,
  second_byte_lem, one_byte_head_lem, length-extension_bytes, length-layout,
}

-- A block of another profile is in whole words.
whole_words :
    (h : Header)
    → IsExtensions h.extension_profile h.extensions
    → (not (h.extension_profile == extension_profile_one_byte)
        && not (h.extension_profile == extension_profile_two_byte)
        && not (get_extension_payload_len h % 4 == 0))
      ≡ false
unfolding get_extension_payload_len extension_header_len
whole_words h e = elim (Bool-cases (h.extension_profile == extension_profile_one_byte)) [
  | inl one ↦ rw one refl
  | inr more ↦ elim (Bool-cases (h.extension_profile == extension_profile_two_byte)) [
    | inl two ↦ rw (more, two) refl
    | inr other ↦ rw (more, other) (single h.extensions (rw (more, other) at e))
  ]
]
  where
    single :
        (l : List Extension) → IsSingle l → not ((payloads_len l + length l * 0) % 4 == 0) ≡ false
    single [] s = elim s [ ]
    single (x ∷ []) s = unfold payloads_len in ground arith
    single (x ∷ y ∷ l) s = elim s [ ]

module _ {W : Type 0} (buf : BufMut W) (written : W → List ℕ) (i : IsBufMut buf written) where
  put_csrcs-Writes :
      (l : List ℕ) (w : W)
      → length (csrc_bytes l) ≤ buf.remaining_mut w
      → Writes buf written w (csrc_bytes l) (put_csrcs buf l w)
  unfolding csrc_bytes put_csrcs
  put_csrcs-Writes [] w h = Writes-nothing buf written w
  put_csrcs-Writes (c ∷ l) w h =
      let first = Writes-u32 buf written i w c (omega arith) in
      Writes-trans buf written (be32 c []) (csrc_bytes l) first
        (put_csrcs-Writes l (buf.put_u32 w c) (omega (arith, first.1)))

  put_zeros-Writes :
      (n : ℕ) (w : W)
      → n ≤ buf.remaining_mut w
      → Writes buf written w (replicate n 0) (put_zeros buf n w)
  unfolding put_zeros
  put_zeros-Writes zero w h = Writes-nothing buf written w
  put_zeros-Writes (suc n) w h =
      let first = Writes-u8 buf written i w 0 (omega arith) in
      Writes-trans buf written (0 ∷ []) (replicate n 0) first
        (put_zeros-Writes n (buf.put_u8 w 0) (omega (arith, first.1)))

  -- A byte, and a slice behind it.
  put_headed-Writes :
      (w : W) (x : ℕ) (p : List ℕ)
      → x < 256
      → 1 + length p ≤ buf.remaining_mut w
      → Writes buf written w (x ∷ p) (buf.put_slice (buf.put_u8 w x) p)
  put_headed-Writes w x p hx h =
      let byte : x % 256 ≡ x = omega arith in
      let first : Writes buf written w (x ∷ []) (buf.put_u8 w x) =
        rw byte at (Writes-u8 buf written i w x (omega arith)) in
      Writes-trans buf written (x ∷ []) p first
        (Writes-slice buf written i (buf.put_u8 w x) p (omega (arith, first.1)))

  put_one_byte-Writes :
      (l : List Extension) (w : W)
      → All IsOneByte l
      → length (one_byte_bytes l) ≤ buf.remaining_mut w
      → Writes buf written w (one_byte_bytes l) (put_one_byte buf l w)
  unfolding one_byte_bytes put_one_byte
  put_one_byte-Writes [] w e h = Writes-nothing buf written w
  put_one_byte-Writes (e ∷ l) w ((low, high, some_bytes, few), es) h =
      let x = one_byte_head e.id (length e.payload) in
      let head : x ≡ e.id * 16 + (length e.payload - 1) =
        one_byte_head_lem e.id (length e.payload) high some_bytes few in
      let size = length-append e.payload (one_byte_bytes l) in
      let first = put_headed-Writes w x e.payload (omega (arith, head)) (omega (arith, size)) in
      Writes-eq buf written (ap (λ (k : ℕ). k ∷ (e.payload ++ one_byte_bytes l)) head) (
        Writes-trans buf written (x ∷ e.payload) (one_byte_bytes l) first (
          put_one_byte-Writes l (buf.put_slice (buf.put_u8 w x) e.payload) es
            (omega (arith, first.1, size))))

  put_two_byte-Writes :
      (l : List Extension) (w : W)
      → All IsTwoByte l
      → length (two_byte_bytes l) ≤ buf.remaining_mut w
      → Writes buf written w (two_byte_bytes l) (put_two_byte buf l w)
  unfolding two_byte_bytes put_two_byte
  put_two_byte-Writes [] w e h = Writes-nothing buf written w
  put_two_byte-Writes (e ∷ l) w ((low, high, few), es) h =
      let size = length-append e.payload (two_byte_bytes l) in
      let byte : e.id % 256 ≡ e.id = omega arith in
      let id : Writes buf written w (e.id ∷ []) (buf.put_u8 w e.id) =
        rw byte at (Writes-u8 buf written i w e.id (omega arith)) in
      let n = length e.payload % 256 in
      let len : n ≡ length e.payload = omega arith in
      let second =
        put_headed-Writes (buf.put_u8 w e.id) n e.payload (omega arith)
          (omega (arith, id.1, size)) in
      let both = Writes-trans buf written (e.id ∷ []) (n ∷ e.payload) id second in
      let all = Writes-trans buf written (e.id ∷ n ∷ e.payload) (two_byte_bytes l) both (
        put_two_byte-Writes l (buf.put_slice (buf.put_u8 (buf.put_u8 w e.id) n) e.payload) es
          (omega (arith, both.1, size))) in
      Writes-eq buf written (ap (λ (k : ℕ). e.id ∷ k ∷ (e.payload ++ two_byte_bytes l)) len) all

  put_extensions-Writes :
      (profile : ℕ) (l : List Extension) (w : W)
      → IsExtensions profile l
      → length (extension_bytes profile l) ≤ buf.remaining_mut w
      → (v : W) × (put_extensions buf profile l w ≡ ok v)
        × Writes buf written w (extension_bytes profile l) v
  unfolding put_extensions extension_bytes put_single single_bytes
  put_extensions-Writes profile l w e h =
      elim (Bool-cases (profile == extension_profile_one_byte)) [
        | inl one ↦ (
          put_one_byte buf l w,
          rw one refl,
          rw one (put_one_byte-Writes l w (rw one at e) (rw one at h)),
        )
        | inr more ↦ elim (Bool-cases (profile == extension_profile_two_byte)) [
          | inl two ↦ (
            put_two_byte buf l w,
            rw (more, two) refl,
            rw (more, two) (put_two_byte-Writes l w (rw (more, two) at e) (rw (more, two) at h)),
          )
          | inr other ↦ single l (rw (more, other) at e) (rw (more, other) at h) more other
        ]
      ]
    where
      single :
          (k : List Extension)
          → IsSingle k
          → length (single_bytes k) ≤ buf.remaining_mut w
          → (profile == extension_profile_one_byte) ≡ false
          → (profile == extension_profile_two_byte) ≡ false
          → (v : W) × (put_extensions buf profile k w ≡ ok v)
            × Writes buf written w (extension_bytes profile k) v
      single [] s room more other = elim s [ ]
      single (x ∷ []) (zero_id, whole) room more other = (
        buf.put_slice w x.payload,
        rw (more, other, whole) refl,
        rw (more, other) (Writes-slice buf written i w x.payload room),
      )
      single (x ∷ y ∷ k) s room more other = elim s [ ]

  put_fixed-Writes :
      (h : Header) (w : W)
      → IsHeader h
      → length (fixed_bytes h) ≤ buf.remaining_mut w
      → Writes buf written w (fixed_bytes h) (put_fixed buf h w)
  unfolding fixed_bytes put_fixed
  put_fixed-Writes h w v room =
      let b0 = first_byte h.version (length h.csrc) h.padding h.extension in
      let b1 = second_byte h.payload_type h.marker in
      let e0 = first_byte_lem h.version (length h.csrc) h.padding h.extension v.version v.few in
      let e1 = second_byte_lem h.payload_type h.marker v.payload_type in
      let m0 : b0 % 256
          ≡ h.version * 64 + bit_of h.padding * 32 + bit_of h.extension * 16 + length h.csrc =
        ground (arith, e0, v.version, v.few) in
      let m1 : b1 % 256 ≡ bit_of h.marker * 128 + h.payload_type =
        ground (arith, e1, v.payload_type) in
      let w1 = buf.put_u8 w b0 in
      let w2 = buf.put_u8 w1 b1 in
      let w3 = buf.put_u16 w2 h.sequence_number in
      let w4 = buf.put_u32 w3 h.timestamp in
      let w5 = buf.put_u32 w4 h.ssrc in
      let p1 = Writes-u8 buf written i w b0 (omega arith) in
      let p2 = Writes-u8 buf written i w1 b1 (omega (arith, p1.1)) in
      let q2 = Writes-trans buf written _ _ p1 p2 in
      let p3 = Writes-u16 buf written i w2 h.sequence_number (omega (arith, q2.1)) in
      let q3 = Writes-trans buf written _ _ q2 p3 in
      let p4 = Writes-u32 buf written i w3 h.timestamp (omega (arith, q3.1)) in
      let q4 = Writes-trans buf written _ _ q3 p4 in
      let p5 = Writes-u32 buf written i w4 h.ssrc (omega (arith, q4.1)) in
      let q5 = Writes-trans buf written _ _ q4 p5 in
      let p6 = put_csrcs-Writes h.csrc w5 (omega (arith, q5.1)) in
      Writes-eq buf written
        (ap₂
          (λ (x y : ℕ).
            x ∷ y ∷ be16 h.sequence_number (be32 h.timestamp (be32 h.ssrc (csrc_bytes h.csrc))))
          m0 m1)
        (Writes-trans buf written _ _ q5 p6)

  put_extension_block_lem :
      (h : Header) (w : W)
      → get_extension_payload_len h + 3 < 2 ^ 16
      → IsExtensions h.extension_profile h.extensions
      → put_extension_block buf h w
        ≡ pad_extensions buf (words h * 4 - get_extension_payload_len h) (
            put_extensions buf h.extension_profile h.extensions
              (buf.put_u16 (buf.put_u16 w h.extension_profile) (words h)))
  unfolding put_extension_block
  put_extension_block_lem h w small e =
      let len = get_extension_payload_len h in
      let size : (len % 2 ^ 16 + 3) % 2 ^ 16 / 4 ≡ words h = unfold words in omega arith in
      rw (whole_words h e, size) refl

  put_extension_block-Writes :
      (h : Header) (w : W)
      → IsHeader h
      → h.extension ≡ true
      → length (block_bytes h) ≤ buf.remaining_mut w
      → (v : W) × (put_extension_block buf h w ≡ ok v) × Writes buf written w (block_bytes h) v
  unfolding block_bytes pad_extensions
  put_extension_block-Writes h w v on room =
      let len = get_extension_payload_len h in
      let e = v.extensions on in
      let bytes = extension_bytes h.extension_profile h.extensions in
      let count = length-extension_bytes h e in
      let w1 = buf.put_u16 w h.extension_profile in
      let w2 = buf.put_u16 w1 (words h) in
      let p1 = Writes-u16 buf written i w h.extension_profile (omega arith) in
      let p2 = Writes-u16 buf written i w1 (words h) (omega (arith, p1.1)) in
      let fits = length-append bytes (replicate (words h * 4 - len) (zero)) in
      let (w3, run, p3) =
        put_extensions-Writes h.extension_profile h.extensions w2 e
          (omega (arith, p1.1, p2.1, fits)) in
      let p4 =
        put_zeros-Writes (words h * 4 - len) w3
          (omega (arith, p1.1, p2.1, p3.1, fits, length-replicate {A = ℕ} (words h * 4 - len) 0)) in
      (
        put_zeros buf (words h * 4 - len) w3,
        put_extension_block_lem h w v.size e ∙ ap (pad_extensions buf (words h * 4 - len)) run,
        Writes-trans buf written _ _ p1
            (Writes-trans buf written _ _ p2 (Writes-trans buf written _ _ p3 p4)),
      )

  put_all-Writes :
      (h : Header) (w : W)
      → IsHeader h
      → length (layout h) ≤ buf.remaining_mut w
      → (v : W) × ((if h.extension
            then put_extension_block buf h (put_fixed buf h w)
            else ok (put_fixed buf h w))
          ≡ ok v)
        × Writes buf written w (layout h) v
  unfolding layout
  put_all-Writes h w v room = elim (Bool-cases h.extension) [
    | inl on ↦
        let bytes : layout h ≡ fixed_bytes h ++ block_bytes h =
          ap (λ l. fixed_bytes h ++ l) (if_true (block_bytes h) [] on) in
        let size = length-append (fixed_bytes h) (block_bytes h) in
        let total = ap length bytes in
        let p = put_fixed-Writes h w v (omega (arith, size, total)) in
        let (u, run, q) =
          put_extension_block-Writes h (put_fixed buf h w) v on (omega (arith, size, total, p.1)) in
        (
          u,
          if_true _ _ on ∙ run,
          Writes-eq buf written (sym bytes) (Writes-trans buf written _ _ p q),
        )
    | inr off ↦
        let bytes : layout h ≡ fixed_bytes h =
          ap (λ l. fixed_bytes h ++ l) (if_false (block_bytes h) [] off)
          ∙ append-nil (fixed_bytes h) in
        let p = put_fixed-Writes h w v (omega (arith, ap length bytes)) in
        (put_fixed buf h w, if_false _ _ off, Writes-eq buf written (sym bytes) p)
  ]

  pub marshal_to-Writes :
      (h : Header) (w : W)
      → IsHeader h
      → marshal_size h ≤ buf.remaining_mut w
      → (v : W) × (marshal_to buf h w ≡ ok (marshal_size h, v)) × Writes buf written w (layout h) v
  unfolding marshal_to counted
  marshal_to-Writes h w v room =
      let size = length-layout h v in
      let (u, run, p) = put_all-Writes h w v (omega (arith, size)) in
      let long : ltb (buf.remaining_mut w) (marshal_size h) ≡ false = ground arith in
      let used : buf.remaining_mut w - buf.remaining_mut u ≡ marshal_size h =
        omega (arith, size, p.1) in
      (u, rw (long, run, used) refl, p)

  -- Where there is room, `marshal_to` writes the layout of the header and nothing else, and returns
  -- its length, which is `marshal_size`, over a buffer that does what the crate documents; for a
  -- header whose numbers, the length of the extension block included, fit their fields and whose
  -- extensions fit their profile, with none and profile 0 where the header says that it has none.
  pub marshal_to-layout :
      (h : Header) (w : W)
      → IsHeader h
      → marshal_size h ≤ buf.remaining_mut w
      → (v : W) × (marshal_to buf h w ≡ ok (marshal_size h, v))
        × (written v ≡ written w ++ layout h)
  marshal_to-layout h w v room = let (u, run, p) = marshal_to-Writes h w v room in (u, run, p.0)
