-- ===== src/Rtp/Header/Read.antt =====
-- `unmarshal` against the layout of an RTP header.
use ortc.Common.{
  ℕ, zero, suc, ◌+◌, ◌-◌, ◌*◌, ◌/◌, ◌%◌, ◌≤◌, ◌<◌, ◌≡◌, refl, ap, ap₂, sym, ◌∙◌, false, List, [],
  ◌∷◌, ◌++◌, length, take, drop, ◌==◌, ltb, arith, All, replicate, append-nil, append_assoc,
  length-append, take-append_eq, drop-append_eq,
}
use ortc.Common.Bytes.{IsU32, from_be32_lem}
use ortc.Common.Buffer.{Buf, IsBuf}
use ortc.Rtp.Header.{Extension, ok, extension_id_reserved}
use ortc.Rtp.Header.Unmarshal.{get_csrcs, read_payload, one_byte_loop, two_byte_loop}
use ortc.Rtp.Header.Layout.{csrc_bytes, one_byte_bytes, two_byte_bytes, IsOneByte, IsTwoByte}

module _ {B : Type 0} (buf : Buf B) (contents : B → List ℕ) (i : IsBuf buf contents) where
  pub get_csrcs_lem :
      (l : List ℕ) (b : B) (rest : List ℕ)
      → All IsU32 l
      → contents b ≡ csrc_bytes l ++ rest
      → (c : B) × (get_csrcs buf (length l) b ≡ (l, c)) × (contents c ≡ rest)
  unfolding csrc_bytes get_csrcs
  get_csrcs_lem [] b rest v h = (b, refl, h)
  get_csrcs_lem (x ∷ l) b rest (hx, v) h =
      let (p, q) = i.get_u32_eq b _ _ _ _ _ h in
      let (c, run, e) = get_csrcs_lem l (buf.get_u32 b).1 rest v q in
      (c, ap₂ (λ (y : ℕ) (s : List ℕ × B). (y ∷ s.0, s.1)) (p ∙ from_be32_lem x hx) run, e)

  pub read_payload_lem :
      (id : ℕ) (p : List ℕ) (b : B) (rest : List ℕ)
      → contents b ≡ p ++ rest
      → (c : B) × (read_payload buf id (length p) b ≡ ok (record { id = id; payload = p }, c))
        × (contents c ≡ rest)
  unfolding read_payload
  read_payload_lem id p b rest h =
      let size = ap length h ∙ length-append p rest in
      let (x, y) = i.copy_to_bytes_eq (length p) b (omega (arith, size)) in
      let enough : ltb (buf.remaining b) (length p) ≡ false =
        ground (arith, i.remaining_eq b, size) in
      let bytes : (buf.copy_to_bytes (length p) b).0 ≡ p =
        x ∙ ap (take (length p)) h ∙ take-append_eq (length p) p rest refl in
      (
        (buf.copy_to_bytes (length p) b).1,
        rw (enough, bytes) refl,
        y ∙ ap (drop (length p)) h ∙ drop-append_eq (length p) p rest refl,
      )

  -- A round of the loop over the one-byte profile, at a byte of padding and at an extension.
  one_byte_padding :
      (fuel n : ℕ) (found : List Extension) (b : B) (r : List ℕ)
      → contents b ≡ 0 ∷ r
      → one_byte_loop buf (suc fuel) (suc n) found b
        ≡ one_byte_loop buf fuel n found (buf.get_u8 b).1
  unfolding one_byte_loop
  one_byte_padding fuel n found b r h =
      let some_left : ltb (buf.remaining b) 1 ≡ false =
        ground (arith, i.remaining_eq b, ap length h) in
      let x = (i.get_u8_eq b _ _ h).0 in ground (arith, some_left, x)

  one_byte_extension :
      (fuel n x : ℕ) (found : List Extension) (b c : B) (r : List ℕ) (e : Extension)
      → contents b ≡ x ∷ r
      → 16 ≤ x
      → x / 16 < 15
      → read_payload buf (x / 16) (x % 16 + 1) (buf.get_u8 b).1 ≡ ok (e, c)
      → one_byte_loop buf (suc fuel) (suc n) found b
        ≡ one_byte_loop buf fuel (n - (x % 16 + 1)) (found ++ (e ∷ [])) c
  unfolding one_byte_loop
  one_byte_extension fuel n x found b c r e h low high read =
      let some_left : ltb (buf.remaining b) 1 ≡ false =
        ground (arith, i.remaining_eq b, ap length h) in
      let same = (i.get_u8_eq b _ _ h).0 in
      let not_zero : (x == 0) ≡ false = ground arith in
      let not_last : (x / 16 == extension_id_reserved) ≡ false = ground arith in
      ground (arith, some_left, same, not_zero, not_last, read)

  two_byte_padding :
      (fuel n : ℕ) (found : List Extension) (b : B) (r : List ℕ)
      → contents b ≡ 0 ∷ r
      → two_byte_loop buf (suc fuel) (suc n) found b
        ≡ two_byte_loop buf fuel n found (buf.get_u8 b).1
  unfolding two_byte_loop
  two_byte_padding fuel n found b r h =
      let some_left : ltb (buf.remaining b) 1 ≡ false =
        ground (arith, i.remaining_eq b, ap length h) in
      let x = (i.get_u8_eq b _ _ h).0 in ground (arith, some_left, x)

  two_byte_extension :
      (fuel n x len : ℕ) (found : List Extension) (b c : B) (r : List ℕ) (e : Extension)
      → contents b ≡ x ∷ len ∷ r
      → 1 ≤ x
      → read_payload buf x len (buf.get_u8 (buf.get_u8 b).1).1 ≡ ok (e, c)
      → two_byte_loop buf (suc fuel) (suc n) found b
        ≡ two_byte_loop buf fuel (n - 1 - len) (found ++ (e ∷ [])) c
  unfolding two_byte_loop
  two_byte_extension fuel n x len found b c r e h low read =
      let (same, next) = i.get_u8_eq b _ _ h in
      let same' = (i.get_u8_eq (buf.get_u8 b).1 _ _ next).0 in
      let some_left : ltb (buf.remaining b) 1 ≡ false =
        ground (arith, i.remaining_eq b, ap length h) in
      let more_left : ltb (buf.remaining (buf.get_u8 b).1) 1 ≡ false =
        ground (arith, i.remaining_eq (buf.get_u8 b).1, ap length next) in
      let not_zero : (x == 0) ≡ false = ground arith in
      ground (arith, some_left, more_left, same, same', not_zero, read)

  one_byte_end :
      (fuel : ℕ) (found : List Extension) (b : B) → one_byte_loop buf fuel 0 found b ≡ ok (found, b)
  unfolding one_byte_loop
  one_byte_end zero found b = refl
  one_byte_end (suc fuel) found b = refl

  two_byte_end :
      (fuel : ℕ) (found : List Extension) (b : B) → two_byte_loop buf fuel 0 found b ≡ ok (found, b)
  unfolding two_byte_loop
  two_byte_end zero found b = refl
  two_byte_end (suc fuel) found b = refl

  -- The loops read the extensions and the padding behind them.
  pub one_byte_loop_lem :
      (l : List Extension) (k fuel n : ℕ) (found : List Extension) (b : B) (rest : List ℕ)
      → All IsOneByte l
      → n ≡ length (one_byte_bytes l) + k
      → n ≤ fuel
      → contents b ≡ one_byte_bytes l ++ (replicate k 0 ++ rest)
      → (c : B) × (one_byte_loop buf fuel n found b ≡ ok (found ++ l, c)) × (contents c ≡ rest)
  unfolding one_byte_bytes
  one_byte_loop_lem [] zero fuel zero found b rest v e f h =
      (b, one_byte_end fuel found b ∙ ap (λ s. ok (s, b)) (sym (append-nil found)), h)
  one_byte_loop_lem [] (suc k) (suc fuel) (suc n) found b rest v e f h =
      let (c, run, q) =
        one_byte_loop_lem [] k fuel n found (buf.get_u8 b).1 rest tt (omega arith) (omega arith)
          (i.get_u8_eq b _ _ h).1 in
      (c, one_byte_padding fuel n found b _ h ∙ run, q)
  one_byte_loop_lem (e ∷ l) k (suc fuel) (suc n) found b rest ((low, high, full, few), es) s f h =
      let size = length-append e.payload (one_byte_bytes l) in
      let x = e.id * 16 + (length e.payload - 1) in
      let id : x / 16 ≡ e.id = omega arith in
      let len : x % 16 + 1 ≡ length e.payload = omega arith in
      let bytes =
        (i.get_u8_eq b _ _ h).1
        ∙ append_assoc e.payload (one_byte_bytes l) (replicate k 0 ++ rest) in
      let (c, read, q) = read_payload_lem e.id e.payload (buf.get_u8 b).1 _ bytes in
      let read' : read_payload buf (x / 16) (x % 16 + 1) (buf.get_u8 b).1 ≡ ok (e, c) =
        ap₂ (λ (a d : ℕ). read_payload buf a d (buf.get_u8 b).1) id len ∙ read in
      let left : n - (x % 16 + 1) ≡ length (one_byte_bytes l) + k = omega (arith, size, s, len) in
      let (d, run, r) =
        one_byte_loop_lem l k fuel (n - (x % 16 + 1)) (found ++ (e ∷ [])) c rest es left
          (omega arith) q in
      (
        d,
        one_byte_extension fuel n x found b c _ e h (omega arith) (omega arith) read'
            ∙ run
            ∙ ap (λ s'. ok (s', d)) (append_assoc found (e ∷ []) l),
        r,
      )
  one_byte_loop_lem [] zero fuel (suc n) found b rest v e f h = absurd (omega arith)
  one_byte_loop_lem [] (suc k) fuel zero found b rest v e f h = absurd (omega arith)
  one_byte_loop_lem [] (suc k) zero (suc n) found b rest v e f h = absurd (omega arith)
  one_byte_loop_lem (e ∷ l) k fuel zero found b rest v s f h = absurd (omega arith)
  one_byte_loop_lem (e ∷ l) k zero (suc n) found b rest v s f h = absurd (omega arith)

  pub two_byte_loop_lem :
      (l : List Extension) (k fuel n : ℕ) (found : List Extension) (b : B) (rest : List ℕ)
      → All IsTwoByte l
      → n ≡ length (two_byte_bytes l) + k
      → n ≤ fuel
      → contents b ≡ two_byte_bytes l ++ (replicate k 0 ++ rest)
      → (c : B) × (two_byte_loop buf fuel n found b ≡ ok (found ++ l, c)) × (contents c ≡ rest)
  unfolding two_byte_bytes
  two_byte_loop_lem [] zero fuel zero found b rest v e f h =
      (b, two_byte_end fuel found b ∙ ap (λ s. ok (s, b)) (sym (append-nil found)), h)
  two_byte_loop_lem [] (suc k) (suc fuel) (suc n) found b rest v e f h =
      let (c, run, q) =
        two_byte_loop_lem [] k fuel n found (buf.get_u8 b).1 rest tt (omega arith) (omega arith)
          (i.get_u8_eq b _ _ h).1 in
      (c, two_byte_padding fuel n found b _ h ∙ run, q)
  two_byte_loop_lem (e ∷ l) k (suc fuel) (suc n) found b rest ((low, high, few), es) s f h =
      let size = length-append e.payload (two_byte_bytes l) in
      let next = (i.get_u8_eq b _ _ h).1 in
      let bytes =
        (i.get_u8_eq (buf.get_u8 b).1 _ _ next).1
        ∙ append_assoc e.payload (two_byte_bytes l) (replicate k 0 ++ rest) in
      let (c, read, q) = read_payload_lem e.id e.payload (buf.get_u8 (buf.get_u8 b).1).1 _ bytes in
      let left : n - 1 - length e.payload ≡ length (two_byte_bytes l) + k =
        omega (arith, size, s) in
      let (d, run, r) =
        two_byte_loop_lem l k fuel (n - 1 - length e.payload) (found ++ (e ∷ [])) c rest es left
          (omega arith) q in
      (
        d,
        two_byte_extension fuel n e.id (length e.payload) found b c _ e h low read
            ∙ run
            ∙ ap (λ s'. ok (s', d)) (append_assoc found (e ∷ []) l),
        r,
      )
  two_byte_loop_lem [] zero fuel (suc n) found b rest v e f h = absurd (omega arith)
  two_byte_loop_lem [] (suc k) fuel zero found b rest v e f h = absurd (omega arith)
  two_byte_loop_lem [] (suc k) zero (suc n) found b rest v e f h = absurd (omega arith)
  two_byte_loop_lem (e ∷ l) k fuel zero found b rest v s f h = absurd (omega arith)
  two_byte_loop_lem (e ∷ l) k zero (suc n) found b rest v s f h = absurd (omega arith)
