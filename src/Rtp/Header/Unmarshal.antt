-- ===== src/Rtp/Header/Unmarshal.antt =====
-- rtc-rtp/src/header.rs: `unmarshal`. A read beyond the end of the buffer panics, as the crate's
-- documentation says.
use ortc.Common.{
  ℕ, zero, suc, ◌+◌, ◌-◌, ◌*◌, ◌/◌, ◌%◌, true, false, List, [], ◌∷◌, ◌++◌, ◌==◌, ltb, if◌then◌else◌,
}
use ortc.Common.Buffer.{Buf}
use ortc.Rtp.Header.{
  Header, Extension, Result, ok, err, panic, Error, and_then, csrc_length,
  extension_profile_one_byte, extension_profile_two_byte, extension_id_reserved,
}

module _ {B : Type 0} (buf : Buf B) where
  unfoldable pub get_csrcs : ℕ → B → List ℕ × B
  get_csrcs zero b = ([], b)
  get_csrcs (suc n) b = let (c, b1) = buf.get_u32 b in let (l, b2) = get_csrcs n b1 in (c ∷ l, b2)

  -- `copy_to_bytes`, which panics where fewer bytes are left.
  unfoldable pub read_payload : ℕ → ℕ → B → Result (Extension × B)
  read_payload id len b =
      if ltb (buf.remaining b) len
      then panic
      else (let (payload, rest) = buf.copy_to_bytes len b in
          ok (record { id = id; payload = payload }, rest))

  -- The loop over extensions of the one-byte profile; `n` bytes of the block are left, or none if a
  -- payload ran over its end. Every round reads a byte, so that the size of the block is fuel enough.
  unfoldable pub one_byte_loop : ℕ → ℕ → List Extension → B → Result (List Extension × B)
  unfolding read_payload
  one_byte_loop zero n found b = ok (found, b)
  one_byte_loop (suc fuel) zero found b = ok (found, b)
  one_byte_loop (suc fuel) (suc n) found b = elim (ltb (buf.remaining b) 1) [
    | true ↦ panic
    | false ↦
        let x = (buf.get_u8 b).0 in
        let rest = (buf.get_u8 b).1 in
        elim (x == 0) [
          | true ↦ one_byte_loop fuel n found rest
          | false ↦ elim (x / 16 == extension_id_reserved) [
            | true ↦ ok (found, rest)
            | false ↦
                let len = x % 16 + 1 in
                and_then (read_payload (x / 16) len rest)
                  (λ r. one_byte_loop fuel (n - len) (found ++ (r.0 ∷ [])) r.1)
          ]
        ]
  ]

  unfoldable pub two_byte_loop : ℕ → ℕ → List Extension → B → Result (List Extension × B)
  unfolding read_payload
  two_byte_loop zero n found b = ok (found, b)
  two_byte_loop (suc fuel) zero found b = ok (found, b)
  two_byte_loop (suc fuel) (suc n) found b = elim (ltb (buf.remaining b) 1) [
    | true ↦ panic
    | false ↦
        let x = (buf.get_u8 b).0 in
        let rest = (buf.get_u8 b).1 in
        elim (x == 0) [
          | true ↦ two_byte_loop fuel n found rest
          | false ↦ elim (ltb (buf.remaining rest) 1) [
            | true ↦ panic
            | false ↦
                let len = (buf.get_u8 rest).0 in
                and_then (read_payload x len (buf.get_u8 rest).1)
                  (λ r. two_byte_loop fuel (n - 1 - len) (found ++ (r.0 ∷ [])) r.1)
          ]
        ]
  ]

  -- The branch of RFC 3550: the whole block is one payload.
  unfoldable pub read_single : ℕ → B → Result (List Extension × B)
  unfolding read_payload
  read_single size b = and_then (read_payload 0 size b) (λ r. ok (r.0 ∷ [], r.1))

  unfoldable pub read_extensions : ℕ → ℕ → B → Result (List Extension × B)
  unfolding one_byte_loop two_byte_loop read_single
  read_extensions profile size b =
      if profile == extension_profile_one_byte
      then one_byte_loop size size [] b
      else (if profile == extension_profile_two_byte
          then two_byte_loop size size [] b
          else read_single size b)

  -- The part behind the CSRCs, with the bytes that the buffer had at first and the offset.
  unfoldable pub read_extension_block : ℕ → ℕ → B → Result ((ℕ × List Extension) × B)
  unfolding read_extensions
  read_extension_block len offset b =
      if ltb len (offset + 4)
      then err Error.header_size_insufficient_for_extension
      else (let (profile, b1) = buf.get_u16 b in
          let (words, b2) = buf.get_u16 b1 in
          if ltb len (offset + 4 + words * 4)
          then err Error.header_size_insufficient_for_extension
          else and_then (read_extensions profile (words * 4) b2) (λ r. ok ((profile, r.0), r.1)))

  -- Behind the test that the CSRCs are there.
  unfoldable pub read_header : ℕ → ℕ → B → Result (Header × B)
  unfolding get_csrcs read_extension_block
  read_header len b0 b =
      let cc = b0 % 16 in
      let extension = ltb 0 (b0 / 16 % 2) in
      let (b1, r1) = buf.get_u8 b in
      let (sequence_number, r2) = buf.get_u16 r1 in
      let (timestamp, r3) = buf.get_u32 r2 in
      let (ssrc, r4) = buf.get_u32 r3 in
      let (csrc, r5) = get_csrcs cc r4 in
      and_then
        (if extension
          then read_extension_block len (12 + cc * csrc_length) r5
          else ok ((0, []), r5))
        (λ r. ok (
          record {
            version = b0 / 64 % 4;
            padding = ltb 0 (b0 / 32 % 2);
            extension = extension;
            marker = ltb 0 (b1 / 128 % 2);
            payload_type = b1 % 128;
            sequence_number = sequence_number;
            timestamp = timestamp;
            ssrc = ssrc;
            csrc = csrc;
            extension_profile = r.0.0;
            extensions = r.0.1;
          },
          r.1,
        ))

  unfoldable pub unmarshal : B → Result (Header × B)
  unfolding read_header
  unmarshal b =
      let len = buf.remaining b in
      if ltb len 4
      then err Error.header_size_insufficient
      else (let (b0, rest) = buf.get_u8 b in
          if ltb len (12 + b0 % 16 * csrc_length)
          then err Error.header_size_insufficient
          else read_header len b0 rest)
