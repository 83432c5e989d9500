-- ===== src/Rtp/Header/Marshal.antt =====
-- rtc-rtp/src/header.rs: `marshal_to`. The shifts and sums of u8 and u16 wrap, as in a build
-- without overflow checks; the length of a payload is cast to u8 as the source does.
use ortc.Common.{
  ℕ, zero, suc, ◌+◌, ◌-◌, ◌*◌, ◌/◌, ◌%◌, ◌^◌, bit_or, Bool, not, ◌&&◌, List, [], ◌∷◌, length, ◌==◌,
  ltb, if◌then◌else◌,
}
use ortc.Common.Buffer.{BufMut}
use ortc.Rtp.Header.{
  Header, Extension, Result, ok, err, Error, extension_profile_one_byte, extension_profile_two_byte,
  get_extension_payload_len, marshal_size,
}

-- The first byte: version, padding bit, extension bit and the number of CSRCs.
unfoldable pub first_byte : ℕ → ℕ → Bool → Bool → ℕ
first_byte version cc padding extension =
    let b0 = bit_or (version * 64 % 256) (cc % 256) in
    let b1 = if padding then bit_or b0 32 else b0 in if extension then bit_or b1 16 else b1

-- The second byte: the marker bit and the payload type.
unfoldable pub second_byte : ℕ → Bool → ℕ
second_byte payload_type marker = if marker then bit_or payload_type 128 else payload_type

-- The byte before an extension of the one-byte profile.
unfoldable pub one_byte_head : ℕ → ℕ → ℕ
one_byte_head id len = bit_or (id * 16 % 256) ((len % 256 + 255) % 256)

module _ {W : Type 0} (buf : BufMut W) where
  unfoldable pub put_csrcs : List ℕ → W → W
  put_csrcs [] w = w
  put_csrcs (c ∷ l) w = put_csrcs l (buf.put_u32 w c)

  unfoldable pub put_one_byte : List Extension → W → W
  unfolding one_byte_head
  put_one_byte [] w = w
  put_one_byte (e ∷ l) w =
      put_one_byte l
        (buf.put_slice (buf.put_u8 w (one_byte_head e.id (length e.payload))) e.payload)

  unfoldable pub put_two_byte : List Extension → W → W
  put_two_byte [] w = w
  put_two_byte (e ∷ l) w =
      put_two_byte l
        (buf.put_slice (buf.put_u8 (buf.put_u8 w e.id) (length e.payload % 256)) e.payload)

  -- The branch of RFC 3550.
  unfoldable pub put_single : List Extension → W → Result W
  put_single [] w = err Error.rfc3550_header_id_range
  put_single (e ∷ []) w =
      if not (length e.payload % 4 == 0)
      then err Error.header_extension_payload_not_32_bit_words
      else ok (buf.put_slice w e.payload)
  put_single (e ∷ f ∷ l) w = err Error.rfc3550_header_id_range

  unfoldable pub put_zeros : ℕ → W → W
  put_zeros zero w = w
  put_zeros (suc n) w = put_zeros n (buf.put_u8 w 0)

  unfoldable pub put_extensions : ℕ → List Extension → W → Result W
  unfolding put_one_byte put_two_byte put_single
  put_extensions profile l w =
      if profile == extension_profile_one_byte
      then ok (put_one_byte l w)
      else (if profile == extension_profile_two_byte then ok (put_two_byte l w) else put_single l w)

  unfoldable pub pad_extensions : ℕ → Result W → Result W
  unfolding put_zeros
  pad_extensions n (ok w) = ok (put_zeros n w)
  pad_extensions n (err e) = err e
  pad_extensions n Result.panic = Result.panic

  -- The block of extensions behind the profile, and the bytes that fill the last word.
  unfoldable pub put_extension_block : Header → W → Result W
  unfolding put_extensions pad_extensions get_extension_payload_len
  put_extension_block h w =
      let profile = h.extension_profile in
      let len = get_extension_payload_len h in
      let w1 = buf.put_u16 w profile in
      let size = (len % 2 ^ 16 + 3) % 2 ^ 16 / 4 in
      if not (profile == extension_profile_one_byte)
        && not (profile == extension_profile_two_byte)
        && not (len % 4 == 0)
      then err Error.header_extension_payload_not_32_bit_words
      else pad_extensions (size * 4 - len)
          (put_extensions profile h.extensions (buf.put_u16 w1 size))

  unfoldable pub put_fixed : Header → W → W
  unfolding first_byte second_byte put_csrcs
  put_fixed h w =
      let w1 = buf.put_u8 w (first_byte h.version (length h.csrc) h.padding h.extension) in
      let w2 = buf.put_u8 w1 (second_byte h.payload_type h.marker) in
      let w3 = buf.put_u16 w2 h.sequence_number in
      let w4 = buf.put_u32 w3 h.timestamp in let w5 = buf.put_u32 w4 h.ssrc in put_csrcs h.csrc w5

  unfoldable pub counted : W → Result W → Result (ℕ × W)
  counted w (ok v) = ok (buf.remaining_mut w - buf.remaining_mut v, v)
  counted w (err e) = err e
  counted w Result.panic = Result.panic

  unfoldable pub marshal_to : Header → W → Result (ℕ × W)
  unfolding marshal_size put_fixed put_extension_block counted
  marshal_to h w =
      if ltb (buf.remaining_mut w) (marshal_size h)
      then err Error.buffer_too_small
      else counted w
          (if h.extension then put_extension_block h (put_fixed h w) else ok (put_fixed h w))
