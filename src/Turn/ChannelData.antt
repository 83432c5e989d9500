-- ===== src/Turn/ChannelData.antt =====
-- rtc-turn/src/proto/chandata.rs and channum.rs: the ChannelData message of TURN (RFC 5766,
-- section 11.4). A `Vec<u8>` is the list of its bytes.
use ortc.Common.{
  ℕ, zero, suc, ◌+◌, ◌-◌, ◌*◌, ◌/◌, ◌%◌, ◌^◌, ◌≤◌, ◌<◌, ◌≡◌, Bool, true, false, not, ◌&&◌, List, [],
  ◌++◌, length, ltb, leb, if◌then◌else◌, arith, take, drop, replicate, get_or, length-append,
  length-replicate, take-append_eq, ap, ◌∙◌, sym, length-take,
}
use ortc.Common.Bytes.{from_be16, be16, from_be16_lem}

abbrev pub padding : ℕ
padding = 4

unfoldable nearest_padded_value_length : ℕ → ℕ
nearest_padded_value_length l =
    let n = padding * (l / padding) in if ltb n l then n + padding else n

abbrev min_channel_number : ℕ
min_channel_number = 0x4000

abbrev max_channel_number : ℕ
max_channel_number = 0x7fff

-- `ChannelNumber::valid`.
unfoldable pub is_valid_number : ℕ → Bool
is_valid_number n = leb min_channel_number n && leb n max_channel_number

abbrev pub header_size : ℕ
header_size = 4

pub record ChannelData : Type 0 where
  pub payload : List ℕ
  pub number : ℕ
  pub raw : List ℕ

unfoldable pub reset : ChannelData → ChannelData
reset c = record c { raw = []; payload = [] }

-- The first four bytes are overwritten, after `resize` where there are fewer.
unfoldable write_header : ChannelData → ChannelData
write_header c =
    let raw' = if ltb (length c.raw) header_size then c.raw ++ replicate header_size 0 else c.raw in
    record c { raw = be16 c.number (be16 (length c.payload % 2 ^ 16) (drop header_size raw')) }

unfoldable pub encode : ChannelData → ChannelData
unfolding write_header nearest_padded_value_length
encode c =
    let h = write_header (record c { raw = [] }) in
    let body = h.raw ++ c.payload in
    record c { raw = body ++ replicate (nearest_padded_value_length (length body) - length body) 0 }

pub data Status : Type 0 where
  ok unexpected_eof invalid_channel_number bad_channel_data_length : Status

-- The value after the call too: the number is set before the checks that may fail after it.
unfoldable pub decode : ChannelData → ChannelData × Status
unfolding is_valid_number
decode c =
    let buf = c.raw in
    if ltb (length buf) header_size
    then (c, unexpected_eof)
    else (let num = from_be16 (get_or buf 0 0) (get_or buf 1 0) in
        let l = from_be16 (get_or buf 2 0) (get_or buf 3 0) in
        if not (is_valid_number num)
        then (record c { number = num }, invalid_channel_number)
        else (if ltb (length (drop header_size buf)) l
            then (record c { number = num }, bad_channel_data_length)
            else (record c { number = num; payload = take l (drop header_size buf) }, ok)))

-- The length after the header is compared as a u16.
unfoldable pub is_channel_data : List ℕ → Bool
unfolding is_valid_number
is_channel_data buf =
    if ltb (length buf) header_size
    then false
    else (if ltb (length (drop header_size buf) % 2 ^ 16)
          (from_be16 (get_or buf 2 0) (get_or buf 3 0))
        then false
        else is_valid_number (from_be16 (get_or buf 0 0) (get_or buf 1 0)))

nearest_padded_value_length_lem :
    (l : ℕ)
    → (l ≤ nearest_padded_value_length l)
      × (nearest_padded_value_length l < l + 4)
      × (nearest_padded_value_length l % 4 ≡ 0)
unfolding nearest_padded_value_length
nearest_padded_value_length_lem l = ground arith

decode_frame :
    (c : ChannelData) (n : ℕ) (p z : List ℕ)
    → c.raw ≡ be16 n (be16 (length p) (p ++ z))
    → is_valid_number n ≡ true
    → length p < 2 ^ 16
    → decode c ≡ (record { payload = p; number = n; raw = c.raw }, ok)
decode_frame c n p z e v h =
    let num : from_be16 (n / 256 % 256) (n % 256) ≡ n =
      from_be16_lem n (unfold is_valid_number in ground arith) in
    let len : from_be16 (length p / 256 % 256) (length p % 256) ≡ length p =
      from_be16_lem (length p) h in
    ap (λ r. decode (record c { raw = r })) e
    ∙ (unfold decode in
        ground (
          arith,
          num,
          len,
          length-append p z,
          take-append_eq (from_be16 (length p / 256 % 256) (length p % 256)) p z (sym len),
        ))

encode_raw :
    (c : ChannelData)
    → length c.payload < 2 ^ 16
    → (z : List ℕ) × ((encode c).raw ≡ be16 c.number (be16 (length c.payload) (c.payload ++ z)))
      × (length z ≤ 3)
      × ((length (encode c).raw) % 4 ≡ 0)
encode_raw c h =
    let n = suc (suc (suc (suc (length c.payload)))) in
    let k = nearest_padded_value_length n - n in
    let z = replicate k (zero) in
    let m : length c.payload % 2 ^ 16 ≡ length c.payload = omega arith in
    let fill = nearest_padded_value_length_lem n in
    let size = length-replicate {A = ℕ} k 0 in
    (
      z,
      unfold encode in rw m,
      omega (arith, fill, size),
      unfold encode in omega (arith, fill, size, length-append c.payload z),
    )

-- `decode` of what `encode` wrote gives the number and the data back, for a number in the range of
-- channels and data that the length field can count; and the frame is a multiple of four bytes.
pub decode-encode :
    (c d : ChannelData)
    → is_valid_number c.number ≡ true
    → length c.payload < 2 ^ 16
    → (decode (record d { raw = (encode c).raw })
        ≡ (record { payload = c.payload; number = c.number; raw = (encode c).raw }, ok))
      × (length (encode c).raw % 4 ≡ 0)
decode-encode c d v h =
    let (z, e, short, whole) = encode_raw c h in
    (decode_frame (record d { raw = (encode c).raw }) c.number c.payload z e v h, whole)

-- `is_channel_data` accepts every frame that `encode` writes for such a number, while the data with
-- its padding is shorter than 2 ^ 16.
pub is_channel_data-encode :
    (c : ChannelData)
    → is_valid_number c.number ≡ true
    → length c.payload + 3 < 2 ^ 16
    → is_channel_data (encode c).raw ≡ true
is_channel_data-encode c v h =
    let (z, e, short, whole) = encode_raw c (omega arith) in
    let n = from_be16_lem c.number (unfold is_valid_number in ground arith) in
    let l = from_be16_lem (length c.payload) (omega arith) in
    ap is_channel_data e
    ∙ (unfold is_channel_data in ground (arith, n, l, v, length-append c.payload z))

-- What `decode` accepts: a channel number in range, and as many bytes of data as the length field
-- says, taken from behind the header.
pub decode-ok :
    (c d : ChannelData)
    → decode c ≡ (d, ok)
    → (4 ≤ length c.raw)
      × (is_valid_number d.number ≡ true)
      × (length d.payload ≡ from_be16 (get_or c.raw 2 0) (get_or c.raw 3 0))
      × (d.payload ≡ take (length d.payload) (drop header_size c.raw))
      × (d.raw ≡ c.raw)
unfolding decode
decode-ok c d e =
    ground (
      arith,
      length-take (from_be16 (get_or c.raw 2 0) (get_or c.raw 3 0)) (drop header_size c.raw),
    )
