-- ===== src/Rtp/Packet.antt =====
-- rtc-rtp/src/packet/mod.rs: an RTP packet, with the padding behind its payload.
pub mod RoundTrip
use ortc.Common.{
  ℕ, zero, suc, ◌+◌, ◌-◌, ◌%◌, Bool, true, false, Option, none, some, List, [], ◌∷◌, length, take,
  get_or, ◌==◌, ltb, leb, if◌then◌else◌,
}
use ortc.Common.Buffer.{Buf, BufMut}
use ortc.Rtp.Header
use ortc.Rtp.Header.{Header, Result, ok, err, panic, Error, and_then}
use ortc.Rtp.Header.Marshal
use ortc.Rtp.Header.Unmarshal

pub record Packet : Type 0 where
  pub header : Header
  pub payload : List ℕ

unfoldable pub get_padding : ℕ → ℕ
get_padding len = if len % 4 == 0 then 0 else 4 - len % 4

-- The padding of a packet that has some: a whole word where the payload is in whole words.
unfoldable pub padding_len : ℕ → ℕ
unfolding get_padding
padding_len len = if get_padding len == 0 then 4 else get_padding len

unfoldable pub marshal_size : Packet → ℕ
unfolding padding_len
marshal_size p =
    let padding = if p.header.padding then padding_len (length p.payload) else 0 in
    Header.marshal_size p.header + length p.payload + padding

-- What `unmarshal` makes of a header and the bytes behind it.
unfoldable pub with_payload : Header → List ℕ → Result Packet
with_payload header payload =
    let n = length payload in
    let padding = get_or payload (n - 1) 0 in
    if header.padding
    then (if ltb 0 n
        then (if leb padding n
            then ok (record { header = header; payload = take (n - padding) payload })
            else err Error.short_packet)
        else err Error.short_packet)
    else ok (record { header = header; payload = payload })

module _ {B : Type 0} (buf : Buf B) where
  unfoldable pub unmarshal : B → Result Packet
  unfolding with_payload
  unmarshal b =
      and_then (Unmarshal.unmarshal buf b)
        (λ r. with_payload r.0 (buf.copy_to_bytes (buf.remaining r.1) r.1).0)

module _ {W : Type 0} (buf : BufMut W) where
  -- The loop over `0..padding_len`: zeros, and the length of the padding as the last byte.
  unfoldable pub put_padding : ℕ → ℕ → W → W
  put_padding zero len w = w
  put_padding (suc zero) len w = buf.put_u8 w len
  put_padding (suc (suc n)) len w = put_padding (suc n) len (buf.put_u8 w 0)

  unfoldable pub marshal_to : Packet → W → Result (ℕ × W)
  unfolding marshal_size put_padding padding_len
  marshal_to p w =
      let n = length p.payload in
      let padding = if p.header.padding then padding_len n else 0 in
      if ltb (buf.remaining_mut w) (marshal_size p)
      then err Error.buffer_too_small
      else and_then (Marshal.marshal_to buf p.header w)
          (λ r. ok (r.0 + n + padding, put_padding padding padding (buf.put_slice r.1 p.payload)))
