-- ===== src/Rtcp/Header.antt =====
-- rtc-rtcp/src/header.rs: the header that all RTCP packets share, written and read; and the padding
-- of rtc-rtcp/src/util.rs. A read beyond the end of the buffer panics.
pub mod Laws
use ortc.Common.{
  ℕ, zero, suc, ◌+◌, ◌-◌, ◌*◌, ◌/◌, ◌%◌, ◌^◌, Bool, true, false, bit_of, bit_or, ◌==◌, ltb,
  if◌then◌else◌,
}
use ortc.Common.Buffer.{Buf, BufMut}

pub data Error : Type 0 where
  invalid_header : Error
  buffer_too_short : Error
  packet_too_short : Error
  bad_version : Error
  too_many_reports : Error
  wrong_type : Error

pub data Result {ℓ} (A : Type ℓ) : Type ℓ where
  ok : A → Result A
  err : Error → Result A
  panic : Result A

abbrev pub and_then {ℓ κ} : {A : Type ℓ} {C : Type κ} → Result A → (A → Result C) → Result C
and_then (ok a) f = f a
and_then (err e) f = err e
and_then panic f = panic

pub data PacketType : Type 0 where
  unsupported : PacketType
  sender_report : PacketType
  receiver_report : PacketType
  source_description : PacketType
  goodbye : PacketType
  application_defined : PacketType
  transport_specific_feedback : PacketType
  payload_specific_feedback : PacketType
  extended_report : PacketType

-- `packet_type as u8`.
unfoldable pub as_u8 : PacketType → ℕ
as_u8 PacketType.unsupported = 0
as_u8 PacketType.sender_report = 200
as_u8 PacketType.receiver_report = 201
as_u8 PacketType.source_description = 202
as_u8 PacketType.goodbye = 203
as_u8 PacketType.application_defined = 204
as_u8 PacketType.transport_specific_feedback = 205
as_u8 PacketType.payload_specific_feedback = 206
as_u8 PacketType.extended_report = 207

unfoldable pub packet_type_from : ℕ → PacketType
packet_type_from b =
    if b == 200
    then PacketType.sender_report
    else (if b == 201
        then PacketType.receiver_report
        else (if b == 202
            then PacketType.source_description
            else (if b == 203
                then PacketType.goodbye
                else (if b == 204
                    then PacketType.application_defined
                    else (if b == 205
                        then PacketType.transport_specific_feedback
                        else (if b == 206
                            then PacketType.payload_specific_feedback
                            else (if b == 207
                                then PacketType.extended_report
                                else (PacketType.unsupported))))))))

pub record Header : Type 0 where
  pub padding : Bool
  pub count : ℕ
  pub packet_type : PacketType
  pub length : ℕ

abbrev pub header_length : ℕ
header_length = 4

abbrev pub ssrc_length : ℕ
ssrc_length = 4

-- The first byte, with the version 2.
unfoldable pub first_byte : Bool → ℕ → ℕ
first_byte padding count = bit_or (bit_or 128 (bit_of padding * 32)) count

unfoldable pub get_padding_size : ℕ → ℕ
get_padding_size len = if len % 4 == 0 then 0 else 4 - len % 4

module _ {W : Type 0} (buf : BufMut W) where
  unfoldable pub marshal_to : Header → W → Result (ℕ × W)
  unfolding first_byte as_u8
  marshal_to h w =
      if ltb 31 h.count
      then err Error.invalid_header
      else (if ltb (buf.remaining_mut w) header_length
          then err Error.buffer_too_short
          else ok (
            header_length,
            buf.put_u16
                (buf.put_u8 (buf.put_u8 w (first_byte h.padding h.count)) (as_u8 h.packet_type))
                h.length,
          ))

  -- The loop over `0..padding_size`: zeros, and the number of them as the last byte.
  unfoldable put_padding_loop : ℕ → ℕ → W → W
  put_padding_loop zero size w = w
  put_padding_loop (suc zero) size w = buf.put_u8 w (size % 256)
  put_padding_loop (suc (suc n)) size w = put_padding_loop (suc n) size (buf.put_u8 w 0)

  unfoldable pub put_padding : ℕ → W → W
  unfolding put_padding_loop get_padding_size
  put_padding len w = put_padding_loop (get_padding_size len) (get_padding_size len) w

module _ {B : Type 0} (buf : Buf B) where
  unfoldable pub unmarshal : B → Result (Header × B)
  unfolding packet_type_from
  unmarshal b =
      if ltb (buf.remaining b) header_length
      then err Error.packet_too_short
      else (let (b0, r0) = buf.get_u8 b in
          if b0 / 64 % 4 == 2
          then (let (packet_type, r1) = buf.get_u8 r0 in
              let (len, r2) = buf.get_u16 r1 in
              ok (
                record {
                  padding = ltb 0 (b0 / 32 % 2);
                  count = b0 % 32;
                  packet_type = packet_type_from packet_type;
                  length = len;
                },
                r2,
              ))
          else err Error.bad_version)
