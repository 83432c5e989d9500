-- ===== src/Channel/Open.antt =====
-- rtc-datachannel/src/message/message_channel_open.rs: the OPEN message behind its type byte. A
-- method over a buffer also returns the buffer behind what it read or wrote; where it fails, the
-- position of the buffer is not kept.
use ortc.Common.{ℕ, ◌+◌, ◌%◌, ◌^◌, List, length, ◌==◌, ltb, if◌then◌else◌}
use ortc.Common.Buffer.{Buf, BufMut}

pub data Error : Type 0 where
  unexpected_end_of_buffer : (expected actual : ℕ) → Error
  invalid_message_type : ℕ → Error
  invalid_channel_type : ℕ → Error

pub data Result (A : Type 0) : Type 0 where
  ok : A → Result A
  err : Error → Result A

-- The operator `?`.
abbrev pub and_then : {A C : Type 0} → Result A → (A → Result C) → Result C
and_then (Result.ok a) k = k a
and_then (Result.err e) k = Result.err e

pub data ChannelType : Type 0 where
  reliable : ChannelType
  reliable_unordered : ChannelType
  partial_reliable_rexmit : ChannelType
  partial_reliable_rexmit_unordered : ChannelType
  partial_reliable_timed : ChannelType
  partial_reliable_timed_unordered : ChannelType

abbrev channel_type_len : ℕ
channel_type_len = 1

unfoldable pub channel_type_byte : ChannelType → ℕ
channel_type_byte ChannelType.reliable = 0x00
channel_type_byte ChannelType.reliable_unordered = 0x80
channel_type_byte ChannelType.partial_reliable_rexmit = 0x01
channel_type_byte ChannelType.partial_reliable_rexmit_unordered = 0x81
channel_type_byte ChannelType.partial_reliable_timed = 0x02
channel_type_byte ChannelType.partial_reliable_timed_unordered = 0x82

unfoldable pub channel_type_of : ℕ → Result ChannelType
channel_type_of b0 =
    if b0 == 0x00
    then Result.ok ChannelType.reliable
    else (if b0 == 0x80
        then Result.ok ChannelType.reliable_unordered
        else (if b0 == 0x01
            then Result.ok ChannelType.partial_reliable_rexmit
            else (if b0 == 0x81
                then Result.ok ChannelType.partial_reliable_rexmit_unordered
                else (if b0 == 0x02
                    then Result.ok ChannelType.partial_reliable_timed
                    else (if b0 == 0x82
                        then Result.ok ChannelType.partial_reliable_timed_unordered
                        else Result.err (Error.invalid_channel_type b0))))))

abbrev channel_open_header_len : ℕ
channel_open_header_len = 11

pub record DataChannelOpen : Type 0 where
  pub channel_type : ChannelType
  pub priority : ℕ
  pub reliability_parameter : ℕ
  pub label : List ℕ
  pub protocol : List ℕ

unfoldable pub marshal_size : DataChannelOpen → ℕ
marshal_size m = channel_open_header_len + length m.label + length m.protocol

module _ {W : Type 0} (buf : BufMut W) where
  unfoldable pub marshal_channel_type : ChannelType → W → Result (ℕ × W)
  marshal_channel_type t w =
      if ltb (buf.remaining_mut w) channel_type_len
      then Result.err (Error.unexpected_end_of_buffer channel_type_len (buf.remaining_mut w))
      else Result.ok (1, buf.put_u8 w (channel_type_byte t))

  unfoldable pub put_fields : DataChannelOpen → W → W
  put_fields m w =
      let a = buf.put_u16 w m.priority in
      let b = buf.put_u32 a m.reliability_parameter in
      let c = buf.put_u16 b (length m.label % 2 ^ 16) in
      let d = buf.put_u16 c (length m.protocol % 2 ^ 16) in
      let e = buf.put_slice d m.label in buf.put_slice e m.protocol

  unfoldable pub marshal_to : DataChannelOpen → W → Result (ℕ × W)
  marshal_to m w =
      if ltb (buf.remaining_mut w) (marshal_size m)
      then Result.err (Error.unexpected_end_of_buffer (marshal_size m) (buf.remaining_mut w))
      else and_then (marshal_channel_type m.channel_type w)
          (λ r. Result.ok (marshal_size m, put_fields m r.1))

module _ {B : Type 0} (buf : Buf B) where
  unfoldable pub unmarshal_channel_type : B → Result (ChannelType × B)
  unmarshal_channel_type b =
      if ltb (buf.remaining b) channel_type_len
      then Result.err (Error.unexpected_end_of_buffer channel_type_len (buf.remaining b))
      else (let (b0, rest) = buf.get_u8 b in
          and_then (channel_type_of b0) (λ t. Result.ok (t, rest)))

  unfoldable pub get_fields : ChannelType → B → Result (DataChannelOpen × B)
  get_fields t b =
      let (priority, b1) = buf.get_u16 b in
      let (reliability_parameter, b2) = buf.get_u32 b1 in
      let (label_len, b3) = buf.get_u16 b2 in
      let (protocol_len, b4) = buf.get_u16 b3 in
      if ltb (buf.remaining b4) (label_len + protocol_len)
      then Result.err (Error.unexpected_end_of_buffer (label_len + protocol_len) (buf.remaining b4))
      else (let (label, b5) = buf.copy_to_slice label_len b4 in
          let (protocol, b6) = buf.copy_to_slice protocol_len b5 in
          let m : DataChannelOpen = record {
            channel_type = t;
            priority = priority;
            reliability_parameter = reliability_parameter;
            label = label;
            protocol = protocol;
          } in
          Result.ok (m, b6))

  unfoldable pub unmarshal : B → Result (DataChannelOpen × B)
  unmarshal b =
      if ltb (buf.remaining b) channel_open_header_len
      then Result.err (Error.unexpected_end_of_buffer channel_open_header_len (buf.remaining b))
      else and_then (unmarshal_channel_type b) (λ r. get_fields r.0 r.1)
