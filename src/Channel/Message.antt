-- ===== src/Channel/Message.antt =====
-- rtc-datachannel/src/message/mod.rs, message_type.rs and message_channel_ack.rs: a message with its
-- type byte. `put_u8` on a slice without room panics: such a result is `none`.
use ortc.Common.{ℕ, ◌+◌, Option, none, some, ◌==◌, ltb, if◌then◌else◌}
use ortc.Common.Buffer.{Buf, BufMut}
use ortc.Channel.Open.{Error, Result, and_then, DataChannelOpen}
use ortc.Channel.Open

abbrev pub message_type_ack : ℕ
message_type_ack = 0x02

abbrev pub message_type_open : ℕ
message_type_open = 0x03

abbrev pub message_type_len : ℕ
message_type_len = 1

pub data MessageType : Type 0 where
  type_ack : MessageType
  type_open : MessageType

pub data Message : Type 0 where
  data_channel_ack : Message
  data_channel_open : DataChannelOpen → Message

unfoldable pub message_type : Message → MessageType
message_type Message.data_channel_ack = MessageType.type_ack
message_type (Message.data_channel_open m) = MessageType.type_open

unfoldable pub marshal_size : Message → ℕ
marshal_size Message.data_channel_ack = 0 + message_type_len
marshal_size (Message.data_channel_open m) = Open.marshal_size m + message_type_len

unfoldable pub message_type_byte : MessageType → ℕ
message_type_byte MessageType.type_ack = message_type_ack
message_type_byte MessageType.type_open = message_type_open

unfoldable pub message_type_of : ℕ → Result MessageType
message_type_of b =
    if b == message_type_ack
    then Result.ok MessageType.type_ack
    else (if b == message_type_open
        then Result.ok MessageType.type_open
        else Result.err (Error.invalid_message_type b))

module _ {W : Type 0} (buf : BufMut W) where
  unfoldable pub marshal_message_type : MessageType → W → Option (ℕ × W)
  marshal_message_type t w =
      if ltb (buf.remaining_mut w) 1 then none else some (1, buf.put_u8 w (message_type_byte t))

  unfoldable pub marshal_body : Message → W → Result (ℕ × W)
  marshal_body Message.data_channel_ack w = Result.ok (0, w)
  marshal_body (Message.data_channel_open m) w = Open.marshal_to buf m w

  unfoldable pub marshal_to : Message → W → Option (Result (ℕ × W))
  marshal_to m w = elim (marshal_message_type (message_type m) w) [
    | none ↦ none
    | some r ↦ some (and_then (marshal_body m r.1) (λ s. Result.ok (r.0 + s.0, s.1)))
  ]

module _ {B : Type 0} (buf : Buf B) where
  unfoldable pub unmarshal_message_type : B → Result (MessageType × B)
  unmarshal_message_type b =
      if ltb (buf.remaining b) message_type_len
      then Result.err (Error.unexpected_end_of_buffer message_type_len (buf.remaining b))
      else (let (x, rest) = buf.get_u8 b in and_then (message_type_of x) (λ t. Result.ok (t, rest)))

  unfoldable pub unmarshal_body : MessageType → B → Result (Message × B)
  unmarshal_body MessageType.type_ack b = Result.ok (Message.data_channel_ack, b)
  unmarshal_body MessageType.type_open b =
      and_then (Open.unmarshal buf b) (λ r. Result.ok (Message.data_channel_open r.0, r.1))

  unfoldable pub unmarshal : B → Result (Message × B)
  unmarshal b =
      if ltb (buf.remaining b) message_type_len
      then Result.err (Error.unexpected_end_of_buffer message_type_len (buf.remaining b))
      else and_then (unmarshal_message_type b) (λ r. unmarshal_body r.0 r.1)
