-- ===== src/Channel/Tests.antt =====
-- The messages over buffers that are lists.
use ortc.Common.{ℕ, ◌≤◌, ◌≡◌, refl, List, [], ◌∷◌, ◌++◌, arith, none}
use ortc.Common.ListBuffer.{list_buf, list_buf_mut, list_buf-IsBuf, list_buf_mut-IsBufMut}
use ortc.Channel.Open.{Result, ChannelType, DataChannelOpen, marshal_size, marshal_to, unmarshal}
use ortc.Channel.Message.{Message}
use ortc.Channel.Message
use ortc.Channel.RoundTrip.{encoded, IsMessage, marshal_to-encoded, unmarshal-encoded}
use ortc.Channel.Frames.{encoded_message, unmarshal-encoded_message}

abbrev chat : DataChannelOpen
chat = record {
  channel_type = ChannelType.partial_reliable_rexmit_unordered;
  priority = 256;
  reliability_parameter = 3;
  label = 99 ∷ 104 ∷ [];
  protocol = 112 ∷ [];
}

chat-IsMessage : IsMessage chat
chat-IsMessage = record {
  priority = omega arith;
  reliability_parameter = omega arith;
  label = omega arith;
  protocol = omega arith;
}

marshal_size-chat : marshal_size chat ≤ 20
unfolding marshal_size
marshal_size-chat = omega arith

encoded-chat : encoded chat ≡ 0x81 ∷ 1 ∷ 0 ∷ 0 ∷ 0 ∷ 0 ∷ 3 ∷ 0 ∷ 2 ∷ 0 ∷ 1 ∷ 99 ∷ 104 ∷ 112 ∷ []
unfolding encoded ortc.Channel.Open.channel_type_byte
encoded-chat = refl

-- The type byte of an acknowledgement does not fit an empty buffer: a panic, not an error.
marshal_to-ack : Message.marshal_to list_buf_mut Message.data_channel_ack ([], 0) ≡ none
unfolding Message.marshal_to Message.marshal_message_type
marshal_to-ack = refl

marshal_to-encoded_example :
    (v : List ℕ × ℕ) × (marshal_to list_buf_mut chat ([], 20) ≡ Result.ok (marshal_size chat, v))
    × (v.0 ≡ [] ++ encoded chat)
marshal_to-encoded_example =
    marshal_to-encoded list_buf_mut (λ w. w.0) chat ([], 20) list_buf_mut-IsBufMut chat-IsMessage
      marshal_size-chat

unmarshal-encoded_example :
    (c : List ℕ) × (unmarshal list_buf (encoded chat ++ (7 ∷ [])) ≡ Result.ok (chat, c))
    × (c ≡ 7 ∷ [])
unmarshal-encoded_example =
    unmarshal-encoded list_buf (λ l. l) chat (encoded chat ++ (7 ∷ [])) (7 ∷ []) list_buf-IsBuf
      chat-IsMessage refl

unmarshal-encoded_message_example :
    (c : List ℕ) × (Message.unmarshal list_buf
        (encoded_message (Message.data_channel_open chat) ++ [])
      ≡ Result.ok (Message.data_channel_open chat, c))
    × (c ≡ [])
unmarshal-encoded_message_example =
    unmarshal-encoded_message list_buf (λ l. l) (Message.data_channel_open chat)
      (encoded_message (Message.data_channel_open chat) ++ []) [] list_buf-IsBuf chat-IsMessage refl
