-- ===== src/Turn/Tests.antt =====
-- ChannelData at concrete inputs.
use ortc.Common.{◌%◌, ◌≤◌, ◌≡◌, refl, true, [], ◌∷◌, arith, length, take, drop}
use ortc.Common.Bytes.{from_be16}
use ortc.Turn.ChannelData
use ortc.Turn.ChannelData.{ChannelData, ok, header_size}

abbrev message : ChannelData
message = record { payload = 1 ∷ 2 ∷ 3 ∷ []; number = 0x4001; raw = [] }

message_valid : ChannelData.is_valid_number 0x4001 ≡ true
unfolding ChannelData.is_valid_number
message_valid = refl

encode-message : (ChannelData.encode message).raw ≡ 0x40 ∷ 1 ∷ 0 ∷ 3 ∷ 1 ∷ 2 ∷ 3 ∷ 0 ∷ []
unfolding ChannelData.encode
encode-message = refl

decode-encode_example :
    (ChannelData.decode (record message { raw = (ChannelData.encode message).raw })
      ≡ (record message { raw = (ChannelData.encode message).raw }, ok))
    × (length (ChannelData.encode message).raw % 4 ≡ 0)
decode-encode_example = ChannelData.decode-encode message message message_valid (omega arith)

is_channel_data-encode_example : ChannelData.is_channel_data (ChannelData.encode message).raw ≡ true
is_channel_data-encode_example =
    ChannelData.is_channel_data-encode message message_valid (omega arith)

abbrev received : ChannelData
received = record { payload = []; number = 0; raw = 0x40 ∷ 1 ∷ 0 ∷ 1 ∷ 9 ∷ 0 ∷ [] }

abbrev parsed : ChannelData
parsed = record received { payload = 9 ∷ []; number = 0x4001 }

decode-received : ChannelData.decode received ≡ (parsed, ok)
unfolding ChannelData.decode
decode-received = refl

decode-ok_example :
    (4 ≤ length received.raw)
    × (ChannelData.is_valid_number 0x4001 ≡ true)
    × (1 ≡ from_be16 0 1)
    × (parsed.payload ≡ take 1 (drop header_size received.raw))
    × (parsed.raw ≡ received.raw)
decode-ok_example = ChannelData.decode-ok received parsed decode-received
