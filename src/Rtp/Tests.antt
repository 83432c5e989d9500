-- ===== src/Rtp/Tests.antt =====
-- The RTP header at concrete inputs.
use ortc.Common.{
  ℕ, ◌≤◌, ◌≡◌, ◌+◌, length, refl, inl, true, false, none, some, List, [], ◌∷◌, ◌++◌, arith, ◌==◌,
  if◌then◌else◌,
}
use ortc.Common.ListBuffer.{list_buf, list_buf_mut, list_buf-IsBuf, list_buf_mut-IsBufMut}
use ortc.Rtp.Header.{
  Header, Extension, Result, ok, Error, marshal_size, set_extension, get_extension,
  get_extension_payload_len,
}
use ortc.Rtp.Header.Marshal.{marshal_to}
use ortc.Rtp.Header.Unmarshal.{unmarshal}
use ortc.Rtp.Header.Layout.{layout, IsHeader, IsExtensions}
use ortc.Rtp.Header.Written.{marshal_to-layout}
use ortc.Rtp.Header.RoundTrip.{unmarshal-layout}
use ortc.Rtp.Packet
use ortc.Rtp.Packet.{Packet}
use ortc.Rtp.Packet.RoundTrip.{unmarshal-marshal_to}
use ortc.Rtp.Header.Extensions.{set_extension_lem}

abbrev level : Extension
level = record { id = 5; payload = 0x80 ∷ 7 ∷ [] }

-- One CSRC, and an extension with one byte of padding behind it.
abbrev audio : Header
audio = record {
  version = 2;
  padding = false;
  extension = true;
  marker = true;
  payload_type = 111;
  sequence_number = 0x1234;
  timestamp = 9;
  ssrc = 1;
  csrc = 2 ∷ [];
  extension_profile = 0xbede;
  extensions = level ∷ [];
}

audio-IsHeader : IsHeader audio
unfolding get_extension_payload_len
audio-IsHeader = record {
  version = omega arith;
  payload_type = omega arith;
  sequence_number = omega arith;
  timestamp = omega arith;
  ssrc = omega arith;
  few = omega arith;
  csrc = (omega arith, tt);
  profile = omega arith;
  size = omega arith;
  extensions = λ _. ((omega arith, omega arith, omega arith, omega arith), tt);
  without = λ off. absurd (cc);
}

layout-audio :
    layout audio
    ≡ 0x91 ∷ 0xef ∷ 0x12 ∷ 0x34 ∷ 0 ∷ 0 ∷ 0 ∷ 9 ∷ 0 ∷ 0 ∷ 0 ∷ 1 ∷ 0 ∷ 0 ∷ 0 ∷ 2 ∷ 0xbe ∷ 0xde ∷ 0
      ∷ 1 ∷ 0x51 ∷ 0x80 ∷ 7 ∷ 0 ∷ []
unfolding layout
layout-audio = refl

unmarshal-audio : unmarshal list_buf (layout audio ++ (42 ∷ [])) ≡ ok (audio, 42 ∷ [])
unfolding layout unmarshal
unmarshal-audio = refl

-- A payload that ends behind the packet is no error: the read of it panics.
unmarshal_overrun :
    unmarshal list_buf (
      0x90 ∷ 0 ∷ 0 ∷ 0 ∷ 0 ∷ 0 ∷ 0 ∷ 0 ∷ 0 ∷ 0 ∷ 0 ∷ 0 ∷ 0xbe ∷ 0xde ∷ 0 ∷ 1 ∷ 0x1f ∷ 0 ∷ 0 ∷ 0
      ∷ [])
    ≡ Result.panic
unfolding unmarshal
unmarshal_overrun = refl

marshal_size-audio : marshal_size audio ≤ 100
unfolding marshal_size
marshal_size-audio = omega arith

marshal_to-layout_example :
    (v : List ℕ × ℕ) × (marshal_to list_buf_mut audio ([], 100) ≡ ok (marshal_size audio, v))
    × (v.0 ≡ [] ++ layout audio)
marshal_to-layout_example =
    marshal_to-layout list_buf_mut (λ w. w.0) list_buf_mut-IsBufMut audio ([], 100) audio-IsHeader
      marshal_size-audio

unmarshal-layout_example :
    (c : List ℕ) × (unmarshal list_buf (layout audio ++ (42 ∷ [])) ≡ ok (audio, c)) × (c ≡ 42 ∷ [])
unmarshal-layout_example =
    unmarshal-layout list_buf (λ l. l) list_buf-IsBuf audio (layout audio ++ (42 ∷ [])) (42 ∷ [])
      audio-IsHeader refl

set_extension_example :
    let (g, error) = set_extension audio 3 (1 ∷ []) in
    (error ≡ none
      → IsExtensions g.extension_profile g.extensions
        × ((j : ℕ) → get_extension g j ≡ (if 3 == j then some (1 ∷ []) else get_extension audio j)))
    × ((e : Error) → error ≡ some e → g ≡ audio)
set_extension_example =
    set_extension_lem audio 3 (1 ∷ []) refl (inl refl)
      ((omega arith, omega arith, omega arith, omega arith), tt) (omega arith) (omega arith)

padded-IsHeader : IsHeader (record audio { padding = true })
unfolding get_extension_payload_len
padded-IsHeader = record {
  version = omega arith;
  payload_type = omega arith;
  sequence_number = omega arith;
  timestamp = omega arith;
  ssrc = omega arith;
  few = omega arith;
  csrc = (omega arith, tt);
  profile = omega arith;
  size = omega arith;
  extensions = λ _. ((omega arith, omega arith, omega arith, omega arith), tt);
  without = λ off. absurd (cc);
}

abbrev packet : Packet
packet = record { header = record audio { padding = true }; payload = 1 ∷ 2 ∷ 3 ∷ 4 ∷ [] }

marshal_size-packet : Packet.marshal_size packet ≤ 100
unfolding Packet.marshal_size marshal_size
marshal_size-packet = omega arith

unmarshal-marshal_to_example :
    (v : List ℕ × ℕ) × (bytes : List ℕ) × (Packet.marshal_to list_buf_mut packet ([], 100)
      ≡ ok (Packet.marshal_size packet, v))
    × (v.0 ≡ [] ++ bytes)
    × (v.1 + length bytes ≡ 100)
    × ((b : List ℕ) → b ≡ bytes → Packet.unmarshal list_buf b ≡ ok packet)
unmarshal-marshal_to_example =
    unmarshal-marshal_to list_buf (λ l. l) list_buf_mut (λ w. w.0) list_buf-IsBuf
      list_buf_mut-IsBufMut packet ([], 100) padded-IsHeader marshal_size-packet
