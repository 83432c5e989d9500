-- ===== src/Rtcp/Tests.antt =====
-- The RTCP parts at concrete inputs.
use ortc.Common.{ℕ, ◌+◌, ◌++◌, length, ◌≡◌, refl, List, [], ◌∷◌, map, arith}
use ortc.Common.Bits.{shl}
use ortc.Common.ListBuffer.{list_buf, list_buf_mut, list_buf-IsBuf, list_buf_mut-IsBufMut}
use ortc.Rtcp.Header.{ok, as_u8}
use ortc.Rtcp.Header
use ortc.Rtcp.Nack.Feedback.{TransportLayerNack, marshal_to, unmarshal, marshal_size}
use ortc.Rtcp.Nack.Feedback.RoundTrip.{IsNack, unmarshal-written_nack}
use ortc.Rtcp.Nack.{packet_list, nack_pairs_from_sequence_numbers}
use ortc.Rtcp.Nack.Pairs.{contains, packets, nack_pairs-packets}

abbrev lost : List ℕ
lost = 42 ∷ 43 ∷ 58 ∷ 59 ∷ 42 ∷ 65535 ∷ []

lost_pairs :
    nack_pairs_from_sequence_numbers lost
    ≡ record { packet_id = 42; lost_packets = 32769 }
      ∷ record { packet_id = 59; lost_packets = 0 }
      ∷ record { packet_id = 42; lost_packets = 0 }
      ∷ record { packet_id = 65535; lost_packets = 0 }
      ∷ []
unfolding nack_pairs_from_sequence_numbers shl
lost_pairs = refl

lost_lists :
    map packet_list (nack_pairs_from_sequence_numbers lost)
    ≡ (42 ∷ 43 ∷ 58 ∷ []) ∷ (59 ∷ []) ∷ (42 ∷ []) ∷ (65535 ∷ []) ∷ []
unfolding nack_pairs_from_sequence_numbers packet_list shl
lost_lists = refl

nack_pairs-packets_example :
    contains (packets (nack_pairs_from_sequence_numbers lost)) 58 ≡ contains lost 58
nack_pairs-packets_example =
    nack_pairs-packets lost
      (omega arith, (omega arith, (omega arith, (omega arith, (omega arith, (omega arith, tt))))))
      58

abbrev nack : TransportLayerNack
nack = record {
  sender_ssrc = 9;
  media_ssrc = 65536;
  nacks =
      record { packet_id = 42; lost_packets = 32769 }
      ∷ record { packet_id = 65535; lost_packets = 0 }
      ∷ [];
}

nack-IsNack : IsNack nack
nack-IsNack = record {
  sender = omega arith;
  media = omega arith;
  pairs = ((omega arith, omega arith), ((omega arith, omega arith), tt));
  few = omega arith;
}

nack_read :
    unmarshal list_buf (129 ∷ 205 ∷ 0 ∷ 3 ∷ 0 ∷ 0 ∷ 0 ∷ 9 ∷ 0 ∷ 1 ∷ 0 ∷ 0 ∷ 0 ∷ 42 ∷ 128 ∷ 1 ∷ [])
    ≡ ok (
      record {
        sender_ssrc = 9;
        media_ssrc = 65536;
        nacks = record { packet_id = 42; lost_packets = 32769 } ∷ [];
      },
      [],
    )
unfolding unmarshal Header.unmarshal as_u8
nack_read = refl

unmarshal-written_nack_example :
    (v : List ℕ × ℕ) × (bytes : List ℕ) × (marshal_to list_buf_mut nack ([], 20)
      ≡ ok (marshal_size nack, v))
    × (v.0 ≡ [] ++ bytes)
    × (v.1 + length bytes ≡ 20)
    × ((b : List ℕ) (rest : List ℕ)
        → b ≡ bytes ++ rest
        → (c : List ℕ) × (unmarshal list_buf b ≡ ok (nack, c)) × (c ≡ []))
unmarshal-written_nack_example =
    unmarshal-written_nack list_buf (λ b. b) list_buf_mut (λ w. w.0) list_buf-IsBuf
      list_buf_mut-IsBufMut nack ([], 20) nack-IsNack (unfold marshal_size in omega arith)
