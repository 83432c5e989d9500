-- ===== src/Rtcp/Nack/Feedback.antt =====
-- rtc-rtcp/src/transport_feedbacks/transport_layer_nack/mod.rs: the packet of generic negative
-- acknowledgements (RFC 4585, section 6.2.1), written and read. A read beyond the end of the buffer
-- panics; `4 * h.length` of u16 wraps.
pub mod RoundTrip
use ortc.Common.{
  ℕ, zero, suc, ◌+◌, ◌-◌, ◌*◌, ◌/◌, ◌%◌, ◌^◌, Bool, true, false, not, ◌&&◌, ◌||◌, List, [], ◌∷◌,
  length, ◌==◌, ltb, if◌then◌else◌,
}
use ortc.Common.Buffer.{Buf, BufMut}
use ortc.Rtcp.Header
use ortc.Rtcp.Header.{
  Header, PacketType, Result, ok, err, panic, Error, and_then, header_length, ssrc_length, as_u8,
  get_padding_size, put_padding,
}
use ortc.Rtcp.Nack.{NackPair}

pub record TransportLayerNack : Type 0 where
  pub sender_ssrc : ℕ
  pub media_ssrc : ℕ
  pub nacks : List NackPair

abbrev pub tln_length : ℕ
tln_length = 2

abbrev nack_offset : ℕ
nack_offset = 8

abbrev pub format_tln : ℕ
format_tln = 1

unfoldable pub raw_size : TransportLayerNack → ℕ
raw_size t = header_length + nack_offset + length t.nacks * 4

unfoldable pub marshal_size : TransportLayerNack → ℕ
unfolding raw_size get_padding_size
marshal_size t = raw_size t + get_padding_size (raw_size t)

unfoldable pub header : TransportLayerNack → Header
unfolding raw_size marshal_size get_padding_size
header t = record {
  padding = not (get_padding_size (raw_size t) == 0);
  count = format_tln;
  packet_type = PacketType.transport_specific_feedback;
  length = (marshal_size t / 4 - 1) % 2 ^ 16;
}

module _ {W : Type 0} (buf : BufMut W) where
  unfoldable pub put_nacks : List NackPair → W → W
  put_nacks [] w = w
  put_nacks (p ∷ l) w = put_nacks l (buf.put_u16 (buf.put_u16 w p.packet_id) p.lost_packets)

  unfoldable pub marshal_to : TransportLayerNack → W → Result (ℕ × W)
  unfolding header marshal_size raw_size put_nacks
  marshal_to t w =
      if ltb 255 (length t.nacks + tln_length)
      then err Error.too_many_reports
      else (if ltb (buf.remaining_mut w) (marshal_size t)
          then err Error.buffer_too_short
          else and_then (Header.marshal_to buf (header t) w) (λ r.
            let v = put_nacks t.nacks (buf.put_u32 (buf.put_u32 r.1 t.sender_ssrc) t.media_ssrc) in
            ok (marshal_size t, if (header t).padding then put_padding buf (raw_size t) v else v)))

module _ {B : Type 0} (buf : Buf B) where
  -- A read of `n` bytes, which panics where fewer are left.
  unfoldable pub guarded {ℓ} : {A : Type ℓ} → ℕ → B → Result A → Result A
  guarded n b r = if ltb (buf.remaining b) n then panic else r

  unfoldable pub get_nacks : ℕ → B → Result (List NackPair × B)
  unfolding guarded
  get_nacks zero b = ok ([], b)
  get_nacks (suc n) b =
      let (packet_id, b1) = buf.get_u16 b in
      let (lost_packets, b2) = buf.get_u16 b1 in
      guarded 4 b (
        and_then (get_nacks n b2)
          (λ r. ok (record { packet_id = packet_id; lost_packets = lost_packets } ∷ r.0, r.1)))

  -- What stands behind the header, and all of the buffer taken.
  unfoldable pub get_body : ℕ → B → Result (TransportLayerNack × B)
  unfolding guarded get_nacks
  get_body len b =
      let (sender_ssrc, b1) = buf.get_u32 b in
      let (media_ssrc, b2) = buf.get_u32 b1 in
      guarded 8 b (
        and_then (get_nacks (len - nack_offset / 4) b2) (λ r. ok (
          record { sender_ssrc = sender_ssrc; media_ssrc = media_ssrc; nacks = r.0 },
          if ltb 0 (buf.remaining r.1) then buf.advance (buf.remaining r.1) r.1 else r.1,
        )))

  unfoldable pub unmarshal : B → Result (TransportLayerNack × B)
  unfolding get_body
  unmarshal b =
      let raw_packet_len = buf.remaining b in
      if ltb raw_packet_len (header_length + ssrc_length)
      then err Error.packet_too_short
      else and_then (Header.unmarshal buf b) (λ s.
        let h = s.0 in
        if ltb raw_packet_len (header_length + 4 * h.length % 2 ^ 16)
        then err Error.packet_too_short
        else (if not (as_u8 h.packet_type == as_u8 PacketType.transport_specific_feedback)
              || not (h.count == format_tln)
            then err Error.wrong_type
            else get_body h.length s.1))
