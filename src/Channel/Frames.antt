-- ===== src/Channel/Frames.antt =====
-- A whole message, its type byte included, read from the wire.
use ortc.Common.{ℕ, ◌≤◌, ◌≡◌, refl, ap, ◌∙◌, List, [], ◌∷◌, ◌++◌, length, arith}
use ortc.Common.Buffer.{Buf, IsBuf}
use ortc.Channel.Open.{Result, and_then}
use ortc.Channel.Message.{
  Message, MessageType, message_type_of, unmarshal, unmarshal_message_type, unmarshal_body,
}
use ortc.Channel.RoundTrip.{encoded, IsMessage, unmarshal-encoded}

unfoldable pub encoded_message : Message → List ℕ
encoded_message Message.data_channel_ack = 0x02 ∷ []
encoded_message (Message.data_channel_open m) = 0x03 ∷ encoded m

abbrev IsFrame : Message → Type 0
IsFrame Message.data_channel_ack = Unit {0}
IsFrame (Message.data_channel_open m) = IsMessage m

module _ {B : Type 0} (buf : Buf B) (contents : B → List ℕ) where
  -- Reading the type byte leaves the body.
  unmarshal-body :
      (b : B) (x : ℕ) (rest : List ℕ) (t : MessageType)
      → IsBuf buf contents
      → contents b ≡ x ∷ rest
      → message_type_of x ≡ Result.ok t
      → unmarshal buf b ≡ unmarshal_body buf t (buf.get_u8 b).1
  unfolding unmarshal unmarshal_message_type
  unmarshal-body b x rest t i h e =
      let (a0, a1) = i.get_u8_eq b _ _ h in
      let n : 1 ≤ buf.remaining b = omega (arith, i.remaining_eq b, ap length h) in
      let o : message_type_of (buf.get_u8 b).0 ≡ Result.ok t = ap message_type_of a0 ∙ e in
      ground (arith, n, o)

  -- Reading what an ACK or an OPEN message is on the wire gives the message back and stops behind
  -- it, over a buffer that does what the crate documents, where the fields fit their types
  -- and the lengths of label and protocol 16 bits.
  pub unmarshal-encoded_message :
      (m : Message) (b : B) (rest : List ℕ)
      → IsBuf buf contents
      → IsFrame m
      → contents b ≡ encoded_message m ++ rest
      → (c : B) × (unmarshal buf b ≡ Result.ok (m, c)) × (contents c ≡ rest)
  unfolding encoded_message message_type_of unmarshal_body
  unmarshal-encoded_message Message.data_channel_ack b rest i v h = (
    (buf.get_u8 b).1,
    unmarshal-body b 2 rest MessageType.type_ack i h refl,
    (i.get_u8_eq b _ _ h).1,
  )
  unmarshal-encoded_message (Message.data_channel_open m) b rest i v h =
      let (c, e, f) =
        unmarshal-encoded buf contents m (buf.get_u8 b).1 rest i v ((i.get_u8_eq b _ _ h).1) in
      (
        c,
        unmarshal-body b 3 _ MessageType.type_open i h refl
            ∙ ap (λ r. and_then r (λ p. Result.ok (Message.data_channel_open p.0, p.1))) e,
        f,
      )
