-- ===== src/Stun/Message/RoundTrip.antt =====
-- `encode` and then `decode`.
use ortc.Common.{
  suc, ◌^◌, ◌<◌, ◌≡◌, refl, ap, ◌∙◌, none, some, [], ◌++◌, length, arith, length-append,
  take-append_eq, drop-append_eq, take_all, All,
}
use ortc.Common.Bytes.{from_be16_lem}
use ortc.Stun.MessageType.{MessageType, value, read_value}
use ortc.Stun.MessageType.Bijection.{read_value-value}
use ortc.Stun.Message.{Message, encode, unmarshal_binary}
use ortc.Stun.Message.Layout.{header, body, raw-encode}
use ortc.Stun.Message.Decoding.{IsAttribute, decode_accepted, decode_loop-body}

-- A message whose fields fit the wire, with the length that `add` has counted or, without
-- attributes, none.
pub record IsMessage (m : Message) : Type 0 where
  pub method : m.typ.method < 2 ^ 12
  pub class : m.typ.class < 2 ^ 2
  pub id : length m.transaction_id ≡ 12
  pub attributes : All IsAttribute m.attributes
  pub fits : length (body m.attributes) < 2 ^ 16
  pub no_length : m.attributes ≡ [] → m.length ≡ 0

value_lt : (t : MessageType) → value t < 2 ^ 16
unfolding value
value_lt t = omega arith

-- What a decoder reads from a header and a body.
unmarshal_binary-header :
    (d m : Message)
    → IsMessage m
    → unmarshal_binary d
        (header (value m.typ) (length (body m.attributes)) m.transaction_id ++ body m.attributes)
      ≡ some (
        record {
          typ = m.typ;
          length = length (body m.attributes);
          transaction_id = m.transaction_id;
          attributes = m.attributes;
          raw =
              header (value m.typ) (length (body m.attributes)) m.transaction_id
              ++ body m.attributes;
        },
        none,
      )
unfolding unmarshal_binary
unmarshal_binary-header d m i =
    let b = body m.attributes in
    let n = length b in
    let raw = header (value m.typ) n m.transaction_id ++ b in
    let typ =
      ap read_value (from_be16_lem (value m.typ) (value_lt m.typ))
      ∙ read_value-value m.typ i.method i.class in
    let s = from_be16_lem n i.fits in
    let k = length-append m.transaction_id b in
    let id = take-append_eq 12 m.transaction_id b i.id in
    let behind = drop-append_eq 12 m.transaction_id b i.id in
    let whole = take_all n b (omega arith) in
    let loop =
      decode_loop-body (suc n) n 0 m.attributes [] i.attributes (omega arith) (omega arith) in
    decode_accepted (record d { raw = raw }) m.attributes (ground (arith, i.id)) refl
      (ground (arith, i.id, s)) (rw (s, behind, whole) loop)
    ∙ rw (typ, s, id) refl

-- A message that is encoded and then decoded, into whatever message, comes back with its type, its
-- transaction id, its attributes in their order and the length of its body, and no error; for a type
-- of twelve and two bits, an id of twelve bytes, attributes whose type is not the old number 0x8020
-- and whose recorded length is that of the value, a body below 2 ^ 16 bytes, and length 0 in a
-- message without attributes.
pub unmarshal_binary-encode :
    (d m : Message)
    → IsMessage m
    → unmarshal_binary d (encode m).raw
      ≡ some (record m { length = length (body m.attributes); raw = (encode m).raw }, none)
unmarshal_binary-encode d m i =
    rw (raw-encode m i.id i.fits i.no_length) (unmarshal_binary-header d m i)
