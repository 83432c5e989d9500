-- ===== src/Stun/Message.antt =====
-- rtc-stun/src/message.rs: a message and its bytes. A transaction id is the list of its twelve
-- bytes. A slice that is written lies in the vector, which `grow` sees to; where the code makes no
-- such test and would panic, the result is `none`.
pub mod Layout
pub mod RoundTrip
pub mod Decoding
use ortc.Common.{
  ℕ, zero, suc, ◌+◌, ◌-◌, ◌%◌, ◌^◌, Bool, true, false, not, ◌&&◌, Option, none, some, List, [], ◌∷◌,
  ◌++◌, length, take, drop, replicate, get_or, ◌==◌, ltb, leb, if◌then◌else◌,
}
use ortc.Common.Bytes.{be16, be32, from_be16, from_be32}
use ortc.Stun.MessageType.{MessageType, value, read_value}
use ortc.Stun.Attributes.{RawAttribute, nearest_padded_value_length, compat_attr_type, padding}
use ortc.Stun.Attributes

abbrev pub magic_cookie : ℕ
magic_cookie = 0x2112a442

abbrev attribute_header_size : ℕ
attribute_header_size = 4

abbrev message_header_size : ℕ
message_header_size = 20

-- The errors of `decode` and `get`; the texts of `Error::Other` are left out.
pub data MessageError : Type 0 where
  unexpected_header_eof : MessageError
  invalid_magic_cookie : ℕ → MessageError
  short_message : (length full_size : ℕ) → MessageError
  short_header : ℕ → MessageError
  short_value : (length expected : ℕ) → MessageError
  attribute_not_found : MessageError

pub record Message : Type 0 where
  pub typ : MessageType
  pub length : ℕ
  pub transaction_id : List ℕ
  pub attributes : List RawAttribute
  pub raw : List ℕ

unfoldable is_message : List ℕ → Bool
is_message b =
    leb message_header_size (length b)
    && from_be32 (get_or b 4 0) (get_or b 5 0) (get_or b 6 0) (get_or b 7 0) == magic_cookie

unfoldable pub new : Message
new = record {
  typ = record { method = 0; class = 0 };
  length = 0;
  transaction_id = replicate 12 0;
  attributes = [];
  raw = replicate message_header_size 0;
}

unfoldable pub reset : Message → Message
reset m = record m { raw = []; length = 0; attributes = [] }

-- `raw[at..at + v.len()].copy_from_slice(v)`.
unfoldable pub write_at : ℕ → List ℕ → List ℕ → List ℕ
write_at at v raw = take at raw ++ (v ++ drop (at + length v) raw)

unfoldable pub grow : List ℕ → ℕ → Bool → List ℕ
grow raw n resize =
    if leb n (length raw)
    then (if resize then take n raw else raw)
    else raw ++ replicate (n - length raw) 0

unfoldable pub write_length : Message → Message
write_length m = record m { raw = write_at 2 (be16 (m.length % 2 ^ 16) []) (grow m.raw 4 false) }

-- The bytes of a type, a length and a value, which `add` copies to the slice it has grown.
unfoldable pub tlv : ℕ → List ℕ → List ℕ
tlv t v = be16 t (be16 (length v % 2 ^ 16) v)

-- `add` up to the padding: the bytes and the length.
unfoldable pub add_padded : List ℕ → ℕ → ℕ → List ℕ → List ℕ × ℕ
add_padded raw len t v =
    let alloc_size = attribute_header_size + length v in
    let first = message_header_size + len in
    let last = first + alloc_size in
    let written = write_at first (tlv t v) (grow raw last true) in
    let bytes_to_add = nearest_padded_value_length (length v) - length v in
    if length v % 2 ^ 16 % padding == 0 then (written, (len + alloc_size) % 2 ^ 32) else (
      write_at last (replicate bytes_to_add 0) (grow written (last + bytes_to_add) true),
      ((len + alloc_size) % 2 ^ 32 + bytes_to_add) % 2 ^ 32,
    )

unfoldable pub add : Message → ℕ → List ℕ → Message
add m t v =
    let (raw, len) = add_padded m.raw m.length t v in
    let attr : RawAttribute = record { typ = t; length = length v % 2 ^ 16; value = v } in
    write_length (record m { raw = raw; length = len; attributes = m.attributes ++ (attr ∷ []) })

unfoldable pub write_type : Message → Message
write_type m = record m { raw = write_at 0 (be16 (value m.typ) []) (grow m.raw 2 false) }

unfoldable set_type : Message → MessageType → Message
unfolding write_type
set_type m t = write_type (record m { typ = t })

unfoldable pub write_header : Message → Message
unfolding write_type write_length
write_header m =
    let grown : Message = record m { raw = grow m.raw message_header_size false } in
    let typed = write_length (write_type grown) in
    record typed { raw = write_at 8 m.transaction_id (write_at 4 (be32 magic_cookie []) typed.raw) }

-- `raw[8..20].copy_from_slice(&id)`, which panics on a shorter vector.
unfoldable write_transaction_id : Message → Option Message
write_transaction_id m =
    if ltb (length m.raw) message_header_size
    then none
    else some (record m { raw = write_at 8 m.transaction_id m.raw })

-- `TransactionId::add_to`.
unfoldable add_transaction_id : List ℕ → Message → Option Message
unfolding write_transaction_id
add_transaction_id id m = write_transaction_id (record m { transaction_id = id })

unfoldable pub add_all : List RawAttribute → Message → Message
add_all [] m = m
add_all (a ∷ l) m = add_all l (add m a.typ a.value)

unfoldable pub write_attributes : Message → Message
write_attributes m = record (add_all m.attributes (record m { attributes = [] })) {
  attributes = m.attributes;
}

unfoldable pub encode : Message → Message
unfolding write_header write_attributes
encode m =
    let headed = write_header (record m { raw = [] }) in
    write_attributes (record headed { length = 0 })

-- The loop of `decode`, on fuel: what is left of the buffer, the offset, and the attributes read so
-- far. `none` means that the fuel ran out.
unfoldable pub decode_loop :
    ℕ → ℕ → ℕ → List ℕ → List RawAttribute → Option (List RawAttribute × Option MessageError)
decode_loop zero size offset b attributes = none
decode_loop (suc fuel) size offset b attributes =
    let a_l = from_be16 (get_or b 2 0) (get_or b 3 0) in
    let a_buff_l = nearest_padded_value_length a_l in
    let behind = drop attribute_header_size b in
    let a : RawAttribute = record {
      typ = compat_attr_type (from_be16 (get_or b 0 0) (get_or b 1 0));
      length = a_l;
      value = take a_l behind;
    } in
    let rest =
      decode_loop fuel size (offset + attribute_header_size + a_buff_l) (drop a_buff_l behind)
        (attributes ++ (a ∷ [])) in
    if not (ltb offset size)
    then some (attributes, none)
    else (if ltb (length b) attribute_header_size
        then some (attributes, some (MessageError.short_header (length b)))
        else (if ltb (length behind) a_buff_l
            then some (attributes, some (MessageError.short_value (length behind) a_buff_l))
            else rest))

-- The header is stored before the attributes are read, and stays when one of them is refused.
unfoldable pub with_attributes :
    Message
    → Option (List RawAttribute × Option MessageError)
    → Option (Message × Option MessageError)
with_attributes m none = none
with_attributes m (some (attributes, error)) = some (record m { attributes = attributes }, error)

unfoldable pub decode_attributes : Message → Option (Message × Option MessageError)
unfolding decode_loop with_attributes
decode_attributes m =
    let buf = m.raw in
    let size = from_be16 (get_or buf 2 0) (get_or buf 3 0) in
    with_attributes
      (record m {
        typ = read_value (from_be16 (get_or buf 0 0) (get_or buf 1 0));
        length = size;
        transaction_id = take 12 (drop 8 buf);
      })
      (decode_loop (suc size) size 0 (take size (drop message_header_size buf)) [])

-- A message that is refused before its attributes is left as it was.
unfoldable pub decode : Message → Option (Message × Option MessageError)
unfolding decode_attributes
decode m =
    let buf = m.raw in
    let full_size = message_header_size + from_be16 (get_or buf 2 0) (get_or buf 3 0) in
    let cookie = from_be32 (get_or buf 4 0) (get_or buf 5 0) (get_or buf 6 0) (get_or buf 7 0) in
    if ltb (length buf) message_header_size
    then some (m, some MessageError.unexpected_header_eof)
    else (if not (cookie == magic_cookie)
        then some (m, some (MessageError.invalid_magic_cookie cookie))
        else (if ltb (length buf) full_size
            then some (m, some (MessageError.short_message (length buf) full_size))
            else decode_attributes m))

-- `unmarshal_binary`, `write` and `clone_to` set the bytes and decode them.
unfoldable pub unmarshal_binary : Message → List ℕ → Option (Message × Option MessageError)
unfolding decode
unmarshal_binary m bytes = decode (record m { raw = bytes })

unfoldable clone_to : Message → Message → Option (Message × Option MessageError)
unfolding decode
clone_to m b = decode (record b { raw = m.raw })

unfoldable pub contains : List RawAttribute → ℕ → Bool
contains [] t = false
contains (a ∷ l) t = if a.typ == t then true else contains l t

unfoldable pub get : Message → ℕ → List ℕ × Option MessageError
get m t =
    let (v, ok) = Attributes.get m.attributes t in
    if ok then (v.value, none) else ([], some MessageError.attribute_not_found)
