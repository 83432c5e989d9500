-- ===== src/Stun/Message/Decoding.antt =====
-- The loop of `decode`: it ends, and what it reads.
use ortc.Common.{
  ℕ, zero, suc, ◌+◌, ◌-◌, ◌/◌, ◌%◌, ◌^◌, ◌≤◌, ◌<◌, ◌≡◌, refl, ap, sym, ◌∙◌, true, false, Option,
  none, some, List, [], ◌∷◌, ◌++◌, length, take, drop, replicate, get_or, ◌==◌, ltb, arith,
  length-append, length-replicate, take-append_eq, drop-append_eq, append-nil, append_assoc,
  Bool-cases, inl, inr, All,
}
use ortc.Common.Bytes.{from_be16, from_be32, from_be16_lem, IsU16}
use ortc.Stun.MessageType.{read_value}
use ortc.Stun.Attributes.{RawAttribute, nearest_padded_value_length, compat_attr_type}
use ortc.Stun.Message.{
  Message, MessageError, magic_cookie, tlv, decode_loop, with_attributes, decode_attributes, decode,
}
use ortc.Stun.Message.Layout.{attribute_bytes, body, length-attribute_bytes}

-- Each round takes four bytes at least, so fuel for the bytes is enough.
decode_loop-total :
    (fuel size offset : ℕ) (b : List ℕ) (l : List RawAttribute)
    → size - offset < fuel
    → (r : List RawAttribute × Option MessageError) × (decode_loop fuel size offset b l ≡ some r)
unfolding decode_loop
decode_loop-total zero size offset b l h = absurd (omega arith)
decode_loop-total (suc fuel) size offset b l h = elim (Bool-cases (ltb offset size)) [
  | inr e ↦ ((l, none), rw e refl)
  | inl e ↦ elim (Bool-cases (ltb (length b) 4)) [
    | inl f ↦ ((l, some (MessageError.short_header (length b))), rw (e, f) refl)
    | inr f ↦
        let n = nearest_padded_value_length (from_be16 (get_or b 2 0) (get_or b 3 0)) in
        elim (Bool-cases (ltb (length (drop 4 b)) n)) [
          | inl g ↦ ((l, some (MessageError.short_value (length (drop 4 b)) n)), rw (e, f, g) refl)
          | inr g ↦ rw (e, f, g) (decode_loop-total fuel size (offset + 4 + n) _ _ (ground arith))
        ]
  ]
]

-- An attribute as it comes back from the wire.
pub record IsAttribute (a : RawAttribute) : Type 0 where
  pub typ : IsU16 a.typ
  pub current : (a.typ == 0x8020) ≡ false
  pub value : IsU16 (length a.value)
  pub length_eq : a.length ≡ length a.value

nearest-ge : (n : ℕ) → n ≤ nearest_padded_value_length n
unfolding nearest_padded_value_length
nearest-ge n = ground arith

-- One round reads one attribute.
decode_loop-attribute :
    (fuel size offset : ℕ) (a : RawAttribute) (rest : List ℕ) (l : List RawAttribute)
    → IsAttribute a
    → offset < size
    → decode_loop (suc fuel) size offset (attribute_bytes a ++ rest) l
      ≡ decode_loop fuel size (offset + length (attribute_bytes a)) rest (l ++ (a ∷ []))
unfolding decode_loop attribute_bytes tlv compat_attr_type
decode_loop-attribute fuel size offset a rest l i h =
    let n = length a.value in
    let zeros = replicate {A = ℕ} (nearest_padded_value_length n - n) 0 in
    let z : length zeros ≡ nearest_padded_value_length n - n = length-replicate _ _ in
    let ge = nearest-ge n in
    let lens = length-append (a.value ++ zeros) rest in
    let len : from_be16 (n % 2 ^ 16 / 256 % 256) (n % 2 ^ 16 % 256) ≡ n = omega (arith, i.value) in
    let t : from_be16 (a.typ / 256 % 256) (a.typ % 256) ≡ a.typ = from_be16_lem a.typ i.typ in
    let now : ltb offset size ≡ true = ground arith in
    let room : ltb (length ((a.value ++ zeros) ++ rest)) (nearest_padded_value_length n) ≡ false =
      ground (arith, z, ge, lens, length-append a.value zeros) in
    let v : take n ((a.value ++ zeros) ++ rest) ≡ a.value =
      ap (take n) (append_assoc a.value zeros rest) ∙ take-append_eq n a.value _ refl in
    let r : drop (nearest_padded_value_length n) ((a.value ++ zeros) ++ rest) ≡ rest =
      drop-append_eq _ (a.value ++ zeros) rest
        (omega (arith, z, ge, length-append a.value zeros)) in
    let all : offset + 4 + nearest_padded_value_length n ≡ offset + length (attribute_bytes a) =
      omega (arith, length-attribute_bytes a, ge) in
    let e : ltb (length (attribute_bytes a ++ rest)) 4 ≡ false = ground arith in
    rw (len, t, i.current, now, room, v, r, all, e)
      (ap
        (λ k.
          decode_loop fuel size (offset + length (attribute_bytes a)) rest
            (l ++ (record a { length = k } ∷ [])))
        (sym i.length_eq))

no_more :
    (fuel size offset : ℕ) (l : List RawAttribute)
    → ltb offset size ≡ false
    → decode_loop (suc fuel) size offset [] l ≡ some (l, none)
unfolding decode_loop
no_more fuel size offset l h = rw h refl

-- Enough fuel reads all the attributes of a body, and no error.
pub decode_loop-body :
    (fuel size offset : ℕ) (as' l : List RawAttribute)
    → All IsAttribute as'
    → size ≡ offset + length (body as')
    → size - offset < fuel
    → decode_loop fuel size offset (body as') l ≡ some (l ++ as', none)
unfolding body
decode_loop-body zero size offset as' l i e h = absurd (omega arith)
decode_loop-body (suc fuel) size offset [] l i e h =
    let past : ltb offset size ≡ false = ground arith in
    rw (append-nil l) (no_more fuel size offset l past)
decode_loop-body (suc fuel) size offset (a ∷ as') l (i, j) e h =
    let k = length-attribute_bytes a in
    let m = length-append (attribute_bytes a) (body as') in
    decode_loop-attribute fuel size offset a (body as') l i (omega arith)
    ∙ decode_loop-body fuel size (offset + length (attribute_bytes a)) as' (l ++ (a ∷ [])) j
        (omega arith) (omega arith)
    ∙ ap (λ x. some (x, none)) (append_assoc l (a ∷ []) as')

-- The message with the header of its bytes and some attributes.
abbrev pub decoded : Message → List RawAttribute → Message
decoded m l =
    let b = m.raw in
    record m {
      typ = read_value (from_be16 (get_or b 0 0) (get_or b 1 0));
      length = from_be16 (get_or b 2 0) (get_or b 3 0);
      transaction_id = take 12 (drop 8 b);
      attributes = l;
    }

decode_attributes_lem :
    (m : Message) (l : List RawAttribute) (error : Option MessageError)
    → (let size = from_be16 (get_or m.raw 2 0) (get_or m.raw 3 0) in
        decode_loop (suc size) size 0 (take size (drop 20 m.raw)) [] ≡ some (l, error))
    → decode_attributes m ≡ some (decoded m l, error)
unfolding decode_attributes with_attributes
decode_attributes_lem m l error h = ap (with_attributes (decoded m m.attributes)) h

decode_attributes-total :
    (m : Message) → (n : Message) × (e : Option MessageError) × (decode_attributes m ≡ some (n, e))
decode_attributes-total m =
    let b = m.raw in
    let size = from_be16 (get_or b 2 0) (get_or b 3 0) in
    let ((l, error), k) =
      decode_loop-total (suc size) size 0 (take size (drop 20 b)) [] (omega arith) in
    (decoded m l, error, decode_attributes_lem m l error k)

-- A message with a header that is accepted.
pub decode_accepted :
    (m : Message) (l : List RawAttribute)
    → ltb (length m.raw) 20 ≡ false
    → (from_be32 (get_or m.raw 4 0) (get_or m.raw 5 0) (get_or m.raw 6 0) (get_or m.raw 7 0)
        == magic_cookie)
      ≡ true
    → ltb (length m.raw) (20 + from_be16 (get_or m.raw 2 0) (get_or m.raw 3 0)) ≡ false
    → (let size = from_be16 (get_or m.raw 2 0) (get_or m.raw 3 0) in
        decode_loop (suc size) size 0 (take size (drop 20 m.raw)) [] ≡ some (l, none))
    → decode m ≡ some (decoded m l, none)
unfolding decode
decode_accepted m l e f g h = rw (e, f, g) (decode_attributes_lem m l none h)

-- `decode` ends on every message, whatever its bytes: the fuel that it gives the loop is enough.
pub decode-total :
    (m : Message) → (n : Message) × (e : Option MessageError) × (decode m ≡ some (n, e))
unfolding decode
decode-total m =
    let b = m.raw in
    let size = from_be16 (get_or b 2 0) (get_or b 3 0) in
    let cookie = from_be32 (get_or b 4 0) (get_or b 5 0) (get_or b 6 0) (get_or b 7 0) in
    elim (Bool-cases (ltb (length b) 20)) [
      | inl e ↦ (m, some MessageError.unexpected_header_eof, rw e refl)
      | inr e ↦ elim (Bool-cases (cookie == magic_cookie)) [
        | inr f ↦ (m, some (MessageError.invalid_magic_cookie cookie), rw (e, f) refl)
        | inl f ↦ elim (Bool-cases (ltb (length b) (20 + size))) [
          | inl g ↦ (m, some (MessageError.short_message (length b) (20 + size)), rw (e, f, g) refl)
          | inr g ↦ rw (e, f, g) (decode_attributes-total m)
        ]
      ]
    ]
