-- ===== src/Stun/Message/Layout.antt =====
-- What `add` and `encode` write, as the layout of RFC 5389, section 6 and 15.
use ortc.Common.{
  ap₂, ℕ, ◌+◌, ◌-◌, ◌%◌, ◌^◌, ◌≤◌, ◌<◌, ◌≡◌, refl, ap, sym, ◌∙◌, true, false, List, [], ◌∷◌, ◌++◌,
  length, replicate, ◌==◌, leb, arith, length-append, length-replicate, take-append_eq, drop_all,
  append-nil, append_assoc, take_all, Bool-cases, inl, inr,
}
use ortc.Common.Bytes.{be16, be32}
use ortc.Stun.MessageType.{value}
use ortc.Stun.Attributes.{RawAttribute, nearest_padded_value_length, padding}
use ortc.Stun.Message.{
  Message, magic_cookie, write_at, grow, tlv, add_padded, add, write_length, write_type,
  write_header, add_all, write_attributes, encode,
}

abbrev pub header : ℕ → ℕ → List ℕ → List ℕ
header t n id = be16 t (be16 n (be32 magic_cookie id))

abbrev pad : ℕ → ℕ
pad n = nearest_padded_value_length n - n

unfoldable pub attribute_bytes : RawAttribute → List ℕ
attribute_bytes a = tlv a.typ a.value ++ replicate (pad (length a.value)) 0

unfoldable pub body : List RawAttribute → List ℕ
body [] = []
body (a ∷ l) = attribute_bytes a ++ body l

grow_to :
    (raw : List ℕ) (n : ℕ) → length raw ≤ n → grow raw n true ≡ raw ++ replicate (n - length raw) 0
unfolding grow
grow_to raw n h = elim (Bool-cases (leb n (length raw))) [
  | inr e ↦ rw e refl
  | inl e ↦
      let z : n - length raw ≡ 0 = ground (arith, e) in
      rw (e, z) (take_all n raw (ground (arith, e)) ∙ sym (append-nil raw))
]

write_at_end :
    (at : ℕ) (p v z : List ℕ)
    → length p ≡ at
    → length z ≤ length v
    → write_at at v (p ++ z) ≡ p ++ v
unfolding write_at
write_at_end at p v z e h =
    rw
      (
        take-append_eq at p z e,
        drop_all (at + length v) (p ++ z) (omega (arith, length-append p z)),
      )
      (ap (λ r. p ++ r) (append-nil v))

-- Growing by the room for `v` and writing it there appends it.
append_lem :
    (at n : ℕ) (p v : List ℕ)
    → length p ≡ at
    → n ≡ at + length v
    → write_at at v (grow p n true) ≡ p ++ v
append_lem at n p v e h =
    ap (write_at at v) (grow_to p n (omega arith))
    ∙ write_at_end at p v (replicate (n - length p) 0) e
        (omega (arith, length-replicate {A = ℕ} (n - length p) 0))

length-tlv : (t : ℕ) (v : List ℕ) → length (tlv t v) ≡ 4 + length v
unfolding tlv
length-tlv t v = omega arith

pub length-attribute_bytes :
    (a : RawAttribute) → length (attribute_bytes a) ≡ 4 + length a.value + pad (length a.value)
unfolding attribute_bytes
length-attribute_bytes a = omega (
  arith,
  length-append (tlv a.typ a.value) (replicate (pad (length a.value)) 0),
  length-tlv a.typ a.value,
  length-replicate {A = ℕ} (pad (length a.value)) 0,
)

pad_lt : (n : ℕ) → pad n < 4
unfolding nearest_padded_value_length
pad_lt n = ground arith

pad-zero : (n : ℕ) → (n % 2 ^ 16 % padding == 0) ≡ true → pad n ≡ 0
unfolding nearest_padded_value_length
pad-zero n h = ground arith

-- `write_length` on bytes that hold a header.
write_length-header :
    (t n x : ℕ) (id r : List ℕ)
    → write_at 2 (be16 x []) (grow (header t n id ++ r) 4 false) ≡ header t x id ++ r
unfolding write_at grow
write_length-header t n x id r = ground arith

abbrev pair : List ℕ → ℕ → List ℕ × ℕ
pair r n = (r, n)

-- `add` appends the type, the length, the value and the padding.
add_padded_lem :
    (raw v : List ℕ) (len t : ℕ)
    → length raw ≡ 20 + len
    → len + length v + 8 < 2 ^ 32
    → add_padded raw len t v
      ≡ (raw ++ (tlv t v ++ replicate (pad (length v)) 0), len + (4 + length v + pad (length v)))
unfolding add_padded
add_padded_lem raw v len t e h =
    let n = length v in
    let first =
      append_lem (20 + len) (20 + len + (4 + n)) raw (tlv t v) e (omega (arith, length-tlv t v)) in
    let second =
      append_lem (20 + len + (4 + n)) (20 + len + (4 + n) + pad n) (raw ++ tlv t v)
        (replicate (pad n) 0) (omega (arith, length-append raw (tlv t v), length-tlv t v))
        (omega (arith, length-replicate {A = ℕ} (pad n) 0)) in
    let small = pad_lt n in
    elim (Bool-cases (n % 2 ^ 16 % padding == 0)) [
      | inl z ↦
          let p = pad-zero n z in
          rw (z, p, first)
            (ap₂ pair (ap (λ r. raw ++ r) (sym (append-nil (tlv t v)))) (omega arith))
      | inr z ↦
          rw (z, first)
            (ap₂ pair (second ∙ append_assoc raw (tlv t v) (replicate (pad n) 0)) (omega arith))
    ]

-- The bytes of a message: a header and a body of the length that the message has.
record IsLaid (m : Message) (t n : ℕ) (id b : List ℕ) : Type 0 where
  pub raw : m.raw ≡ header t n id ++ b
  pub length_eq : m.length ≡ length b
  id_length : length id ≡ 12

add-IsLaid :
    (m : Message) (t n : ℕ) (id b : List ℕ) (a : RawAttribute)
    → IsLaid m t n id b
    → length b + length (attribute_bytes a) < 2 ^ 16
    → IsLaid (add m a.typ a.value) t (length (b ++ attribute_bytes a)) id (b ++ attribute_bytes a)
unfolding add write_length attribute_bytes
add-IsLaid m t n id b a i h =
    let v = a.value in
    let ab = tlv a.typ v ++ replicate (pad (length v)) 0 in
    let l1 = length-attribute_bytes a in
    let l2 = length-append b ab in
    let room : length m.raw ≡ 20 + m.length =
      omega (arith, ap length i.raw, length-append id b, i.length_eq, i.id_length) in
    let e = add_padded_lem m.raw v m.length a.typ room (omega (arith, i.length_eq)) in
    let p : m.raw ++ ab ≡ header t n id ++ (b ++ ab) =
      ap (λ r. r ++ ab) i.raw ∙ append_assoc (header t n id) b ab in
    let len : m.length + (4 + length v + pad (length v)) ≡ length (b ++ ab) =
      omega (arith, i.length_eq) in
    record {
      raw =
          rw (e, len, p)
            (write_length-header t n (length (b ++ ab) % 2 ^ 16) id (b ++ ab)
              ∙ ap (λ x. header t x id ++ (b ++ ab)) (omega arith));
      length_eq = rw e len;
      id_length = i.id_length;
    }

add_all-IsLaid :
    (m : Message) (t : ℕ) (id b : List ℕ) (l : List RawAttribute)
    → IsLaid m t (length b) id b
    → length b + length (body l) < 2 ^ 16
    → IsLaid (add_all l m) t (length (b ++ body l)) id (b ++ body l)
unfolding add_all body
add_all-IsLaid m t id b [] i h = rw (append-nil b) i
add_all-IsLaid m t id b (a ∷ l) i h =
    let e = append_assoc b (attribute_bytes a) (body l) in
    let k = length-append (attribute_bytes a) (body l) in
    rw (sym e) (
      add_all-IsLaid (add m a.typ a.value) t id (b ++ attribute_bytes a) l
        (add-IsLaid m t (length b) id b a i (omega arith))
        (omega (arith, length-append b (attribute_bytes a))))

write_header-IsLaid :
    (m : Message)
    → length m.transaction_id ≡ 12
    → (write_header (record m { raw = [] })).raw
      ≡ header (value m.typ) (m.length % 2 ^ 16) m.transaction_id ++ []
unfolding write_header write_type write_length write_at grow
write_header-IsLaid m h = rw h refl

add_all-header :
    (l : List RawAttribute) (m : Message) (t n : ℕ) (id : List ℕ)
    → IsLaid m t n id []
    → (l ≡ [] → n ≡ 0)
    → length (body l) < 2 ^ 16
    → (add_all l m).raw ≡ header t (length (body l)) id ++ body l
unfolding add_all body
add_all-header [] m t n id i z h = i.raw ∙ ap (λ x. header t x id ++ []) (z refl)
add_all-header (a ∷ l) m t n id i z h =
    let k = length-append (attribute_bytes a) (body l) in
    (add_all-IsLaid (add m a.typ a.value) t id (attribute_bytes a) l
      (add-IsLaid m t n id [] a i (omega arith)) (omega arith)).raw

-- The bytes that `encode` writes: the header with the length of the body, and the attributes one
-- after the other, each padded; for a transaction id of twelve bytes and a body whose length fits
-- the length field, where a message without attributes has length 0.
pub raw-encode :
    (m : Message)
    → length m.transaction_id ≡ 12
    → length (body m.attributes) < 2 ^ 16
    → (m.attributes ≡ [] → m.length ≡ 0)
    → (encode m).raw
      ≡ header (value m.typ) (length (body m.attributes)) m.transaction_id ++ body m.attributes
unfolding encode write_attributes
raw-encode m h k z =
    add_all-header m.attributes
      (record (write_header (record m { raw = [] })) { length = 0; attributes = [] }) (value m.typ)
      (m.length % 2 ^ 16) m.transaction_id
      (record { raw = write_header-IsLaid m h; length_eq = refl; id_length = h })
      (λ e. ground (arith, z e)) k
