-- ===== src/Rtp/Packet/RoundTrip.antt =====
-- An RTP packet on the wire, and back.
use ortc.Common.{
  ℕ, zero, suc, ◌+◌, ◌-◌, ◌%◌, ◌≤◌, ◌<◌, ◌≡◌, refl, ap, ap₂, sym, ◌∙◌, true, false, List, [], ◌∷◌,
  ◌++◌, length, take, get_or, replicate, ltb, leb, if◌then◌else◌, arith, append-nil, append_assoc,
  take_all, length-append, length-replicate, take-append_eq, Bool-cases, if_true, if_false, inl,
  inr,
}
use ortc.Common.Buffer.{Buf, BufMut, IsBuf, IsBufMut}
use ortc.Common.Writing.{Writes, Writes-nothing, Writes-trans, Writes-eq, Writes-u8, Writes-slice}
use ortc.Rtp.Header.{Header, ok, and_then}
use ortc.Rtp.Header.Layout.{IsHeader}
use ortc.Rtp.Header.Layout
use ortc.Rtp.Header.Written.{marshal_to-Writes}
use ortc.Rtp.Header.RoundTrip.{unmarshal-layout}
use ortc.Rtp.Packet.{
  Packet, get_padding, padding_len, marshal_size, with_payload, unmarshal, put_padding, marshal_to,
}

-- `n` bytes of padding, whose last is `n` (RFC 3550, section 5.1).
unfoldable padding_bytes : ℕ → List ℕ
padding_bytes zero = []
padding_bytes (suc n) = replicate n 0 ++ (suc n ∷ [])

abbrev padding_of : Packet → ℕ
padding_of p = if p.header.padding then padding_len (length p.payload) else 0

unfoldable layout : Packet → List ℕ
unfolding padding_bytes
layout p = Layout.layout p.header ++ (p.payload ++ padding_bytes (padding_of p))

length-padding_bytes : (n : ℕ) → length (padding_bytes n) ≡ n
unfolding padding_bytes
length-padding_bytes zero = refl
length-padding_bytes (suc n) =
    omega (arith, length-append (replicate n (zero)) (suc n ∷ []), length-replicate {A = ℕ} n 0)

padding_len_lem : (n : ℕ) → (1 ≤ padding_len n) × (padding_len n ≤ 4)
unfolding padding_len get_padding
padding_len_lem n = ground arith

get_or-append_last : (xs : List ℕ) (y d : ℕ) → get_or (xs ++ (y ∷ [])) (length xs) d ≡ y
get_or-append_last [] y d = refl
get_or-append_last (x ∷ xs) y d = get_or-append_last xs y d

-- The last byte behind a payload with padding.
last_padding :
    (xs : List ℕ) (n : ℕ)
    → let l = xs ++ padding_bytes (suc n) in
      (length l ≡ length xs + suc n) × (get_or l (length l - 1) 0 ≡ suc n)
unfolding padding_bytes
last_padding xs n =
    let zeros = replicate n (zero) in
    let size : length (xs ++ (zeros ++ (suc n ∷ []))) ≡ length xs + suc n = omega (
      arith,
      length-append xs (zeros ++ (suc n ∷ [])),
      length-append zeros (suc n ∷ []),
      length-replicate {A = ℕ} n 0,
    ) in
    let at : length (xs ++ (zeros ++ (suc n ∷ []))) - 1 ≡ length (xs ++ zeros) =
      omega (arith, size, length-append xs zeros, length-replicate {A = ℕ} n 0) in
    (
      size,
      ap₂ (λ (l : List ℕ) (k : ℕ). get_or l k 0) (sym (append_assoc xs zeros (suc n ∷ []))) at
          ∙ get_or-append_last (xs ++ zeros) (suc n) 0,
    )

with_payload-padded :
    (h : Header) (xs : List ℕ) (n : ℕ)
    → h.padding ≡ true
    → with_payload h (xs ++ padding_bytes (suc n)) ≡ ok (record { header = h; payload = xs })
unfolding with_payload
with_payload-padded h xs n on =
    let (size, last) = last_padding xs n in
    let l = xs ++ padding_bytes (suc n) in
    let full : ltb 0 (length l) ≡ true = ground (arith, size) in
    let fits : leb (suc n) (length l) ≡ true = ground (arith, size) in
    let cut : take (length l - suc n) l ≡ xs =
      take-append_eq (length l - suc n) xs (padding_bytes (suc n)) (omega (arith, size)) in
    ground (arith, on, full, last, fits, cut)

with_payload-plain :
    (h : Header) (xs : List ℕ)
    → h.padding ≡ false
    → with_payload h xs ≡ ok (record { header = h; payload = xs })
unfolding with_payload
with_payload-plain h xs off = ground (arith, off)

append-padding_bytes : (xs : List ℕ) → xs ++ padding_bytes 0 ≡ xs
unfolding padding_bytes
append-padding_bytes xs = append-nil xs

with_payload-layout :
    (p : Packet) → with_payload p.header (p.payload ++ padding_bytes (padding_of p)) ≡ ok p
with_payload-layout p = elim (Bool-cases p.header.padding) [
  | inl on ↦
      let n = padding_len (length p.payload) in
      let some_padding = padding_len_lem (length p.payload) in
      let size : padding_of p ≡ suc (n - 1) = if_true n 0 on ∙ omega arith in
      ap (λ (k : ℕ). with_payload p.header (p.payload ++ padding_bytes k)) size
      ∙ with_payload-padded p.header p.payload (n - 1) on
  | inr off ↦
      ap (λ (k : ℕ). with_payload p.header (p.payload ++ padding_bytes k))
        (if_false (padding_len (length p.payload)) 0 off)
      ∙ ap (with_payload p.header) (append-padding_bytes p.payload)
      ∙ with_payload-plain p.header p.payload off
]

module _ {B : Type 0} (buf : Buf B) (contents : B → List ℕ) (i : IsBuf buf contents) where
  unmarshal_packet :
      (p : Packet) (b : B) → IsHeader p.header → contents b ≡ layout p → unmarshal buf b ≡ ok p
  unfolding layout unmarshal
  unmarshal_packet p b v e =
      let (c, run, rest) = unmarshal-layout buf contents i p.header b _ v e in
      let n = buf.remaining c in
      let all = (i.copy_to_bytes_eq n c (omega (arith, i.remaining_eq c))).0 in
      let bytes : (buf.copy_to_bytes n c).0 ≡ p.payload ++ padding_bytes (padding_of p) =
        all ∙ take_all n (contents c) (omega (arith, i.remaining_eq c)) ∙ rest in
      ap
        (λ r.
          and_then r
            (λ (s : Header × B). with_payload s.0 (buf.copy_to_bytes (buf.remaining s.1) s.1).0))
        run
      ∙ ap (with_payload p.header) bytes
      ∙ with_payload-layout p

module _ {W : Type 0} (buf : BufMut W) (written : W → List ℕ) (i : IsBufMut buf written) where
  put_padding-Writes :
      (n len : ℕ) (w : W)
      → n < len + 1
      → len ≤ 4
      → suc n ≤ buf.remaining_mut w
      → Writes buf written w (replicate n 0 ++ (len ∷ [])) (put_padding buf (suc n) len w)
  unfolding put_padding
  put_padding-Writes zero len w h small room =
      let byte : len % 256 ≡ len = omega arith in
      Writes-eq buf written (ap (λ (x : ℕ). x ∷ []) byte) (Writes-u8 buf written i w len room)
  put_padding-Writes (suc n) len w h small room =
      let first = Writes-u8 buf written i w 0 (omega arith) in
      Writes-trans buf written (0 ∷ []) (replicate n 0 ++ (len ∷ [])) first
        (put_padding-Writes n len (buf.put_u8 w 0) (omega arith) small (omega (arith, first.1)))

  put_padding_bytes :
      (n : ℕ) (w : W)
      → n ≤ 4
      → n ≤ buf.remaining_mut w
      → Writes buf written w (padding_bytes n) (put_padding buf n n w)
  unfolding padding_bytes put_padding
  put_padding_bytes zero w small room = Writes-nothing buf written w
  put_padding_bytes (suc n) w small room = put_padding-Writes n (suc n) w (omega arith) small room

  marshal_packet :
      (p : Packet) (w : W)
      → IsHeader p.header
      → marshal_size p ≤ buf.remaining_mut w
      → (v : W) × (marshal_to buf p w ≡ ok (marshal_size p, v)) × Writes buf written w (layout p) v
  unfolding layout marshal_to marshal_size
  marshal_packet p w v room =
      let n = length p.payload in
      let k = padding_of p in
      let small : k ≤ 4 = ground (arith, padding_len_lem n) in
      let (u, run, first) = marshal_to-Writes buf written i p.header w v (omega arith) in
      let size = Layout.length-layout p.header v in
      let second = Writes-slice buf written i u p.payload (omega (arith, first.1, size)) in
      let third =
        put_padding_bytes k (buf.put_slice u p.payload) small
          (omega (arith, first.1, second.1, size)) in
      let all = Writes-trans buf written _ _ first (Writes-trans buf written _ _ second third) in
      let long : ltb (buf.remaining_mut w) (marshal_size p) ≡ false =
        unfold marshal_size in ground arith in
      (
        put_padding buf k k (buf.put_slice u p.payload),
        if_false _ _ long
            ∙ ap
                (λ r. and_then r (λ (s : ℕ × W).
                  ok (s.0 + n + k, put_padding buf k k (buf.put_slice s.1 p.payload))))
                run,
        all,
      )

-- A packet that is written, where there is room, and then read comes back: `marshal_to` returns
-- `marshal_size` and has put as many bytes, and `unmarshal` of these bytes gives the packet, padding or
-- not, over buffers that do what the crate documents; for a header whose numbers, the length of the
-- extension block included, fit their fields and whose extensions fit their profile, with none and profile 0 where the header says that it has none.
pub unmarshal-marshal_to :
    {B W : Type 0} (buf : Buf B) (contents : B → List ℕ) (out : BufMut W) (written : W → List ℕ)
    → IsBuf buf contents
    → IsBufMut out written
    → (p : Packet) (w : W) → IsHeader p.header
    → marshal_size p ≤ out.remaining_mut w
    → (v : W) × (bytes : List ℕ) × (marshal_to out p w ≡ ok (marshal_size p, v))
      × (written v ≡ written w ++ bytes)
      × (out.remaining_mut v + length bytes ≡ out.remaining_mut w)
      × ((b : B) → contents b ≡ bytes → unmarshal buf b ≡ ok p)
unmarshal-marshal_to buf contents out written i j p w h room =
    let (v, run, put) = marshal_packet out written j p w h room in
    (v, layout p, run, put.0, put.1, λ b e. unmarshal_packet buf contents i p b h e)
