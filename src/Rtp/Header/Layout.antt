-- ===== src/Rtp/Header/Layout.antt =====
-- The bytes of an RTP header (RFC 3550, section 5.1, and RFC 8285), and the headers that have such
-- bytes.
use ortc.Common.{
  ℕ, zero, ◌+◌, ◌-◌, ◌*◌, ◌/◌, ◌%◌, ◌^◌, ◌≤◌, ◌<◌, ◌≡◌, refl, ◌∙◌, Bool, true, false, ◌||◌,
  holds_below, holds_below-at, List, [], ◌∷◌, ◌++◌, length, ◌==◌, if◌then◌else◌, arith, All, bit_of,
  ==_iff, replicate, length-append, length-replicate, Bool-cases, inl, inr,
}
use ortc.Common.Bytes.{be16, be32, IsU16, IsU32}
use ortc.Rtp.Header.{
  Header, Extension, extension_profile_one_byte, extension_profile_two_byte,
  get_extension_payload_len, payloads_len, extension_header_len, marshal_size,
}
use ortc.Rtp.Header.Marshal.{first_byte, second_byte, one_byte_head}

unfoldable pub csrc_bytes : List ℕ → List ℕ
csrc_bytes [] = []
csrc_bytes (c ∷ l) = be32 c (csrc_bytes l)

unfoldable pub one_byte_bytes : List Extension → List ℕ
one_byte_bytes [] = []
one_byte_bytes (e ∷ l) = (e.id * 16 + (length e.payload - 1)) ∷ (e.payload ++ one_byte_bytes l)

unfoldable pub two_byte_bytes : List Extension → List ℕ
two_byte_bytes [] = []
two_byte_bytes (e ∷ l) = e.id ∷ length e.payload ∷ (e.payload ++ two_byte_bytes l)

unfoldable pub single_bytes : List Extension → List ℕ
single_bytes [] = []
single_bytes (e ∷ l) = e.payload

unfoldable pub extension_bytes : ℕ → List Extension → List ℕ
unfolding one_byte_bytes two_byte_bytes single_bytes
extension_bytes profile l =
    if profile == extension_profile_one_byte
    then one_byte_bytes l
    else (if profile == extension_profile_two_byte then two_byte_bytes l else single_bytes l)

-- The words of the block of extensions.
unfoldable pub words : Header → ℕ
unfolding get_extension_payload_len
words h = (get_extension_payload_len h + 3) / 4

unfoldable pub block_bytes : Header → List ℕ
unfolding extension_bytes words get_extension_payload_len
block_bytes h =
    be16 h.extension_profile []
    ++ (be16 (words h) []
        ++ (extension_bytes h.extension_profile h.extensions
            ++ replicate (words h * 4 - get_extension_payload_len h) 0))

unfoldable pub fixed_bytes : Header → List ℕ
unfolding csrc_bytes
fixed_bytes h =
    (h.version * 64 + bit_of h.padding * 32 + bit_of h.extension * 16 + length h.csrc)
    ∷ (bit_of h.marker * 128 + h.payload_type)
    ∷ be16 h.sequence_number (be32 h.timestamp (be32 h.ssrc (csrc_bytes h.csrc)))

unfoldable pub layout : Header → List ℕ
unfolding fixed_bytes block_bytes
layout h = fixed_bytes h ++ (if h.extension then block_bytes h else [])

abbrev pub IsOneByte : Extension → Type 0
IsOneByte e = (1 ≤ e.id) × (e.id ≤ 14) × (1 ≤ length e.payload) × (length e.payload ≤ 16)

abbrev pub IsTwoByte : Extension → Type 0
IsTwoByte e = (1 ≤ e.id) × (e.id ≤ 255) × (length e.payload ≤ 255)

-- One payload of whole words, without an id.
abbrev pub IsSingle : List Extension → Type 0
IsSingle [] = ⊥
IsSingle (e ∷ []) = (e.id ≡ 0) × (length e.payload % 4 ≡ 0)
IsSingle (e ∷ f ∷ l) = ⊥

-- Extensions that their profile can carry.
abbrev pub IsExtensions : ℕ → List Extension → Type 0
IsExtensions profile l =
    if profile == extension_profile_one_byte
    then All IsOneByte l
    else (if profile == extension_profile_two_byte then All IsTwoByte l else IsSingle l)

-- Numbers that fit their fields, and extensions that fit their profile, with none where there are
-- to be none.
pub record IsHeader (h : Header) : Type 0 where
  pub version : h.version < 4
  pub payload_type : h.payload_type < 128
  pub sequence_number : IsU16 h.sequence_number
  pub timestamp : IsU32 h.timestamp
  pub ssrc : IsU32 h.ssrc
  pub few : length h.csrc < 16
  pub csrc : All IsU32 h.csrc
  pub profile : IsU16 h.extension_profile
  pub size : get_extension_payload_len h + 3 < 2 ^ 16
  pub extensions : h.extension ≡ true → IsExtensions h.extension_profile h.extensions
  pub without : h.extension ≡ false → (h.extension_profile ≡ 0) × (h.extensions ≡ [])

-- The bit operations of the three packed bytes are sums, where the fields fit: by their tables.
abbrev first_byte_test : Bool → Bool → ℕ → ℕ → Bool
first_byte_test padding extension version cc =
    first_byte version cc padding extension
    == version * 64 + bit_of padding * 32 + bit_of extension * 16 + cc

first_byte_table :
    (padding extension : Bool)
    → holds_below (λ v. holds_below (first_byte_test padding extension v) 16) 4 ≡ true
unfolding holds_below first_byte
first_byte_table true true = refl
first_byte_table true false = refl
first_byte_table false true = refl
first_byte_table false false = refl

pub first_byte_lem :
    (version cc : ℕ) (padding extension : Bool)
    → version < 4
    → cc < 16
    → first_byte version cc padding extension
      ≡ version * 64 + bit_of padding * 32 + bit_of extension * 16 + cc
first_byte_lem version cc padding extension hv hc = (==_iff _ _).0 (
    holds_below-at (first_byte_test padding extension version) 16 cc hc (
      holds_below-at (λ v. holds_below (first_byte_test padding extension v) 16) 4 version hv
        (first_byte_table padding extension)))

second_byte_table : holds_below (λ p. second_byte p true == 128 + p) 128 ≡ true
unfolding holds_below second_byte
second_byte_table = refl

pub second_byte_lem :
    (payload_type : ℕ) (marker : Bool)
    → payload_type < 128
    → second_byte payload_type marker ≡ bit_of marker * 128 + payload_type
unfolding second_byte
second_byte_lem p true h =
    (==_iff _ _).0 (holds_below-at (λ x. second_byte x true == 128 + x) 128 p h second_byte_table)
    ∙ omega arith
second_byte_lem p false h = omega arith

one_byte_table :
    holds_below (λ id. holds_below (λ n. n == 0 || one_byte_head id n == id * 16 + (n - 1)) 17) 15
    ≡ true
unfolding holds_below one_byte_head
one_byte_table = refl

pub one_byte_head_lem :
    (id len : ℕ) → id ≤ 14 → 1 ≤ len → len ≤ 16 → one_byte_head id len ≡ id * 16 + (len - 1)
one_byte_head_lem id len h low high =
    let test =
      holds_below-at (λ n. n == 0 || one_byte_head id n == id * 16 + (n - 1)) 17 len (omega arith)
        (holds_below-at (λ i. holds_below (λ n. n == 0 || one_byte_head i n == i * 16 + (n - 1)) 17)
          15 id (omega arith) one_byte_table) in
    ground (arith, test)

-- The sizes of the parts.
pub length-csrc_bytes : (l : List ℕ) → length (csrc_bytes l) ≡ length l * 4
unfolding csrc_bytes
length-csrc_bytes [] = refl
length-csrc_bytes (c ∷ l) = omega (arith, length-csrc_bytes l)

length-one_byte_bytes :
    (l : List Extension) → length (one_byte_bytes l) ≡ payloads_len l + length l * 1
unfolding one_byte_bytes payloads_len
length-one_byte_bytes [] = refl
length-one_byte_bytes (e ∷ l) =
    omega (arith, length-append e.payload (one_byte_bytes l), length-one_byte_bytes l)

length-two_byte_bytes :
    (l : List Extension) → length (two_byte_bytes l) ≡ payloads_len l + length l * 2
unfolding two_byte_bytes payloads_len
length-two_byte_bytes [] = refl
length-two_byte_bytes (e ∷ l) =
    omega (arith, length-append e.payload (two_byte_bytes l), length-two_byte_bytes l)

length-single_bytes :
    (l : List Extension) → IsSingle l → length (single_bytes l) ≡ payloads_len l + length l * 0
unfolding single_bytes payloads_len
length-single_bytes [] h = elim h [ ]
length-single_bytes (e ∷ []) h = omega arith
length-single_bytes (e ∷ f ∷ l) h = elim h [ ]

pub length-extension_bytes :
    (h : Header)
    → IsExtensions h.extension_profile h.extensions
    → length (extension_bytes h.extension_profile h.extensions) ≡ get_extension_payload_len h
unfolding extension_bytes get_extension_payload_len extension_header_len
length-extension_bytes h e = elim (Bool-cases (h.extension_profile == extension_profile_one_byte)) [
  | inl one ↦ rw one (length-one_byte_bytes h.extensions)
  | inr more ↦ elim (Bool-cases (h.extension_profile == extension_profile_two_byte)) [
    | inl two ↦ rw (more, two) (length-two_byte_bytes h.extensions)
    | inr single ↦ rw (more, single) (length-single_bytes h.extensions (rw (more, single) at e))
  ]
]

pub length-block_bytes :
    (h : Header)
    → IsExtensions h.extension_profile h.extensions
    → length (block_bytes h) ≡ 4 + words h * 4
unfolding block_bytes words
length-block_bytes h e =
    let bytes = extension_bytes h.extension_profile h.extensions in
    let fill = words h * 4 - get_extension_payload_len h in
    omega (
      arith,
      length-append bytes (replicate fill (zero)),
      length-extension_bytes h e,
      length-replicate {A = ℕ} fill 0,
    )

pub length-layout : (h : Header) → IsHeader h → length (layout h) ≡ marshal_size h
unfolding layout fixed_bytes marshal_size words
length-layout h i = elim (Bool-cases h.extension) [
  | inl some_ext ↦
      let block = length-block_bytes h (i.extensions some_ext) in
      ground (
        arith,
        some_ext,
        length-csrc_bytes h.csrc,
        length-append (fixed_bytes h) (block_bytes h),
        block,
      )
  | inr none_ext ↦
      ground (arith, none_ext, length-csrc_bytes h.csrc, length-append (fixed_bytes h) [])
]
