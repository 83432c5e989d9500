-- ===== src/Rtp/Header.antt =====
-- rtc-rtp/src/header.rs: the header of an RTP packet and its extensions (RFC 3550, RFC 8285). A
-- payload is the list of its bytes.
pub mod Marshal
pub mod Layout
pub mod Written
pub mod Read
pub mod RoundTrip
pub mod Extensions
pub mod Unmarshal
use ortc.Common.{
  ℕ, ◌+◌, ◌*◌, ◌/◌, Bool, true, false, not, ◌&&◌, Option, none, some, List, [], ◌∷◌, ◌++◌, length,
  ◌==◌, ltb, leb, if◌then◌else◌,
}

abbrev pub csrc_length : ℕ
csrc_length = 4

abbrev pub extension_profile_one_byte : ℕ
extension_profile_one_byte = 0xbede

abbrev pub extension_profile_two_byte : ℕ
extension_profile_two_byte = 0x1000

abbrev pub extension_id_reserved : ℕ
extension_id_reserved = 0xf

pub record Extension : Type 0 where
  pub id : ℕ
  pub payload : List ℕ

pub record Header : Type 0 where
  pub version : ℕ
  pub padding : Bool
  pub extension : Bool
  pub marker : Bool
  pub payload_type : ℕ
  pub sequence_number : ℕ
  pub timestamp : ℕ
  pub ssrc : ℕ
  pub csrc : List ℕ
  pub extension_profile : ℕ
  pub extensions : List Extension

pub data Error : Type 0 where
  header_size_insufficient : Error
  header_size_insufficient_for_extension : Error
  buffer_too_small : Error
  header_extension_payload_not_32_bit_words : Error
  rfc8285_one_byte_header_id_range : Error
  rfc8285_one_byte_header_size : Error
  rfc8285_two_byte_header_id_range : Error
  rfc8285_two_byte_header_size : Error
  rfc3550_header_id_range : Error
  header_extensions_not_enabled : Error
  header_extension_not_found : Error
  short_packet : Error

-- The result of a function that may fail; `panic` is a call that does not return.
pub data Result {ℓ} (A : Type ℓ) : Type ℓ where
  ok : A → Result A
  err : Error → Result A
  panic : Result A

abbrev pub and_then {ℓ κ} : {A : Type ℓ} {C : Type κ} → Result A → (A → Result C) → Result C
and_then (ok a) k = k a
and_then (err e) k = err e
and_then panic k = panic

-- The bytes that a profile puts before each extension.
unfoldable pub extension_header_len : ℕ → ℕ
extension_header_len profile =
    if profile == extension_profile_one_byte
    then 1
    else (if profile == extension_profile_two_byte then 2 else 0)

unfoldable pub payloads_len : List Extension → ℕ
payloads_len [] = 0
payloads_len (e ∷ l) = length e.payload + payloads_len l

unfoldable pub get_extension_payload_len : Header → ℕ
unfolding extension_header_len payloads_len
get_extension_payload_len h =
    payloads_len h.extensions + length h.extensions * extension_header_len h.extension_profile

unfoldable pub marshal_size : Header → ℕ
unfolding get_extension_payload_len
marshal_size h =
    let head_size = 12 + length h.csrc * csrc_length in
    if h.extension then head_size + (4 + (get_extension_payload_len h + 3) / 4 * 4) else head_size

-- The checks of `set_extension` where extensions are enabled.
unfoldable pub check_extension : ℕ → ℕ → List ℕ → Option Error
check_extension profile id payload =
    if profile == extension_profile_one_byte
    then (if not (leb 1 id && leb id 14)
        then some rfc8285_one_byte_header_id_range
        else (if ltb 16 (length payload) then some rfc8285_one_byte_header_size else none))
    else (if profile == extension_profile_two_byte
        then (if ltb id 1
            then some rfc8285_two_byte_header_id_range
            else (if ltb 255 (length payload) then some rfc8285_two_byte_header_size else none))
        else (if not (id == 0) then some rfc3550_header_id_range else none))

-- The first extension with the id gets the payload; without one there is a new extension.
unfoldable pub update_or_push : ℕ → List ℕ → List Extension → List Extension
update_or_push id payload [] = record { id = id; payload = payload } ∷ []
update_or_push id payload (e ∷ l) =
    if e.id == id then record e { payload = payload } ∷ l else e ∷ update_or_push id payload l

-- The profile that the first extension chooses by its size.
unfoldable chosen_profile : ℕ → ℕ → ℕ
chosen_profile profile size =
    if leb size 16
    then extension_profile_one_byte
    else (if leb size 255 then extension_profile_two_byte else profile)

unfoldable pub set_extension : Header → ℕ → List ℕ → Header × Option Error
unfolding check_extension update_or_push chosen_profile
set_extension h id payload =
    if h.extension
    then elim (check_extension h.extension_profile id payload) [
      | some e ↦ (h, some e)
      | none ↦ (record h { extensions = update_or_push id payload h.extensions }, none)
    ]
    else (
      record h {
        extension = true;
        extension_profile = chosen_profile h.extension_profile (length payload);
        extensions = h.extensions ++ (record { id = id; payload = payload } ∷ []);
      },
      none,
    )

unfoldable ids : List Extension → List ℕ
ids [] = []
ids (e ∷ l) = e.id ∷ ids l

unfoldable get_extension_ids : Header → List ℕ
unfolding ids
get_extension_ids h = if h.extension then ids h.extensions else []

unfoldable pub find_extension : ℕ → List Extension → Option (List ℕ)
find_extension id [] = none
find_extension id (e ∷ l) = if e.id == id then some e.payload else find_extension id l

unfoldable pub get_extension : Header → ℕ → Option (List ℕ)
unfolding find_extension
get_extension h id = if h.extension then find_extension id h.extensions else none

-- The list without the first extension that has the id, if there is one.
unfoldable remove_extension : ℕ → List Extension → Option (List Extension)
remove_extension id [] = none
remove_extension id (e ∷ l) =
    if e.id == id
    then some l
    else elim (remove_extension id l) [ none ↦ none | some k ↦ some (e ∷ k) ]

unfoldable del_extension : Header → ℕ → Header × Option Error
unfolding remove_extension
del_extension h id =
    if h.extension
    then elim (remove_extension id h.extensions) [
      | some l ↦ (record h { extensions = l }, none)
      | none ↦ (h, some header_extension_not_found)
    ]
    else (h, some header_extensions_not_enabled)
