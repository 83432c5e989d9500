-- ===== src/Rtp/Header/Extensions.antt =====
-- The extensions of an RTP header as a table by their ids.
use ortc.Common.{
  ℕ, ◌≤◌, ◌<◌, ◌≡◌, ◌⊎◌, refl, true, none, some, List, [], ◌∷◌, length, ◌==◌, if◌then◌else◌, arith,
  All, Bool-cases, Option-cases, inl, inr,
}
use ortc.Rtp.Header.{
  Header, Extension, Error, extension_profile_one_byte, extension_profile_two_byte, check_extension,
  update_or_push, set_extension, find_extension, get_extension,
}
use ortc.Rtp.Header.Layout.{IsOneByte, IsTwoByte, IsExtensions}

find-update_or_push :
    (id j : ℕ) (payload : List ℕ) (l : List Extension)
    → find_extension j (update_or_push id payload l)
      ≡ (if id == j then some payload else find_extension j l)
unfolding find_extension update_or_push
find-update_or_push id j payload [] = refl
find-update_or_push id j payload (e ∷ l) = ground (arith, find-update_or_push id j payload l)

All-update_or_push :
    (P : Extension → Type 0) (id : ℕ) (payload : List ℕ) (l : List Extension)
    → P (record { id = id; payload = payload })
    → All P l
    → All P (update_or_push id payload l)
unfolding update_or_push
All-update_or_push P id payload [] p h = (p, tt)
All-update_or_push P id payload (e ∷ l) p (q, h) = elim (Bool-cases (e.id == id)) [
  | inl same ↦ let s : id ≡ e.id = ground arith in rw same (rw s at p, h)
  | inr other ↦ rw other (q, All-update_or_push P id payload l p h)
]

-- An extension that passes the checks fits the profile, if it is not empty and its id is a u8.
update_or_push-IsExtensions :
    (profile id : ℕ) (payload : List ℕ) (l : List Extension)
    → (profile ≡ extension_profile_one_byte) ⊎ (profile ≡ extension_profile_two_byte)
    → 1 ≤ length payload
    → id < 256
    → check_extension profile id payload ≡ none
    → IsExtensions profile l
    → IsExtensions profile (update_or_push id payload l)
unfolding check_extension
update_or_push-IsExtensions profile id payload l p full small c h =
    elim (Bool-cases (profile == extension_profile_one_byte)) [
      | inl one ↦ rw one (All-update_or_push IsOneByte id payload l (ground arith) (rw one at h))
      | inr more ↦
          let two : (profile == extension_profile_two_byte) ≡ true = ground arith in
          rw (more, two)
            (All-update_or_push IsTwoByte id payload l (ground arith) (rw (more, two) at h))
    ]

set_extension_fits :
    (h : Header) (id : ℕ) (payload : List ℕ)
    → h.extension ≡ true
    → check_extension h.extension_profile id payload ≡ none
    → set_extension h id payload
      ≡ (record h { extensions = update_or_push id payload h.extensions }, none)
unfolding set_extension
set_extension_fits h id payload on fits = ground (arith, on, fits)

set_extension_fails :
    (h : Header) (id : ℕ) (payload : List ℕ) (e : Error)
    → h.extension ≡ true
    → check_extension h.extension_profile id payload ≡ some e
    → set_extension h id payload ≡ (h, some e)
unfolding set_extension
set_extension_fails h id payload e on fails = ground (arith, on, fails)

get-update_or_push :
    (h : Header) (id j : ℕ) (payload : List ℕ)
    → h.extension ≡ true
    → get_extension (record h { extensions = update_or_push id payload h.extensions }) j
      ≡ (if id == j then some payload else get_extension h j)
unfolding get_extension
get-update_or_push h id j payload on =
    ground (arith, on, find-update_or_push id j payload h.extensions)

-- In a header with extensions of one of the two profiles of RFC 8285: where `set_extension` succeeds
-- with a payload that is not empty and an id that is a u8, every extension still fits the profile,
-- `get_extension` returns the payload under the id, and under every other id what it returned
-- before; where it fails, the header is as it was.
pub set_extension_lem :
    (h : Header) (id : ℕ) (payload : List ℕ)
    → h.extension ≡ true
    → (h.extension_profile ≡ extension_profile_one_byte)
      ⊎ (h.extension_profile ≡ extension_profile_two_byte)
    → IsExtensions h.extension_profile h.extensions
    → 1 ≤ length payload
    → id < 256
    → let (g, error) = set_extension h id payload in
      (error ≡ none
        → IsExtensions g.extension_profile g.extensions
          × ((j : ℕ) → get_extension g j ≡ (if id == j then some payload else get_extension h j)))
      × ((e : Error) → error ≡ some e → g ≡ h)
set_extension_lem h id payload on p v full small =
    elim (Option-cases (check_extension h.extension_profile id payload)) [
      | inl fits ↦ rw (set_extension_fits h id payload on fits) (
        λ _. (
          update_or_push-IsExtensions h.extension_profile id payload h.extensions p full small fits
              v,
          λ j. get-update_or_push h id j payload on,
        ),
        λ e bad. absurd (ground arith),
      )
      | inr (e, fails) ↦
          rw (set_extension_fails h id payload e on fails)
            (λ success. absurd (ground arith), λ f same. refl)
    ]
