-- ===== src/Dtls/FragmentBuffer/Assembly.antt =====
-- The message that `append_message` puts together.
use ortc.Common.{
  ℕ, zero, suc, ◌+◌, ◌%◌, ◌^◌, ◌≤◌, ◌<◌, ◌≡◌, refl, ap, sym, ◌∙◌, Bool, true, false, not, ◌&&◌,
  Option, none, some, List, [], ◌∷◌, ◌++◌, length, ◌==◌, leb, bit_of, take, drop, arith, Bool-cases,
  Option-cases, inl, inr, All, append-nil, take-append-drop, take_all, length-drop, drop-drop,
}
use mathlib.Core.Path.{subst}
use ortc.Dtls.FragmentBuffer.{Fragment, find_fragment, with_data, append_message}

-- A fragment whose header's fields are u24 and that is a piece of a message, not an empty one unless
-- the message is.
pub record IsPiece (m : List ℕ) (f : Fragment) : Type 0 where
  pub small : f.handshake_header.fragment_offset + f.handshake_header.fragment_length < 2 ^ 32
  pub length_eq : f.handshake_header.length ≡ length m
  pub bytes :
      f.bytes ≡ take f.handshake_header.fragment_length (drop f.handshake_header.fragment_offset m)
  pub within : f.handshake_header.fragment_offset + f.handshake_header.fragment_length ≤ length m
  pub nonempty : (f.handshake_header.fragment_length == 0) ≡ (length m == 0)

-- How many fragments start at an offset or behind it.
abbrev from_on : ℕ → List Fragment → ℕ
from_on t [] = 0
from_on t (f ∷ l) = bit_of (leb t f.handshake_header.fragment_offset) + from_on t l

from_on_le : (t u : ℕ) (l : List Fragment) → t ≤ u → from_on u l ≤ from_on t l
from_on_le t u [] h = omega arith
from_on_le t u (f ∷ l) h = ground (arith, from_on_le t u l h)

from_on-length : (t : ℕ) (l : List Fragment) → from_on t l ≤ length l
from_on-length t [] = omega arith
from_on-length t (f ∷ l) = ground (arith, from_on-length t l)

abbrev or_else : Fragment → Option Fragment → Fragment
or_else g none = g
or_else g (some f) = f

-- What is found stands at the offset, is a piece, and is not counted behind it.
find_fragment_lem :
    (m : List ℕ) (t : ℕ) (l : List Fragment) (f : Fragment)
    → All (IsPiece m) l
    → find_fragment t l ≡ some f
    → IsPiece m f
      × (f.handshake_header.fragment_offset ≡ t)
      × ((u : ℕ) → t < u → from_on u l < from_on t l)
unfolding find_fragment
find_fragment_lem m t [] f p h = absurd (ground (arith, h))
find_fragment_lem m t (g ∷ l) f (p, ps) h =
    elim (Bool-cases (g.handshake_header.fragment_offset == t)) [
      | inl e ↦
          subst
            (λ x.
              IsPiece m x
              × (x.handshake_header.fragment_offset ≡ t)
              × ((u : ℕ) → t < u → from_on u (g ∷ l) < from_on t (g ∷ l)))
            (ap (or_else g) (rw e at h))
            (p, ground arith, λ u k. ground (arith, e, from_on_le t u l (omega arith)))
      | inr e ↦
          let (q, at, less) = find_fragment_lem m t l f ps (rw e at h) in
          (q, at, λ u k. ground (arith, less u k, e))
    ]

-- The rest of the message, joined with the piece in front of it.
piece-rest :
    (m : List ℕ) (f : Fragment) (t : ℕ)
    → IsPiece m f
    → f.handshake_header.fragment_offset ≡ t
    → f.bytes ++ drop (t + f.handshake_header.fragment_length) m ≡ drop t m
piece-rest m f t p e =
    let n = f.handshake_header.fragment_length in
    ap (λ d. d ++ drop (t + n) m) (p.bytes ∙ ap (λ k. take n (drop k m)) e)
    ∙ ap (λ r. take n (drop t m) ++ r) (sym (drop-drop n t (t + n) m refl))
    ∙ take-append-drop n (drop t m)

-- A result of `append_message` is the message from an offset on.
abbrev pub IsRest : List ℕ → ℕ → Bool × List ℕ → Type 0
IsRest m t (true, raw) = raw ≡ drop t m
IsRest m t (false, raw) = raw ≡ []

piece-joined :
    (m : List ℕ) (f : Fragment) (t : ℕ) (r : Bool × List ℕ)
    → IsPiece m f
    → f.handshake_header.fragment_offset ≡ t
    → IsRest m (f.handshake_header.fragment_offset + f.handshake_header.fragment_length) r
    → (s : Bool × List ℕ) × (with_data f.bytes (some r) ≡ some s) × IsRest m t s
unfolding with_data
piece-joined m f t (false, raw) p e h = ((false, raw), refl, h)
piece-joined m f t (true, raw) p e h =
    let n = f.handshake_header.fragment_length in
    (
      (true, f.bytes ++ raw),
      refl,
      ap (λ r. f.bytes ++ r) (h ∙ ap (λ (k : ℕ). drop (k + n) m) e) ∙ piece-rest m f t p e,
    )

-- The piece at which it stops reaches the end.
piece-last :
    (m : List ℕ) (f : Fragment) (t : ℕ)
    → IsPiece m f
    → f.handshake_header.fragment_offset ≡ t
    → (not (
          f.handshake_header.fragment_offset + f.handshake_header.fragment_length
          == f.handshake_header.length)
        && not (f.handshake_header.fragment_length == 0))
      ≡ false
    → f.bytes ++ [] ≡ drop t m
piece-last m f t p e stop =
    let n = f.handshake_header.fragment_length in
    let full : t + n ≡ length m = ground (arith, stop, p.length_eq, p.nonempty, p.within, e) in
    append-nil f.bytes
    ∙ p.bytes
    ∙ ap (λ k. take n (drop k m)) e
    ∙ take_all n (drop t m) (omega (arith, length-drop t m))

append_message-IsRest :
    (m : List ℕ) (fuel t : ℕ) (l : List Fragment)
    → All (IsPiece m) l
    → from_on t l < fuel
    → (r : Bool × List ℕ) × (append_message fuel t l [] ≡ some r) × IsRest m t r
unfolding append_message
append_message-IsRest m zero t l p h = absurd (omega arith)
append_message-IsRest m (suc fuel) t l p h = elim (Option-cases (find_fragment t l)) [
  | inl e ↦ ((false, []), rw (e, append_message) refl, refl)
  | inr (f, e) ↦
      let (q, at, less) = find_fragment_lem m t l f p e in
      let end = f.handshake_header.fragment_offset + f.handshake_header.fragment_length in
      let w : end % 2 ^ 32 ≡ end = omega (arith, q.small) in
      elim (Bool-cases
        (not (end == f.handshake_header.length) && not (f.handshake_header.fragment_length == 0))) [
          | inr stop ↦ (
            (true, f.bytes ++ []),
            rw (e, w, stop, append_message) refl,
            piece-last m f t q at stop,
          )
          | inl go ↦
              let further : t < end = ground (arith, go, at) in
              let (r, done, rest) =
                append_message-IsRest m fuel end l p (omega (arith, less end further)) in
              let (r', joined, whole) = piece-joined m f t r q at rest in
              (
                r',
                rw (e, w, go, append_message)
                    (ap (λ (k : ℕ). with_data f.bytes (append_message fuel k l [])) w
                      ∙ ap (with_data f.bytes) done
                      ∙ joined),
                whole,
              )
        ]
]

-- `append_message` ends on the fragments of a message, in whatever order they came, repeated or
-- overlapping, and when it says yes what it has put together is the message; each fragment is a
-- piece of the message at its offset, with the message's length in its header, and an empty piece
-- comes only of an empty message.
pub append_message_lem :
    (m : List ℕ) (l : List Fragment)
    → All (IsPiece m) l
    → (r : Bool × List ℕ) × (append_message (suc (length l)) 0 l [] ≡ some r) × IsRest m 0 r
append_message_lem m l p =
    append_message-IsRest m (suc (length l)) 0 l p (omega (arith, from_on-length 0 l))
