-- ===== src/Dtls/FragmentBuffer.antt =====
-- rtc-dtls/src/fragment_buffer/mod.rs: the fragments of handshake messages, and how `pop` puts a
-- message together. The headers come parsed, since the bytes are read by the byteorder crate; so
-- `push` enters as the fragment that it stores. A type of handshake message is its number.
pub mod Assembly
use ortc.Common.{
  ℕ, zero, suc, ◌+◌, ◌%◌, ◌^◌, Bool, true, false, not, ◌&&◌, Option, none, some, List, [], ◌∷◌,
  ◌++◌, length, ◌==◌, if◌then◌else◌,
}
use ortc.Common.Map

pub record HandshakeHeader : Type 0 where
  pub handshake_type : ℕ
  pub length : ℕ
  pub message_sequence : ℕ
  pub fragment_offset : ℕ
  pub fragment_length : ℕ

-- Of the record layer's header, `pop` reads the epoch.
pub record Fragment : Type 0 where
  pub epoch : ℕ
  pub handshake_header : HandshakeHeader
  pub bytes : List ℕ  -- the field `data`

pub record FragmentBuffer : Type 0 where
  pub cache : List (ℕ × List Fragment)
  pub current_message_sequence_number : ℕ

unfoldable pub new : FragmentBuffer
new = record { cache = []; current_message_sequence_number = 0 }

-- A round of the loop of `push`, on a parsed header.
unfoldable pub store : FragmentBuffer → Fragment → FragmentBuffer
store b f =
    let seq = f.handshake_header.message_sequence in
    record b {
      cache = elim (Map.get seq b.cache) [
        | none ↦ Map.insert seq (f ∷ []) b.cache
        | some l ↦ Map.insert seq (l ++ (f ∷ [])) b.cache
      ];
    }

-- The loop of `append_message` stops at the first fragment with the offset.
unfoldable pub find_fragment : ℕ → List Fragment → Option Fragment
find_fragment target [] = none
find_fragment target (f ∷ l) =
    if f.handshake_header.fragment_offset == target then some f else find_fragment target l

-- The data of a fragment before what the recursive call has put together.
unfoldable pub with_data : List ℕ → Option (Bool × List ℕ) → Option (Bool × List ℕ)
with_data d none = none
with_data d (some (false, raw)) = some (false, raw)
with_data d (some (true, raw)) = some (true, d ++ raw)

-- `append_message` on fuel: the result and the message.
unfoldable pub append_message : ℕ → ℕ → List Fragment → List ℕ → Option (Bool × List ℕ)
unfolding find_fragment with_data
append_message zero target frags raw = none
append_message (suc fuel) target frags raw = elim (find_fragment target frags) [
  | none ↦ some (false, raw)
  | some f ↦
      let h = f.handshake_header in
      let end = (h.fragment_offset + h.fragment_length) % 2 ^ 32 in
      elim (not (end == h.length) && not (h.fragment_length == 0)) [
        | false ↦ some (true, f.bytes ++ raw)
        | true ↦ with_data f.bytes (append_message fuel end frags raw)
      ]
]

-- What `pop` makes of the fragments: the header of the whole message, its bytes and its epoch.
unfoldable assembled :
    List Fragment → Option (Bool × List ℕ) → Option (Option (HandshakeHeader × List ℕ × ℕ))
assembled frags none = none
assembled frags (some (false, raw)) = some none
assembled [] (some (true, raw)) = some none
assembled (f ∷ l) (some (true, raw)) =
    let h = f.handshake_header in
    some (some (record h { fragment_offset = 0; fragment_length = h.length }, raw, f.epoch))

unfoldable pub taken :
    FragmentBuffer
    → Option (Option (HandshakeHeader × List ℕ × ℕ))
    → Option (FragmentBuffer × Option (HandshakeHeader × List ℕ × ℕ))
taken b none = none
taken b (some none) = some (b, none)
taken b (some (some m)) =
    let seq = b.current_message_sequence_number in
    some (
      record {
        cache = Map.remove seq b.cache;
        current_message_sequence_number = (seq + 1) % 2 ^ 16;
      },
      some m,
    )

-- `pop`: `none` inside is the error of an empty fragment.
unfoldable pub pop :
    FragmentBuffer → Option (FragmentBuffer × Option (HandshakeHeader × List ℕ × ℕ))
unfolding append_message assembled taken
pop b = elim (Map.get b.current_message_sequence_number b.cache) [
  | none ↦ some (b, none)
  | some frags ↦ taken b (assembled frags (append_message (suc (length frags)) 0 frags []))
]
