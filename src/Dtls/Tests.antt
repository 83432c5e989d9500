-- ===== src/Dtls/Tests.antt =====
-- The fragment buffer at concrete inputs.
use ortc.Common.{◌≡◌, refl, ℕ, Bool, true, some, List, [], ◌∷◌, All, arith}
use ortc.Common.Map
use ortc.Dtls.FragmentBuffer.{HandshakeHeader, Fragment, FragmentBuffer, append_message, pop, store}
use ortc.Dtls.FragmentBuffer
use ortc.Dtls.FragmentBuffer.Assembly.{IsPiece, IsRest, append_message_lem}

abbrev message : List ℕ
message = 1 ∷ 2 ∷ 3 ∷ 4 ∷ 5 ∷ []

abbrev piece : ℕ → ℕ → List ℕ → Fragment
piece offset n l = record {
  epoch = 0;
  handshake_header = record {
    handshake_type = 11;
    length = 5;
    message_sequence = 0;
    fragment_offset = offset;
    fragment_length = n;
  };
  bytes = l;
}

-- The pieces overlap, and the last comes first.
abbrev pieces : List Fragment
pieces = piece 3 2 (4 ∷ 5 ∷ []) ∷ piece 0 3 (1 ∷ 2 ∷ 3 ∷ []) ∷ piece 2 2 (3 ∷ 4 ∷ []) ∷ []

pieces_valid : All (IsPiece message) pieces
pieces_valid = (
  record {
    small = omega arith;
    length_eq = refl;
    bytes = refl;
    within = omega arith;
    nonempty = refl;
  },
  (
    record {
      small = omega arith;
      length_eq = refl;
      bytes = refl;
      within = omega arith;
      nonempty = refl;
    },
    (
      record {
        small = omega arith;
        length_eq = refl;
        bytes = refl;
        within = omega arith;
        nonempty = refl;
      },
      tt,
    ),
  ),
)

append_message_lem_example :
    (r : Bool × List ℕ) × (append_message 4 0 pieces [] ≡ some r) × IsRest message 0 r
append_message_lem_example = append_message_lem message pieces pieces_valid

-- An empty fragment at the start makes an empty message of a message of five bytes.
truncated : append_message 3 0 (piece 0 0 [] ∷ piece 0 3 (1 ∷ 2 ∷ 3 ∷ []) ∷ []) [] ≡ some (true, [])
unfolding append_message
truncated = refl

abbrev filled : FragmentBuffer
filled = store (store FragmentBuffer.new (piece 3 2 (4 ∷ 5 ∷ []))) (piece 0 3 (1 ∷ 2 ∷ 3 ∷ []))

pop-filled :
    pop filled
    ≡ some (
      record { cache = []; current_message_sequence_number = 1 },
      some ((piece 0 5 []).handshake_header, message, 0),
    )
unfolding pop store FragmentBuffer.new Map.get Map.insert Map.remove
pop-filled = refl
