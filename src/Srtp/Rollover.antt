-- ===== src/Srtp/Rollover.antt =====
-- rtc-srtp/src/context/mod.rs: the rollover counter of an SSRC, which extends the 16-bit sequence
-- numbers of RTP to packet indices. The counter is a u32 and wraps where overflow is not checked.
use mathlib.Core.Path.{ap₂}
use ortc.Common.{
  ℕ, ◌+◌, ◌-◌, ◌/◌, ◌%◌, ◌^◌, ◌<◌, ◌≡◌, refl, Bool, true, not, ◌&&◌, List, [], ◌∷◌, ◌==◌, ltb,
  if◌then◌else◌, arith,
}

abbrev max_roc_disorder : ℕ
max_roc_disorder = 100

abbrev max_sequence_number : ℕ
max_sequence_number = 65535

pub record SrtpSsrcState : Type 0 where
  pub ssrc : ℕ
  pub rollover_counter : ℕ
  pub rollover_has_processed : Bool
  pub last_sequence_number : ℕ

unfoldable next_rollover_count : SrtpSsrcState → ℕ → ℕ
next_rollover_count s seq =
    if not s.rollover_has_processed
    then s.rollover_counter
    else (if seq == 0
        then (if ltb max_roc_disorder s.last_sequence_number
            then (s.rollover_counter + 1) % 2 ^ 32
            else s.rollover_counter)
        else (if ltb s.last_sequence_number max_roc_disorder
              && ltb (max_sequence_number - max_roc_disorder) seq
            then (s.rollover_counter + 2 ^ 32 - 1) % 2 ^ 32
            else (if ltb seq max_roc_disorder
                  && ltb (max_sequence_number - max_roc_disorder) s.last_sequence_number
                then (s.rollover_counter + 1) % 2 ^ 32
                else s.rollover_counter)))

unfoldable update_rollover_count : SrtpSsrcState → ℕ → SrtpSsrcState
update_rollover_count s seq =
    if not s.rollover_has_processed
    then record s { rollover_has_processed = true; last_sequence_number = seq }
    else (if seq == 0
        then (if ltb max_roc_disorder s.last_sequence_number
            then record s {
              rollover_counter = (s.rollover_counter + 1) % 2 ^ 32;
              last_sequence_number = seq;
            }
            else record s { last_sequence_number = seq })
        else (if ltb s.last_sequence_number max_roc_disorder
              && ltb (max_sequence_number - max_roc_disorder) seq
            then record s {
              rollover_counter = (s.rollover_counter + 2 ^ 32 - 1) % 2 ^ 32;
              last_sequence_number = seq;
            }
            else (if ltb seq max_roc_disorder
                  && ltb (max_sequence_number - max_roc_disorder) s.last_sequence_number
                then record s {
                  rollover_counter = (s.rollover_counter + 1) % 2 ^ 32;
                  last_sequence_number = seq;
                }
                else record s { last_sequence_number = seq })))

-- The state stands at the packet with index `i`.
pub record Tracks (s : SrtpSsrcState) (i : ℕ) : Type 0 where
  pub processed : s.rollover_has_processed ≡ true
  pub roc : s.rollover_counter ≡ i / 2 ^ 16
  pub seq : s.last_sequence_number ≡ i % 2 ^ 16

-- Two indices fewer than 100 apart.
abbrev Near : ℕ → ℕ → Type 0
Near i j = (i < j + 100) × (j < i + 100)

-- From a state that stands at one packet, the counter guessed for a packet fewer than 100 before
-- or after it is the true one, the number's high part, and the update moves the state to it.
rollover-step :
    {s : SrtpSsrcState} (i j : ℕ)
    → Tracks s i
    → Near i j
    → i < 2 ^ 48
    → j < 2 ^ 48
    → (next_rollover_count s (j % 2 ^ 16) ≡ j / 2 ^ 16)
      × Tracks (update_rollover_count s (j % 2 ^ 16)) j
unfolding next_rollover_count update_rollover_count
rollover-step i j t n hi hj = ground arith

-- Indices that follow one another, each fewer than 100 from the one before.
abbrev Jitter : ℕ → List ℕ → Type 0
Jitter i [] = Unit {0}
Jitter i (j ∷ l) = Near i j × (j < 2 ^ 48) × Jitter j l

-- The counters guessed for a stream of packets, of which only the sequence numbers are seen.
unfoldable pub guess_all : SrtpSsrcState → List ℕ → List ℕ
unfolding next_rollover_count update_rollover_count
guess_all s [] = []
guess_all s (seq ∷ l) = next_rollover_count s seq ∷ guess_all (update_rollover_count s seq) l

abbrev seqs : List ℕ → List ℕ
seqs [] = []
seqs (i ∷ l) = i % 2 ^ 16 ∷ seqs l

abbrev rocs : List ℕ → List ℕ
rocs [] = []
rocs (i ∷ l) = i / 2 ^ 16 ∷ rocs l

-- From a state that stands at a packet, one having been processed and the counter and the last
-- sequence number being that packet's true ones, over a whole stream of packets in which each 48-bit
-- index is fewer than 100 from the one before, the first from that packet's, across any number of
-- rollovers: every counter guessed from the sequence numbers is the true one.
pub guess_all-rocs :
    {s : SrtpSsrcState} (i : ℕ) (l : List ℕ)
    → Tracks s i
    → i < 2 ^ 48
    → Jitter i l
    → guess_all s (seqs l) ≡ rocs l
unfolding guess_all
guess_all-rocs i [] t hi h = refl
guess_all-rocs {s} i (j ∷ l) t hi (n, hj, h) =
    let (a, b) = rollover-step i j t n hi hj in
    ap₂ ◌∷◌ a (guess_all-rocs {s = update_rollover_count s (j % 2 ^ 16)} j l b hj h)
