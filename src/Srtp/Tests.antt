-- ===== src/Srtp/Tests.antt =====
-- The rollover counter over a stream that crosses a rollover back and forth.
use ortc.Common.{◌≡◌, refl, true, [], ◌∷◌, arith}
use ortc.Srtp.Rollover.{SrtpSsrcState, Tracks, guess_all, guess_all-rocs}

abbrev near_end : SrtpSsrcState
near_end = record {
  ssrc = 1;
  rollover_counter = 0;
  rollover_has_processed = true;
  last_sequence_number = 65530;
}

near_end-Tracks : Tracks near_end 65530
near_end-Tracks = record { processed = refl; roc = refl; seq = refl }

guess_all-rocs_example :
    guess_all near_end (65535 ∷ 2 ∷ 65534 ∷ 0 ∷ 9 ∷ []) ≡ 0 ∷ 1 ∷ 0 ∷ 1 ∷ 1 ∷ []
guess_all-rocs_example =
    guess_all-rocs 65530 (65535 ∷ 65538 ∷ 65534 ∷ 65536 ∷ 65545 ∷ []) near_end-Tracks (omega arith)
      (omega arith)
