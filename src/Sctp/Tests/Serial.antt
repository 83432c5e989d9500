-- ===== src/Sctp/Tests/Serial.antt =====
-- Serial numbers and padding at concrete inputs.
use ortc.Common.{◌+◌, ◌%◌, ◌^◌, ◌≤◌, ◌≡◌, ◌⊎◌, refl, true, false, ◌&&◌, arith, ltb, leb}
use ortc.Sctp.Sna.{
  sna32lt, sna32lte, sna32gt, sna32eq, sna16lt, ahead, sna32_by_distance, sna32_trichotomy,
  sna32lt-window, get_padding_size, get_padding_size_lem, sna16_by_distance, sna16lte, sna16gt,
}

sna_wraps :
    (sna32lt 0xffff_fffe 1 ≡ true) × (sna32gt 1 0xffff_fffe ≡ true) × (sna16lt 0xffff 0 ≡ true)
unfolding sna32lt sna32gt sna16lt
sna_wraps = (refl, refl, refl)

sna32_by_distance_example :
    (sna32lt 0xffff_fffe 1
      ≡ (ltb 0 (ahead (2 ^ 32) 0xffff_fffe 1) && ltb (ahead (2 ^ 32) 0xffff_fffe 1) (2 ^ 31)))
    × (sna32gt 0xffff_fffe 1 ≡ leb (2 ^ 31) (ahead (2 ^ 32) 0xffff_fffe 1))
    × (sna32lte 0xffff_fffe 1 ≡ ltb (ahead (2 ^ 32) 0xffff_fffe 1) (2 ^ 31))
sna32_by_distance_example = sna32_by_distance 0xffff_fffe 1 (omega arith) (omega arith)

sna16_by_distance_example :
    (sna16lt 0xfffe 1 ≡ (ltb 0 (ahead (2 ^ 16) 0xfffe 1) && ltb (ahead (2 ^ 16) 0xfffe 1) (2 ^ 15)))
    × (sna16gt 0xfffe 1 ≡ leb (2 ^ 15) (ahead (2 ^ 16) 0xfffe 1))
    × (sna16lte 0xfffe 1 ≡ ltb (ahead (2 ^ 16) 0xfffe 1) (2 ^ 15))
sna16_by_distance_example = sna16_by_distance 0xfffe 1 (omega arith) (omega arith)

sna32_trichotomy_example :
    ((sna32eq 7 9 ≡ true) × (sna32lt 7 9 ≡ false) × (sna32gt 7 9 ≡ false))
    ⊎ ((sna32eq 7 9 ≡ false) × (sna32lt 7 9 ≡ true) × (sna32gt 7 9 ≡ false))
    ⊎ ((sna32eq 7 9 ≡ false) × (sna32lt 7 9 ≡ false) × (sna32gt 7 9 ≡ true))
sna32_trichotomy_example = sna32_trichotomy 7 9 (omega arith) (omega arith)

sna32lt-window_example :
    sna32lt 0xffff_ffff 3
    ≡ ltb (ahead (2 ^ 32) 0xffff_fff0 0xffff_ffff) (ahead (2 ^ 32) 0xffff_fff0 3)
sna32lt-window_example =
    sna32lt-window 0xffff_fff0 0xffff_ffff 3 (omega arith) (omega arith) (omega arith) (omega arith)
      (omega arith)

get_padding_size_lem_example : ((5 + get_padding_size 5) % 4 ≡ 0) × (get_padding_size 5 ≤ 3)
get_padding_size_lem_example = get_padding_size_lem 5
