-- ===== src/Stun/Attributes.antt =====
-- rtc-stun/src/attributes.rs: the attributes of a message. An attribute type is its number.
use ortc.Common.{ℕ, ◌+◌, ◌*◌, ◌/◌, Bool, true, false, List, [], ◌∷◌, ◌==◌, ltb, leb, if◌then◌else◌}

pub record RawAttribute : Type 0 where
  pub typ : ℕ
  pub length : ℕ
  pub value : List ℕ

unfoldable default_attribute : RawAttribute
default_attribute = record { typ = 0; length = 0; value = [] }

-- `Attributes::get`.
unfoldable pub get : List RawAttribute → ℕ → RawAttribute × Bool
unfolding default_attribute
get [] t = (default_attribute, false)
get (candidate ∷ l) t = if candidate.typ == t then (candidate, true) else get l t

unfoldable required : ℕ → Bool
required t = leb t 0x7fff

unfoldable optional : ℕ → Bool
optional t = leb 0x8000 t

abbrev pub padding : ℕ
padding = 4

unfoldable pub nearest_padded_value_length : ℕ → ℕ
nearest_padded_value_length l =
    let n = padding * (l / padding) in if ltb n l then n + padding else n

abbrev attr_xormapped_address : ℕ
attr_xormapped_address = 0x0020

unfoldable pub compat_attr_type : ℕ → ℕ
compat_attr_type val = if val == 0x8020 then attr_xormapped_address else val
