-- ===== src/Common/Buffer.antt =====
-- The interfaces `Buf` and `BufMut` of the `bytes` crate, as far as the modelled code uses them. The crate
-- is not part of the repository: its operations are the fields of a record, and what its
-- documentation says of them, where the buffer is long enough, the fields of another.
use Prim.Native.Nat.{ℕ, ◌+◌, ◌%◌, ◌≤◌}
use mathlib.Core.Path.{◌≡◌}
use mathlib.Core.List.{List, [], ◌∷◌, ◌++◌}
use ortc.Common.Lists.{length, take, drop}
use ortc.Common.Bytes.{be16, be32, from_be16, from_be32}

pub record Buf (B : Type 0) : Type 0 where
  pub remaining : B → ℕ
  pub get_u8 : B → ℕ × B
  pub get_u16 : B → ℕ × B
  pub get_u32 : B → ℕ × B
  pub copy_to_slice : ℕ → B → List ℕ × B
  pub copy_to_bytes : ℕ → B → List ℕ × B
  pub advance : ℕ → B → B

-- `contents` are the bytes from the cursor on.
pub record IsBuf {B : Type 0} (buf : Buf B) (contents : B → List ℕ) : Type 0 where
  pub remaining_eq : (b : B) → buf.remaining b ≡ length (contents b)
  pub get_u8_eq :
      (b : B) (x : ℕ) (r : List ℕ)
      → contents b ≡ x ∷ r
      → ((buf.get_u8 b).0 ≡ x) × (contents (buf.get_u8 b).1 ≡ r)
  pub get_u16_eq :
      (b : B) (x y : ℕ) (r : List ℕ)
      → contents b ≡ x ∷ y ∷ r
      → ((buf.get_u16 b).0 ≡ from_be16 x y) × (contents (buf.get_u16 b).1 ≡ r)
  pub get_u32_eq :
      (b : B) (x y z w : ℕ) (r : List ℕ)
      → contents b ≡ x ∷ y ∷ z ∷ w ∷ r
      → ((buf.get_u32 b).0 ≡ from_be32 x y z w) × (contents (buf.get_u32 b).1 ≡ r)
  pub copy_to_slice_eq :
      (n : ℕ) (b : B)
      → n ≤ length (contents b)
      → ((buf.copy_to_slice n b).0 ≡ take n (contents b))
        × (contents (buf.copy_to_slice n b).1 ≡ drop n (contents b))
  pub copy_to_bytes_eq :
      (n : ℕ) (b : B)
      → n ≤ length (contents b)
      → ((buf.copy_to_bytes n b).0 ≡ take n (contents b))
        × (contents (buf.copy_to_bytes n b).1 ≡ drop n (contents b))
  pub advance_eq :
      (n : ℕ) (b : B) → n ≤ length (contents b) → contents (buf.advance n b) ≡ drop n (contents b)

pub record BufMut (W : Type 0) : Type 0 where
  pub remaining_mut : W → ℕ
  pub put_u8 : W → ℕ → W
  pub put_u16 : W → ℕ → W
  pub put_u32 : W → ℕ → W
  pub put_slice : W → List ℕ → W

-- `written` are the bytes put so far.
pub record IsBufMut {W : Type 0} (buf : BufMut W) (written : W → List ℕ) : Type 0 where
  pub put_u8_eq :
      (w : W) (x : ℕ)
      → 1 ≤ buf.remaining_mut w
      → (written (buf.put_u8 w x) ≡ written w ++ (x % 256 ∷ []))
        × (buf.remaining_mut (buf.put_u8 w x) + 1 ≡ buf.remaining_mut w)
  pub put_u16_eq :
      (w : W) (x : ℕ)
      → 2 ≤ buf.remaining_mut w
      → (written (buf.put_u16 w x) ≡ written w ++ be16 x [])
        × (buf.remaining_mut (buf.put_u16 w x) + 2 ≡ buf.remaining_mut w)
  pub put_u32_eq :
      (w : W) (x : ℕ)
      → 4 ≤ buf.remaining_mut w
      → (written (buf.put_u32 w x) ≡ written w ++ be32 x [])
        × (buf.remaining_mut (buf.put_u32 w x) + 4 ≡ buf.remaining_mut w)
  pub put_slice_eq :
      (w : W) (l : List ℕ)
      → length l ≤ buf.remaining_mut w
      → (written (buf.put_slice w l) ≡ written w ++ l)
        × (buf.remaining_mut (buf.put_slice w l) + length l ≡ buf.remaining_mut w)
