-- ===== src/Common/ListBuffer.antt =====
-- Buffers of the `bytes` crate that are lists, as a witness that its documented laws can hold.
use Prim.Native.Nat.{ℕ, ◌-◌, ◌%◌}
use mathlib.Core.Path.{refl, ap}
use mathlib.Core.List.{List, [], ◌∷◌, ◌++◌}
use native.Mathlib.Omega.{arith}
use ortc.Common.Lists.{length, take, drop}
use ortc.Common.Bytes.{be16, be32, from_be16, from_be32}
use ortc.Common.Buffer.{Buf, BufMut, IsBuf, IsBufMut}

abbrev pub list_u8 : List ℕ → ℕ × List ℕ
list_u8 [] = (0, [])
list_u8 (x ∷ r) = (x, r)

abbrev pub list_u16 : List ℕ → ℕ × List ℕ
list_u16 (x ∷ y ∷ r) = (from_be16 x y, r)
list_u16 l = (0, [])

abbrev pub list_u32 : List ℕ → ℕ × List ℕ
list_u32 (x ∷ y ∷ z ∷ w ∷ r) = (from_be32 x y z w, r)
list_u32 l = (0, [])

abbrev pub list_buf : Buf (List ℕ)
list_buf = record {
  remaining = length;
  get_u8 = list_u8;
  get_u16 = list_u16;
  get_u32 = list_u32;
  copy_to_slice = λ n l. (take n l, drop n l);
  copy_to_bytes = λ n l. (take n l, drop n l);
  advance = λ n l. drop n l;
}

pub list_buf-IsBuf : IsBuf list_buf (λ l. l)
list_buf-IsBuf = record {
  remaining_eq = λ b. refl;
  get_u8_eq = λ b x r e. (ap (λ l. (list_u8 l).0) e, ap (λ l. (list_u8 l).1) e);
  get_u16_eq = λ b x y r e. (ap (λ l. (list_u16 l).0) e, ap (λ l. (list_u16 l).1) e);
  get_u32_eq = λ b x y z w r e. (ap (λ l. (list_u32 l).0) e, ap (λ l. (list_u32 l).1) e);
  copy_to_slice_eq = λ n b h. (refl, refl);
  copy_to_bytes_eq = λ n b h. (refl, refl);
  advance_eq = λ n b h. refl;
}

-- What is written, and the room that is left.
abbrev pub list_buf_mut : BufMut (List ℕ × ℕ)
list_buf_mut = record {
  remaining_mut = λ w. w.1;
  put_u8 = λ w x. (w.0 ++ (x % 256 ∷ []), w.1 - 1);
  put_u16 = λ w x. (w.0 ++ be16 x [], w.1 - 2);
  put_u32 = λ w x. (w.0 ++ be32 x [], w.1 - 4);
  put_slice = λ w l. (w.0 ++ l, w.1 - length l);
}

pub list_buf_mut-IsBufMut : IsBufMut list_buf_mut (λ w. w.0)
list_buf_mut-IsBufMut = record {
  put_u8_eq = λ w x h. (refl, omega arith);
  put_u16_eq = λ w x h. (refl, omega arith);
  put_u32_eq = λ w x h. (refl, omega arith);
  put_slice_eq = λ w l h. (refl, omega arith);
}
