-- ===== src/Common/Writing.antt =====
-- What a chain of writes to a buffer of the `bytes` crate has written.
use Prim.Native.Nat.{ℕ, ◌+◌, ◌%◌, ◌≤◌}
use mathlib.Core.Path.{◌≡◌, ap, sym, subst, ◌∙◌}
use mathlib.Core.List.{List, [], ◌∷◌, ◌++◌, append-nil, append_assoc}
use native.Mathlib.Omega.{arith}
use ortc.Common.Lists.{length, length-append}
use ortc.Common.Bytes.{be16, be32}
use ortc.Common.Buffer.{BufMut, IsBufMut}

-- From `w` to `v` the bytes `l` were written, and that much room is gone.
abbrev pub Writes : {W : Type 0} → BufMut W → (W → List ℕ) → W → List ℕ → W → Type 0
Writes buf written w l v =
    (written v ≡ written w ++ l) × (buf.remaining_mut v + length l ≡ buf.remaining_mut w)

module _ {W : Type 0} (buf : BufMut W) (written : W → List ℕ) where
  pub Writes-nothing : (w : W) → Writes buf written w [] w
  Writes-nothing w = (sym (append-nil (written w)), omega arith)

  pub Writes-trans :
      {w v u : W} (l r : List ℕ)
      → Writes buf written w l v
      → Writes buf written v r u
      → Writes buf written w (l ++ r) u
  Writes-trans {w} {v} {u} l r (p, m) (q, n) = (
    q ∙ ap (λ x. x ++ r) p ∙ append_assoc (written w) l r,
    omega (arith, m, n, length-append l r),
  )

  pub Writes-eq :
      {w v : W} {l r : List ℕ} → l ≡ r → Writes buf written w l v → Writes buf written w r v
  Writes-eq {w} {v} e h = subst (λ x. Writes buf written w x v) e h

  module _ (i : IsBufMut buf written) where
    pub Writes-u8 :
        (w : W) (x : ℕ)
        → 1 ≤ buf.remaining_mut w
        → Writes buf written w (x % 256 ∷ []) (buf.put_u8 w x)
    Writes-u8 w x h = i.put_u8_eq w x h

    pub Writes-u16 :
        (w : W) (x : ℕ)
        → 2 ≤ buf.remaining_mut w
        → Writes buf written w (be16 x []) (buf.put_u16 w x)
    Writes-u16 w x h = i.put_u16_eq w x h

    pub Writes-u32 :
        (w : W) (x : ℕ)
        → 4 ≤ buf.remaining_mut w
        → Writes buf written w (be32 x []) (buf.put_u32 w x)
    Writes-u32 w x h = i.put_u32_eq w x h

    pub Writes-slice :
        (w : W) (l : List ℕ)
        → length l ≤ buf.remaining_mut w
        → Writes buf written w l (buf.put_slice w l)
    Writes-slice w l h = i.put_slice_eq w l h
