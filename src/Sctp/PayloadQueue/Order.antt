-- ===== src/Sctp/PayloadQueue/Order.antt =====
-- The order of the TSNs that `PayloadQueue` keeps in `sorted`.
use ortc.Common.{
  ℕ, ◌^◌, ◌≤◌, ◌<◌, ◌≡◌, true, false, List, [], ◌∷◌, ◌++◌, arith, All, All-append, Bool-cases, inl,
  inr, ltb,
}
use ortc.Common.Map
use ortc.Sctp.Sna.{sna32lt, sna32lte, ahead, sna32lt-window}
use ortc.Sctp.Chunk.{ChunkPayloadData}
use ortc.Sctp.PayloadQueue.{PayloadQueue, insert_sorted, sort_tsns, push}

module _ (base : ℕ) where
  abbrev dist : ℕ → ℕ
  dist t = ahead (2 ^ 32) base t

  -- A u32 that is less than half the circle ahead of `base`.
  abbrev pub InWindow : ℕ → Type 0
  InWindow t = (t < 2 ^ 32) × (ahead (2 ^ 32) base t < 2 ^ 31)

  abbrev pub IsAscending : List ℕ → Type 0
  IsAscending [] = Unit {0}
  IsAscending (a ∷ l) = All (λ b. dist a ≤ dist b) l × IsAscending l

  All-insert_sorted :
      (P : ℕ → Type 0) (a : ℕ) (l : List ℕ) → P a → All P l → All P (insert_sorted a l)
  unfolding insert_sorted
  All-insert_sorted P a [] h hs = (h, hs)
  All-insert_sorted P a (b ∷ l) h (hb, hs) = elim (Bool-cases (sna32lt a b)) [
    | inl lt ↦ rw lt (h, (hb, hs))
    | inr ge ↦ rw ge (hb, All-insert_sorted P a l h hs)
  ]

  pub All-sort_tsns : (P : ℕ → Type 0) (l : List ℕ) → All P l → All P (sort_tsns l)
  unfolding sort_tsns
  All-sort_tsns P [] h = h
  All-sort_tsns P (a ∷ l) (h, hs) = All-insert_sorted P a (sort_tsns l) h (All-sort_tsns P l hs)

  All-le_trans : (x y : ℕ) (l : List ℕ) → x ≤ y → All (λ b. y ≤ dist b) l → All (λ b. x ≤ dist b) l
  All-le_trans x y [] h hs = tt
  All-le_trans x y (b ∷ l) h (hb, hs) = (omega arith, All-le_trans x y l h hs)

  insert_sorted-IsAscending :
      (a : ℕ) (l : List ℕ)
      → base < 2 ^ 32
      → InWindow a
      → All InWindow l
      → IsAscending l
      → IsAscending (insert_sorted a l)
  unfolding insert_sorted
  insert_sorted-IsAscending a [] hb ha hl s = (tt, tt)
  insert_sorted-IsAscending a (b ∷ l) hb ha (hw, hl) (s, ss) = elim (Bool-cases (sna32lt a b)) [
    | inl lt ↦ rw lt ((ordered lt, All-le_trans (dist a) (dist b) l (ordered lt) s), (s, ss))
    | inr ge ↦ rw ge (
      All-insert_sorted (λ c. dist b ≤ dist c) a l (reversed ge) s,
      insert_sorted-IsAscending a l hb ha hl ss,
    )
  ]
    where
      window : sna32lt a b ≡ ltb (dist a) (dist b)
      window = sna32lt-window base a b hb ha.0 hw.0 ha.1 hw.1

      ordered : sna32lt a b ≡ true → dist a ≤ dist b
      ordered lt = ground (arith, window)

      reversed : sna32lt a b ≡ false → dist b ≤ dist a
      reversed ge = ground (arith, window)

  pub sort_tsns-IsAscending :
      (l : List ℕ) → base < 2 ^ 32 → All InWindow l → IsAscending (sort_tsns l)
  unfolding sort_tsns
  sort_tsns-IsAscending [] hb h = tt
  sort_tsns-IsAscending (a ∷ l) hb (h, hs) =
      insert_sorted-IsAscending a (sort_tsns l) hb h (All-sort_tsns InWindow l hs)
        (sort_tsns-IsAscending l hb hs)

  -- Where the TSNs held and the new one lie less than half the circle ahead of one number, `push`
  -- leaves `sorted` in the order of their distances from it, and inside that window.
  pub push-IsAscending :
      (q : PayloadQueue) (p : ChunkPayloadData) (cum : ℕ)
      → base < 2 ^ 32
      → InWindow p.tsn
      → All InWindow q.sorted
      → IsAscending q.sorted
      → IsAscending (push q p cum).0.sorted × All InWindow (push q p cum).0.sorted
  unfolding push
  push-IsAscending q p cum hb hp hs s = elim (Bool-cases (Map.contains_key p.tsn q.chunk_map)) [
    | inl old ↦ rw old (s, hs)
    | inr new ↦ elim (Bool-cases (sna32lte p.tsn cum)) [
      | inl late ↦ rw (new, late) (s, hs)
      | inr fresh ↦
          rw (new, fresh) (sort_tsns-IsAscending _ hb window, All-sort_tsns InWindow _ window)
    ]
  ]
    where
      window : All InWindow (q.sorted ++ (p.tsn ∷ []))
      window = All-append InWindow q.sorted (p.tsn ∷ []) hs (hp, tt)
