-- ===== src/Sctp/Receiver/Ahead.antt =====
-- The TSNs that wait in the queue of the receiving side, in the order in which they follow the
-- cumulative TSN `peer_last_tsn`.
use ortc.Common.{
  ℕ, suc, ◌+◌, ◌-◌, ◌^◌, ◌≤◌, ◌<◌, ◌≡◌, refl, ap, sym, ◌∙◌, inl, inr, true, Option, none, some,
  List, [], ◌∷◌, ◌++◌, length, ◌==◌, arith, All, Bool-cases, ==_iff, All-append, All-imp, bit_of,
}
use ortc.Common.Map
use ortc.Common.Map.{count, count-append, keys}
use ortc.Sctp.Sna.{ahead, sna32lte}
use ortc.Sctp.Chunk.{ChunkPayloadData}
use ortc.Sctp.PayloadQueue.{PayloadQueue, get, pop, pop_from, pop_front, can_push, push, sort_tsns}
use ortc.Sctp.PayloadQueue.Invariant.{IsValid, pop-oldest, push-IsValid, count-sort_tsns}
use ortc.Sctp.PayloadQueue.Order.{InWindow, IsAscending, All-sort_tsns, sort_tsns-IsAscending}
use ortc.Sctp.Association.Sack.{next_tsn}

-- Each TSN is farther ahead of `base` than the one before it, the first more than `lo`, and all
-- less than `hi`.
abbrev pub Follows : ℕ → ℕ → ℕ → List ℕ → Type 0
Follows base lo hi [] = Unit {0}
Follows base lo hi (a ∷ l) =
    (a < 2 ^ 32)
    × (lo < ahead (2 ^ 32) base a)
    × (ahead (2 ^ 32) base a < hi)
    × Follows base (ahead (2 ^ 32) base a) hi l

-- The base moves on by one below all of them.
Follows-shift :
    (base lo hi k : ℕ) (l : List ℕ)
    → base < 2 ^ 32
    → lo ≡ suc k
    → Follows base lo hi l
    → Follows (next_tsn base) k (hi - 1) l
Follows-shift base lo hi k [] hb e h = tt
Follows-shift base lo hi k (a ∷ l) hb e (ha, above, below, rest) = (
  ha,
  omega arith,
  omega arith,
  Follows-shift base (ahead (2 ^ 32) base a) hi (ahead (2 ^ 32) (next_tsn base) a) l hb
      (omega arith) rest,
)

pub Follows-lower :
    (base lo low hi : ℕ) (l : List ℕ) → low ≤ lo → Follows base lo hi l → Follows base low hi l
Follows-lower base lo low hi [] h f = tt
Follows-lower base lo low hi (a ∷ l) h (ha, above, below, f) = (ha, omega arith, below, f)

pub Follows-widen :
    (base lo hi high : ℕ) (l : List ℕ) → hi ≤ high → Follows base lo hi l → Follows base lo high l
Follows-widen base lo hi high [] h f = tt
Follows-widen base lo hi high (a ∷ l) h (ha, above, below, f) =
    (ha, above, omega arith, Follows-widen base (ahead (2 ^ 32) base a) hi high l h f)

-- A number that is no farther ahead than `lo` is not among them.
pub Follows-count :
    (base lo hi t : ℕ) (l : List ℕ)
    → ahead (2 ^ 32) base t ≤ lo
    → Follows base lo hi l
    → count t l ≡ 0
Follows-count base lo hi t [] h f = refl
Follows-count base lo hi t (a ∷ l) h (ha, above, below, f) = ground (
  arith,
  Follows-count base (ahead (2 ^ 32) base a) hi t l (omega arith) f,
  ap (ahead (2 ^ 32) base) {x = t} {y = a},
)

-- What `pop` at the TSN after `base` has found.
pub data Popped (q : PayloadQueue) (base hi : ℕ)
    : PayloadQueue × Option ChunkPayloadData → Type 0 where
  stays : Follows base 1 hi q.sorted → Popped q base hi (q, none)
  moves :
      (r : PayloadQueue) (c : ChunkPayloadData)
      → suc (length r.sorted) ≡ length q.sorted
      → 1 < hi
      → Follows (next_tsn base) 0 (hi - 1) r.sorted
      → ((t : ℕ) → count t q.sorted ≡ count t (next_tsn base ∷ r.sorted))
      → Popped q base hi (r, some c)

pop_front-Popped :
    (q : PayloadQueue) (base hi : ℕ) (rest : List ℕ)
    → base < 2 ^ 32
    → IsValid q
    → q.sorted ≡ next_tsn base ∷ rest
    → Follows base 0 hi (next_tsn base ∷ rest)
    → Popped q base hi (pop_front q (next_tsn base) rest)
unfolding pop_front
pop_front-Popped q base hi rest hb v e (ha, above, below, f) =
    let (c, held) = (pop-oldest q (next_tsn base) rest v e).1 in
    let found : Map.get (next_tsn base) q.chunk_map ≡ some c = unfold get in held in
    rw (found, pop_front)
      (moves _ c (ap length (sym e)) (omega arith)
        (Follows-shift base _ hi 0 rest hb (omega arith) f) (λ t. ap (count t) e))

pop_from-Popped :
    (q : PayloadQueue) (base hi : ℕ) (l : List ℕ)
    → base < 2 ^ 32
    → IsValid q
    → q.sorted ≡ l
    → Follows base 0 hi l
    → Popped q base hi (pop_from q (next_tsn base) l)
unfolding pop_from
pop_from-Popped q base hi [] hb v e f = stays (rw e tt)
pop_from-Popped q base hi (a ∷ rest) hb v e (ha, above, below, f) =
    elim (Bool-cases (next_tsn base == a)) [
      | inl same ↦
          let s : a ≡ next_tsn base = sym ((==_iff _ a).0 same) in
          rw same (
            pop_front-Popped q base hi rest hb v (e ∙ ap (λ (x : ℕ). x ∷ rest) s)
              (rw (← s) (ha, above, below, f)))
      | inr other ↦ rw other (stays (rw e (ha, ground arith, below, f)))
    ]

pub pop-Popped :
    (q : PayloadQueue) (base hi : ℕ)
    → base < 2 ^ 32
    → IsValid q
    → Follows base 0 hi q.sorted
    → Popped q base hi (pop q (next_tsn base))
unfolding pop
pop-Popped q base hi hb v f = pop_from-Popped q base hi q.sorted hb v refl f

-- Either way the TSNs left follow the next base.
pub Popped-Follows :
    {q : PayloadQueue} {base hi : ℕ} {p : PayloadQueue × Option ChunkPayloadData}
    → base < 2 ^ 32
    → Popped q base hi p
    → Follows (next_tsn base) 0 (hi - 1) p.0.sorted
Popped-Follows {q} {base} {hi} hb (stays f) = Follows-shift base 1 hi 0 q.sorted hb refl f
Popped-Follows hb (moves r c len two f counts) = f

-- In terms of the order that `push` keeps.
Follows-IsAscending :
    (base lo hi : ℕ) (l : List ℕ)
    → Follows base lo hi l
    → IsAscending base l
      × All (λ b. (b < 2 ^ 32) × (lo < ahead (2 ^ 32) base b) × (ahead (2 ^ 32) base b < hi)) l
Follows-IsAscending base lo hi [] f = (tt, tt)
Follows-IsAscending base lo hi (a ∷ l) (ha, above, below, f) =
    let (s, w) = Follows-IsAscending base (ahead (2 ^ 32) base a) hi l f in
    (
      (All-imp _ _ l (λ b h. omega arith) w, s),
      ((ha, above, below), All-imp _ _ l (λ b h. (h.0, omega arith, h.2)) w),
    )

IsAscending-Follows :
    (base lo hi : ℕ) (l : List ℕ)
    → base < 2 ^ 32
    → IsAscending base l
    → All (λ b. (b < 2 ^ 32) × (lo ≤ ahead (2 ^ 32) base b) × (ahead (2 ^ 32) base b < hi)) l
    → ((t : ℕ) → ahead (2 ^ 32) base t ≡ lo → t < 2 ^ 32 → count t l ≡ 0)
    → ((t : ℕ) → count t l ≤ 1)
    → Follows base lo hi l
IsAscending-Follows base lo hi [] hb s w new distinct = tt
IsAscending-Follows base lo hi (a ∷ l) hb (m, s) ((ha, from, below), w) new distinct = (
  ha,
  ground (arith, new a, ==_iff a a),
  below,
  IsAscending-Follows base (ahead (2 ^ 32) base a) hi l hb s (raise l m w)
      (λ t e ht. let same : t ≡ a = omega arith in rw same (ground (arith, distinct a, ==_iff a a)))
      (λ t. omega (arith, distinct t)),
)
  where
    raise :
        (k : List ℕ)
        → All (λ b. ahead (2 ^ 32) base a ≤ ahead (2 ^ 32) base b) k
        → All (λ b. (b < 2 ^ 32) × (lo ≤ ahead (2 ^ 32) base b) × (ahead (2 ^ 32) base b < hi)) k
        → All
            (λ b.
              (b < 2 ^ 32)
              × (ahead (2 ^ 32) base a ≤ ahead (2 ^ 32) base b)
              × (ahead (2 ^ 32) base b < hi))
            k
    raise [] hs ws = tt
    raise (b ∷ k) (h, hs) ((hb, f, u), ws) = ((hb, h, u), raise k hs ws)

-- Nor is a number among them that is `hi` or more ahead.
pub Follows-count_high :
    (base lo hi t : ℕ) (l : List ℕ)
    → hi ≤ ahead (2 ^ 32) base t
    → Follows base lo hi l
    → count t l ≡ 0
Follows-count_high base lo hi t [] h f = refl
Follows-count_high base lo hi t (a ∷ l) h (ha, above, below, f) = ground (
  arith,
  Follows-count_high base (ahead (2 ^ 32) base a) hi t l h f,
  ap (ahead (2 ^ 32) base) {x = t} {y = a},
)

pub can_push_fresh :
    (q : PayloadQueue) (d : ChunkPayloadData) (base : ℕ)
    → base < 2 ^ 32
    → d.tsn < 2 ^ 32
    → can_push q d base ≡ true
    → (0 < ahead (2 ^ 32) base d.tsn) × (ahead (2 ^ 32) base d.tsn ≤ 2 ^ 31)
unfolding can_push sna32lte
can_push_fresh q d base hb hd can = (ground arith, ground arith)

can_push-sorted :
    (q : PayloadQueue) (d : ChunkPayloadData) (base : ℕ)
    → can_push q d base ≡ true
    → (push q d base).0.sorted ≡ sort_tsns (q.sorted ++ (d.tsn ∷ []))
unfolding can_push push
can_push-sorted q d base can = ground arith

-- `push` of a chunk that can be pushed keeps the TSNs in this order, and adds the chunk's.
pub push-Follows :
    (base hi : ℕ) (q : PayloadQueue) (d : ChunkPayloadData)
    → base < 2 ^ 32
    → hi ≤ 2 ^ 31
    → IsValid q
    → Follows base 0 hi q.sorted
    → can_push q d base ≡ true
    → d.tsn < 2 ^ 32
    → ahead (2 ^ 32) base d.tsn < hi
    → IsValid (push q d base).0
      × Follows base 0 hi (push q d base).0.sorted
      × ((t : ℕ) → count t (push q d base).0.sorted ≡ bit_of (t == d.tsn) + count t q.sorted)
push-Follows base hi q d hb hh v f can hd near =
    let (s, w) = Follows-IsAscending base 0 hi q.sorted f in
    let fresh = (can_push_fresh q d base hb hd can).0 in
    let valid = push-IsValid {q = q} d base v in
    let all = q.sorted ++ (d.tsn ∷ []) in
    let e = can_push-sorted q d base can in
    let windows =
      All-append _ q.sorted (d.tsn ∷ [])
        (All-imp _ (InWindow base) q.sorted (λ b h. (h.0, omega arith)) w)
        ((hd, omega arith), tt) in
    let ranges =
      All-append _ q.sorted (d.tsn ∷ [])
        (All-imp _ (λ b. (b < 2 ^ 32) × (0 ≤ ahead (2 ^ 32) base b) × (ahead (2 ^ 32) base b < hi))
          q.sorted (λ b h. (h.0, omega arith, h.2)) w)
        ((hd, omega arith, near), tt) in
    let counts : (t : ℕ) → count t (sort_tsns all) ≡ bit_of (t == d.tsn) + count t q.sorted =
      λ t. omega (arith, count-sort_tsns t all, count-append t q.sorted (d.tsn ∷ [])) in
    let distinct : (t : ℕ) → count t (sort_tsns all) ≤ 1 =
      λ t. omega (arith, ap (count t) e, valid.distinct t, valid.listed t) in
    (
      valid,
      rw e (
          IsAscending-Follows base 0 hi (sort_tsns all) hb
            (sort_tsns-IsAscending base all hb windows) (All-sort_tsns base _ all ranges)
            (λ t z ht. ground (arith, counts t, Follows-count base 0 hi t q.sorted, fresh))
            distinct),
      λ t. ap (count t) e ∙ counts t,
    )
