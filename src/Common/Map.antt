-- ===== src/Common/Map.antt =====
-- A `HashMap` with numbers for keys, as an association list: `get`, `contains_key`, `insert`,
-- `remove` and `values_mut` of the standard library. The order of the pairs shows in no result of
-- the code that is modelled.
use Prim.Native.Nat.{ℕ, ◌+◌, ◌-◌, ◌≤◌}
use mathlib.Core.Path.{◌≡◌, refl}
use mathlib.Core.Bool.{Bool, false, ◌||◌}
use mathlib.Core.Option.{Option, none, some}
use mathlib.Core.List.{List, [], ◌∷◌, ◌++◌}
use native.Mathlib.Omega.{arith}
use ortc.Common.Lists.{length}
use ortc.Common.Tests.{◌==◌, if◌then◌else◌, bit_of}

-- How often a number stands in a list.
abbrev pub count : ℕ → List ℕ → ℕ
count t [] = 0
count t (x ∷ xs) = bit_of (t == x) + count t xs

pub count-append : (t : ℕ) (xs ys : List ℕ) → count t (xs ++ ys) ≡ count t xs + count t ys
count-append t [] ys = omega arith
count-append t (x ∷ xs) ys = omega (arith, count-append t xs ys)

module _ {ℓ} {V : Type ℓ} where
  unfoldable pub get : ℕ → List (ℕ × V) → Option V
  get k [] = none
  get k ((j, v) ∷ m) = if k == j then some v else get k m

  unfoldable pub contains_key : ℕ → List (ℕ × V) → Bool
  contains_key k [] = false
  contains_key k ((j, v) ∷ m) = k == j || contains_key k m

  unfoldable pub insert : ℕ → V → List (ℕ × V) → List (ℕ × V)
  insert k v [] = (k, v) ∷ []
  insert k v ((j, w) ∷ m) = if k == j then (k, v) ∷ m else (j, w) ∷ insert k v m

  unfoldable pub remove : ℕ → List (ℕ × V) → List (ℕ × V)
  remove k [] = []
  remove k ((j, w) ∷ m) = if k == j then m else (j, w) ∷ remove k m

  -- A change of every value in place.
  unfoldable pub map_values : (V → V) → List (ℕ × V) → List (ℕ × V)
  map_values f [] = []
  map_values f ((j, v) ∷ m) = (j, f v) ∷ map_values f m

  -- A change of the value at one key in place (`get_mut`).
  unfoldable pub modify : ℕ → (V → V) → List (ℕ × V) → List (ℕ × V)
  modify k f [] = []
  modify k f ((j, v) ∷ m) = if k == j then (j, f v) ∷ m else (j, v) ∷ modify k f m

  abbrev pub keys : List (ℕ × V) → List ℕ
  keys [] = []
  keys ((j, v) ∷ m) = j ∷ keys m

  -- The sum of a measure over the values.
  abbrev pub total : (V → ℕ) → List (ℕ × V) → ℕ
  total size [] = 0
  total size ((j, v) ∷ m) = size v + total size m

module _ {ℓ} {V : Type ℓ} where
  pub contains_key-count :
      (k : ℕ) (m : List (ℕ × V)) → contains_key k m ≡ false → count k (keys m) ≡ 0
  unfolding contains_key
  contains_key-count k [] h = refl
  contains_key-count k ((j, v) ∷ m) h = ground (arith, contains_key-count k m)

  pub get-contains_key : (k : ℕ) (m : List (ℕ × V)) → contains_key k m ≡ false → get k m ≡ none
  unfolding contains_key get
  get-contains_key k [] h = refl
  get-contains_key k ((j, v) ∷ m) h = ground (arith, get-contains_key k m)

  pub get-none-count : (k : ℕ) (m : List (ℕ × V)) → get k m ≡ none → count k (keys m) ≡ 0
  unfolding get
  get-none-count k [] h = refl
  get-none-count k ((j, v) ∷ m) h = ground (arith, get-none-count k m)

  pub get-insert :
      (k j : ℕ) (v : V) (m : List (ℕ × V))
      → get j (insert k v m) ≡ (if j == k then some v else get j m)
  unfolding get insert
  get-insert k j v [] = refl
  get-insert k j v ((i, w) ∷ m) = ground (arith, get-insert k j v m)

  pub insert-new :
      (k : ℕ) (v : V) (m : List (ℕ × V))
      → contains_key k m ≡ false
      → insert k v m ≡ m ++ ((k, v) ∷ [])
  unfolding contains_key insert
  insert-new k v [] h = refl
  insert-new k v ((j, w) ∷ m) h = ground (arith, insert-new k v m)

  pub keys-append : (m n : List (ℕ × V)) → keys (m ++ n) ≡ keys m ++ keys n
  keys-append [] n = refl
  keys-append ((j, w) ∷ m) n = rw (keys-append m n)

  pub total-append :
      (size : V → ℕ) (m n : List (ℕ × V)) → total size (m ++ n) ≡ total size m + total size n
  total-append size [] n = omega arith
  total-append size ((j, w) ∷ m) n = omega (arith, total-append size m n)

  pub count-remove :
      (t k : ℕ) (m : List (ℕ × V))
      → count t (keys (remove k m)) ≡ count t (keys m) - bit_of (t == k)
  unfolding remove
  count-remove t k [] = omega arith
  count-remove t k ((j, w) ∷ m) = ground (arith, count-remove t k m)

  pub total-remove :
      (size : V → ℕ) (k : ℕ) (m : List (ℕ × V)) {v : V}
      → get k m ≡ some v
      → total size (remove k m) + size v ≡ total size m
  unfolding get remove
  total-remove size k [] h = ground arith
  total-remove size k ((j, w) ∷ m) {v} h = ground (arith, total-remove size k m {v = v})

  pub get-remove : (k j : ℕ) (m : List (ℕ × V)) → (j == k) ≡ false → get j (remove k m) ≡ get j m
  unfolding get remove
  get-remove k j [] h = refl
  get-remove k j ((i, w) ∷ m) h = ground (arith, get-remove k j m h)

  pub keys-modify : (k : ℕ) (f : V → V) (m : List (ℕ × V)) → keys (modify k f m) ≡ keys m
  unfolding modify
  keys-modify k f [] = refl
  keys-modify k f ((j, w) ∷ m) = ground (arith, keys-modify k f m)

  pub total-modify :
      (size : V → ℕ) (k : ℕ) (f : V → V) (m : List (ℕ × V)) {v : V}
      → get k m ≡ some v
      → total size (modify k f m) + size v ≡ total size m + size (f v)
  unfolding get modify
  total-modify size k f [] h = ground arith
  total-modify size k f ((j, w) ∷ m) {v} h = ground (arith, total-modify size k f m {v = v})

  pub get-modify :
      (k j : ℕ) (f : V → V) (m : List (ℕ × V))
      → get j (modify k f m)
        ≡ (if j == k then elim (get j m) [ none ↦ none | some v ↦ some (f v) ] else get j m)
  unfolding get modify
  get-modify k j f [] = ground arith
  get-modify k j f ((i, w) ∷ m) = ground (arith, get-modify k j f m)

  pub keys-map_values : (f : V → V) (m : List (ℕ × V)) → keys (map_values f m) ≡ keys m
  unfolding map_values
  keys-map_values f [] = refl
  keys-map_values f ((j, w) ∷ m) = rw (keys-map_values f m)

  pub total-insert-some :
      (size : V → ℕ) (k : ℕ) (w : V) (m : List (ℕ × V)) {v : V}
      → get k m ≡ some v
      → total size (insert k w m) + size v ≡ total size m + size w
  unfolding get insert
  total-insert-some size k w [] h = ground arith
  total-insert-some size k w ((j, x) ∷ m) {v} h =
      ground (arith, total-insert-some size k w m {v = v})

  pub total-insert-none :
      (size : V → ℕ) (k : ℕ) (w : V) (m : List (ℕ × V))
      → get k m ≡ none
      → total size (insert k w m) ≡ total size m + size w
  unfolding get insert
  total-insert-none size k w [] h = omega arith
  total-insert-none size k w ((j, x) ∷ m) h = ground (arith, total-insert-none size k w m)

  pub length-remove : (k : ℕ) (m : List (ℕ × V)) → length (remove k m) ≤ length m
  unfolding remove
  length-remove k [] = omega arith
  length-remove k ((j, w) ∷ m) = ground (arith, length-remove k m)

  pub length-modify : (k : ℕ) (f : V → V) (m : List (ℕ × V)) → length (modify k f m) ≡ length m
  unfolding modify
  length-modify k f [] = refl
  length-modify k f ((j, w) ∷ m) = ground (arith, length-modify k f m)

  pub get-count : (k : ℕ) (m : List (ℕ × V)) → count k (keys m) ≡ 0 → get k m ≡ none
  unfolding get
  get-count k [] h = refl
  get-count k ((j, v) ∷ m) h = ground (arith, get-count k m)

  pub count-contains_key :
      (k : ℕ) (m : List (ℕ × V)) → count k (keys m) ≡ 0 → contains_key k m ≡ false
  unfolding contains_key
  count-contains_key k [] h = refl
  count-contains_key k ((j, v) ∷ m) h = ground (arith, count-contains_key k m)
