-- ===== src/Sctp/Association/Removal.antt =====
-- What the operations of the queue of chunks in flight do to its bytes, when a chunk that is
-- acknowledged holds none.
use ortc.Common.{
  ℕ, suc, ◌+◌, ◌-◌, ◌<◌, ◌^◌, ◌≡◌, refl, ap, sym, ◌∙◌, none, some, List, [], ◌∷◌, length, ◌==◌,
  if◌then◌else◌, arith, Bool-cases, Option-cases, ==_refl, inl, inr,
}
use ortc.Common.Map
use ortc.Common.Map.{total}
use ortc.Sctp.Chunk.{ChunkPayloadData}
use ortc.Sctp.PayloadQueue.{PayloadQueue, pop_front, pop_from, pop, get, mark_as_acked, acked_chunk}
use ortc.Sctp.PayloadQueue.Invariant.{IsValid, size, pop-IsValid, mark_as_acked-IsValid}

abbrev pub acked_size : ChunkPayloadData → ℕ
acked_size c = if c.acked then length c.user_data else 0

-- A valid queue in which the acknowledged chunks hold no data, and no more chunks than TSNs.
pub record IsSettled (q : PayloadQueue) : Type 0 where
  pub valid : IsValid q
  pub released : total acked_size q.chunk_map ≡ 0
  pub few : length q.chunk_map < 2 ^ 32

pub none_is_some : {c : ChunkPayloadData} → none ≡ some c → ⊥
none_is_some h = ground (arith, h)

-- What a `pop` that takes a chunk has done.
pub record IsRemoval (q r : PayloadQueue) (tsn : ℕ) (c : ChunkPayloadData) : Type 0 where
  pub held : get q tsn ≡ some c
  pub chunk_map : r.chunk_map ≡ Map.remove tsn q.chunk_map
  pub n_bytes : r.n_bytes + size c ≡ q.n_bytes
  pub sorted : suc (length r.sorted) ≡ length q.sorted

pop_front-some :
    (q : PayloadQueue) (tsn : ℕ) (rest : List ℕ) (c : ChunkPayloadData)
    → get q tsn ≡ some c
    → pop_front q tsn rest ≡ (
      record q {
        sorted = rest;
        chunk_map = Map.remove tsn q.chunk_map;
        n_bytes = q.n_bytes - length c.user_data;
      },
      some c,
    )
unfolding pop_front get
pop_front-some q tsn rest c h = rw (h, pop_front) refl

pop_front-none :
    (q : PayloadQueue) (tsn : ℕ) (rest : List ℕ)
    → get q tsn ≡ none
    → pop_front q tsn rest ≡ (record q { sorted = rest }, none)
unfolding pop_front get
pop_front-none q tsn rest h = rw (h, pop_front) refl

pop_front-IsRemoval :
    (q : PayloadQueue) (tsn a : ℕ) (rest : List ℕ) (c : ChunkPayloadData)
    → IsValid q
    → q.sorted ≡ a ∷ rest
    → (pop_front q tsn rest).1 ≡ some c
    → IsRemoval q (pop_front q tsn rest).0 tsn c
unfolding get
pop_front-IsRemoval q tsn a rest c v e h = elim (Option-cases (get q tsn)) [
  | inl missing ↦
      absurd (none_is_some (sym (ap (λ r. r.1) (pop_front-none q tsn rest missing)) ∙ h))
  | inr (d, found) ↦
      let held = found ∙ sym (ap (λ r. r.1) (pop_front-some q tsn rest d found)) ∙ h in
      let done = pop_front-some q tsn rest c held in
      let sum = Map.total-remove size tsn q.chunk_map held in
      record {
        held = held;
        chunk_map = ap (λ r. r.0.chunk_map) done;
        n_bytes = ap (λ r. r.0.n_bytes + size c) done ∙ omega (arith, v.counted);
        sorted = ap (λ r. suc (length r.0.sorted)) done ∙ sym (ap length e);
      }
]

pop_from-IsRemoval :
    (q : PayloadQueue) (tsn : ℕ) (l : List ℕ) (c : ChunkPayloadData)
    → IsValid q
    → q.sorted ≡ l
    → (pop_from q tsn l).1 ≡ some c
    → IsRemoval q (pop_from q tsn l).0 tsn c
unfolding pop_from
pop_from-IsRemoval q tsn [] c v e h = absurd (none_is_some h)
pop_from-IsRemoval q tsn (a ∷ rest) c v e h = elim (Bool-cases (tsn == a)) [
  | inr other ↦
      absurd
        (none_is_some (sym (ap (λ b. (if b then pop_front q tsn rest else (q, none)).1) other) ∙ h))
  | inl same ↦
      let front = ap (λ b. if b then pop_front q tsn rest else (q, none)) same in
      rw front (pop_front-IsRemoval q tsn a rest c v e (sym (ap (λ r. r.1) front) ∙ h))
]

pub pop-IsRemoval :
    (q : PayloadQueue) (tsn : ℕ) (c : ChunkPayloadData)
    → IsValid q
    → (pop q tsn).1 ≡ some c
    → IsRemoval q (pop q tsn).0 tsn c
unfolding pop
pop-IsRemoval q tsn c v h = pop_from-IsRemoval q tsn q.sorted c v refl h

pub pop-IsSettled :
    (q : PayloadQueue) (tsn : ℕ) (c : ChunkPayloadData)
    → IsSettled q
    → (pop q tsn).1 ≡ some c
    → IsSettled (pop q tsn).0 × ((pop q tsn).0.n_bytes + size c ≡ q.n_bytes) × (acked_size c ≡ 0)
unfolding get
pop-IsSettled q tsn c s h =
    let r = pop-IsRemoval q tsn c s.valid h in
    let sum = Map.total-remove acked_size tsn q.chunk_map r.held in
    let gone = ap (total acked_size) r.chunk_map in
    (
      record {
        valid = pop-IsValid tsn s.valid;
        released = omega (arith, sum, gone, s.released);
        few = omega (arith, s.few, ap length r.chunk_map, Map.length-remove tsn q.chunk_map);
      },
      r.n_bytes,
      omega (arith, sum, s.released),
    )

-- A `pop` that takes no chunk keeps all of them.
pop_front_kept :
    (q : PayloadQueue) (tsn : ℕ) (rest : List ℕ)
    → (pop_front q tsn rest).1 ≡ none
    → ((pop_front q tsn rest).0.chunk_map ≡ q.chunk_map)
      × ((pop_front q tsn rest).0.n_bytes ≡ q.n_bytes)
pop_front_kept q tsn rest h = elim (Option-cases (get q tsn)) [
  | inl missing ↦
      let e = pop_front-none q tsn rest missing in
      (ap (λ r. r.0.chunk_map) e, ap (λ r. r.0.n_bytes) e)
  | inr (c, found) ↦
      absurd (none_is_some (sym h ∙ ap (λ r. r.1) (pop_front-some q tsn rest c found)))
]

pop_from_kept :
    (q : PayloadQueue) (tsn : ℕ) (l : List ℕ)
    → (pop_from q tsn l).1 ≡ none
    → ((pop_from q tsn l).0.chunk_map ≡ q.chunk_map) × ((pop_from q tsn l).0.n_bytes ≡ q.n_bytes)
unfolding pop_from
pop_from_kept q tsn [] h = (refl, refl)
pop_from_kept q tsn (a ∷ rest) h = elim (Bool-cases (tsn == a)) [
  | inr other ↦ rw other (refl, refl)
  | inl same ↦
      let front = ap (λ b. if b then pop_front q tsn rest else (q, none)) same in
      rw front (pop_front_kept q tsn rest (sym (ap (λ r. r.1) front) ∙ h))
]

pub pop_kept :
    (q : PayloadQueue) (tsn : ℕ)
    → IsSettled q
    → (pop q tsn).1 ≡ none
    → IsSettled (pop q tsn).0 × ((pop q tsn).0.n_bytes ≡ q.n_bytes)
unfolding pop
pop_kept q tsn s h =
    let (m, n) = pop_from_kept q tsn q.sorted h in
    (
      record {
        valid = pop-IsValid tsn s.valid;
        released = ap (total acked_size) m ∙ s.released;
        few = omega (arith, s.few, ap length m);
      },
      n,
    )

pub mark_as_acked-some :
    (q : PayloadQueue) (tsn : ℕ) (c : ChunkPayloadData)
    → get q tsn ≡ some c
    → mark_as_acked q tsn ≡ (
      record q {
        n_bytes = q.n_bytes - length c.user_data;
        chunk_map = Map.modify tsn acked_chunk q.chunk_map;
      },
      length c.user_data,
    )
unfolding mark_as_acked get
mark_as_acked-some q tsn c h = rw (h, mark_as_acked) refl

pub mark_as_acked-IsSettled :
    (q : PayloadQueue) (tsn : ℕ) (c : ChunkPayloadData)
    → IsSettled q
    → get q tsn ≡ some c
    → IsSettled (mark_as_acked q tsn).0
      × ((mark_as_acked q tsn).0.n_bytes + (mark_as_acked q tsn).1 ≡ q.n_bytes)
unfolding get acked_chunk
mark_as_acked-IsSettled q tsn c s h =
    let e = mark_as_acked-some q tsn c h in
    let sum = Map.total-modify acked_size tsn acked_chunk q.chunk_map h in
    let bytes = Map.total-modify size tsn acked_chunk q.chunk_map h in
    let none_left : acked_size (acked_chunk c) ≡ 0 = refl in
    (
      record {
        valid = mark_as_acked-IsValid tsn s.valid;
        released =
            ap (λ r. total acked_size r.0.chunk_map) e ∙ omega (arith, sum, s.released, none_left);
        few = omega (
          arith,
          s.few,
          ap (λ r. length r.0.chunk_map) e,
          Map.length-modify tsn acked_chunk q.chunk_map,
        );
      },
      ap (λ r. r.0.n_bytes + r.1) e ∙ omega (arith, bytes, s.valid.counted),
    )

pub mark_as_acked_held :
    (q : PayloadQueue) (tsn : ℕ) (c : ChunkPayloadData)
    → get q tsn ≡ some c
    → get (mark_as_acked q tsn).0 tsn ≡ some (acked_chunk c)
unfolding get
mark_as_acked_held q tsn c h =
    ap (λ r. Map.get tsn r.0.chunk_map) (mark_as_acked-some q tsn c h)
    ∙ Map.get-modify tsn tsn acked_chunk q.chunk_map
    ∙ rw (==_refl tsn, h) refl

-- The sum of a measure over the chunks, by what an operation takes or changes.
module _ (w : ChunkPayloadData → ℕ) (q : PayloadQueue) (tsn : ℕ) where
  pub pop-total :
      (c : ChunkPayloadData)
      → IsValid q
      → (pop q tsn).1 ≡ some c
      → total w (pop q tsn).0.chunk_map + w c ≡ total w q.chunk_map
  unfolding get
  pop-total c v h =
      let r = pop-IsRemoval q tsn c v h in
      let sum = Map.total-remove w tsn q.chunk_map r.held in
      omega (arith, sum, ap (total w) r.chunk_map)

  pub pop-total_kept : (pop q tsn).1 ≡ none → total w (pop q tsn).0.chunk_map ≡ total w q.chunk_map
  unfolding pop
  pop-total_kept h = ap (total w) (pop_from_kept q tsn q.sorted h).0

  pub mark_as_acked-total :
      (c : ChunkPayloadData)
      → get q tsn ≡ some c
      → total w (mark_as_acked q tsn).0.chunk_map + w c ≡ total w q.chunk_map + w (acked_chunk c)
  unfolding get
  mark_as_acked-total c h =
      let sum = Map.total-modify w tsn acked_chunk q.chunk_map h in
      omega (arith, sum, ap (λ r. total w r.0.chunk_map) (mark_as_acked-some q tsn c h))
