-- ===== src/Sctp/ReassemblyQueue/Scan.antt =====
-- What `find_complete_unordered_chunk_set` extracts.
use ortc.Common.{
  ℕ, ◌+◌, ◌%◌, ◌^◌, ◌≡◌, refl, true, false, ◌&&◌, Option, none, some, List, [], ◌∷◌, ◌++◌, length,
  ◌==◌, if◌then◌else◌, arith, take, drop, Bool-cases, Option-cases, inl, inr, ap, sym, ◌∙◌,
  length-append, append_assoc, take-append_eq, drop-append_eq, drop-append,
}
use ortc.Sctp.Chunk.{ChunkPayloadData}
use ortc.Sctp.Chunks
use ortc.Sctp.Chunks.{Chunks, complete, ends_message, contiguous_from}
use ortc.Sctp.ReassemblyQueue.{ReassemblyQueue, scan, find_complete_unordered_chunk_set}

abbrev Fragments : Type 0
Fragments = List ChunkPayloadData

-- A range that is a whole message.
abbrev Found : Fragments → ℕ → ℕ → Type 0
Found all s n =
    (pre : Fragments) × (set : Fragments) × (post : Fragments) × (all ≡ pre ++ (set ++ post))
    × (length pre ≡ s)
    × (length set ≡ n)
    × (complete set ≡ true)

-- The front `o` of a message up to the TSN `last`: what follows decides whether it is whole.
abbrev Front : Fragments → ℕ → Type 0
Front o last =
    (c : ChunkPayloadData) (m : Fragments)
    → complete (o ++ (c ∷ m)) ≡ (
        if c.tsn == (last + 1) % 2 ^ 32
        then ends_message (c ∷ m) && contiguous_from c.tsn m
        else false)

-- What the variables of the loop stand for at the chunks `l`.
abbrev State : Fragments → ℕ → Option ℕ → ℕ → ℕ → Fragments → Type 0
State all i none n last l = (pre : Fragments) × (all ≡ pre ++ l) × (length pre ≡ i)
State all i (some s) n last l =
    (pre : Fragments) × (o : Fragments) × (all ≡ pre ++ (o ++ l))
    × (length pre ≡ s)
    × (length o ≡ n)
    × (s + n ≡ i)
    × Front o last

-- Where the loop has come to, whatever is open.
abbrev At : Fragments → ℕ → Fragments → Type 0
At all i l = (pre : Fragments) × (all ≡ pre ++ l) × (length pre ≡ i)

State-At :
    (all : Fragments) (i : ℕ) (start : Option ℕ) (n last : ℕ) (l : Fragments)
    → State all i start n last l
    → At all i l
State-At all i none n last l h = h
State-At all i (some s) n last l (pre, o, e, p, q, r, f) =
    (pre ++ o, rw append_assoc e, omega (arith, length-append pre o))

At-next :
    (all : Fragments) (i : ℕ) (c : ChunkPayloadData) (l : Fragments)
    → At all i (c ∷ l)
    → At all (i + 1) l
At-next all i c l (pre, e, p) =
    (pre ++ (c ∷ []), rw append_assoc e, omega (arith, length-append pre (c ∷ [])))

Front-one : (c : ChunkPayloadData) → c.beginning_fragment ≡ true → Front (c ∷ []) c.tsn
unfolding complete
Front-one c b d m = ground arith

Front-grow :
    (o : Fragments) (last : ℕ) (c : ChunkPayloadData)
    → Front o last
    → c.tsn ≡ (last + 1) % 2 ^ 32
    → Front (o ++ (c ∷ [])) c.tsn
Front-grow o last c f e d m = rw append_assoc (unfold complete in ground (arith, f c (d ∷ m)))

State-begin :
    (all : Fragments) (i : ℕ) (c : ChunkPayloadData) (l : Fragments)
    → At all i (c ∷ l)
    → c.beginning_fragment ≡ true
    → State all (i + 1) (some i) 1 c.tsn l
State-begin all i c l (pre, e, p) b = (pre, c ∷ [], e, p, refl, refl, Front-one c b)

State-grow :
    (all : Fragments) (i s n last : ℕ) (c : ChunkPayloadData) (l : Fragments)
    → State all i (some s) n last (c ∷ l)
    → c.tsn ≡ (last + 1) % 2 ^ 32
    → State all (i + 1) (some s) (n + 1) c.tsn l
State-grow all i s n last c l (pre, o, e, p, q, r, f) t = (
  pre,
  o ++ (c ∷ []),
  rw (append_assoc o (c ∷ []) l) e,
  p,
  omega (arith, length-append o (c ∷ [])),
  omega arith,
  Front-grow o last c f t,
)

Found-one :
    (all : Fragments) (i s' n' : ℕ) (c : ChunkPayloadData) (l : Fragments)
    → At all i (c ∷ l)
    → c.beginning_fragment ≡ true
    → c.ending_fragment ≡ true
    → i ≡ s'
    → 1 ≡ n'
    → Found all s' n'
Found-one all i s' n' c l (pre, e, p) b end hs hn =
    (pre, c ∷ [], l, e, omega arith, omega arith, unfold complete in ground arith)

Found-end :
    (all : Fragments) (i s n last s' n' : ℕ) (c : ChunkPayloadData) (l : Fragments)
    → State all i (some s) n last (c ∷ l)
    → c.tsn ≡ (last + 1) % 2 ^ 32
    → c.ending_fragment ≡ true
    → s ≡ s'
    → n + 1 ≡ n'
    → Found all s' n'
Found-end all i s n last s' n' c l (pre, o, e, p, q, r, f) t end hs hn = (
  pre,
  o ++ (c ∷ []),
  l,
  rw (append_assoc o (c ∷ []) l) e,
  omega arith,
  omega (arith, length-append o (c ∷ [])),
  unfold complete in ground (arith, f c []),
)

scan-Found :
    (l : Fragments) (i : ℕ) (start : Option ℕ) (n last s' n' : ℕ) (all : Fragments)
    → State all i start n last l
    → scan i start n last l ≡ some (s', n')
    → Found all s' n'
scan-Found [] i start n last s' n' all h e = unfold scan in cc
scan-Found (c ∷ l) i start n last s' n' all h e =
    let at = State-At all i start n last (c ∷ l) h in
    elim (Bool-cases c.beginning_fragment) [
      | inl b ↦ elim (Bool-cases c.ending_fragment) [
        | inl end ↦
            Found-one all i s' n' c l at b end (unfold scan in ground arith)
              (unfold scan in ground arith)
        | inr more ↦
            scan-Found l (i + 1) (some i) 1 c.tsn s' n' all (State-begin all i c l at b)
              (unfold scan in ground arith)
      ]
      | inr inner ↦
          middle start h e inner (scan-Found l (i + 1) none n last s' n' all (At-next all i c l at))
            (λ s g. scan-Found l (i + 1) (some s) (n + 1) c.tsn s' n' all g)
    ]
  where
    middle :
        (st : Option ℕ)
        → State all i st n last (c ∷ l)
        → scan i st n last (c ∷ l) ≡ some (s', n')
        → c.beginning_fragment ≡ false
        → (scan (i + 1) none n last l ≡ some (s', n') → Found all s' n')
        → ((s : ℕ)
            → State all (i + 1) (some s) (n + 1) c.tsn l
            → scan (i + 1) (some s) (n + 1) c.tsn l ≡ some (s', n')
            → Found all s' n')
        → Found all s' n'
    middle none g r inner skipped grown = skipped (unfold scan in ground arith)
    middle (some s) g r inner skipped grown = elim (Bool-cases (c.tsn == (last + 1) % 2 ^ 32)) [
      | inr gap ↦ skipped (unfold scan in ground arith)
      | inl next ↦ elim (Bool-cases c.ending_fragment) [
        | inl end ↦
            Found-end all i s n last s' n' c l g (ground arith) end (unfold scan in ground arith)
              (unfold scan in ground arith)
        | inr more ↦
            grown s (State-grow all i s n last c l g (ground arith)) (unfold scan in ground arith)
      ]
    ]

-- The set that is extracted is a whole message, and it stood in one piece among the fragments: put
-- back between what is left of them, it gives them again.
pub find_complete_unordered_chunk_set_lem :
    (q : ReassemblyQueue) (now : ℕ) (cset : Chunks)
    → (find_complete_unordered_chunk_set q now).1 ≡ some cset
    → (Chunks.is_complete cset ≡ true)
      × ((pre : List ChunkPayloadData) × (post : List ChunkPayloadData) × (q.unordered_chunks
            ≡ pre ++ (cset.chunks ++ post))
          × ((find_complete_unordered_chunk_set q now).0.unordered_chunks ≡ pre ++ post))
find_complete_unordered_chunk_set_lem q now cset e =
    elim (Option-cases (scan 0 none 0 0 q.unordered_chunks)) [
      | inl nothing ↦ unfold find_complete_unordered_chunk_set in ground arith
      | inr ((s, n), found) ↦
          let (pre, set, post, whole, p, r, done) =
            scan-Found q.unordered_chunks 0 none 0 0 s n q.unordered_chunks ([], refl, refl)
              found in
          let cut : take n (drop s q.unordered_chunks) ≡ set =
            ap (λ l. take n (drop s l)) whole
            ∙ (ap (take n) (drop-append_eq s pre (set ++ post) p) ∙ take-append_eq n set post r) in
          let front : take s q.unordered_chunks ≡ pre =
            ap (take s) whole ∙ take-append_eq s pre (set ++ post) p in
          let back : drop (s + n) q.unordered_chunks ≡ post =
            ap (drop (s + n)) whole
            ∙ (drop-append (s + n) n pre (set ++ post) (omega arith)
                ∙ drop-append_eq n set post r) in
          let same : cset.chunks ≡ set =
            unfold find_complete_unordered_chunk_set in ground (arith, cut) in
          (
            unfold Chunks.is_complete in ground (arith, done, same),
            (
              pre,
              post,
              whole ∙ ap (λ t. pre ++ (t ++ post)) (sym same),
              unfold find_complete_unordered_chunk_set in ground (arith, front, back),
            ),
          )
    ]
