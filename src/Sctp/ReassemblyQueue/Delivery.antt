-- ===== src/Sctp/ReassemblyQueue/Delivery.antt =====
-- What `read` hands over, and what a FORWARD-TSN leaves in the reassembly queue.
use ortc.Common.{
  ℕ, zero, suc, ◌+◌, ◌≡◌, refl, true, List, [], ◌∷◌, ◌++◌, length, ◌==◌, arith, All, All-append,
  Bool-cases, Option-cases, inl, inr, sym, ◌∙◌, ◌⊎◌,
}
use mathlib.Core.Path.{subst}
use ortc.Sctp.Chunk.{ChunkPayloadData}
use ortc.Sctp.Chunks
use ortc.Sctp.Chunks.{Chunks, data_len}
use ortc.Sctp.ReassemblyQueue.{
  ReassemblyQueue, new, subtract_num_bytes, read, push, push_unordered, push_ordered,
  find_complete_unordered_chunk_set,
}
use ortc.Sctp.ReassemblyQueue.Scan.{find_complete_unordered_chunk_set_lem}
use ortc.Sctp.ReassemblyQueue.Counting.{IsCounted, IsNew, push-IsCounted, find-frame, find-none}
use ortc.Sctp.ReassemblyQueue.Release.{
  queue, read-IsCounted, forward_tsn_for_ordered-IsCounted, forward_tsn_for_unordered-IsCounted,
}
use ortc.Sctp.ReassemblyQueue.Forward.{
  forward_tsn_for_ordered, old_prefix, subtract_first, forward_tsn_for_unordered,
}

-- The unordered messages that wait for `read` are whole.
abbrev pub AllComplete : ReassemblyQueue → Type 0
AllComplete q = All (λ s. Chunks.is_complete s ≡ true) q.unordered

abbrev Grows : ReassemblyQueue → ReassemblyQueue → Type 0
Grows q r =
    (r.unordered ≡ q.unordered)
    ⊎ ((s : Chunks) × (Chunks.is_complete s ≡ true) × (r.unordered ≡ q.unordered ++ (s ∷ [])))

push_unordered-Grows :
    (q : ReassemblyQueue) (c : ChunkPayloadData) (now : ℕ) → Grows q (push_unordered q c now).0
push_unordered-Grows q c now = elim (Option-cases (find_complete_unordered_chunk_set q' now).1) [
  | inl nothing ↦ inl (unfold push_unordered in ground (arith, find-none q' now nothing))
  | inr (cset, found) ↦ inr (
    cset,
    (find_complete_unordered_chunk_set_lem q' now cset found).0,
    unfold push_unordered in ground (arith, find-frame q' now),
  )
]
  where
    q' : ReassemblyQueue
    q' = record q {
      n_bytes = q.n_bytes + length c.user_data;
      unordered_chunks = Chunks.sort_chunks_by_tsn (q.unordered_chunks ++ (c ∷ []));
    }

push_ordered-frame :
    (q : ReassemblyQueue) (c : ChunkPayloadData) (now : ℕ)
    → (push_ordered q c now).0.unordered ≡ q.unordered
unfolding push_ordered
push_ordered-frame q c now = ground arith

Grows-AllComplete : (q r : ReassemblyQueue) → Grows q r → AllComplete q → AllComplete r
Grows-AllComplete q r (inl e) h = subst (All (λ s. Chunks.is_complete s ≡ true)) (sym e) h
Grows-AllComplete q r (inr (s, done, e)) h =
    subst (All (λ s. Chunks.is_complete s ≡ true)) (sym e)
      (All-append (λ s. Chunks.is_complete s ≡ true) q.unordered (s ∷ []) h (done, tt))

push_eq_unordered :
    (q : ReassemblyQueue) (c : ChunkPayloadData) (now : ℕ)
    → (c.stream_identifier == q.si) ≡ true
    → c.unordered ≡ true
    → push q c now ≡ push_unordered q c now
unfolding push
push_eq_unordered q c now m u = ground arith

push-AllComplete :
    (q : ReassemblyQueue) (c : ChunkPayloadData) (now : ℕ)
    → AllComplete q
    → AllComplete (push q c now).0
push-AllComplete q c now h =
    Grows-AllComplete q (push q c now).0
      (elim (Bool-cases (c.stream_identifier == q.si)) [
        | inr other ↦ inl (unfold push in ground arith)
        | inl mine ↦ elim (Bool-cases c.unordered) [
          | inr o ↦ inl (unfold push in ground (arith, push_ordered-frame q c now))
          | inl u ↦
              subst (λ r. Grows q r.0) (sym (push_eq_unordered q c now mine u))
                (push_unordered-Grows q c now)
        ]
      ])
      h

-- The bytes are counted, and the unordered messages that wait are whole.
pub record IsValid (q : ReassemblyQueue) : Type 0 where
  pub counted : IsCounted q
  pub complete : AllComplete q

-- The calls that change a reassembly queue.
pub data Step (q : ReassemblyQueue) : ReassemblyQueue → Type 0 where
  pushed : (c : ChunkPayloadData) (now : ℕ) → IsNew c q.ordered → Step q (push q c now).0
  was_read : Step q (read q).0
  forwarded_ordered : (last_ssn : ℕ) → Step q (forward_tsn_for_ordered q last_ssn)
  forwarded_unordered : (cum : ℕ) → Step q (forward_tsn_for_unordered q cum)

pub data Reach (q : ReassemblyQueue) : ReassemblyQueue → Type 0 where
  here : Reach q q
  next : {r s : ReassemblyQueue} → Reach q r → Step r s → Reach q s

new-IsValid : (si : ℕ) → IsValid (new si)
unfolding new
new-IsValid si = record { counted = unfold data_len in refl; complete = tt }

read-AllComplete_of :
    (si ssn n : ℕ) (cs : List ChunkPayloadData) (us os : List Chunks)
    → AllComplete (queue si ssn n cs us os)
    → AllComplete (read (queue si ssn n cs us os)).0
unfolding read
read-AllComplete_of si ssn n cs [] [] h = h
read-AllComplete_of si ssn n cs (u ∷ us) [] h = ground arith
read-AllComplete_of si ssn n cs [] (o ∷ os) h = ground arith
read-AllComplete_of si ssn n cs (u ∷ us) (o ∷ os) h = ground arith

subtract_first-frame :
    (n : ℕ) (l : List ChunkPayloadData) (q : ReassemblyQueue)
    → (subtract_first n l q).unordered ≡ q.unordered
unfolding subtract_first
subtract_first-frame zero l q = refl
subtract_first-frame (suc n) [] q = refl
subtract_first-frame (suc n) (c ∷ l) q =
    subtract_first-frame n l (subtract_num_bytes q (length c.user_data))
    ∙ unfold subtract_num_bytes in ground arith

Step-IsValid : {q r : ReassemblyQueue} → Step q r → IsValid q → IsValid r
Step-IsValid {q} (pushed c now new_tsn) v = record {
  counted = push-IsCounted q c now new_tsn v.counted;
  complete = push-AllComplete q c now v.complete;
}
Step-IsValid {q} was_read v = record {
  counted = read-IsCounted q v.counted;
  complete =
      read-AllComplete_of q.si q.next_ssn q.n_bytes q.unordered_chunks q.unordered q.ordered
        v.complete;
}
Step-IsValid {q} (forwarded_ordered last) v = record {
  counted = forward_tsn_for_ordered-IsCounted q last v.counted;
  complete =
      Grows-AllComplete q (forward_tsn_for_ordered q last)
        (inl (unfold forward_tsn_for_ordered in ground arith)) v.complete;
}
Step-IsValid {q} (forwarded_unordered cum) v = record {
  counted = forward_tsn_for_unordered-IsCounted q cum v.counted;
  complete =
      Grows-AllComplete q (forward_tsn_for_unordered q cum)
        (inl (
          unfold forward_tsn_for_unordered in
          subtract_first-frame (old_prefix cum q.unordered_chunks) q.unordered_chunks q))
        v.complete;
}

-- After any pushes of chunks whose TSN no ordered set has yet, reads and FORWARD-TSNs on a new
-- reassembly queue, `n_bytes` is the size of all the user data that waits in it, and every
-- unordered message that waits is whole.
pub reassembly_queue-IsValid : (si : ℕ) {q : ReassemblyQueue} → Reach (new si) q → IsValid q
reassembly_queue-IsValid si here = new-IsValid si
reassembly_queue-IsValid si (next r s) = Step-IsValid s (reassembly_queue-IsValid si r)
