-- ===== src/Sctp/Receiver/Account.antt =====
-- The TSNs that the receiving side holds and those that the cumulative TSN has passed, against the
-- TSNs of the DATA chunks that were taken.
use ortc.Common.{
  ℕ, ◌+◌, ◌-◌, ◌%◌, ◌^◌, ◌≤◌, ◌<◌, ◌≡◌, refl, ◌∙◌, Bool, true, false, ◌&&◌, some, List, ◌∷◌, ◌==◌,
  if◌then◌else◌, arith, bit_of, Bool-cases, inl, inr,
}
use ortc.Common.Map.{count}
use ortc.Sctp.Sna.{ahead}
use ortc.Sctp.Chunk.{ChunkPayloadData}
use ortc.Sctp.PayloadQueue.{can_push, push, pop_duplicates}
use ortc.Sctp.PayloadQueue.Invariant.{IsValid}
use ortc.Sctp.Receiver.{
  Receiver, Packet, create_stream, get_or_create_stream, handle_chunk_end, gather_sack,
  create_selective_ack_chunk,
}
use ortc.Sctp.Receiver.Reset.{handle_peer_last_tsn_and_acknowledgement}
use ortc.Sctp.Receiver.Data.{takes, store_data, stream_handle_data, receive_data, handle_data}
use ortc.Sctp.Receiver.Ahead.{
  Follows, push-Follows, Follows-lower, can_push_fresh, Follows-count, Follows-count_high,
}
use ortc.Sctp.Receiver.Progress.{SameTsns, passed, Advanced, handle_peer_last_tsn_lem}
use ortc.Sctp.Receiver.Handed.{takes-can_push}

get_or_create_stream-SameTsns : (r : Receiver) (id : ℕ) → SameTsns r (get_or_create_stream r id)
unfolding get_or_create_stream create_stream
get_or_create_stream-SameTsns r id = ground arith

stream_handle_data-SameTsns :
    (r : Receiver) (d : ChunkPayloadData) (now : ℕ) → SameTsns r (stream_handle_data r d now)
unfolding stream_handle_data
stream_handle_data-SameTsns r d now = ground arith

receive_data-taken :
    (r : Receiver) (d : ChunkPayloadData) (now : ℕ)
    → takes r d ≡ true
    → ((receive_data r d now).payload_queue ≡ (push r.payload_queue d r.peer_last_tsn).0)
      × ((receive_data r d now).peer_last_tsn ≡ r.peer_last_tsn)
unfolding receive_data store_data
receive_data-taken r d now h =
    let can = takes-can_push r d h in
    let (a, b) = stream_handle_data-SameTsns (store_data r d) d now in
    let (p, q) = get_or_create_stream-SameTsns r d.stream_identifier in
    ground (arith, h, can, a, b, p, q)

receive_data-refused :
    (r : Receiver) (d : ChunkPayloadData) (now : ℕ)
    → takes r d ≡ false
    → SameTsns r (receive_data r d now)
unfolding receive_data store_data
receive_data-refused r d now h =
    let (p, q) = get_or_create_stream-SameTsns r d.stream_identifier in ground (arith, h, p, q)

-- Since the point `base`, the cumulative TSN has moved by `moved`, over TSNs that were given, and the
-- TSNs that were given otherwise are those held.
pub record IsAccounted (base moved : ℕ) (s : Receiver × List ℕ) : Type 0 where
  pub at : s.0.peer_last_tsn ≡ (base + moved) % 2 ^ 32
  pub bounded : moved < 2 ^ 31
  pub valid : IsValid s.0.payload_queue
  pub waits : Follows s.0.peer_last_tsn 0 (2 ^ 31 - moved) s.0.payload_queue.sorted
  pub exact :
      (t : ℕ)
      → t < 2 ^ 32
      → count t s.0.payload_queue.sorted + bit_of (passed base moved t) ≡ count t s.1

-- The TSNs that a longer move has passed.
passed_add :
    (base moved steps t : ℕ)
    → base < 2 ^ 32
    → moved + steps < 2 ^ 31
    → t < 2 ^ 32
    → bit_of (passed base (moved + steps) t)
      ≡ bit_of (passed base moved t) + bit_of (passed ((base + moved) % 2 ^ 32) steps t)
passed_add base moved steps t hb h ht = ground arith

-- A handler that has advanced keeps the account.
IsAccounted-advance :
    {base moved steps : ℕ} (r : Receiver) {sorted log : List ℕ} {out : Receiver}
    → base < 2 ^ 32
    → moved < 2 ^ 31
    → r.peer_last_tsn ≡ (base + moved) % 2 ^ 32
    → Advanced (2 ^ 31 - moved) r.peer_last_tsn sorted out steps
    → ((t : ℕ) → t < 2 ^ 32 → count t sorted + bit_of (passed base moved t) ≡ count t log)
    → IsAccounted base (moved + steps) (out, log)
IsAccounted-advance {base} {moved} {steps} r {sorted} {log} {out} hb hm e a counts = record {
  at = a.at ∙ rw e (omega arith);
  bounded = omega (arith, a.bounded);
  valid = a.valid;
  waits =
      let less : 2 ^ 31 - moved - steps ≡ 2 ^ 31 - (moved + steps) = omega arith in
      Follows-lower out.peer_last_tsn 1 0 _ out.payload_queue.sorted (omega arith)
        (rw less at a.waits);
  exact = λ t ht.
      let split = passed_add base moved steps t hb (omega (arith, a.bounded)) ht in
      let new = rw e at (a.taken t ht) in omega (arith, counts t ht, new, split);
}

-- A chunk that is taken joins the TSNs that wait; one that is not leaves them alone.
receive_data-Follows :
    (hi : ℕ) (r : Receiver) (d : ChunkPayloadData) (now : ℕ)
    → hi ≤ 2 ^ 31
    → r.peer_last_tsn < 2 ^ 32
    → d.tsn < 2 ^ 32
    → IsValid r.payload_queue
    → Follows r.peer_last_tsn 0 hi r.payload_queue.sorted
    → (can_push r.payload_queue d r.peer_last_tsn ≡ true
        → ahead (2 ^ 32) r.peer_last_tsn d.tsn < hi)
    → let s = receive_data r d now in
      (s.peer_last_tsn ≡ r.peer_last_tsn)
      × IsValid s.payload_queue
      × Follows r.peer_last_tsn 0 hi s.payload_queue.sorted
      × ((t : ℕ)
          → count t s.payload_queue.sorted
            ≡ bit_of (takes r d && (t == d.tsn)) + count t r.payload_queue.sorted)
receive_data-Follows hi r d now high last hd v f near = elim (Bool-cases (takes r d)) [
  | inl taken ↦
      let can = takes-can_push r d taken in
      let (same, at) = receive_data-taken r d now taken in
      let (valid, waits, counts) =
        push-Follows r.peer_last_tsn hi r.payload_queue d last high v f can hd (near can) in
      (at, rw same valid, rw same waits, λ t. rw (same, taken) (counts t))
  | inr refused ↦
      let (same, at) = receive_data-refused r d now refused in
      (at, rw same v, rw same f, λ t. rw (same, refused) (omega arith))
]

count-noted :
    (t tsn : ℕ) (given : Bool) (log : List ℕ)
    → count t (if given then tsn ∷ log else log) ≡ bit_of (given && (t == tsn)) + count t log
count-noted t tsn true log = refl
count-noted t tsn false log = omega arith

-- A DATA chunk is handled, and the account kept, with its TSN noted if it is taken.
pub data_chunk-IsAccounted :
    (base moved : ℕ) (r : Receiver) (log : List ℕ) (d : ChunkPayloadData) (now : ℕ)
    → base < 2 ^ 32
    → (d.tsn < 2 ^ 32) × (ahead (2 ^ 32) base d.tsn < 2 ^ 31)
    → IsAccounted base moved (r, log)
    → (out : Receiver × List Packet) × (steps : ℕ) × (handle_data r d now ≡ some out)
      × (handle_peer_last_tsn_and_acknowledgement (receive_data r d now) d.immediate_sack
          ≡ some out)
      × IsAccounted base (moved + steps) (out.0, if takes r d then d.tsn ∷ log else log)
unfolding handle_data
data_chunk-IsAccounted base moved r log d now hb (hd, near) i =
    let last : r.peer_last_tsn < 2 ^ 32 = rw i.at (omega arith) in
    let (at, valid, waits, counts) =
      receive_data-Follows (2 ^ 31 - moved) r d now (omega arith) last hd i.valid i.waits (λ can.
        let fresh = can_push_fresh r.payload_queue d r.peer_last_tsn last hd can in
        omega (arith, fresh, i.at, i.bounded, near)) in
    let s = receive_data r d now in
    let (out, steps, run, adv) =
      handle_peer_last_tsn_lem (2 ^ 31 - moved) s d.immediate_sack (omega (arith, i.bounded))
        (omega arith) (rw at last) valid (rw at waits) in
    (
      out,
      steps,
      run,
      run,
      IsAccounted-advance s hb i.bounded (at ∙ i.at) adv
          (λ t ht. omega (arith, counts t, i.exact t ht, count-noted t d.tsn (takes r d) log)),
    )

-- What leaves the TSNs alone keeps the account.
pub IsAccounted-same :
    {base moved : ℕ} {r : Receiver} {log : List ℕ} (s : Receiver)
    → (s.payload_queue.sorted ≡ r.payload_queue.sorted)
      × IsValid s.payload_queue
      × (s.peer_last_tsn ≡ r.peer_last_tsn)
    → IsAccounted base moved (r, log)
    → IsAccounted base moved (s, log)
IsAccounted-same s (same, valid, at) i = record {
  at = at ∙ i.at;
  bounded = i.bounded;
  valid = valid;
  waits = rw (same, at) i.waits;
  exact = λ t ht. rw same (i.exact t ht);
}

pub gather_sack-same :
    (r : Receiver)
    → IsValid r.payload_queue
    → let s = (gather_sack r).0 in
      (s.payload_queue.sorted ≡ r.payload_queue.sorted)
      × IsValid s.payload_queue
      × (s.peer_last_tsn ≡ r.peer_last_tsn)
unfolding gather_sack create_selective_ack_chunk pop_duplicates
gather_sack-same r v = ground arith

pub handle_chunk_end-SameTsns : (r : Receiver) (now : ℕ) → SameTsns r (handle_chunk_end r now)
unfolding handle_chunk_end
handle_chunk_end-SameTsns r now = ground arith

-- An account in terms of the two ends of the move.
pub accounted_counts :
    {base moved : ℕ} {s : Receiver × List ℕ} (t : ℕ)
    → base < 2 ^ 32
    → t < 2 ^ 32
    → IsAccounted base moved s
    → (count t s.1 ≤ 1)
      × (passed base (ahead (2 ^ 32) base s.0.peer_last_tsn) t ≡ true → count t s.1 ≡ 1)
accounted_counts {base} {moved} {s} t hb ht a =
    let distance : ahead (2 ^ 32) base s.0.peer_last_tsn ≡ moved = omega (arith, a.at, a.bounded) in
    let behind : passed base moved t ≡ true → count t s.0.payload_queue.sorted ≡ 0 = λ h.
      elim (Bool-cases (t == s.0.peer_last_tsn)) [
        | inl same ↦
            Follows-count s.0.peer_last_tsn 0 _ t s.0.payload_queue.sorted (ground arith) a.waits
        | inr other ↦
            Follows-count_high s.0.peer_last_tsn 0 _ t s.0.payload_queue.sorted
              (ground (arith, a.at, a.bounded)) a.waits
      ] in
    let once : count t s.0.payload_queue.sorted ≤ 1 =
      omega (arith, a.valid.distinct t, a.valid.listed t) in
    (
      ground (arith, a.exact t ht, once, behind),
      rw distance (λ h. ground (arith, a.exact t ht, behind h)),
    )
