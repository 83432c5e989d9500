-- ===== src/Sctp/Receiver/Once.antt =====
-- DATA chunks over time: what the reassembly queues of the streams are given, and what a SACK
-- acknowledges.
use ortc.Common.{
  ℕ, ◌+◌, ◌^◌, ◌≤◌, ◌<◌, ◌≡◌, refl, ap, ◌∙◌, Bool, true, false, Option, none, some, List, [], ◌∷◌,
  if◌then◌else◌, arith, All, All-imp, ◌⊎◌, inl, inr,
}
use ortc.Common.Map.{count}
use ortc.Sctp.Sna.{ahead}
use ortc.Sctp.Chunk.{ChunkPayloadData}
use ortc.Sctp.PayloadQueue.{empty_queue, pop_duplicates}
use ortc.Sctp.PayloadQueue.Invariant.{empty_queue-IsValid}
use ortc.Sctp.Receiver.{
  Receiver, Packet, handle_chunk_start, handle_chunk_end, on_ack_timeout, gather_sack,
  create_selective_ack_chunk,
}
use ortc.Sctp.Receiver.Data.{takes, receive_data, handle_data}
use ortc.Sctp.Receiver.Progress.{passed}
use ortc.Sctp.Receiver.Handed.{
  queue_of, pushes, SameStreams, receive_data-queue_of, handle_peer_last_tsn-SameStreams,
}
use ortc.Sctp.Receiver.Account.{
  IsAccounted, data_chunk-IsAccounted, IsAccounted-same, gather_sack-same,
  handle_chunk_end-SameTsns, accounted_counts,
}

-- What can happen to the receiving side between two FORWARD-TSN chunks: a DATA chunk, the end or
-- the start of a packet, the timer of the delayed acknowledgement, and the sending of a SACK.
pub data Input : Type 0 where
  data_chunk : ChunkPayloadData → ℕ → Input
  packet_start : Input
  packet_end : ℕ → Input
  ack_timeout : Input
  sack_sent : Input

abbrev receiver_of : Option (Receiver × List Packet) → Option Receiver
receiver_of none = none
receiver_of (some (r, reply)) = some r

unfoldable feed_one : Input → Receiver → Option Receiver
unfolding handle_data handle_chunk_start handle_chunk_end on_ack_timeout gather_sack
feed_one (data_chunk d now) r = receiver_of (handle_data r d now)
feed_one packet_start r = some (handle_chunk_start r)
feed_one (packet_end now) r = some (handle_chunk_end r now)
feed_one ack_timeout r = some (on_ack_timeout r)
feed_one sack_sent r = some (gather_sack r).0

abbrev then_feed : (Receiver → Option Receiver) → Option Receiver → Option Receiver
then_feed f none = none
then_feed f (some r) = f r

-- The receiving side after a list of inputs.
unfoldable pub feed : List Input → Receiver → Option Receiver
unfolding feed_one
feed [] r = some r
feed (i ∷ l) r = then_feed (feed l) (feed_one i r)

-- The TSN of a DATA chunk is a u32 less than half the circle ahead of `base`.
abbrev pub IsNear : ℕ → Input → Type 0
IsNear base (data_chunk d now) = (d.tsn < 2 ^ 32) × (ahead (2 ^ 32) base d.tsn < 2 ^ 31)
IsNear base packet_start = Unit {0}
IsNear base (packet_end now) = Unit {0}
IsNear base ack_timeout = Unit {0}
IsNear base sack_sent = Unit {0}

-- The input is one of the list.
abbrev pub Among : Input → List Input → Type 0
Among i [] = ⊥
Among i (j ∷ l) = (i ≡ j) ⊎ Among i l

All-Among : (l : List Input) → All (λ i. Among i l) l
All-Among [] = tt
All-Among (i ∷ l) =
    (inl refl, All-imp (λ j. Among j l) (λ j. Among j (i ∷ l)) l (λ j h. inr h) (All-Among l))

abbrev pub tsns : List (ChunkPayloadData × ℕ) → List ℕ
tsns [] = []
tsns ((d, now) ∷ l) = d.tsn ∷ tsns l

-- Since `start` the reassembly queues have been given the chunks `given`, which came as `inputs`.
record Handing (inputs : List Input) (start : Receiver) (r : Receiver)
    (given : List (ChunkPayloadData × ℕ)) : Type 0 where
  quiet : r.reconfig_requests ≡ []
  queues : (id : ℕ) → queue_of id r.streams ≡ pushes id given (queue_of id start.streams)
  came : All (λ (g : ChunkPayloadData × ℕ). Among (Input.data_chunk g.0 g.1) inputs) given

Handing-same :
    {inputs : List Input} {start r : Receiver} {given : List (ChunkPayloadData × ℕ)} (s : Receiver)
    → SameStreams r s
    → Handing inputs start r given
    → Handing inputs start s given
Handing-same s (same, waiting) h = record {
  quiet = waiting ∙ h.quiet;
  queues = λ id. ap (queue_of id) same ∙ h.queues id;
  came = h.came;
}

-- A chunk that comes is given to its stream, or not.
abbrev give :
    Bool → ChunkPayloadData → ℕ → List (ChunkPayloadData × ℕ) → List (ChunkPayloadData × ℕ)
give taken d now given = if taken then (d, now) ∷ given else given

Handing-give :
    {inputs : List Input} {start r : Receiver} {given : List (ChunkPayloadData × ℕ)} (s : Receiver)
    (taken : Bool) (d : ChunkPayloadData) (now : ℕ)
    → ((id : ℕ)
        → (queue_of id s.streams
            ≡ pushes id (if taken then (d, now) ∷ [] else []) (queue_of id r.streams))
          × (s.reconfig_requests ≡ r.reconfig_requests))
    → Among (Input.data_chunk d now) inputs
    → Handing inputs start r given
    → Handing inputs start s (give taken d now given)
Handing-give s true d now step among h = record {
  quiet = (step 0).1 ∙ h.quiet;
  queues = λ id. (step id).0 ∙ ap (pushes id ((d, now) ∷ [])) (h.queues id);
  came = (among, h.came);
}
Handing-give s false d now step among h = record {
  quiet = (step 0).1 ∙ h.quiet;
  queues = λ id. (step id).0 ∙ h.queues id;
  came = h.came;
}

tsns-give :
    (taken : Bool) (d : ChunkPayloadData) (now : ℕ) (given : List (ChunkPayloadData × ℕ))
    → (if taken then d.tsn ∷ tsns given else tsns given) ≡ tsns (give taken d now given)
tsns-give true d now given = refl
tsns-give false d now given = refl

-- The account and the hand-over together.
abbrev Kept : List Input → Receiver → ℕ → Option Receiver → Type 0
Kept inputs start base result =
    (s : Receiver) × (given : List (ChunkPayloadData × ℕ)) × (far : ℕ) × (result ≡ some s)
    × IsAccounted base far (s, tsns given)
    × Handing inputs start s given

handle_chunk_end-SameStreams : (r : Receiver) (now : ℕ) → SameStreams r (handle_chunk_end r now)
unfolding handle_chunk_end
handle_chunk_end-SameStreams r now = ground arith

gather_sack-SameStreams : (r : Receiver) → SameStreams r (gather_sack r).0
unfolding gather_sack create_selective_ack_chunk pop_duplicates
gather_sack-SameStreams r = ground arith

module _ (inputs : List Input) (start : Receiver) (base : ℕ) (hb : base < 2 ^ 32) where
  feed_one-Kept :
      (moved : ℕ) (i : Input) (r : Receiver) (given : List (ChunkPayloadData × ℕ))
      → IsNear base i
      → Among i inputs
      → IsAccounted base moved (r, tsns given)
      → Handing inputs start r given
      → Kept inputs start base (feed_one i r)
  unfolding feed_one handle_chunk_start on_ack_timeout
  feed_one-Kept moved (data_chunk d now) r given near among a h =
      let (out, steps, run, ended, b) =
        data_chunk-IsAccounted base moved r (tsns given) d now hb near a in
      let step = receive_data-queue_of r d now in
      let taken = Handing-give (receive_data r d now) (takes r d) d now step among h in
      let same =
        handle_peer_last_tsn-SameStreams (receive_data r d now) d.immediate_sack taken.quiet
          ended in
      (
        out.0,
        give (takes r d) d now given,
        moved + steps,
        ap receiver_of run,
        rw (← tsns-give (takes r d) d now given) b,
        Handing-same out.0 same taken,
      )
  feed_one-Kept moved packet_start r given near among a h = (
    handle_chunk_start r,
    given,
    moved,
    refl,
    IsAccounted-same (handle_chunk_start r) (refl, a.valid, refl) a,
    Handing-same (handle_chunk_start r) (refl, refl) h,
  )
  feed_one-Kept moved (packet_end now) r given near among a h =
      let s = handle_chunk_end r now in
      let (same, at) = handle_chunk_end-SameTsns r now in
      (
        s,
        given,
        moved,
        refl,
        IsAccounted-same s (ap (λ q. q.sorted) same, rw same a.valid, at) a,
        Handing-same s (handle_chunk_end-SameStreams r now) h,
      )
  feed_one-Kept moved ack_timeout r given near among a h = (
    on_ack_timeout r,
    given,
    moved,
    refl,
    IsAccounted-same (on_ack_timeout r) (refl, a.valid, refl) a,
    Handing-same (on_ack_timeout r) (refl, refl) h,
  )
  feed_one-Kept moved sack_sent r given near among a h = (
    (gather_sack r).0,
    given,
    moved,
    refl,
    IsAccounted-same (gather_sack r).0 (gather_sack-same r a.valid) a,
    Handing-same (gather_sack r).0 (gather_sack-SameStreams r) h,
  )

  feed-Kept :
      (moved : ℕ) (l : List Input) (r : Receiver) (given : List (ChunkPayloadData × ℕ))
      → All (IsNear base) l
      → All (λ i. Among i inputs) l
      → IsAccounted base moved (r, tsns given)
      → Handing inputs start r given
      → Kept inputs start base (feed l r)
  unfolding feed
  feed-Kept moved [] r given near among a h = (r, given, moved, refl, a, h)
  feed-Kept moved (i ∷ l) r given (n, near) (m, among) a h =
      let (s, more, far, run, b, k) = feed_one-Kept moved i r given n m a h in
      let (t, most, end, rest, c, u) = feed-Kept far l s more near among b k in
      (t, most, end, ap (then_feed (feed l)) run ∙ rest, c, u)

-- Whatever DATA chunks come, in whatever order and however often, with packets beginning and ending
-- and acknowledgements sent in between: every handler ends, and there is a list of chunks among
-- those that came, such that the reassembly queue of every stream is the one of the start with just
-- the chunks of the list for that stream pushed, the last of the list first; no TSN stands twice in
-- the list, and every TSN from the cumulative point of the start up to the cumulative TSN of the
-- SACK that is sent next stands in it. The payload queue was empty at the start and no request
-- to reset a stream waited, and the TSNs lie less than half the circle ahead of the cumulative point of
-- the start.
pub feed-once :
    (l : List Input) (r : Receiver)
    → r.peer_last_tsn < 2 ^ 32
    → r.payload_queue ≡ empty_queue
    → r.reconfig_requests ≡ []
    → All (IsNear r.peer_last_tsn) l
    → (out : Receiver) × (given : List (ChunkPayloadData × ℕ)) × (feed l r ≡ some out)
      × All (λ (g : ChunkPayloadData × ℕ). Among (Input.data_chunk g.0 g.1) l) given
      × ((id : ℕ) → queue_of id out.streams ≡ pushes id given (queue_of id r.streams))
      × ((t : ℕ)
          → t < 2 ^ 32
          → (count t (tsns given) ≤ 1)
            × (passed r.peer_last_tsn
                    (ahead
                      (2 ^ 32)
                      r.peer_last_tsn
                      (create_selective_ack_chunk out).1.cumulative_tsn_ack)
                    t
                  ≡ true
                → count t (tsns given) ≡ 1))
unfolding empty_queue create_selective_ack_chunk
feed-once l r hb empty quiet near =
    let account : IsAccounted r.peer_last_tsn 0 (r, []) = record {
      at = omega arith;
      bounded = omega arith;
      valid = rw empty empty_queue-IsValid;
      waits = rw empty tt;
      exact = λ t ht. rw empty (ground arith);
    } in
    let none_given : Handing l r r [] = record { quiet = quiet; queues = λ id. refl; came = tt } in
    let (s, given, far, run, a, h) =
      feed-Kept l r r.peer_last_tsn hb 0 l r [] near (All-Among l) account none_given in
    (s, given, run, h.came, h.queues, λ t ht. accounted_counts t hb ht a)
