-- ===== src/Sctp/Receiver/Handed.antt =====
-- What DATA chunks do to the reassembly queues of the streams, and that the rest of `handle_data`
-- leaves these alone while no reset of a stream is asked for.
use ortc.Common.{
  ℕ, zero, suc, ◌≡◌, refl, ap, sym, ◌∙◌, Bool, true, false, Option, none, some, List, [], ◌∷◌,
  length, ◌==◌, if◌then◌else◌, arith, Bool-cases, inl, inr,
}
use mathlib.Core.Path.{subst}
use ortc.Common.Map
use ortc.Sctp.Chunk.{ChunkPayloadData}
use ortc.Sctp.PayloadQueue.{PayloadQueue, can_push, push, pop}
use ortc.Sctp.ReassemblyQueue.{ReassemblyQueue}
use ortc.Sctp.ReassemblyQueue
use ortc.Sctp.Association.Sack.{next_tsn}
use ortc.Sctp.Receiver.{
  Receiver, Packet, StreamState, ParamOutgoingResetRequest, new_stream, create_stream,
  get_or_create_stream, trigger_ack,
}
use ortc.Sctp.Receiver.Reset.{
  reset_all, advance_by, advance_loop, acknowledged, handle_peer_last_tsn_and_acknowledgement,
}
use ortc.Sctp.Receiver.Data.{takes, store_data, stream_handle_data, receive_data}

-- The reassembly queue of a stream, or that of a new stream.
abbrev pub queue_of : ℕ → List (ℕ × StreamState) → ReassemblyQueue
queue_of id m = elim (Map.get id m) [ none ↦ ReassemblyQueue.new id | some s ↦ s.reassembly_queue ]

-- The queue of the stream `id` after the pushes of those chunks that are for it, the last one
-- first in the list, each with the time of its push.
abbrev pub pushes : ℕ → List (ChunkPayloadData × ℕ) → ReassemblyQueue → ReassemblyQueue
pushes id [] q = q
pushes id ((d, now) ∷ l) q =
    let r = pushes id l q in
    if id == d.stream_identifier then (ReassemblyQueue.push r d now).0 else r

-- The streams are the same, and so are the requests that wait.
abbrev pub SameStreams : Receiver → Receiver → Type 0
SameStreams r s = (s.streams ≡ r.streams) × (s.reconfig_requests ≡ r.reconfig_requests)

queue_of-new :
    (id si : ℕ) (m : List (ℕ × StreamState))
    → Map.get si m ≡ none
    → queue_of id (Map.insert si (new_stream si) m) ≡ queue_of id m
unfolding new_stream
queue_of-new id si m h = ground (
  arith,
  h,
  Map.get-insert si id (new_stream si) m,
  ap (λ (k : ℕ). Map.get k m) {x = id} {y = si},
  ap ReassemblyQueue.new {x = id} {y = si},
)

-- A stream is there, and no queue is changed by it.
get_or_create_stream-queue_of :
    (r : Receiver) (id si : ℕ)
    → let s = get_or_create_stream r si in
      (queue_of id s.streams ≡ queue_of id r.streams) × (s.reconfig_requests ≡ r.reconfig_requests)
unfolding get_or_create_stream create_stream
get_or_create_stream-queue_of r id si = elim (Bool-cases (Map.contains_key si r.streams)) [
  | inl known ↦ rw known (refl, refl)
  | inr unknown ↦
      rw unknown (queue_of-new id si r.streams (Map.get-contains_key si r.streams unknown), refl)
]

contains_key-get :
    {V : Type 0} (k : ℕ) (m : List (ℕ × V))
    → Map.contains_key k m ≡ true
    → (v : V) × (Map.get k m ≡ some v)
unfolding Map.contains_key Map.get
contains_key-get k [] h = absurd (cc)
contains_key-get k ((j, v) ∷ m) h = elim (Bool-cases (k == j)) [
  | inl same ↦ (v, rw same refl)
  | inr other ↦ let (w, e) = contains_key-get k m (ground (arith, h, other)) in (w, rw other e)
]

get_or_create_stream-get :
    (r : Receiver) (si : ℕ)
    → (s : StreamState) × (Map.get si (get_or_create_stream r si).streams ≡ some s)
unfolding get_or_create_stream create_stream
get_or_create_stream-get r si = elim (Bool-cases (Map.contains_key si r.streams)) [
  | inl known ↦ let (s, e) = contains_key-get si r.streams known in (s, rw known e)
  | inr unknown ↦
      (new_stream si, rw unknown (ground (arith, Map.get-insert si si (new_stream si) r.streams)))
]

-- `stream_handle_data` pushes the chunk to the queue of its stream, and touches no other.
stream_handle_data-queue_of :
    (r : Receiver) (d : ChunkPayloadData) (now id : ℕ) {s : StreamState}
    → Map.get d.stream_identifier r.streams ≡ some s
    → let out = stream_handle_data r d now in
      (queue_of id out.streams ≡ pushes id ((d, now) ∷ []) (queue_of id r.streams))
      × (out.reconfig_requests ≡ r.reconfig_requests)
unfolding stream_handle_data
stream_handle_data-queue_of r d now id {s} h =
    let q = (ReassemblyQueue.push s.reassembly_queue d now).0 in
    let put = Map.get-insert d.stream_identifier id (record s { reassembly_queue = q }) r.streams in
    rw (h, stream_handle_data)
      (
        ground
            (arith, h, put, ap (λ (k : ℕ). Map.get k r.streams) {x = id} {y = d.stream_identifier}),
        refl,
      )

pub takes-can_push :
    (r : Receiver) (d : ChunkPayloadData)
    → takes r d ≡ true
    → can_push r.payload_queue d r.peer_last_tsn ≡ true
unfolding takes
takes-can_push r d h = ground arith

-- The receiving side with the stream there and the chunk pushed.
abbrev stored : Receiver → ChunkPayloadData → Receiver
stored r d =
    let s = get_or_create_stream r d.stream_identifier in
    record s { payload_queue = (push s.payload_queue d s.peer_last_tsn).0 }

store_data_lem :
    (r : Receiver) (d : ChunkPayloadData)
    → store_data r d ≡ (
        if can_push r.payload_queue d r.peer_last_tsn
        then (if takes r d then stored r d else get_or_create_stream r d.stream_identifier)
        else r)
unfolding store_data
store_data_lem r d = refl

store_data-taken :
    (r : Receiver) (d : ChunkPayloadData) → takes r d ≡ true → store_data r d ≡ stored r d
store_data-taken r d h = store_data_lem r d ∙ rw (takes-can_push r d h, h) refl

-- The queue of the stream `id` is `q`, and the requests that wait are `l`.
abbrev Shows : ℕ → ReassemblyQueue → List (ℕ × ParamOutgoingResetRequest) → Receiver → Type 0
Shows id q l s = (queue_of id s.streams ≡ q) × (s.reconfig_requests ≡ l)

if-Shows :
    (id : ℕ) (q : ReassemblyQueue) (l : List (ℕ × ParamOutgoingResetRequest)) (b : Bool)
    (x y : Receiver)
    → Shows id q l x
    → Shows id q l y
    → Shows id q l (if b then x else y)
if-Shows id q l true x y h k = h
if-Shows id q l false x y h k = k

store_data-queue_of :
    (r : Receiver) (d : ChunkPayloadData) (id : ℕ)
    → Shows id (queue_of id r.streams) r.reconfig_requests (store_data r d)
store_data-queue_of r d id =
    let s = get_or_create_stream r d.stream_identifier in
    let (a, b) = get_or_create_stream-queue_of r id d.stream_identifier in
    subst (Shows id (queue_of id r.streams) r.reconfig_requests) (sym (store_data_lem r d)) (
      if-Shows id (queue_of id r.streams) r.reconfig_requests
        (can_push r.payload_queue d r.peer_last_tsn) (if takes r d then stored r d else s) r
        (if-Shows id (queue_of id r.streams) r.reconfig_requests (takes r d) (stored r d) s (a, b)
          (a, b))
        (refl, refl))

receive_data_lem :
    (r : Receiver) (d : ChunkPayloadData) (now : ℕ)
    → receive_data r d now
      ≡ (if takes r d then stream_handle_data (store_data r d) d now else store_data r d)
unfolding receive_data
receive_data_lem r d now = refl

-- A chunk that is taken is pushed to the queue of its stream, one that is not to none.
pub receive_data-queue_of :
    (r : Receiver) (d : ChunkPayloadData) (now id : ℕ)
    → let out = receive_data r d now in
      (queue_of id out.streams
        ≡ pushes id (if takes r d then (d, now) ∷ [] else []) (queue_of id r.streams))
      × (out.reconfig_requests ≡ r.reconfig_requests)
receive_data-queue_of r d now id =
    let (a, b) = store_data-queue_of r d id in
    rw (receive_data_lem r d now) (elim (Bool-cases (takes r d)) [
      | inr refused ↦ rw refused (a, b)
      | inl taken ↦
          let (s, there) = get_or_create_stream-get r d.stream_identifier in
          let same = ap (λ x. x.streams) (store_data-taken r d taken) in
          let (c, e) =
            stream_handle_data-queue_of (store_data r d) d now id
              (ap (Map.get d.stream_identifier) same ∙ there) in
          rw taken (c ∙ ap (pushes id ((d, now) ∷ [])) a, e ∙ b)
    ])

-- A round of the loop, with the rounds that follow.
advance_by-SameStreams :
    (fuel : ℕ) (r : Receiver) (reply : List Packet) (p : PayloadQueue × Option ChunkPayloadData)
    {out : Receiver × List Packet}
    → r.reconfig_requests ≡ []
    → ((s : Receiver) (more : List Packet)
        → s.reconfig_requests ≡ []
        → advance_loop fuel s more ≡ some out
        → SameStreams s out.0)
    → advance_by (advance_loop fuel) r reply p ≡ some out
    → SameStreams r out.0
unfolding advance_by reset_all
advance_by-SameStreams fuel r reply (q, none) quiet ih run = ground arith
advance_by-SameStreams fuel r reply (q, some c) quiet ih run =
    let next = record r { payload_queue = q; peer_last_tsn = next_tsn r.peer_last_tsn } in
    let same = ap (λ l. reset_all l (next, reply)) quiet in
    ih next reply quiet (sym (ap (λ s. advance_loop fuel s.0 s.1) same) ∙ run)

advance_loop-SameStreams :
    (fuel : ℕ) (r : Receiver) (reply : List Packet) {out : Receiver × List Packet}
    → r.reconfig_requests ≡ []
    → advance_loop fuel r reply ≡ some out
    → SameStreams r out.0
unfolding advance_loop
advance_loop-SameStreams zero r reply quiet run = cc
advance_loop-SameStreams (suc fuel) r reply quiet run =
    advance_by-SameStreams fuel r reply (pop r.payload_queue (next_tsn r.peer_last_tsn)) quiet
      (λ s more quiet' run'. advance_loop-SameStreams fuel s more quiet' run') run

trigger_ack-SameStreams : (r : Receiver) (now : Bool) → SameStreams r (trigger_ack r now)
unfolding trigger_ack
trigger_ack-SameStreams r now = ground arith

-- The common end of the handlers, while no request waits.
pub handle_peer_last_tsn-SameStreams :
    (r : Receiver) (now : Bool) {out : Receiver × List Packet}
    → r.reconfig_requests ≡ []
    → handle_peer_last_tsn_and_acknowledgement r now ≡ some out
    → SameStreams r out.0
unfolding handle_peer_last_tsn_and_acknowledgement acknowledged
handle_peer_last_tsn-SameStreams r now {out} quiet run =
    ended (advance_loop (suc (length r.payload_queue.sorted)) r []) refl run
  where
    ended :
        (p : Option (Receiver × List Packet))
        → advance_loop (suc (length r.payload_queue.sorted)) r [] ≡ p
        → acknowledged now p ≡ some out
        → SameStreams r out.0
    ended none e h = cc
    ended (some (s, reply)) e h =
        let (a, b) = advance_loop-SameStreams (suc (length r.payload_queue.sorted)) r [] quiet e in
        let (c, d) = trigger_ack-SameStreams s now in ground (arith, a, b, c, d, h)
