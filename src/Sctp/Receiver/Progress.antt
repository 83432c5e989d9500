-- ===== src/Sctp/Receiver/Progress.antt =====
-- How far `peer_last_tsn` moves, and over what: the loops end, and take exactly the run of TSNs that
-- are held after it.
use ortc.Common.{
  ℕ, zero, suc, ◌+◌, ◌-◌, ◌%◌, ◌^◌, ◌≤◌, ◌<◌, ◌≡◌, refl, ap, ◌∙◌, Bool, false, ◌&&◌, some, Option,
  List, [], ◌∷◌, length, ltb, leb, arith, bit_of, if◌then◌else◌, Bool-cases, inl, inr,
}
use mathlib.Core.Path.{subst}
use ortc.Common.Map
use ortc.Common.Map.{count, keys}
use ortc.Sctp.Sna.{ahead, sna32lte}
use ortc.Sctp.Chunk.{ChunkPayloadData}
use ortc.Sctp.PayloadQueue.{PayloadQueue, pop}
use ortc.Sctp.PayloadQueue.Invariant.{IsValid, pop-IsValid}
use ortc.Sctp.Association.Sack.{next_tsn}
use ortc.Sctp.Receiver.{Receiver, Packet, ParamOutgoingResetRequest, unregister_stream, trigger_ack}
use ortc.Sctp.Receiver.Reset.{
  reset_ids, answer_reset, respond_reset, reset_streams_if_any, reset_all, advance_by, advance_loop,
  handle_peer_last_tsn_and_acknowledgement, acknowledged,
}
use ortc.Sctp.Receiver.Ahead.{Follows, Popped, stays, moves, pop-Popped}

-- What a reset leaves alone.
abbrev pub SameTsns : Receiver → Receiver → Type 0
SameTsns r s = (s.payload_queue ≡ r.payload_queue) × (s.peer_last_tsn ≡ r.peer_last_tsn)

reset_ids-SameTsns : (l : List ℕ) (r : Receiver) → SameTsns r (reset_ids l r).0
unfolding reset_ids unregister_stream
reset_ids-SameTsns [] r = (refl, refl)
reset_ids-SameTsns (id ∷ l) r = elim (Bool-cases (Map.contains_key id r.streams)) [
  | inl known ↦ rw known (reset_ids-SameTsns l (unregister_stream r id))
  | inr unknown ↦ rw unknown (reset_ids-SameTsns l r)
]

answer_reset-SameTsns :
    (p : ParamOutgoingResetRequest) (ids : List ℕ) (r : Receiver) (reply : List Packet)
    → SameTsns r (answer_reset p ids (r, reply)).0
unfolding answer_reset
answer_reset-SameTsns p [] r reply = (refl, refl)
answer_reset-SameTsns p (id ∷ ids) r reply = (refl, refl)

reset_streams_if_any-SameTsns :
    (p : ParamOutgoingResetRequest) (respond : Bool) (r : Receiver) (reply : List Packet)
    → SameTsns r (reset_streams_if_any p respond (r, reply)).0
unfolding reset_streams_if_any respond_reset
reset_streams_if_any-SameTsns p respond r reply =
    elim (Bool-cases (sna32lte p.sender_last_tsn r.peer_last_tsn)) [
      | inl due ↦
          let (a, b) = reset_ids-SameTsns p.stream_identifiers r in
          let (c, d) =
            answer_reset-SameTsns p (if respond then (reset_ids p.stream_identifiers r).1 else [])
              (record (reset_ids p.stream_identifiers r).0 {
                reconfig_requests =
                    Map.remove p.reconfig_request_sequence_number
                      (reset_ids p.stream_identifiers r).0.reconfig_requests;
              })
              reply in
          rw due (c ∙ a, d ∙ b)
      | inr later ↦ rw later (refl, refl)
    ]

reset_all-SameTsns :
    (l : List (ℕ × ParamOutgoingResetRequest)) (s : Receiver × List Packet)
    → SameTsns s.0 (reset_all l s).0
unfolding reset_all
reset_all-SameTsns [] s = (refl, refl)
reset_all-SameTsns ((n, p) ∷ l) (r, reply) =
    let (a, b) = reset_streams_if_any-SameTsns p false r reply in
    let (c, d) = reset_all-SameTsns l (reset_streams_if_any p false (r, reply)) in (c ∙ a, d ∙ b)

trigger_ack-SameTsns : (r : Receiver) (now : Bool) → SameTsns r (trigger_ack r now)
unfolding trigger_ack
trigger_ack-SameTsns r now = ground arith

-- Whether a TSN is one of the `moved` ones after `base`.
abbrev pub passed : ℕ → ℕ → ℕ → Bool
passed base moved t = ltb 0 (ahead (2 ^ 32) base t) && leb (ahead (2 ^ 32) base t) moved

-- `peer_last_tsn` has moved on by `moved`, over TSNs that were all held, as far as it can: what is
-- left is farther than the TSN after it, and less than `hi` ahead of where it was.
pub record Advanced (hi base : ℕ) (sorted : List ℕ) (out : Receiver) (moved : ℕ) : Type 0 where
  pub at : out.peer_last_tsn ≡ (base + moved) % 2 ^ 32
  pub bounded : moved < hi
  pub valid : IsValid out.payload_queue
  pub waits : Follows out.peer_last_tsn 1 (hi - moved) out.payload_queue.sorted
  pub taken :
      (t : ℕ)
      → t < 2 ^ 32
      → count t sorted ≡ count t out.payload_queue.sorted + bit_of (passed base moved t)

Advanced-step :
    {hi base moved : ℕ} {before after : List ℕ} {out : Receiver}
    → base < 2 ^ 32
    → hi ≤ 2 ^ 31
    → 1 < hi
    → ((t : ℕ) → count t before ≡ count t (next_tsn base ∷ after))
    → Advanced (hi - 1) (next_tsn base) after out moved
    → Advanced hi base before out (suc moved)
Advanced-step {hi} {base} {moved} {before} {after} {out} hb hh two counts a = record {
  at = a.at ∙ omega arith;
  bounded = omega (arith, a.bounded);
  valid = a.valid;
  waits = let less : hi - 1 - moved ≡ hi - suc moved = omega arith in rw (← less) a.waits;
  taken = λ t ht. ground (arith, counts t, a.taken t ht, a.bounded);
}

-- The loop ends, and has advanced.
abbrev Advances : ℕ → ℕ → Receiver → List Packet → Type 0
Advances fuel hi r reply =
    (out : Receiver × List Packet) × (moved : ℕ) × (advance_loop fuel r reply ≡ some out)
    × Advanced hi r.peer_last_tsn r.payload_queue.sorted out.0 moved

-- What a round needs.
record IsReady (hi : ℕ) (r : Receiver) : Type 0 where
  last : r.peer_last_tsn < 2 ^ 32
  valid : IsValid r.payload_queue
  waits : Follows r.peer_last_tsn 0 hi r.payload_queue.sorted

-- A round by what `pop` has found.
advance_round :
    (fuel hi : ℕ) (r : Receiver) (reply : List Packet) {p : PayloadQueue × Option ChunkPayloadData}
    → length r.payload_queue.sorted < suc fuel
    → 1 ≤ hi
    → hi ≤ 2 ^ 31
    → IsReady hi r
    → ((s : Receiver) (more : List Packet)
        → length s.payload_queue.sorted < fuel
        → 1 ≤ hi - 1
        → IsReady (hi - 1) s
        → Advances fuel (hi - 1) s more)
    → pop r.payload_queue (next_tsn r.peer_last_tsn) ≡ p
    → Popped r.payload_queue r.peer_last_tsn hi p
    → Advances (suc fuel) hi r reply
unfolding advance_loop advance_by
advance_round fuel hi r reply enough low high ready ih e (stays f) = (
  (r, reply),
  0,
  ap (advance_by (advance_loop fuel) r reply) e,
  record {
    at = omega (arith, ready.last);
    bounded = omega arith;
    valid = ready.valid;
    waits = (let same : hi - 0 ≡ hi = omega arith in rw same f);
    taken = λ t ht. ground arith;
  },
)
advance_round fuel hi r reply enough low high ready ih e (moves q c len two f counts) =
    let next = record r { payload_queue = q; peer_last_tsn = next_tsn r.peer_last_tsn } in
    let s = reset_all r.reconfig_requests (next, reply) in
    let (a, b) = reset_all-SameTsns r.reconfig_requests (next, reply) in
    let ready' : IsReady (hi - 1) s.0 = record {
      last = rw b (omega arith);
      valid = rw a (rw e at (pop-IsValid (next_tsn r.peer_last_tsn) ready.valid));
      waits = rw (a, b) f;
    } in
    let (out, moved, run, adv) = ih s.0 s.1 (rw a (omega arith)) (omega arith) ready' in
    let moved_on : Advanced (hi - 1) (next_tsn r.peer_last_tsn) q.sorted out.0 moved =
      subst
        (λ (x : PayloadQueue). Advanced (hi - 1) (next_tsn r.peer_last_tsn) x.sorted out.0 moved) a
        (subst (λ (x : ℕ). Advanced (hi - 1) x s.0.payload_queue.sorted out.0 moved) b adv) in
    (
      out,
      suc moved,
      ap (advance_by (advance_loop fuel) r reply) e ∙ run,
      Advanced-step ready.last high two counts moved_on,
    )

advance_loop-Advanced :
    (fuel hi : ℕ) (r : Receiver) (reply : List Packet)
    → length r.payload_queue.sorted < fuel
    → 1 ≤ hi
    → hi ≤ 2 ^ 31
    → IsReady hi r
    → Advances fuel hi r reply
advance_loop-Advanced zero hi r reply h low high ready = absurd (omega arith)
advance_loop-Advanced (suc fuel) hi r reply h low high ready =
    advance_round fuel hi r reply h low high ready
      (λ s more enough' low' ready'.
        advance_loop-Advanced fuel (hi - 1) s more enough' low' (omega arith) ready')
      refl (pop-Popped r.payload_queue r.peer_last_tsn hi ready.last ready.valid ready.waits)

-- The common end of `handle_data` and `handle_forward_tsn` ends, and advances `peer_last_tsn` over
-- the run of TSNs that are held after it.
pub handle_peer_last_tsn_lem :
    (hi : ℕ) (r : Receiver) (sack_immediately : Bool)
    → 1 ≤ hi
    → hi ≤ 2 ^ 31
    → r.peer_last_tsn < 2 ^ 32
    → IsValid r.payload_queue
    → Follows r.peer_last_tsn 0 hi r.payload_queue.sorted
    → (out : Receiver × List Packet) × (moved : ℕ) × (handle_peer_last_tsn_and_acknowledgement r
          sack_immediately
        ≡ some out)
      × Advanced hi r.peer_last_tsn r.payload_queue.sorted out.0 moved
unfolding handle_peer_last_tsn_and_acknowledgement acknowledged
handle_peer_last_tsn_lem hi r sack_immediately low high last v f =
    let (out, moved, run, adv) =
      advance_loop-Advanced (suc (length r.payload_queue.sorted)) hi r [] (omega arith) low high
        (record { last = last; valid = v; waits = f }) in
    let (a, b) = trigger_ack-SameTsns out.0 sack_immediately in
    (
      (trigger_ack out.0 sack_immediately, out.1),
      moved,
      rw run refl,
      record {
        at = b ∙ adv.at;
        bounded = adv.bounded;
        valid = rw a adv.valid;
        waits = rw (a, b) adv.waits;
        taken = λ t ht. rw a (adv.taken t ht);
      },
    )
