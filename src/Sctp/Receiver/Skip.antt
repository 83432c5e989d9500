-- ===== src/Sctp/Receiver/Skip.antt =====
-- A FORWARD-TSN chunk: where it leaves the cumulative TSN.
use ortc.Common.{
  ℕ, zero, suc, ◌+◌, ◌-◌, ◌%◌, ◌^◌, ◌≤◌, ◌<◌, ◌≡◌, ◌≢◌, refl, ap, ◌∙◌, true, false, some, List, [],
  ◌∷◌, arith, Bool-cases, Option-cases, inl, inr,
}
use mathlib.Core.Path.{subst}
use ortc.Common.Map
use ortc.Common.Map.{count}
use ortc.Sctp.Sna.{ahead, sna32lt, sna32lte}
use ortc.Sctp.PayloadQueue.{pop}
use ortc.Sctp.PayloadQueue.Invariant.{IsValid, pop-IsValid}
use ortc.Sctp.Association.Sack.{next_tsn}
use ortc.Sctp.Timers.{Timer, stop}
use ortc.Sctp.Receiver.{Receiver, Packet, AckState}
use ortc.Sctp.Receiver.Forward.{
  ChunkForwardTsn, ChunkForwardTsnStream, skip_loop, forward_ordered, forward_streams, forwarded,
  handle_forward_tsn,
}
use ortc.Sctp.Receiver.Ahead.{
  Follows, pop-Popped, Popped-Follows, Follows-lower, Follows-widen, Follows-count,
}
use ortc.Sctp.Receiver.Progress.{SameTsns, Advanced, handle_peer_last_tsn_lem}

-- The TSNs held wait behind the cumulative one, less than half the circle ahead.
pub record IsReceiving (r : Receiver) : Type 0 where
  pub last : r.peer_last_tsn < 2 ^ 32
  pub valid : IsValid r.payload_queue
  pub waits : Follows r.peer_last_tsn 0 (2 ^ 31) r.payload_queue.sorted

-- The cumulative TSN has reached the new one, and what waits follows it.
record IsSkipped (cum hi : ℕ) (r : Receiver) : Type 0 where
  at : r.peer_last_tsn ≡ cum
  valid : IsValid r.payload_queue
  waits : Follows cum 0 hi r.payload_queue.sorted

skip_loop-IsSkipped :
    (fuel n hi cum : ℕ) (r : Receiver)
    → n < fuel
    → n < 2 ^ 31
    → cum < 2 ^ 32
    → n ≡ ahead (2 ^ 32) r.peer_last_tsn cum
    → r.peer_last_tsn < 2 ^ 32
    → IsValid r.payload_queue
    → Follows r.peer_last_tsn 0 hi r.payload_queue.sorted
    → (s : Receiver) × (skip_loop fuel cum r ≡ some s) × IsSkipped cum (hi - n) s
unfolding skip_loop
skip_loop-IsSkipped zero n hi cum r h small hc e last v f = absurd (omega arith)
skip_loop-IsSkipped (suc fuel) zero hi cum r h small hc e last v f =
    let there : r.peer_last_tsn ≡ cum = omega arith in
    let ended : sna32lt r.peer_last_tsn cum ≡ false = unfold sna32lt in ground arith in
    let same : hi - 0 ≡ hi = omega arith in
    (
      r,
      rw (ended, skip_loop) refl,
      record { at = there; valid = v; waits = rw same (rw there at f) },
    )
skip_loop-IsSkipped (suc fuel) (suc n) hi cum r h small hc e last v f =
    let go : sna32lt r.peer_last_tsn cum ≡ true = unfold sna32lt in ground arith in
    let next = record r {
      payload_queue = (pop r.payload_queue (next_tsn r.peer_last_tsn)).0;
      peer_last_tsn = next_tsn r.peer_last_tsn;
    } in
    let waits = Popped-Follows last (pop-Popped r.payload_queue r.peer_last_tsn hi last v f) in
    let (s, run, i) =
      skip_loop-IsSkipped fuel n (hi - 1) cum next (omega arith) (omega arith) hc (omega arith)
        (omega arith) (pop-IsValid (next_tsn r.peer_last_tsn) v) waits in
    let less : hi - 1 - n ≡ hi - suc n = omega arith in (s, rw (go, skip_loop) run, rw (← less) i)

forward_ordered-SameTsns :
    (l : List ChunkForwardTsnStream) (r : Receiver) → SameTsns r (forward_ordered l r)
unfolding forward_ordered
forward_ordered-SameTsns [] r = (refl, refl)
forward_ordered-SameTsns (f ∷ l) r = elim (Option-cases (Map.get f.identifier r.streams)) [
  | inl e ↦ rw (e, forward_ordered) (forward_ordered-SameTsns l r)
  | inr (s, e) ↦ rw (e, forward_ordered) (forward_ordered-SameTsns l _)
]

forward_streams-SameTsns : (c : ChunkForwardTsn) (r : Receiver) → SameTsns r (forward_streams c r)
unfolding forward_streams
forward_streams-SameTsns c r = forward_ordered-SameTsns c.streams r

-- A receiver that has advanced is in order, and the TSN after its cumulative one is not held.
Advanced-IsReceiving :
    {hi base moved : ℕ} {sorted : List ℕ} {out : Receiver}
    → hi ≤ 2 ^ 31
    → Advanced hi base sorted out moved
    → IsReceiving out
      × (Map.contains_key (next_tsn out.peer_last_tsn) out.payload_queue.chunk_map ≡ false)
Advanced-IsReceiving {hi} {base} {moved} {sorted} {out} h a =
    let last : out.peer_last_tsn < 2 ^ 32 = rw a.at (omega arith) in
    let next = next_tsn out.peer_last_tsn in
    let absent : count next out.payload_queue.sorted ≡ 0 =
      Follows-count out.peer_last_tsn 1 (hi - moved) next out.payload_queue.sorted (omega arith)
        a.waits in
    (
      record {
        last = last;
        valid = a.valid;
        waits =
            Follows-widen out.peer_last_tsn 0 (hi - moved) (2 ^ 31) out.payload_queue.sorted
              (omega arith)
              (Follows-lower out.peer_last_tsn 1 0 (hi - moved) out.payload_queue.sorted
                (omega arith) a.waits);
      },
      Map.count-contains_key next out.payload_queue.chunk_map
          (omega (arith, a.valid.listed next, absent)),
    )

-- Where the new point is ahead, the receiver moves to it and on over what is held.
forwarded_lem :
    (r : Receiver) (c : ChunkForwardTsn)
    → IsReceiving r
    → c.new_cumulative_tsn < 2 ^ 32
    → ahead (2 ^ 32) r.peer_last_tsn c.new_cumulative_tsn < 2 ^ 31
    → let n = ahead (2 ^ 32) r.peer_last_tsn c.new_cumulative_tsn in
      (out : Receiver × List Packet) × (steps : ℕ) × (sorted : List ℕ) × (forwarded c
          (skip_loop (suc n) c.new_cumulative_tsn r)
        ≡ some out)
      × Advanced (2 ^ 31 - n) c.new_cumulative_tsn sorted out.0 steps
unfolding forwarded
forwarded_lem r c i hc near =
    let n = ahead (2 ^ 32) r.peer_last_tsn c.new_cumulative_tsn in
    let (s, run, k) =
      skip_loop-IsSkipped (suc n) n (2 ^ 31) c.new_cumulative_tsn r (omega arith) near hc refl
        i.last i.valid i.waits in
    let (same, at) = forward_streams-SameTsns c s in
    let there : (forward_streams c s).peer_last_tsn ≡ c.new_cumulative_tsn = at ∙ k.at in
    let (out, steps, rest, adv) =
      handle_peer_last_tsn_lem (2 ^ 31 - n) (forward_streams c s) false (omega arith) (omega arith)
        (rw there hc) (rw same k.valid) (rw (there, same) k.waits) in
    (
      out,
      steps,
      (forward_streams c s).payload_queue.sorted,
      ap (forwarded c) run ∙ rest,
      subst
          (λ (b : ℕ).
            Advanced (2 ^ 31 - n) b (forward_streams c s).payload_queue.sorted out.0 steps)
          there adv,
    )

not_behind :
    (r : Receiver) (c : ChunkForwardTsn)
    → r.peer_last_tsn < 2 ^ 32
    → c.new_cumulative_tsn < 2 ^ 32
    → sna32lte c.new_cumulative_tsn r.peer_last_tsn ≡ false
    → ahead (2 ^ 32) r.peer_last_tsn c.new_cumulative_tsn ≢ 2 ^ 31
    → ahead (2 ^ 32) r.peer_last_tsn c.new_cumulative_tsn < 2 ^ 31
unfolding sna32lte
not_behind r c hr hc new half = ground arith

reached :
    (cum last steps : ℕ)
    → last ≡ (cum + steps) % 2 ^ 32
    → cum < 2 ^ 32
    → steps < 2 ^ 31
    → sna32lte cum last ≡ true
unfolding sna32lte
reached cum last steps e hc h = ground arith

handle_forward_tsn-ahead :
    (r : Receiver) (c : ChunkForwardTsn)
    → r.use_forward_tsn ≡ true
    → sna32lte c.new_cumulative_tsn r.peer_last_tsn ≡ false
    → handle_forward_tsn r c
      ≡ forwarded c (
          skip_loop
            (suc (ahead (2 ^ 32) r.peer_last_tsn c.new_cumulative_tsn))
            c.new_cumulative_tsn
            r)
unfolding handle_forward_tsn
handle_forward_tsn-ahead r c enabled new = ground arith

-- With the extension in use, the handling of a FORWARD-TSN ends and keeps the TSNs that wait in
-- order. An out-of-date chunk leaves the queue and the cumulative TSN as they were. After any other
-- the cumulative TSN is not before the new one, and the TSN after it is not held. The new
-- cumulative TSN is a u32 that is not half the circle away.
pub handle_forward_tsn_lem :
    (r : Receiver) (c : ChunkForwardTsn)
    → r.use_forward_tsn ≡ true
    → IsReceiving r
    → c.new_cumulative_tsn < 2 ^ 32
    → ahead (2 ^ 32) r.peer_last_tsn c.new_cumulative_tsn ≢ 2 ^ 31
    → (out : Receiver × List Packet) × (handle_forward_tsn r c ≡ some out)
      × IsReceiving out.0
      × (sna32lte c.new_cumulative_tsn r.peer_last_tsn ≡ true → SameTsns r out.0)
      × (sna32lte c.new_cumulative_tsn r.peer_last_tsn ≡ false
          → (sna32lte c.new_cumulative_tsn out.0.peer_last_tsn ≡ true)
            × (Map.contains_key (next_tsn out.0.peer_last_tsn) out.0.payload_queue.chunk_map
                ≡ false))
unfolding handle_forward_tsn
handle_forward_tsn_lem r c enabled i hc half =
    elim (Bool-cases (sna32lte c.new_cumulative_tsn r.peer_last_tsn)) [
      | inl old ↦ (
        (record r { ack_state = AckState.immediate; timers = stop r.timers Timer.ack }, []),
        rw (enabled, old) refl,
        record { last = i.last; valid = i.valid; waits = i.waits },
        λ _. (refl, refl),
        λ h. absurd (cc),
      )
      | inr new ↦
          let near : ahead (2 ^ 32) r.peer_last_tsn c.new_cumulative_tsn < 2 ^ 31 =
            not_behind r c i.last hc new half in
          let (out, steps, sorted, run, adv) = forwarded_lem r c i hc near in
          let (receiving, absent) = Advanced-IsReceiving (omega arith) adv in
          (
            out,
            handle_forward_tsn-ahead r c enabled new ∙ run,
            receiving,
            λ h. absurd (cc),
            λ _. (
              reached c.new_cumulative_tsn out.0.peer_last_tsn steps adv.at hc
                  (omega (arith, adv.bounded)),
              absent,
            ),
          )
    ]
