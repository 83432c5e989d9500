-- ===== src/Sctp/Association/Sack.antt =====
-- rtc-sctp/src/association/mod.rs: `handle_sack` and the functions it calls. Additions of u32 wrap,
-- as in a build without overflow checks. The map of acknowledged bytes is walked in the order of
-- the list. A handler that returns an error has changed the association up to that point, so the
-- result is both; `none` means that a loop ran out of fuel.
use ortc.Common.{
  ℕ, zero, suc, ◌+◌, ◌-◌, ◌%◌, ◌^◌, true, false, ◌&&◌, Option, none, some, List, [], ◌∷◌, length,
  ◌==◌, if◌then◌else◌,
}
use ortc.Common.Map
use ortc.Sctp.Sna.{sna32lt, sna32lte, sna32gte}
use ortc.Sctp.Chunk.{ChunkPayloadData, GapAckBlock}
use ortc.Sctp.PayloadQueue
use ortc.Sctp.PayloadQueue.{PayloadQueue}
use ortc.Sctp.Timers.{Timer, Floats, set_new_rtt, stop}
use ortc.Sctp.Association.{Association, SackError}

pub record ChunkSelectiveAck : Type 0 where
  pub cumulative_tsn_ack : ℕ
  pub advertised_receiver_window_credit : ℕ
  pub gap_ack_blocks : List GapAckBlock
  pub duplicate_tsn : List ℕ

-- `i + 1` of a u32.
abbrev pub next_tsn : ℕ → ℕ
next_tsn tsn = (tsn + 1) % 2 ^ 32

-- The bytes acknowledged per stream, with more for one of them.
unfoldable pub add_bytes : ℕ → ℕ → List (ℕ × ℕ) → List (ℕ × ℕ)
add_bytes si n m = elim (Map.get si m) [
  | some amount ↦ Map.insert si (amount + n) m
  | none ↦ Map.insert si n m
]

-- What `process_selective_ack` changes: the association, the bytes per stream and `htna`.
pub record Progress (F : Type 0) : Type 0 where
  pub association : Association F
  pub bytes : List (ℕ × ℕ)
  pub htna : ℕ

module _ {F : Type 0} (f64 : Floats F) where
  -- The measurement of the round trip that both loops make.
  unfoldable pub measure_rtt : ℕ → ChunkPayloadData → Association F → Association F
  unfolding set_new_rtt
  measure_rtt now c a =
      let b = record a { min_tsn2measure_rtt = a.my_next_tsn } in
      elim c.since [
        | some since ↦ record b { rto_mgr = set_new_rtt f64 b.rto_mgr (now - since) }
        | none ↦ b
      ]

  -- A chunk that was taken off the queue and had not been acknowledged.
  unfoldable pub newly_acked : ℕ → ℕ → ChunkPayloadData → Progress F → Progress F
  unfolding stop measure_rtt add_bytes sna32gte
  newly_acked now i c p =
      let a = p.association in
      let stopped =
        if i == next_tsn a.cumulative_tsn_ack_point
        then record a { timers = stop a.timers Timer.t3_rtx }
        else a in
      record p {
        bytes = add_bytes c.stream_identifier (length c.user_data) p.bytes;
        association =
            if c.nsent == 1 && sna32gte c.tsn stopped.min_tsn2measure_rtt
            then measure_rtt now c stopped
            else stopped;
      }

  -- The end of fast recovery.
  unfoldable pub exit_recovery : ChunkPayloadData → Progress F → Progress F
  exit_recovery c p =
      let a = p.association in
      record p {
        association =
            if a.in_fast_recovery && c.tsn == a.fast_recover_exit_point
            then record a { in_fast_recovery = false }
            else a;
      }

  unfoldable pub popped : ℕ → ℕ → ChunkPayloadData → Progress F → Progress F
  unfolding newly_acked exit_recovery
  popped now i c p = exit_recovery c (if c.acked then p else newly_acked now i c p)

  abbrev pub with_queue : Progress F → PayloadQueue → Progress F
  with_queue p q = record p { association = record p.association { inflight_queue = q } }

  -- The first loop: the chunks up to the cumulative TSN are taken off the queue.
  unfoldable pub pop_acked : ℕ → ℕ → ℕ → ℕ → Progress F → Option (Progress F × Option SackError)
  unfolding popped
  pop_acked zero now cum i p = none
  pop_acked (suc fuel) now cum i p = elim (sna32lte i cum) [
    | false ↦ some (p, none)
    | true ↦
        let (q, taken) = PayloadQueue.pop p.association.inflight_queue i in
        elim taken [
          | none ↦ some (with_queue p q, some SackError.inflight_queue_tsn_pop)
          | some c ↦ pop_acked fuel now cum (next_tsn i) (popped now i c (with_queue p q))
        ]
  ]

  -- A chunk that a gap block covers and that had not been acknowledged, with the bytes it held.
  unfoldable pub gap_acked : ℕ → ℕ → ChunkPayloadData → ℕ → Progress F → Progress F
  unfolding measure_rtt add_bytes
  gap_acked now tsn c n p = record p {
    bytes = add_bytes c.stream_identifier n p.bytes;
    association = if c.nsent == 1 then measure_rtt now c p.association else p.association;
    htna = if sna32lt p.htna tsn then tsn else p.htna;
  }

  -- A round of the second loop.
  unfoldable pub ack_one : ℕ → ℕ → Progress F → Progress F × Option SackError
  unfolding gap_acked
  ack_one now tsn p =
      let q = p.association.inflight_queue in
      elim (PayloadQueue.get q tsn) [
        | none ↦ (p, some SackError.tsn_request_not_exist)
        | some old ↦
            if old.acked
            then (p, none)
            else (let (r, n) = PayloadQueue.mark_as_acked q tsn in
                elim (PayloadQueue.get r tsn) [
                  | none ↦ (with_queue p r, some SackError.tsn_request_not_exist)
                  | some c ↦ (gap_acked now tsn c n (with_queue p r), none)
                ])
      ]

  -- The offsets of a block, from `start` on.
  unfoldable pub ack_offsets : ℕ → ℕ → ℕ → ℕ → Progress F → Progress F × Option SackError
  unfolding ack_one
  ack_offsets now cum start zero p = (p, none)
  ack_offsets now cum start (suc n) p =
      let (r, e) = ack_one now ((cum + start) % 2 ^ 32) p in
      elim e [ some error ↦ (r, some error) | none ↦ ack_offsets now cum (start + 1) n r ]

  unfoldable pub ack_blocks : ℕ → ℕ → List GapAckBlock → Progress F → Progress F × Option SackError
  unfolding ack_offsets
  ack_blocks now cum [] p = (p, none)
  ack_blocks now cum (g ∷ l) p =
      let (r, e) = ack_offsets now cum g.start (g.end + 1 - g.start) p in
      elim e [ some error ↦ (r, some error) | none ↦ ack_blocks now cum l r ]

  -- The second loop, after the first.
  unfoldable pub after_pops :
      ℕ → ChunkSelectiveAck → Progress F × Option SackError → Progress F × Option SackError
  unfolding ack_blocks
  after_pops now d (p, some error) = (p, some error)
  after_pops now d (p, none) = ack_blocks now d.cumulative_tsn_ack d.gap_ack_blocks p

  unfoldable pub process_selective_ack :
      ChunkSelectiveAck → ℕ → Association F → Option (Progress F × Option SackError)
  unfolding pop_acked after_pops
  process_selective_ack d now a =
      let popping =
        pop_acked (suc (length a.inflight_queue.sorted)) now d.cumulative_tsn_ack
          (next_tsn a.cumulative_tsn_ack_point)
          (record { association = a; bytes = []; htna = d.cumulative_tsn_ack }) in
      elim popping [ none ↦ none | some r ↦ some (after_pops now d r) ]
