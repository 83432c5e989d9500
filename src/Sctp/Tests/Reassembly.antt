-- ===== src/Sctp/Tests/Reassembly.antt =====
-- Messages and the reassembly queue at concrete inputs.
use ortc.Common.{
  ◌+◌, ◌%◌, ◌^◌, ◌≤◌, ◌<◌, ◌≡◌, ◌↔◌, ◌⊎◌, refl, true, false, not, ◌||◌, some, List, [], ◌∷◌, ◌++◌,
  drop, arith, ◌==◌, if◌then◌else◌, All,
}
use ortc.Sctp.Sna.{sna16lte, sna16gt}
use ortc.Sctp.Chunk.{ChunkPayloadData, default_chunk, PayloadProtocolIdentifier}
use ortc.Sctp.Chunks
use ortc.Sctp.Chunks.{Chunks, ok, short_buffer}
use ortc.Sctp.Chunks.Complete
use ortc.Sctp.Chunks.Reading
use ortc.Sctp.ReassemblyQueue
use ortc.Sctp.ReassemblyQueue.{ReassemblyQueue}
use ortc.Sctp.ReassemblyQueue.Forward
use ortc.Sctp.ReassemblyQueue.Scan
use ortc.Sctp.ReassemblyQueue.Delivery
use ortc.Sctp.ReassemblyQueue.Reads

abbrev first : ChunkPayloadData
first = record default_chunk { tsn = 4; user_data = 1 ∷ 2 ∷ []; beginning_fragment = true }

abbrev last : ChunkPayloadData
last = record default_chunk { tsn = 5; user_data = 3 ∷ []; ending_fragment = true }

abbrev whole : Chunks
whole = record {
  ssn = 0;
  ppi = PayloadProtocolIdentifier.unknown;
  chunks = first ∷ last ∷ [];
  offset = 0;
  index = 0;
  timestamp = 8;
}

is_complete_iff_example : (Chunks.is_complete whole ≡ true) ↔ Complete.IsWhole (first ∷ last ∷ [])
is_complete_iff_example = Complete.is_complete_iff whole

read_lem_example :
    (Chunks.len whole ≤ 5
      → Chunks.read whole (0 ∷ 0 ∷ 0 ∷ 0 ∷ 9 ∷ [])
        ≡ (1 ∷ 2 ∷ 3 ∷ drop (Chunks.len whole) (0 ∷ 0 ∷ 0 ∷ 0 ∷ 9 ∷ []), ok (Chunks.len whole)))
    × (5 < Chunks.len whole → (Chunks.read whole (0 ∷ 0 ∷ 0 ∷ 0 ∷ 9 ∷ [])).1 ≡ short_buffer)
read_lem_example = Reading.read_lem whole (0 ∷ 0 ∷ 0 ∷ 0 ∷ 9 ∷ [])

next_lem_example :
    ((Chunks.next whole 2).1 ≡ some (1 ∷ 2 ∷ []))
    × (Reading.remaining (Chunks.next whole 2).0 ≡ 3 ∷ [])
next_lem_example = Reading.next_lem whole 2 (omega arith)

abbrev waiting : ReassemblyQueue
waiting = record {
  si = 1;
  next_ssn = 0;
  ordered = whole ∷ [];
  unordered = [];
  unordered_chunks = first ∷ last ∷ [];
  n_bytes = 6;
}

find_waiting : (ReassemblyQueue.find_complete_unordered_chunk_set waiting 8).1 ≡ some whole
unfolding ReassemblyQueue.find_complete_unordered_chunk_set
find_waiting = refl

find_complete_unordered_chunk_set_lem_example :
    (Chunks.is_complete whole ≡ true)
    × ((pre : List ChunkPayloadData) × (post : List ChunkPayloadData) × (first ∷ last ∷ []
          ≡ pre ++ (whole.chunks ++ post))
        × ((ReassemblyQueue.find_complete_unordered_chunk_set waiting 8).0.unordered_chunks
            ≡ pre ++ post))
find_complete_unordered_chunk_set_lem_example =
    Scan.find_complete_unordered_chunk_set_lem waiting 8 whole find_waiting

reassembly_queue-IsValid_example :
    Delivery.IsValid
      (ReassemblyQueue.read
        (ReassemblyQueue.push
          (ReassemblyQueue.new 0)
          (record first { ending_fragment = true })
          3).0).0
unfolding ReassemblyQueue.new
reassembly_queue-IsValid_example = Delivery.reassembly_queue-IsValid 0 (
    Delivery.Reach.next
      (Delivery.Reach.next Delivery.Reach.here
        (Delivery.Step.pushed (record first { ending_fragment = true }) 3 tt))
      Delivery.Step.was_read)

waiting-SsnsFit : Reads.SsnsFit waiting
waiting-SsnsFit = omega arith

is_readable-read_example :
    ReassemblyQueue.is_readable waiting ≡ Reads.is_some (ReassemblyQueue.read waiting).1
is_readable-read_example = Reads.is_readable-read waiting waiting-SsnsFit

read-waiting : (ReassemblyQueue.read waiting).1 ≡ some whole
unfolding ReassemblyQueue.read sna16gt
read-waiting = refl

read-eq-some_example :
    (Chunks.is_complete whole ≡ true)
    × (((waiting.unordered ≡ whole ∷ []) × ((ReassemblyQueue.read waiting).0.next_ssn ≡ 0))
        ⊎ ((waiting.ordered ≡ whole ∷ [])
            × (sna16lte 0 0 ≡ true)
            × ((ReassemblyQueue.read waiting).0.next_ssn
                ≡ (if 0 == 0 then (0 + 1) % 2 ^ 16 else 0))))
read-eq-some_example = Reads.read-eq-some waiting whole tt waiting-SsnsFit read-waiting

forward_tsn_for_ordered_lem_example :
    All
      (λ (s : Chunks). (not (sna16lte s.ssn 3) || Chunks.is_complete s) ≡ true)
      (Forward.forward_tsn_for_ordered waiting 3).ordered
    × (sna16lte (Forward.forward_tsn_for_ordered waiting 3).next_ssn 3 ≡ false)
forward_tsn_for_ordered_lem_example =
    Reads.forward_tsn_for_ordered_lem waiting 3 (omega arith) (omega arith)
