-- ===== src/Ice/Tests.antt =====
-- Candidates and a candidate pair at concrete inputs.
use ortc.Common.{◌≤◌, ◌<◌, ◌^◌, ◌≡◌, none, [], refl, true, false, arith}
use ortc.Ice.Candidate.{
  Candidate, CandidateType, NetworkType, TcpType, preference, local_preference,
}
use ortc.Ice.Candidate
use ortc.Ice.Candidate.Preference.{priority-ordered}
use ortc.Ice.CandidatePair.{
  CandidatePair, CandidatePairState, priority, pair_priority, mirrored, priority_lem,
}

-- A host candidate with a server reflexive one, and with a host candidate.
abbrev reflexive : CandidatePair
reflexive = record {
  local_index = 0;
  remote_index = 0;
  local_priority = 2130706431;
  remote_priority = 1694498815;
  ice_role_controlling = true;
  binding_request_count = 0;
  state = CandidatePairState.waiting;
  nominated = false;
}

abbrev direct : CandidatePair
direct = record reflexive { remote_index = 1; remote_priority = 2130706431 }

pair_priority_last : pair_priority 0xffff_ffff 0xffff_ffff ≡ 0xffff_ffff_ffff_ffff
unfolding pair_priority
pair_priority_last = refl

priority_lem_example :
    (priority (mirrored reflexive) ≡ priority reflexive) × (priority reflexive ≤ priority direct)
priority_lem_example =
    priority_lem reflexive direct (omega arith) (omega arith) (omega arith) (omega arith) refl
      (omega arith) (omega arith)

-- A host candidate over TCP, and one over UDP.
abbrev tcp_host : Candidate
tcp_host = record {
  id = [];
  network_type = NetworkType.tcp4;
  candidate_type = CandidateType.host;
  component = 1;
  address = [];
  port = 9;
  related_address = none;
  tcp_type = TcpType.passive;
  resolved_addr = ([], 9);
  last_sent = 0;
  last_received = 0;
  foundation_override = [];
  priority_override = 0;
  network = [];
}

abbrev udp_host : Candidate
udp_host = record tcp_host { network_type = NetworkType.udp4; tcp_type = TcpType.unspecified }

udp_host_priority : Candidate.priority udp_host ≡ 2130706431
unfolding Candidate.priority
udp_host_priority = refl

priority-ordered_example :
    (1 ≤ Candidate.priority udp_host)
    × (Candidate.priority udp_host < 2 ^ 31)
    × (preference tcp_host.candidate_type < preference udp_host.candidate_type
        → Candidate.priority tcp_host < Candidate.priority udp_host)
    × (preference tcp_host.candidate_type ≡ preference udp_host.candidate_type
        → local_preference tcp_host < local_preference udp_host
        → Candidate.priority tcp_host < Candidate.priority udp_host)
    × (preference tcp_host.candidate_type ≡ preference udp_host.candidate_type
        → local_preference tcp_host ≡ local_preference udp_host
        → udp_host.component < tcp_host.component
        → Candidate.priority tcp_host < Candidate.priority udp_host)
priority-ordered_example =
    priority-ordered udp_host tcp_host
      (record { no_override = refl; first = omega arith; last = omega arith })
      (record { no_override = refl; first = omega arith; last = omega arith })
