-- ===== src/Ice/Candidate.antt =====
-- rtc-ice/src/candidate/mod.rs: a candidate, its priority and the times it was seen. Text is a list of
-- bytes, a socket address a list of bytes with a port.
pub mod Preference
use ortc.Common.{
  ℕ, ◌+◌, ◌-◌, ◌*◌, ◌%◌, ◌^◌, Bool, true, false, not, Option, List, ◌==◌, if◌then◌else◌,
}

pub data CandidateType : Type 0 where
  unspecified host server_reflexive peer_reflexive relay : CandidateType

pub data NetworkType : Type 0 where
  unspecified udp4 udp6 tcp4 tcp6 : NetworkType

pub data TcpType : Type 0 where
  unspecified active passive simultaneous_open : TcpType

pub record CandidateRelatedAddress : Type 0 where
  pub address : List ℕ
  pub port : ℕ

pub record Candidate : Type 0 where
  pub id : List ℕ
  pub network_type : NetworkType
  pub candidate_type : CandidateType
  pub component : ℕ
  pub address : List ℕ
  pub port : ℕ
  pub related_address : Option CandidateRelatedAddress
  pub tcp_type : TcpType
  pub resolved_addr : List ℕ × ℕ
  pub last_sent : ℕ
  pub last_received : ℕ
  pub foundation_override : List ℕ
  pub priority_override : ℕ
  pub network : List ℕ

unfoldable pub preference : CandidateType → ℕ
preference CandidateType.host = 126
preference CandidateType.peer_reflexive = 110
preference CandidateType.server_reflexive = 100
preference CandidateType.relay = 0
preference CandidateType.unspecified = 0

unfoldable is_tcp : NetworkType → Bool
is_tcp NetworkType.tcp4 = true
is_tcp NetworkType.tcp6 = true
is_tcp NetworkType.udp4 = false
is_tcp NetworkType.udp6 = false
is_tcp NetworkType.unspecified = false

abbrev default_local_preference : ℕ
default_local_preference = 65535

-- For a host or a relayed candidate.
unfoldable own_direction_pref : TcpType → ℕ
own_direction_pref TcpType.active = 6
own_direction_pref TcpType.passive = 4
own_direction_pref TcpType.simultaneous_open = 2
own_direction_pref TcpType.unspecified = 0

-- For a reflexive one.
unfoldable reflexive_direction_pref : TcpType → ℕ
reflexive_direction_pref TcpType.simultaneous_open = 6
reflexive_direction_pref TcpType.active = 4
reflexive_direction_pref TcpType.passive = 2
reflexive_direction_pref TcpType.unspecified = 0

unfoldable direction_pref : CandidateType → TcpType → ℕ
unfolding own_direction_pref reflexive_direction_pref
direction_pref CandidateType.host t = own_direction_pref t
direction_pref CandidateType.relay t = own_direction_pref t
direction_pref CandidateType.peer_reflexive t = reflexive_direction_pref t
direction_pref CandidateType.server_reflexive t = reflexive_direction_pref t
direction_pref CandidateType.unspecified t = 0

unfoldable pub local_preference : Candidate → ℕ
unfolding is_tcp direction_pref
local_preference c =
    if is_tcp c.network_type
    then (2 ^ 13 * direction_pref c.candidate_type c.tcp_type + 8191) % 2 ^ 16
    else default_local_preference

unfoldable pub priority : Candidate → ℕ
unfolding preference local_preference
priority c =
    if not (c.priority_override == 0)
    then c.priority_override
    else (2 ^ 24 * preference c.candidate_type
        + 2 ^ 8 * local_preference c
        + (2 ^ 32 + 256 - c.component) % 2 ^ 32)
      % 2 ^ 32

unfoldable set_component : Candidate → ℕ → Candidate
set_component c component = record c { component = component }

unfoldable set_last_received : Candidate → ℕ → Candidate
set_last_received c now = record c { last_received = now }

unfoldable set_last_sent : Candidate → ℕ → Candidate
set_last_sent c now = record c { last_sent = now }

unfoldable pub seen : Candidate → ℕ → Bool → Candidate
unfolding set_last_sent set_last_received
seen c now outbound = if outbound then set_last_sent c now else set_last_received c now
