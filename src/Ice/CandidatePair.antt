-- ===== src/Ice/CandidatePair.antt =====
-- rtc-ice/src/candidate/candidate_pair.rs: a pair of candidates and its priority.
use ortc.Common.{
  ℕ, ◌+◌, ◌-◌, ◌*◌, ◌%◌, ◌^◌, ◌≤◌, ◌<◌, ◌≡◌, min, max, Bool, false, not, ltb, ◌==◌, bit_of,
  if◌then◌else◌, arith,
}

pub data CandidatePairState : Type 0 where
  unspecified waiting in_progress failed succeeded : CandidatePairState

-- `CandidatePairState::from`.
unfoldable state_from : ℕ → CandidatePairState
state_from v =
    if v == 1
    then CandidatePairState.waiting
    else (if v == 2
        then CandidatePairState.in_progress
        else (if v == 3
            then CandidatePairState.failed
            else (if v == 4 then CandidatePairState.succeeded else CandidatePairState.unspecified)))

pub record CandidatePair : Type 0 where
  pub local_index : ℕ
  pub remote_index : ℕ
  pub local_priority : ℕ
  pub remote_priority : ℕ
  pub ice_role_controlling : Bool
  pub binding_request_count : ℕ
  pub state : CandidatePairState
  pub nominated : Bool

unfoldable pub new : ℕ → ℕ → ℕ → ℕ → Bool → CandidatePair
new local_index remote_index local_priority remote_priority ice_role_controlling = record {
  local_index = local_index;
  remote_index = remote_index;
  local_priority = local_priority;
  remote_priority = remote_priority;
  ice_role_controlling = ice_role_controlling;
  binding_request_count = 0;
  state = CandidatePairState.waiting;
  nominated = false;
}

-- The formula on the priorities of the controlling and of the controlled agent, as a u64.
unfoldable pub pair_priority : ℕ → ℕ → ℕ
pair_priority g d = ((2 ^ 32 - 1) * min g d + 2 * max g d + bit_of (ltb d g)) % 2 ^ 64

unfoldable pub priority : CandidatePair → ℕ
unfolding pair_priority
priority p =
    if p.ice_role_controlling
    then pair_priority p.local_priority p.remote_priority
    else pair_priority p.remote_priority p.local_priority

-- The pair as the other agent sees it.
unfoldable pub mirrored : CandidatePair → CandidatePair
mirrored p =
    record (new p.remote_index p.local_index p.remote_priority p.local_priority
      (not p.ice_role_controlling)) { state = p.state }

pair_priority_le :
    (g d g' d' : ℕ)
    → g < 2 ^ 32
    → d < 2 ^ 32
    → g' < 2 ^ 32
    → d' < 2 ^ 32
    → g ≤ g'
    → d ≤ d'
    → pair_priority g d ≤ pair_priority g' d'
unfolding pair_priority
pair_priority_le g d g' d' a b a' b' h k = ground arith

-- The two agents give a pair the same priority; and of two pairs in the same role, one whose local
-- and remote candidates have priorities at least as high has a priority at least as high; for
-- priorities of the candidates that are u32.
pub priority_lem :
    (p q : CandidatePair)
    → p.local_priority < 2 ^ 32
    → p.remote_priority < 2 ^ 32
    → q.local_priority < 2 ^ 32
    → q.remote_priority < 2 ^ 32
    → q.ice_role_controlling ≡ p.ice_role_controlling
    → p.local_priority ≤ q.local_priority
    → p.remote_priority ≤ q.remote_priority
    → (priority (mirrored p) ≡ priority p) × (priority p ≤ priority q)
unfolding priority mirrored new
priority_lem p q a b a' b' same h k =
    let as_controlling =
      pair_priority_le p.local_priority p.remote_priority q.local_priority q.remote_priority a b a'
        b' h k in
    let as_controlled =
      pair_priority_le p.remote_priority p.local_priority q.remote_priority q.local_priority b a b'
        a' k h in
    (ground arith, ground (arith, as_controlling, as_controlled, same))
