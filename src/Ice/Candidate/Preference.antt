-- ===== src/Ice/Candidate/Preference.antt =====
-- The order that the priorities give candidates (RFC 8445, section 5.1.2).
use ortc.Common.{◌+◌, ◌-◌, ◌*◌, ◌^◌, ◌≤◌, ◌<◌, ◌≡◌, ◌∙◌, if_false, false, not, ◌==◌, arith}
use ortc.Ice.Candidate.{Candidate, CandidateType, preference, local_preference, priority}

-- A candidate whose priority is not given, and whose component is one of those of RFC 8445.
pub record IsComputed (c : Candidate) : Type 0 where
  pub no_override : c.priority_override ≡ 0
  pub first : 1 ≤ c.component
  pub last : c.component ≤ 256

preference-le : (t : CandidateType) → preference t ≤ 126
unfolding preference
preference-le CandidateType.host = omega arith
preference-le CandidateType.peer_reflexive = omega arith
preference-le CandidateType.server_reflexive = omega arith
preference-le CandidateType.relay = omega arith
preference-le CandidateType.unspecified = omega arith

local_preference-le : (c : Candidate) → (8191 ≤ local_preference c) × (local_preference c ≤ 65535)
unfolding local_preference
local_preference-le c = ground arith

-- No summand of the formula runs into the next.
priority-sum :
    (c : Candidate)
    → IsComputed c
    → priority c
      ≡ 2 ^ 24 * preference c.candidate_type + 2 ^ 8 * local_preference c + (256 - c.component)
unfolding priority
priority-sum c v =
    let computed : not (c.priority_override == 0) ≡ false = ground (arith, v.no_override) in
    if_false c.priority_override _ computed
    ∙ omega (arith, preference-le c.candidate_type, (local_preference-le c).1, v.first, v.last)

-- Of two candidates whose priorities are computed, with components from 1 to 256, the one whose type is
-- preferred has the higher priority; at types of equal preference the one with the higher local
-- preference; and at equal local preference too the one with the lower component. The priorities lie
-- from 1 to 2^31 - 1, as RFC 8445 wants.
pub priority-ordered :
    (a b : Candidate)
    → IsComputed a
    → IsComputed b
    → (1 ≤ priority a)
      × (priority a < 2 ^ 31)
      × (preference b.candidate_type < preference a.candidate_type → priority b < priority a)
      × (preference b.candidate_type ≡ preference a.candidate_type
          → local_preference b < local_preference a
          → priority b < priority a)
      × (preference b.candidate_type ≡ preference a.candidate_type
          → local_preference b ≡ local_preference a
          → a.component < b.component
          → priority b < priority a)
priority-ordered a b v w =
    let p = priority-sum a v in
    let q = priority-sum b w in
    let s = preference-le a.candidate_type in
    let t = local_preference-le a in
    let u = local_preference-le b in
    (
      omega (arith, p, t.0),
      omega (arith, p, s, t.1, v.first),
      λ h. omega (arith, p, q, t.1, u.1, v.first, w.first, v.last, w.last),
      λ e h. omega (arith, p, q, v.first, w.first, v.last, w.last),
      λ e f h. omega (arith, p, q, v.first, w.first, v.last, w.last),
    )
