-- ===== src/Peer/Signaling.antt =====
-- rtc/src/peer_connection/signaling_state.rs: which change of the signaling state a description of
-- some type, set locally or remotely, may make.
use ortc.Common.{Bool, true, false, ◌≡◌, refl, if◌then◌else◌, arith}
use mathlib.Core.Path.{subst}

pub data StateChangeOp : Type 0 where
  set_local set_remote : StateChangeOp

pub data SignalingState : Type 0 where
  unspecified stable have_local_offer have_remote_offer have_local_pranswer : SignalingState
  have_remote_pranswer closed : SignalingState

-- rtc/src/peer_connection/sdp/sdp_type.rs
pub data SdpType : Type 0 where
  unspecified_type offer pranswer answer rollback : SdpType

pub data Outcome : Type 0 where
  ok : SignalingState → Outcome
  cannot_rollback transition_invalid : Outcome

-- The derived equality of the enumerations.
abbrev is_state : SignalingState → SignalingState → Bool
is_state unspecified unspecified = true
is_state stable stable = true
is_state have_local_offer have_local_offer = true
is_state have_remote_offer have_remote_offer = true
is_state have_local_pranswer have_local_pranswer = true
is_state have_remote_pranswer have_remote_pranswer = true
is_state closed closed = true
is_state _ _ = false

abbrev accept_if : Bool → SignalingState → Outcome
accept_if b next = if b then ok next else transition_invalid

-- The match on the current state, the operation and the type.
unfoldable pub transition : SignalingState → SignalingState → StateChangeOp → SdpType → Outcome
transition stable next set_local offer = accept_if (is_state next have_local_offer) next
transition stable next set_remote offer = accept_if (is_state next have_remote_offer) next
transition have_local_offer next set_remote answer = accept_if (is_state next stable) next
transition have_local_offer next set_remote pranswer =
    accept_if (is_state next have_remote_pranswer) next
transition have_local_offer next set_local offer = accept_if (is_state next have_local_offer) next
transition have_remote_pranswer next set_remote answer = accept_if (is_state next stable) next
transition have_remote_offer next set_local answer = accept_if (is_state next stable) next
transition have_remote_offer next set_local pranswer =
    accept_if (is_state next have_local_pranswer) next
transition have_local_pranswer next set_local answer = accept_if (is_state next stable) next
transition _ _ _ _ = transition_invalid

unfoldable pub check_next_signaling_state :
    SignalingState → SignalingState → StateChangeOp → SdpType → Outcome
unfolding transition
check_next_signaling_state stable next op rollback = cannot_rollback
check_next_signaling_state cur next op sdp_type = transition cur next op sdp_type

-- RFC 8829, section 3.2: the transitions of the offer/answer exchange.
pub data Allowed : SignalingState → StateChangeOp → SdpType → SignalingState → Type 0 where
  local_offer : Allowed stable set_local offer have_local_offer
  remote_offer : Allowed stable set_remote offer have_remote_offer
  renewed_offer : Allowed have_local_offer set_local offer have_local_offer
  remote_answer : Allowed have_local_offer set_remote answer stable
  remote_pranswer : Allowed have_local_offer set_remote pranswer have_remote_pranswer
  local_answer : Allowed have_remote_offer set_local answer stable
  local_pranswer : Allowed have_remote_offer set_local pranswer have_local_pranswer
  final_remote : Allowed have_remote_pranswer set_remote answer stable
  final_local : Allowed have_local_pranswer set_local answer stable

-- Every transition of the table is accepted, with the new state as the result.
pub Allowed-check :
    {cur next : SignalingState} {op : StateChangeOp} {t : SdpType}
    → Allowed cur op t next
    → check_next_signaling_state cur next op t ≡ ok next
unfolding check_next_signaling_state
Allowed-check local_offer = refl
Allowed-check remote_offer = refl
Allowed-check renewed_offer = refl
Allowed-check remote_answer = refl
Allowed-check remote_pranswer = refl
Allowed-check local_answer = refl
Allowed-check local_pranswer = refl
Allowed-check final_remote = refl
Allowed-check final_local = refl

accepted :
    (x next r : SignalingState) → accept_if (is_state next x) next ≡ ok r → (x ≡ next) × (r ≡ next)
accepted x next r e = ground arith

-- Nothing else is accepted: a change that succeeds is in the table, and its result is the state
-- that was proposed.
pub check-Allowed :
    (cur next : SignalingState) (op : StateChangeOp) (t : SdpType) (r : SignalingState)
    → check_next_signaling_state cur next op t ≡ ok r
    → Allowed cur op t next × (r ≡ next)
unfolding check_next_signaling_state
check-Allowed stable next set_local offer r e =
    let (a, b) = accepted have_local_offer next r e in
    (subst (Allowed stable set_local offer) a local_offer, b)
check-Allowed stable next set_remote offer r e =
    let (a, b) = accepted have_remote_offer next r e in
    (subst (Allowed stable set_remote offer) a remote_offer, b)
check-Allowed have_local_offer next set_local offer r e =
    let (a, b) = accepted have_local_offer next r e in
    (subst (Allowed have_local_offer set_local offer) a renewed_offer, b)
check-Allowed have_local_offer next set_remote answer r e =
    let (a, b) = accepted stable next r e in
    (subst (Allowed have_local_offer set_remote answer) a remote_answer, b)
check-Allowed have_local_offer next set_remote pranswer r e =
    let (a, b) = accepted have_remote_pranswer next r e in
    (subst (Allowed have_local_offer set_remote pranswer) a remote_pranswer, b)
check-Allowed have_remote_offer next set_local answer r e =
    let (a, b) = accepted stable next r e in
    (subst (Allowed have_remote_offer set_local answer) a local_answer, b)
check-Allowed have_remote_offer next set_local pranswer r e =
    let (a, b) = accepted have_local_pranswer next r e in
    (subst (Allowed have_remote_offer set_local pranswer) a local_pranswer, b)
check-Allowed have_remote_pranswer next set_remote answer r e =
    let (a, b) = accepted stable next r e in
    (subst (Allowed have_remote_pranswer set_remote answer) a final_remote, b)
check-Allowed have_local_pranswer next set_local answer r e =
    let (a, b) = accepted stable next r e in
    (subst (Allowed have_local_pranswer set_local answer) a final_local, b)
check-Allowed stable next op rollback r e = cc
check-Allowed cur next op t r e = cc
