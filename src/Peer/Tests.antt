-- ===== src/Peer/Tests.antt =====
-- The signaling state machine and the directions at concrete inputs.
use ortc.Common.{◌≡◌, refl, ◌&&◌}
use ortc.Peer.Signaling
use ortc.Peer.Signaling.{
  stable, have_local_offer, set_local, set_remote, offer, answer, ok, Allowed,
}
use ortc.Peer.Direction
use ortc.Peer.Direction.{sendrecv, sendonly, recvonly}

Allowed-check_example :
    Signaling.check_next_signaling_state have_local_offer stable set_remote answer ≡ ok stable
Allowed-check_example = Signaling.Allowed-check Signaling.Allowed.remote_answer

offer_accepted :
    Signaling.check_next_signaling_state stable have_local_offer set_local offer
    ≡ ok have_local_offer
unfolding Signaling.check_next_signaling_state
offer_accepted = refl

check-Allowed_example :
    Allowed stable set_local offer have_local_offer × (have_local_offer ≡ have_local_offer)
check-Allowed_example =
    Signaling.check-Allowed stable have_local_offer set_local offer have_local_offer offer_accepted

intersect_lem_example :
    (Direction.has_send (Direction.intersect sendrecv recvonly)
      ≡ (Direction.has_send sendrecv && Direction.has_send recvonly))
    × (Direction.has_recv (Direction.intersect sendrecv recvonly)
        ≡ (Direction.has_recv sendrecv && Direction.has_recv recvonly))
    × (Direction.reverse (Direction.intersect sendrecv recvonly)
        ≡ Direction.intersect (Direction.reverse sendrecv) (Direction.reverse recvonly))
intersect_lem_example = Direction.intersect_lem sendrecv recvonly

reverse_lem_example :
    (Direction.has_send (Direction.reverse sendonly) ≡ Direction.has_recv sendonly)
    × (Direction.has_recv (Direction.reverse sendonly) ≡ Direction.has_send sendonly)
    × (Direction.reverse (Direction.reverse sendonly) ≡ sendonly)
reverse_lem_example = Direction.reverse_lem sendonly
