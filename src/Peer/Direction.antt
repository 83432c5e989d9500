-- ===== src/Peer/Direction.antt =====
-- rtc/src/rtp_transceiver/rtp_transceiver_direction.rs
use ortc.Common.{Bool, true, false, ◌&&◌, ◌≡◌, arith}

pub data Direction : Type 0 where
  unspecified sendrecv sendonly recvonly inactive : Direction

unfoldable pub reverse : Direction → Direction
reverse sendonly = recvonly
reverse recvonly = sendonly
reverse d = d

unfoldable from_send_recv : Bool → Bool → Direction
from_send_recv true true = sendrecv
from_send_recv true false = sendonly
from_send_recv false true = recvonly
from_send_recv false false = inactive

unfoldable pub has_send : Direction → Bool
has_send sendrecv = true
has_send sendonly = true
has_send _ = false

unfoldable pub has_recv : Direction → Bool
has_recv sendrecv = true
has_recv recvonly = true
has_recv _ = false

unfoldable pub intersect : Direction → Direction → Direction
unfolding from_send_recv has_send has_recv
intersect d e = from_send_recv (has_send d && has_send e) (has_recv d && has_recv e)

-- The intersection sends, and receives, exactly if both directions do; seen from the other side it
-- is the intersection of the two directions seen from there.
pub intersect_lem :
    (d e : Direction)
    → (has_send (intersect d e) ≡ (has_send d && has_send e))
      × (has_recv (intersect d e) ≡ (has_recv d && has_recv e))
      × (reverse (intersect d e) ≡ intersect (reverse d) (reverse e))
unfolding intersect reverse
intersect_lem d e = ground arith

-- `reverse` exchanges sending and receiving, and undoes itself.
pub reverse_lem :
    (d : Direction)
    → (has_send (reverse d) ≡ has_recv d)
      × (has_recv (reverse d) ≡ has_send d)
      × (reverse (reverse d) ≡ d)
unfolding reverse has_send has_recv
reverse_lem d = ground arith
