-- ===== src/Sctp/Timers/Backoff.antt =====
-- The retransmission timeout and how a timer backs off.
use ortc.Common.{
  ℕ, suc, ◌+◌, ◌*◌, ◌%◌, ◌^◌, ◌≤◌, ◌<◌, ◌≡◌, refl, ap, ◌∙◌, min, Bool, true, false, none, some,
  List, [], ◌∷◌, ltb, if◌then◌else◌, arith, Bool-cases, inl, inr, All, length,
}
use ortc.Common.Bits.{shl}
use native.Mathlib.Nat.{mul-le-mul_right, pow-le-pow_right}
use ortc.Sctp.Timers.{
  Timer, is_timer, set_at, TimerTable, calculate_next_timeout, start, stop, set, is_expired,
  elapsed, Floats, RtoManager, new_manager, smooth, set_new_rtt, reset, update_rto,
}

-- The timeout doubles with every expiry, up to the maximum.
calculate_next_timeout_lem :
    (rto n : ℕ) → 1000 ≤ rto → rto ≤ 60000 → calculate_next_timeout rto n ≡ min (rto * 2 ^ n) 60000
unfolding calculate_next_timeout shl
calculate_next_timeout_lem rto n h k = elim (Bool-cases (ltb n 31)) [
  | inl e ↦
      let p : 2 ^ n ≤ 2 ^ 30 =
        pow-le-pow_right {n = 2} (omega arith) {i = n} {j = 30} (ground (arith, e)) in
      let q : rto * 2 ^ n < 2 ^ 64 = omega (arith, mul-le-mul_right (2 ^ n) k) in
      rw e (omega (arith, q))
  | inr e ↦
      let p : 2 ^ 31 ≤ 2 ^ n =
        pow-le-pow_right {n = 2} (omega arith) {i = 31} {j = n} (ground (arith, e)) in
      rw e (omega (arith, mul-le-mul_right (2 ^ n) h))
]

-- What an association does with the manager.
pub data Call : Type 0 where
  measured : ℕ → Call
  restarted : Call

module _ {F : Type 0} (f64 : Floats F) where
  unfoldable pub call : RtoManager F → Call → RtoManager F
  unfolding set_new_rtt reset
  call m (Call.measured rtt) = set_new_rtt f64 m rtt
  call m Call.restarted = reset f64 m

  unfoldable pub run : RtoManager F → List Call → RtoManager F
  unfolding call
  run m [] = m
  run m (c ∷ l) = run (call m c) l

  abbrev IsTimeout : ℕ → Type 0
  IsTimeout rto = (1000 ≤ rto) × (rto ≤ 60000)

  update_rto-IsTimeout : (m : RtoManager F) → IsTimeout (update_rto f64 m).rto
  unfolding update_rto
  update_rto-IsTimeout m = ground arith

  if-IsTimeout :
      (b : Bool) (x y : RtoManager F)
      → IsTimeout x.rto
      → IsTimeout y.rto
      → IsTimeout (if b then x else y).rto
  if-IsTimeout true x y h k = h
  if-IsTimeout false x y h k = k

  call-IsTimeout : (m : RtoManager F) (c : Call) → IsTimeout m.rto → IsTimeout (call m c).rto
  unfolding call set_new_rtt reset
  call-IsTimeout m (Call.measured rtt) h =
      if-IsTimeout m.no_update m (update_rto f64 (smooth f64 m rtt)) h
        (update_rto-IsTimeout (smooth f64 m rtt))
  call-IsTimeout m Call.restarted h =
      if-IsTimeout m.no_update m (record m { srtt = 0; rttvar = f64.from_u64 0; rto = 3000 }) h
        (omega arith, omega arith)

  run-IsTimeout : (m : RtoManager F) (l : List Call) → IsTimeout m.rto → IsTimeout (run m l).rto
  unfolding run
  run-IsTimeout m [] h = h
  run-IsTimeout m (c ∷ l) h = run-IsTimeout (call m c) l (call-IsTimeout m c h)

  -- After any measurements and resets on a new manager the timeout lies from 1 to 60 seconds, and a
  -- timer other than the delayed acknowledgement's, started with it, is due after the timeout
  -- doubled as often as the timer has expired, or after 60 seconds if that is less; whatever the
  -- operations of f64 do.
  pub start-backoff :
      (l : List Call) (table : TimerTable) (t : Timer) (now : ℕ)
      → is_timer t Timer.ack ≡ false
      → let rto = (run (new_manager f64) l).rto in
        (1000 ≤ rto)
        × (rto ≤ 60000)
        × ((start table t now rto).deadlines t ≡ some (now + min (rto * 2 ^ table.retrans t) 60000))
  unfolding start new_manager
  start-backoff l table t now h =
      let (low, high) = run-IsTimeout (new_manager f64) l (omega arith, omega arith) in
      let same : is_timer t t ≡ true = ground arith in
      let e = calculate_next_timeout_lem (run (new_manager f64) l).rto (table.retrans t) low high in
      (low, high, rw (h, same, e) refl)

-- A timer that is started, with some timeout, at each of the given instants, and looked at when it
-- is due, or later: whether it has failed each time. `handle_timeout` unsets it before it is
-- started again.
unfoldable pub round : TimerTable → Timer → ℕ → ℕ × ℕ → TimerTable × Bool
unfolding start is_expired set
round table t rto (now, after) =
    let checked = is_expired (start table t now rto) t after in (set checked.0 t none, checked.1.1)

unfoldable pub rounds : TimerTable → Timer → ℕ → List (ℕ × ℕ) → List Bool
unfolding round
rounds table t rto [] = []
rounds table t rto (r ∷ l) = (round table t rto r).1 ∷ rounds (round table t rto r).0 t rto l

-- No failure while the expiries are at most `most`, and a failure at each from then on.
unfoldable pub failures : ℕ → ℕ → List (ℕ × ℕ) → List Bool
failures most n [] = []
failures most n (r ∷ l) = ltb most (suc n) ∷ failures most (suc n) l

-- Each instant is late enough for the longest timeout.
abbrev IsLate : ℕ × ℕ → Type 0
IsLate r = r.0 + 60000 ≤ r.1

is_timer_same : (t : Timer) → is_timer t t ≡ true
is_timer_same t = ground arith

due :
    (table : TimerTable) (t : Timer) (rto now after : ℕ)
    → rto ≤ 60000
    → now + 60000 ≤ after
    → elapsed ((start table t now rto).deadlines t) after ≡ true
unfolding start calculate_next_timeout
due table t rto now after h k = rw (is_timer_same t) (ground arith)

pub is_expired-due :
    (table : TimerTable) (t : Timer) (after : ℕ)
    → elapsed (table.deadlines t) after ≡ true
    → table.retrans t + 1 < 2 ^ 64
    → is_expired table t after ≡ (
      record table { retrans = set_at t (table.retrans t + 1) table.retrans },
      (true, ltb (table.max_retrans t) (table.retrans t + 1), table.retrans t + 1),
    )
unfolding is_expired
is_expired-due table t after e b =
    let n : (table.retrans t + 1) % 2 ^ 64 ≡ table.retrans t + 1 = omega arith in rw (e, n) refl

round_lem :
    (table : TimerTable) (t : Timer) (rto : ℕ) (r : ℕ × ℕ)
    → rto ≤ 60000
    → IsLate r
    → table.retrans t + 1 < 2 ^ 64
    → ((round table t rto r).1 ≡ ltb (table.max_retrans t) (table.retrans t + 1))
      × ((round table t rto r).0.retrans t ≡ table.retrans t + 1)
      × ((round table t rto r).0.max_retrans t ≡ table.max_retrans t)
unfolding round set start
round_lem table t rto (now, after) h k b =
    let e = is_expired-due (start table t now rto) t after (due table t rto now after h k) b in
    (
      ap (λ c. c.1.1) e,
      ap (λ c. c.0.retrans t) e ∙ rw (is_timer_same t) refl,
      ap (λ c. c.0.max_retrans t) e,
    )

rounds_lem :
    (table : TimerTable) (t : Timer) (rto : ℕ) (l : List (ℕ × ℕ))
    → rto ≤ 60000
    → All IsLate l
    → table.retrans t + length l < 2 ^ 64
    → rounds table t rto l ≡ failures (table.max_retrans t) (table.retrans t) l
unfolding rounds failures
rounds_lem table t rto [] h k b = refl
rounds_lem table t rto (r ∷ l) h (k, ks) b =
    let (failed, counted, same) = round_lem table t rto r h k (omega arith) in
    let rest = rounds_lem (round table t rto r).0 t rto l h ks (omega arith) in
    rw (failed, rest, counted, same) (ground arith)

-- A timer that was stopped, and then expires again and again, with whatever timeout up to the
-- maximum, fails when it has expired more often than its maximum of retransmissions allows and not
-- before, for fewer than 2 ^ 64 expiries.
pub stop-rounds :
    (table : TimerTable) (t : Timer) (rto : ℕ) (l : List (ℕ × ℕ))
    → rto ≤ 60000
    → All IsLate l
    → length l < 2 ^ 64
    → rounds (stop table t) t rto l ≡ failures (table.max_retrans t) 0 l
unfolding stop
stop-rounds table t rto l h k b =
    let none_yet : (stop table t).retrans t ≡ 0 = rw (is_timer_same t) refl in
    rounds_lem (stop table t) t rto l h k (omega arith)
    ∙ ap (λ n. failures (table.max_retrans t) n l) none_yet
