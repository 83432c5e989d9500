-- ===== src/Sctp/Timers.antt =====
-- rtc-sctp/src/association/timer.rs: the timers of an association and the manager of the
-- retransmission timeout. An instant and a duration are numbers of milliseconds. The arrays of six
-- that a timer indexes are functions of the timer. The operations of f64 are a parameter.
pub mod Backoff
use ortc.Common.{
  ℕ, zero, suc, ◌+◌, ◌-◌, ◌*◌, ◌/◌, ◌%◌, ◌^◌, min, Bool, true, false, Option, none, some, List, [],
  ◌∷◌, ◌==◌, ltb, leb, if◌then◌else◌,
}
use ortc.Common.Bits.{shl}

abbrev no_max_retrans : ℕ
no_max_retrans = 2 ^ 64 - 1

pub record TimerConfig : Type 0 where
  pub max_t1_init_retrans : ℕ
  pub max_t1_cookie_retrans : ℕ
  pub max_t2_shutdown_retrans : ℕ
  pub max_t3_rtx_retrans : ℕ
  pub max_reconfig_retrans : ℕ
  pub max_ack_retrans : ℕ

-- `TimerConfig::default`.
abbrev pub default_config : TimerConfig
default_config = record {
  max_t1_init_retrans = 8;
  max_t1_cookie_retrans = 8;
  max_t2_shutdown_retrans = no_max_retrans;
  max_t3_rtx_retrans = 5;
  max_reconfig_retrans = 5;
  max_ack_retrans = 5;
}

pub data Timer : Type 0 where
  t1_init t1_cookie t2_shutdown t3_rtx reconfig ack : Timer

-- `timer as usize`.
abbrev timer_index : Timer → ℕ
timer_index Timer.t1_init = 0
timer_index Timer.t1_cookie = 1
timer_index Timer.t2_shutdown = 2
timer_index Timer.t3_rtx = 3
timer_index Timer.reconfig = 4
timer_index Timer.ack = 5

abbrev pub is_timer : Timer → Timer → Bool
is_timer a b = timer_index a == timer_index b

-- The store of a value at a timer.
abbrev pub set_at {ℓ} : {A : Type ℓ} → Timer → A → (Timer → A) → Timer → A
set_at t v f u = if is_timer u t then v else f u

-- `Timer::VALUES`.
abbrev pub timers : List Timer
timers =
    Timer.t1_init ∷ Timer.t1_cookie ∷ Timer.t2_shutdown ∷ Timer.t3_rtx ∷ Timer.reconfig ∷ Timer.ack
    ∷ []

pub record TimerTable : Type 0 where
  pub deadlines : Timer → Option ℕ  -- the field `data`
  pub retrans : Timer → ℕ
  pub max_retrans : Timer → ℕ

unfoldable pub max_of : TimerConfig → Timer → ℕ
max_of c Timer.t1_init = c.max_t1_init_retrans
max_of c Timer.t1_cookie = c.max_t1_cookie_retrans
max_of c Timer.t2_shutdown = c.max_t2_shutdown_retrans
max_of c Timer.t3_rtx = c.max_t3_rtx_retrans
max_of c Timer.reconfig = c.max_reconfig_retrans
max_of c Timer.ack = c.max_ack_retrans

unfoldable pub new_table : TimerConfig → TimerTable
new_table c = record { deadlines = λ t. none; retrans = λ t. 0; max_retrans = max_of c }

unfoldable pub set : TimerTable → Timer → Option ℕ → TimerTable
set table t time = record table { deadlines = set_at t time table.deadlines }

unfoldable pub get : TimerTable → Timer → Option ℕ
get table t = table.deadlines t

-- The earlier of two instants that may be there.
abbrev earlier : Option ℕ → Option ℕ → Option ℕ
earlier none o = o
earlier (some a) none = some a
earlier (some a) (some b) = some (min a b)

unfoldable pub earliest : List Timer → TimerTable → Option ℕ
earliest [] table = none
earliest (t ∷ l) table = earlier (table.deadlines t) (earliest l table)

unfoldable next_timeout : TimerTable → Option ℕ
unfolding earliest
next_timeout table = earliest timers table

abbrev rto_initial : ℕ
rto_initial = 3000

abbrev rto_min : ℕ
rto_min = 1000

abbrev rto_max : ℕ
rto_max = 60000

unfoldable pub calculate_next_timeout : ℕ → ℕ → ℕ
calculate_next_timeout rto n_rtos = if ltb n_rtos 31 then min (shl rto n_rtos) rto_max else rto_max

unfoldable pub start : TimerTable → Timer → ℕ → ℕ → TimerTable
unfolding calculate_next_timeout
start table t now interval =
    let delay =
      if is_timer t Timer.ack
      then interval
      else calculate_next_timeout interval (table.retrans t) in
    record table { deadlines = set_at t (some (now + delay)) table.deadlines }

unfoldable pub restart_if_stale : TimerTable → Timer → ℕ → ℕ → TimerTable
unfolding start
restart_if_stale table t now interval = elim (table.deadlines t) [
  | some current ↦ if leb now current then table else start table t now interval
  | none ↦ start table t now interval
]

unfoldable pub stop : TimerTable → Timer → TimerTable
stop table t = record table {
  deadlines = set_at t none table.deadlines;
  retrans = set_at t 0 table.retrans;
}

abbrev pub elapsed : Option ℕ → ℕ → Bool
elapsed none after = false
elapsed (some x) after = leb x after

-- The table, whether the timer has expired, whether it has too often, and how often.
unfoldable pub is_expired : TimerTable → Timer → ℕ → TimerTable × (Bool × Bool × ℕ)
is_expired table t after =
    let n = (table.retrans t + 1) % 2 ^ 64 in
    if elapsed (table.deadlines t) after
    then (
      record table { retrans = set_at t n table.retrans },
      (true, ltb (table.max_retrans t) n, n),
    )
    else (table, (false, false, table.retrans t))

-- What the manager uses of f64.
pub record Floats (F : Type 0) : Type 0 where
  pub from_u64 : ℕ → F
  pub add : F → F → F
  pub mul : F → F → F
  pub div : F → F → F
  pub to_u64 : F → ℕ

pub record RtoManager (F : Type 0) : Type 0 where
  pub srtt : ℕ
  pub rttvar : F
  pub rto : ℕ
  pub no_update : Bool

abbrev clamp : ℕ → ℕ → ℕ → ℕ
clamp n low high = if ltb n low then low else (if ltb high n then high else n)

abbrev rto_base : ℕ
rto_base = 8

module _ {F : Type 0} (f64 : Floats F) where
  unfoldable pub new_manager : RtoManager F
  new_manager = record { srtt = 0; rttvar = f64.from_u64 0; rto = rto_initial; no_update = false }

  -- `(RTO_BETA * |srtt - rtt| + (RTO_BASE - RTO_BETA) * rttvar) / RTO_BASE`, in the source's order.
  unfoldable next_rttvar : F → ℕ → ℕ → F
  next_rttvar rttvar srtt rtt =
      f64.div
        (f64.add (f64.mul (f64.from_u64 (rto_base - 2)) rttvar)
          (f64.mul (f64.from_u64 2) (f64.from_u64 ((srtt - rtt) + (rtt - srtt)))))
        (f64.from_u64 rto_base)

  -- The smoothed time and its variation after a measurement.
  unfoldable pub smooth : RtoManager F → ℕ → RtoManager F
  unfolding next_rttvar
  smooth m rtt =
      if m.srtt == 0
      then record m { srtt = rtt; rttvar = f64.div (f64.from_u64 rtt) (f64.from_u64 2) }
      else record m {
        rttvar = next_rttvar m.rttvar m.srtt rtt;
        srtt = (7 * m.srtt + rtt) % 2 ^ 64 / rto_base;
      }

  unfoldable pub update_rto : RtoManager F → RtoManager F
  update_rto m = record m {
    rto =
        clamp ((m.srtt + f64.to_u64 (f64.mul (f64.from_u64 4) m.rttvar)) % 2 ^ 64) rto_min rto_max;
  }

  -- The result of the method, `srtt`, is read from the field.
  unfoldable pub set_new_rtt : RtoManager F → ℕ → RtoManager F
  unfolding smooth update_rto
  set_new_rtt m rtt = if m.no_update then m else update_rto (smooth m rtt)

  unfoldable pub reset : RtoManager F → RtoManager F
  reset m =
      if m.no_update then m else record m { srtt = 0; rttvar = f64.from_u64 0; rto = rto_initial }

unfoldable set_rto : {F : Type 0} → RtoManager F → ℕ → Bool → RtoManager F
set_rto m rto no_update = record m { rto = rto; no_update = no_update }
