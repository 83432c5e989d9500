-- ===== src/Stun/Agent.antt =====
-- rtc-stun/src/agent.rs: the transactions in progress. A transaction id (twelve bytes) is the number
-- its bytes are, an instant is a number, and of a message only its transaction id is read. An event
-- is its id and how the transaction ended. The map is walked in the order of the list; the events of
-- `collect` and `close` come in that order, which a `HashMap` does not fix.
pub mod Accounting
use ortc.Common.{ℕ, Bool, true, false, Option, none, some, List, [], ◌∷◌, ◌++◌, ltb, if◌then◌else◌}
use ortc.Common.Map.{insert, remove, contains_key, get, keys}
use ortc.Common.Map

pub data AgentError : Type 0 where
  agent_closed : AgentError
  transaction_exists : AgentError
  transaction_not_exists : AgentError
  transaction_stopped : AgentError
  transaction_time_out : AgentError

-- What a transaction ended with: the message that came, or an error.
pub data Outcome : Type 0 where
  answered : Outcome
  failed : AgentError → Outcome

pub record Agent : Type 0 where
  pub transactions : List (ℕ × ℕ)  -- ids and deadlines
  pub closed : Bool
  pub events_queue : List (ℕ × Outcome)

pub data ClientAgent : Type 0 where
  process_event : ℕ → ClientAgent
  collect_event : ℕ → ClientAgent
  start_event : (id deadline : ℕ) → ClientAgent
  stop_event : ℕ → ClientAgent
  close_event : ClientAgent

unfoldable pub new : Agent
new = record { transactions = []; closed = false; events_queue = [] }

abbrev push_all : Outcome → List ℕ → List (ℕ × Outcome)
push_all o [] = []
push_all o (id ∷ ids) = (id, o) ∷ push_all o ids

unfoldable process : Agent → ℕ → Agent × Option AgentError
process a id = if a.closed then (a, some AgentError.agent_closed) else (
  record a {
    transactions = remove id a.transactions;
    events_queue = a.events_queue ++ ((id, Outcome.answered) ∷ []);
  },
  none,
)

unfoldable close : Agent → Agent × Option AgentError
close a = if a.closed then (a, some AgentError.agent_closed) else (
  record {
    transactions = [];
    closed = true;
    events_queue =
        a.events_queue ++ push_all (Outcome.failed AgentError.agent_closed) (keys a.transactions);
  },
  none,
)

unfoldable pub start : Agent → ℕ → ℕ → Agent × Option AgentError
start a id deadline =
    if a.closed
    then (a, some AgentError.agent_closed)
    else (if contains_key id a.transactions
        then (a, some AgentError.transaction_exists)
        else (record a { transactions = insert id deadline a.transactions }, none))

unfoldable pub stop : Agent → ℕ → Agent × Option AgentError
stop a id = if a.closed then (a, some AgentError.agent_closed) else elim (get id a.transactions) [
  | none ↦ (a, some AgentError.transaction_not_exists)
  | some deadline ↦ (
    record a {
      transactions = remove id a.transactions;
      events_queue = a.events_queue ++ ((id, Outcome.failed AgentError.transaction_stopped) ∷ []);
    },
    none,
  )
]

-- The first loop of `collect`.
unfoldable pub to_remove : ℕ → List (ℕ × ℕ) → List ℕ
to_remove deadline [] = []
to_remove deadline ((id, d) ∷ m) =
    if ltb d deadline then id ∷ to_remove deadline m else to_remove deadline m

unfoldable pub remove_all : List ℕ → List (ℕ × ℕ) → List (ℕ × ℕ)
remove_all [] m = m
remove_all (id ∷ ids) m = remove_all ids (remove id m)

unfoldable collect : Agent → ℕ → Agent × Option AgentError
collect a deadline = if a.closed then (a, some AgentError.agent_closed) else (
  record a {
    transactions = remove_all (to_remove deadline a.transactions) a.transactions;
    events_queue =
        a.events_queue
        ++ push_all (Outcome.failed AgentError.transaction_time_out)
            (to_remove deadline a.transactions);
  },
  none,
)

unfoldable pub handle_event : Agent → ClientAgent → Agent × Option AgentError
unfolding process collect start stop close
handle_event a (ClientAgent.process_event id) = process a id
handle_event a (ClientAgent.collect_event deadline) = collect a deadline
handle_event a (ClientAgent.start_event id deadline) = start a id deadline
handle_event a (ClientAgent.stop_event id) = stop a id
handle_event a ClientAgent.close_event = close a

-- The loop of `poll_timeout` over the deadlines.
unfoldable earliest : Option ℕ → List (ℕ × ℕ) → Option ℕ
earliest o [] = o
earliest none ((id, d) ∷ m) = earliest (some d) m
earliest (some e) ((id, d) ∷ m) = earliest (some (if ltb d e then d else e)) m

unfoldable poll_timeout : Agent → Option ℕ
unfolding earliest
poll_timeout a = earliest none a.transactions

unfoldable pub poll_event : Agent → Agent × Option (ℕ × Outcome)
poll_event a = elim a.events_queue [
  | [] ↦ (a, none)
  | e ∷ l ↦ (record a { events_queue = l }, some e)
]
