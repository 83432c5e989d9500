-- ===== src/Stun/Agent/Accounting.antt =====
-- Each transaction that is started and how it ends.
use ortc.Common.{
  ℕ, ◌+◌, ◌-◌, ◌≤◌, ◌≡◌, refl, ap, ◌∙◌, Bool, true, false, Option, none, some, List, [], ◌∷◌, ◌++◌,
  ◌==◌, Option-cases, inl, inr, if◌then◌else◌, bit_of, arith, ◌&&◌, not,
}
use ortc.Common.Map.{
  count, count-append, count-remove, contains_key-count, insert-new, keys-append, keys, remove,
  insert, contains_key, get,
}
use ortc.Stun.Agent.{
  Agent, AgentError, ClientAgent, Outcome, new, start, stop, to_remove, remove_all, handle_event,
  push_all, poll_event,
}

-- The ids of a list of events.
abbrev pub ids : List (ℕ × Outcome) → List ℕ
ids [] = []
ids ((id, o) ∷ l) = id ∷ ids l

-- A caller handles an event or takes an event off the queue.
pub data Call : Type 0 where
  handle : ClientAgent → Call
  poll : Call

abbrev if_none : Option AgentError → ℕ → List ℕ
if_none none id = id ∷ []
if_none (some e) id = []

-- The transaction that a call starts with success.
unfoldable pub started : Agent → Call → List ℕ
unfolding start
started a (Call.handle (ClientAgent.start_event id deadline)) = if_none (start a id deadline).1 id
started a _ = []

-- The message of a call that answers no transaction in progress.
unfoldable pub unasked : Agent → Call → List ℕ
unasked a (Call.handle (ClientAgent.process_event id)) =
    if not a.closed && not (contains_key id a.transactions) then id ∷ [] else []
unasked a _ = []

abbrev pub taken : Option (ℕ × Outcome) → List (ℕ × Outcome)
taken none = []
taken (some e) = e ∷ []

-- A call, with the events taken off the queue so far.
unfoldable pub call : Agent × List (ℕ × Outcome) → Call → Agent × List (ℕ × Outcome)
unfolding handle_event poll_event
call (a, seen) (Call.handle e) = ((handle_event a e).0, seen)
call (a, seen) Call.poll = ((poll_event a).0, seen ++ taken (poll_event a).1)

unfoldable pub run : Agent × List (ℕ × Outcome) → List Call → Agent × List (ℕ × Outcome)
unfolding call
run s [] = s
run s (c ∷ l) = run (call s c) l

unfoldable pub all_started : Agent × List (ℕ × Outcome) → List Call → List ℕ
unfolding call started
all_started s [] = []
all_started s (c ∷ l) = started s.0 c ++ all_started (call s c) l

unfoldable pub all_unasked : Agent × List (ℕ × Outcome) → List Call → List ℕ
unfolding call unasked
all_unasked s [] = []
all_unasked s (c ∷ l) = unasked s.0 c ++ all_unasked (call s c) l

-- How often an id is reported, taken off the queue or not, or in progress.
unfoldable accounted : ℕ → Agent × List (ℕ × Outcome) → ℕ
accounted id s =
    count id (ids s.1) + count id (ids s.0.events_queue) + count id (keys s.0.transactions)

ids-append : (l r : List (ℕ × Outcome)) → ids (l ++ r) ≡ ids l ++ ids r
ids-append [] r = refl
ids-append ((id, o) ∷ l) r = ap (λ x. id ∷ x) (ids-append l r)

count-ids :
    (id : ℕ) (l r : List (ℕ × Outcome))
    → count id (ids (l ++ r)) ≡ count id (ids l) + count id (ids r)
count-ids id l r = ap (count id) (ids-append l r) ∙ count-append id (ids l) (ids r)

ids-push_all : (o : Outcome) (l : List ℕ) → ids (push_all o l) ≡ l
ids-push_all o [] = refl
ids-push_all o (id ∷ l) = ap (λ x. id ∷ x) (ids-push_all o l)

count-remove_all :
    (t : ℕ) (l : List ℕ) (m : List (ℕ × ℕ))
    → count t (keys (remove_all l m)) ≡ count t (keys m) - count t l
unfolding remove_all
count-remove_all t [] m = omega arith
count-remove_all t (id ∷ l) m =
    omega (arith, count-remove_all t l (remove id m), count-remove t id m)

count-to_remove : (t d : ℕ) (m : List (ℕ × ℕ)) → count t (to_remove d m) ≤ count t (keys m)
unfolding to_remove
count-to_remove t d [] = omega arith
count-to_remove t d ((id, e) ∷ m) = ground (arith, count-to_remove t d m)

contains_key-keys : (k : ℕ) (m : List (ℕ × ℕ)) → contains_key k m ≡ true → 1 ≤ count k (keys m)
unfolding contains_key
contains_key-keys k [] h = ground arith
contains_key-keys k ((j, v) ∷ m) h = ground (arith, contains_key-keys k m)

get-keys : (k v : ℕ) (m : List (ℕ × ℕ)) → get k m ≡ some v → 1 ≤ count k (keys m)
unfolding get
get-keys k v [] h = ground arith
get-keys k v ((j, w) ∷ m) h = ground (arith, get-keys k v m)

count-insert :
    (t k v : ℕ) (m : List (ℕ × ℕ))
    → contains_key k m ≡ false
    → count t (keys (insert k v m)) ≡ count t (keys m) + bit_of (t == k)
count-insert t k v m h = omega (
  arith,
  ap (λ x. count t (keys x)) (insert-new k v m h),
  ap (count t) (keys-append m ((k, v) ∷ [])),
  count-append t (keys m) (k ∷ []),
)

accounted-stop :
    (t : ℕ) (a : Agent) (seen : List (ℕ × Outcome)) (id : ℕ)
    → accounted t ((stop a id).0, seen) ≡ accounted t (a, seen)
unfolding accounted stop
accounted-stop t a seen id = elim (Option-cases (get id a.transactions)) [
  | inl e ↦ rw e (ground arith)
  | inr (d, e) ↦ rw e (
      ground (
        arith,
        count-ids t a.events_queue ((id, Outcome.failed AgentError.transaction_stopped) ∷ []),
        count-remove t id a.transactions,
        get-keys id d a.transactions e,
        ap (λ (x : ℕ). count x (keys a.transactions)) {x = t} {y = id},
      ))
]

accounted-poll :
    (t : ℕ) (m : List (ℕ × ℕ)) (closed : Bool) (q seen : List (ℕ × Outcome))
    → let a : Agent = record { transactions = m; closed = closed; events_queue = q } in
      accounted t ((poll_event a).0, seen ++ taken (poll_event a).1) ≡ accounted t (a, seen)
unfolding accounted poll_event
accounted-poll t m closed [] seen = omega (arith, count-ids t seen [])
accounted-poll t m closed (e ∷ l) seen = omega (arith, count-ids t seen (e ∷ []))

-- One call: what it starts and what comes unasked is reported or in progress afterwards.
accounted-call :
    (t : ℕ) (a : Agent) (seen : List (ℕ × Outcome)) (c : Call)
    → accounted t (call (a, seen) c)
      ≡ accounted t (a, seen) + count t (started a c) + count t (unasked a c)
unfolding accounted call started unasked
accounted-call t a seen (Call.handle (ClientAgent.process_event id)) = ground (
  arith,
  count-ids t a.events_queue ((id, Outcome.answered) ∷ []),
  count-remove t id a.transactions,
  contains_key-keys id a.transactions,
  contains_key-count id a.transactions,
  ap (λ (x : ℕ). count x (keys a.transactions)) {x = t} {y = id},
)
accounted-call t a seen (Call.handle (ClientAgent.collect_event d)) = ground (
  arith,
  count-ids t a.events_queue
      (push_all (Outcome.failed AgentError.transaction_time_out) (to_remove d a.transactions)),
  ap (count t)
      (ids-push_all (Outcome.failed AgentError.transaction_time_out) (to_remove d a.transactions)),
  count-remove_all t (to_remove d a.transactions) a.transactions,
  count-to_remove t d a.transactions,
)
accounted-call t a seen (Call.handle (ClientAgent.start_event id d)) =
    ground (arith, count-insert t id d a.transactions)
accounted-call t a seen (Call.handle (ClientAgent.stop_event id)) =
    omega (arith, accounted-stop t a seen id)
accounted-call t a seen (Call.handle ClientAgent.close_event) = ground (
  arith,
  count-ids t a.events_queue
      (push_all (Outcome.failed AgentError.agent_closed) (keys a.transactions)),
  ap (count t) (ids-push_all (Outcome.failed AgentError.agent_closed) (keys a.transactions)),
)
accounted-call t a seen Call.poll =
    omega (arith, accounted-poll t a.transactions a.closed a.events_queue seen)

-- Over any calls from any agent: what is started and what comes unasked is reported or in progress.
accounted-run :
    (t : ℕ) (s : Agent × List (ℕ × Outcome)) (l : List Call)
    → accounted t (run s l) ≡ accounted t s + count t (all_started s l) + count t (all_unasked s l)
unfolding run all_started all_unasked
accounted-run t s [] = omega arith
accounted-run t s (c ∷ l) = omega (
  arith,
  accounted-run t (call s c) l,
  accounted-call t s.0 s.1 c,
  count-append t (started s.0 c) (all_started (call s c) l),
  count-append t (unasked s.0 c) (all_unasked (call s c) l),
)

-- Over any calls on a new agent, an id is reported, on the queue or taken off it, or in progress
-- exactly as often as a transaction with it was started or a message with it came unasked.
pub transactions_accounted :
    (t : ℕ) (l : List Call)
    → let (a, seen) = run (new, []) l in
      count t (ids (seen ++ a.events_queue)) + count t (keys a.transactions)
      ≡ count t (all_started (new, []) l) + count t (all_unasked (new, []) l)
unfolding accounted new
transactions_accounted t l =
    let (a, seen) = run (new, []) l in
    omega (arith, accounted-run t (new, []) l, count-ids t seen a.events_queue)

call-closed :
    (s : Agent × List (ℕ × Outcome)) (c : Call)
    → (s.0.closed ≡ true → s.0.transactions ≡ [])
    → ((call s c).0.closed ≡ true → (call s c).0.transactions ≡ [])
unfolding call
call-closed s (Call.handle (ClientAgent.process_event id)) h = ground arith
call-closed s (Call.handle (ClientAgent.collect_event d)) h = ground arith
call-closed s (Call.handle (ClientAgent.start_event id d)) h = ground arith
call-closed s (Call.handle (ClientAgent.stop_event id)) h = ground arith
call-closed s (Call.handle ClientAgent.close_event) h = ground arith
call-closed s Call.poll h = ground arith

run-closed :
    (s : Agent × List (ℕ × Outcome)) (l : List Call)
    → (s.0.closed ≡ true → s.0.transactions ≡ [])
    → (run s l).0.closed ≡ true
    → (run s l).0.transactions ≡ []
unfolding run
run-closed s [] h e = h e
run-closed s (c ∷ l) h e = run-closed (call s c) l (call-closed s c h) e

-- Once the agent is closed, after any calls on a new one, every transaction that was started has
-- been reported: its id stands among the events at least as often as it was started.
pub closed-reported :
    (t : ℕ) (l : List Call)
    → (run (new, []) l).0.closed ≡ true
    → count t (all_started (new, []) l)
      ≤ count t (ids ((run (new, []) l).1 ++ (run (new, []) l).0.events_queue))
unfolding new
closed-reported t l h = omega (
  arith,
  transactions_accounted t l,
  ap (λ m. count t (keys m)) (run-closed (new, []) l (λ (e : false ≡ true). refl) h),
)
