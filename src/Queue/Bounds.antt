-- ===== src/Queue/Bounds.antt =====
-- The buffers of the channels and the ids of the rows (internal/queue/postgres_queue.go).
use kyvik.Base.{
  ℕ, ◌+◌, ◌≤◌, ◌<◌, String, Bool, true, false, ◌&&◌, none, some, List, [], ◌∷◌, ◌++◌, ◌≡◌, inl, inr,
  refl, subst, ◌==◌, string_eq, nat_eq, length, length-append, keep, lookup, insert, lookup-insert,
  ltb, if◌then◌else◌, In, Bool-cases, Option-cases, arith,
}
use kyvik.Queue.State.{
  QueueMessage, Metrics, Queue, add_metric, mark_in_flight, clear_in_flight, is_in_flight,
  routed_here, try_send, capacity, row_of,
}
use kyvik.Queue.Deliver.{
  count_full, push, repush_message, replay_row, replay_rows, replay_agent_rows, replay_agent,
  in_order,
}
use kyvik.Queue.Settle.{clear_all}

-- No buffer holds more than its capacity.
abbrev pub Bounded : List (String × List QueueMessage) → Type 0
Bounded channels =
    (k : String) (b : List QueueMessage) → lookup k channels ≡ some b → length b ≤ capacity

-- Every stored id has been given out.
abbrev pub Given : List QueueMessage → ℕ → Type 0
Given rows next = (r : QueueMessage) → In r rows → r.id < next

pub record IsSound (q : Queue) : Type 0 where
  pub bounded : Bounded q.channels
  pub given : Given q.rows q.next_id

-- A step in memory: the table stays, and the buffers stay within their bounds.
pub record InMemory (q q' : Queue) : Type 0 where
  pub rows : q'.rows ≡ q.rows
  pub next_id : q'.next_id ≡ q.next_id
  pub bounded : Bounded q.channels → Bounded q'.channels

pub stay : (q : Queue) → InMemory q q
stay q = record { rows = refl; next_id = refl; bounded = λ b. b }

pub both : (q r s : Queue) → InMemory q r → InMemory r s → InMemory q s
both q r s a b = record {
  rows = ground (arith, a.rows, b.rows);
  next_id = ground (arith, a.next_id, b.next_id);
  bounded = λ h. b.bounded (a.bounded h);
}

pub add_metric-InMemory :
    (q : Queue) (agent : String) (f : Metrics → Metrics) → InMemory q (add_metric q agent f)
unfolding add_metric
add_metric-InMemory q agent f = elim (Bool-cases (agent == "")) [
  | inl e ↦ rw e (stay q)
  | inr e ↦ rw e (record { rows = refl; next_id = refl; bounded = λ b. b })
]

pub insert-Bounded :
    (agent : String) (buffer : List QueueMessage) (channels : List (String × List QueueMessage))
    → length buffer ≤ capacity
    → Bounded channels
    → Bounded (insert agent buffer channels)
insert-Bounded agent buffer channels l h k b e =
    ground (arith, e, lookup-insert agent k buffer channels, h k b, l)

try_send-InMemory :
    (q q' : Queue) (agent : String) (buffer : List QueueMessage) (msg : QueueMessage)
    → try_send q agent buffer msg ≡ some q'
    → InMemory q q'
unfolding try_send mark_in_flight
try_send-InMemory q q' agent buffer msg e = elim (Bool-cases (ltb (length buffer) capacity)) [
  | inl l ↦
      let sent : Queue =
        mark_in_flight (record q { channels = insert agent (buffer ++ msg ∷ []) q.channels })
          msg.id in
      let same : sent ≡ q' = ground (arith, e, l) in
      subst (InMemory q) same (record {
        rows = refl;
        next_id = refl;
        bounded =
            insert-Bounded agent (buffer ++ msg ∷ []) q.channels
              (ground (arith, l, length-append buffer (msg ∷ [])));
      })
  | inr l ↦ absurd (ground (arith, e, l))
]

pub push-InMemory : (q : Queue) (msg : QueueMessage) → InMemory q (push q msg)
unfolding push count_full
push-InMemory q msg = elim (Option-cases (lookup msg.agent_id q.channels)) [
  | inl e ↦ rw (e, push) (stay q)
  | inr (buffer, e) ↦ elim (Option-cases (try_send q msg.agent_id buffer msg)) [
    | inl f ↦ rw (e, f, push, count_full) (add_metric-InMemory q msg.agent_id _)
    | inr (q', f) ↦ rw (e, f, push) (try_send-InMemory q q' msg.agent_id buffer msg f)
  ]
]

pub repush-InMemory : (q : Queue) (id : ℕ) → InMemory q (repush_message q id)
unfolding repush_message
repush-InMemory q id = elim (Option-cases (row_of q id)) [
  | inl e ↦ rw (e, repush_message) (stay q)
  | inr (msg, e) ↦ rw (e, repush_message) (push-InMemory q msg)
]

replay_row-InMemory : (q : Queue) (msg : QueueMessage) → InMemory q (replay_row q msg)
unfolding replay_row
replay_row-InMemory q msg = elim (Bool-cases (is_in_flight q msg.id)) [
  | inl e ↦ rw (e, replay_row) (stay q)
  | inr e ↦ elim (Option-cases (lookup msg.agent_id q.channels)) [
    | inl f ↦ rw (e, f, replay_row) (add_metric-InMemory q msg.agent_id _)
    | inr (buffer, f) ↦ elim (Option-cases (try_send q msg.agent_id buffer msg)) [
      | inl g ↦ rw (e, f, g, replay_row) (add_metric-InMemory q msg.agent_id _)
      | inr (q', g) ↦
          rw (e, f, g, replay_row)
            (both q q' _ (try_send-InMemory q q' msg.agent_id buffer msg g)
              (add_metric-InMemory q' msg.agent_id _))
    ]
  ]
]

pub replay_rows-InMemory : (q : Queue) (ms : List QueueMessage) → InMemory q (replay_rows q ms)
unfolding replay_rows
replay_rows-InMemory q [] = stay q
replay_rows-InMemory q (m ∷ ms) =
    both q (replay_row q m) _ (replay_row-InMemory q m) (replay_rows-InMemory (replay_row q m) ms)

replay_agent_rows-InMemory :
    (q : Queue) (agent : String) (ms : List QueueMessage) (flying full : ℕ)
    → InMemory q (replay_agent_rows q agent ms flying full).0
unfolding replay_agent_rows
replay_agent_rows-InMemory q agent [] flying full = stay q
replay_agent_rows-InMemory q agent (m ∷ ms) flying full =
    let buffer : List QueueMessage = elim (lookup agent q.channels) [ none ↦ [] | some b ↦ b ] in
    elim (Bool-cases (is_in_flight q m.id)) [
      | inl e ↦ rw (e, replay_agent_rows) (replay_agent_rows-InMemory q agent ms (flying + 1) full)
      | inr e ↦ elim (Option-cases (try_send q agent buffer m)) [
        | inl g ↦
            rw (e, g, replay_agent_rows)
              (both q (add_metric q agent _) _ (add_metric-InMemory q agent _)
                (replay_agent_rows-InMemory (add_metric q agent _) agent ms flying (full + 1)))
        | inr (q', g) ↦
            rw (e, g, replay_agent_rows)
              (both q q' _ (try_send-InMemory q q' agent buffer m g) (
                both q' (add_metric q' agent _) _ (add_metric-InMemory q' agent _)
                  (replay_agent_rows-InMemory (add_metric q' agent _) agent ms flying full)))
      ]
    ]

pub replay_agent-InMemory : (q : Queue) (agent : String) → InMemory q (replay_agent q agent)
unfolding replay_agent
replay_agent-InMemory q agent = elim (Option-cases (lookup agent q.channels)) [
  | inl e ↦ rw (e, replay_agent) (stay q)
  | inr (buffer, e) ↦ rw (e, replay_agent) (unless_empty (length pending == 0) _)
]
  where
    pending : List QueueMessage
    pending = keep (λ r. r.status == "pending" && r.agent_id == agent && routed_here q r) q.rows

    unless_empty :
        (b : Bool) (f : Metrics → Metrics)
        → InMemory q (
            if b
            then q
            else add_metric (replay_agent_rows q agent (in_order pending) 0 0).0 agent f)
    unless_empty true f = stay q
    unless_empty false f =
        both q (replay_agent_rows q agent (in_order pending) 0 0).0 _
          (replay_agent_rows-InMemory q agent (in_order pending) 0 0)
          (add_metric-InMemory _ agent _)

pub clear_all-InMemory : (q : Queue) (ids : List ℕ) → InMemory q (clear_all q ids)
unfolding clear_all clear_in_flight
clear_all-InMemory q [] = stay q
clear_all-InMemory q (id ∷ ids) =
    let r = clear_all-InMemory (clear_in_flight q id) ids in
    record { rows = r.rows; next_id = r.next_id; bounded = r.bounded }
