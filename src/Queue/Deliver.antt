-- ===== src/Queue/Deliver.antt =====
-- What brings messages into channels (internal/queue/postgres_queue.go).
use kyvik.Base.{
  ℕ, ◌+◌, String, Bool, false, not, ◌&&◌, ◌||◌, Option, none, some, List, [], ◌∷◌, ◌++◌, ◌==◌,
  string_eq, nat_eq, length, keep, lookup, insert, ltb, leb, if◌then◌else◌,
}
use kyvik.Base.Int.{pos, negsuc, ltb_ℤ, leb_ℤ}
use kyvik.Queue.State.{
  QueueMessage, Queue, add_metric, is_in_flight, row_of, try_send, depth, routed_here, update_where,
}

-- The row that `Enqueue` stores, its defaults filled in.
unfoldable pub prepare : QueueMessage → ℕ → ℕ → QueueMessage
prepare msg now id = record msg {
  id = id;
  max_attempts = if leb_ℤ msg.max_attempts (pos 0) then pos 3 else msg.max_attempts;
  status = if msg.status == "" then "pending" else msg.status;
  message_type = if msg.message_type == "" then "message" else msg.message_type;
  created_at = elim msg.created_at [ none ↦ some now | some t ↦ some t ];
  started_at = none;
  completed_at = none;
}

unfoldable pub count_full : Queue → String → Queue
count_full q agent = add_metric q agent (λ m. record m { channel_full = m.channel_full + 1 })

-- Into the agent's channel, if there is one and it has room.
unfoldable pub push : Queue → QueueMessage → Queue
unfolding count_full
push q msg = elim (lookup msg.agent_id q.channels) [
  | none ↦ q
  | some buffer ↦ elim (try_send q msg.agent_id buffer msg) [
    | some q' ↦ q'
    | none ↦ count_full q msg.agent_id
  ]
]

-- `Enqueue`: the message is stored in any case, and pushed if the agent's queue is not too deep and the
-- message is for this node.
unfoldable pub enqueue : Queue → QueueMessage → ℕ → Queue × ℕ
unfolding prepare push
enqueue q msg now =
    let stored = prepare msg now q.next_id in
    let q' = record q { rows = q.rows ++ stored ∷ []; next_id = q.next_id + 1 } in
    let blocked =
      add_metric q' msg.agent_id
        (λ m. record m { enqueue_depth_blocked = m.enqueue_depth_blocked + 1 }) in
    if ltb_ℤ msg.priority (pos 2) && ltb_ℤ q.config.depth (pos (depth q' msg.agent_id))
    then (blocked, q.next_id)
    else if not (routed_here q' stored)
    then (q', q.next_id)
    else (push q' stored, q.next_id)

-- `Dequeue` makes the agent's channel; what the agent then receives is `receive`.
unfoldable pub dequeue : Queue → String → Queue
dequeue q agent = elim (lookup agent q.channels) [
  | some _ ↦ q
  | none ↦ record q { channels = insert agent [] q.channels }
]

-- A receive on the channel of an agent: `none` is a receive that waits.
unfoldable pub receive : Queue → String → Option (Queue × QueueMessage)
receive q agent = elim (lookup agent q.channels) [
  | none ↦ none
  | some [] ↦ none
  | some (msg ∷ rest) ↦ some (record q { channels = insert agent rest q.channels }, msg)
]

-- `repushMessage`: the stored message as it now is.
unfoldable pub repush_message : Queue → ℕ → Queue
unfolding push
repush_message q id = elim (row_of q id) [ none ↦ q | some msg ↦ push q msg ]

-- `ORDER BY priority DESC, id ASC`.
unfoldable pub before : QueueMessage → QueueMessage → Bool
before a b = ltb_ℤ b.priority a.priority || (leb_ℤ b.priority a.priority && leb a.id b.id)

unfoldable pub place : QueueMessage → List QueueMessage → List QueueMessage
unfolding before
place m [] = m ∷ []
place m (x ∷ xs) = let rest = place m xs in if before m x then m ∷ x ∷ xs else x ∷ rest

unfoldable pub in_order : List QueueMessage → List QueueMessage
unfolding place
in_order [] = []
in_order (m ∷ ms) = place m (in_order ms)

-- One row of `Replay`.
unfoldable pub replay_row : Queue → QueueMessage → Queue
replay_row q msg =
    let agent = msg.agent_id in
    if is_in_flight q msg.id then q else elim (lookup agent q.channels) [
      | none ↦ add_metric q agent (λ m. record m {
        replay_skipped = m.replay_skipped + 1;
        replay_no_channel_skip = m.replay_no_channel_skip + 1;
      })
      | some buffer ↦ elim (try_send q agent buffer msg) [
        | some q' ↦ add_metric q' agent (λ m. record m { replay_pushed = m.replay_pushed + 1 })
        | none ↦ add_metric q agent (λ m. record m {
          replay_skipped = m.replay_skipped + 1;
          channel_full = m.channel_full + 1;
        })
      ]
    ]

unfoldable pub replay_rows : Queue → List QueueMessage → Queue
unfolding replay_row
replay_rows q [] = q
replay_rows q (m ∷ ms) = replay_rows (replay_row q m) ms

-- A row in process since before the threshold, for this node.
unfoldable pub is_stale : Queue → ℕ → QueueMessage → Bool
is_stale q now r =
    let old : Bool = elim r.started_at [
      | none ↦ false
      | some t ↦ elim q.config.stale_timeout_seconds [
        | pos s ↦ ltb (t + s) now
        | negsuc s ↦ leb t (now + s)
      ]
    ] in
    r.status == "processing" && old && routed_here q r

-- `Replay`.
unfoldable pub replay : Queue → ℕ → Queue
unfolding is_stale replay_rows in_order
replay q now =
    let q' =
      update_where (is_stale q now)
        (λ r. record r { status = "pending"; attempts = r.attempts + 1; started_at = none }) q in
    replay_rows q' (in_order (keep (λ r. r.status == "pending" && routed_here q' r) q'.rows))

-- One row of `ReplayAgent`, with the counts of the rows it skipped as in flight and as without room.
unfoldable pub replay_agent_rows : Queue → String → List QueueMessage → ℕ → ℕ → Queue × (ℕ × ℕ)
replay_agent_rows q agent [] flying full = (q, (flying, full))
replay_agent_rows q agent (m ∷ ms) flying full =
    let buffer : List QueueMessage = elim (lookup agent q.channels) [ none ↦ [] | some b ↦ b ] in
    let skipped = replay_agent_rows q agent ms (flying + 1) full in
    let crowded =
      replay_agent_rows (add_metric q agent (λ m. record m { channel_full = m.channel_full + 1 }))
        agent ms flying (full + 1) in
    if is_in_flight q m.id then skipped else elim (try_send q agent buffer m) [
      | none ↦ crowded
      | some q' ↦
          replay_agent_rows
            (add_metric q' agent (λ m. record m { replay_pushed = m.replay_pushed + 1 })) agent ms
            flying full
    ]

-- `ReplayAgent`; the counters move if there was a row.
unfoldable pub replay_agent : Queue → String → Queue
unfolding replay_agent_rows in_order
replay_agent q agent =
    let pending =
      keep (λ r. r.status == "pending" && r.agent_id == agent && routed_here q r) q.rows in
    let (q', (flying, full)) = replay_agent_rows q agent (in_order pending) 0 0 in
    elim (lookup agent q.channels) [
      | none ↦ q
      | some _ ↦
          if length pending == 0
          then q
          else add_metric q' agent (λ m. record m {
            replay_skipped = m.replay_skipped + (flying + full);
            replay_in_flight_skip = m.replay_in_flight_skip + flying;
          })
    ]
