-- ===== src/Queue/State.antt =====
-- The table, the channels and the counters (internal/queue/queue.go, internal/queue/postgres_queue.go,
-- internal/queue/shared.go). Every statement succeeds here: a failing database is not modelled. Times
-- are seconds, the resolution of the stored ones.
use kyvik.Base.{
  ℕ, String, Bool, not, ◌&&◌, ◌||◌, Option, none, some, List, [], ◌∷◌, ◌++◌, map, ◌==◌, string_eq,
  nat_eq, length, keep, find, contains, lookup, insert, ltb, if◌then◌else◌,
}
use kyvik.Base.Int.{ℤ, pos, leb_ℤ}

pub record QueueMessage : Type 0 where
  pub id : ℕ
  pub agent_id : String
  pub channel : String
  pub conversation_id : String
  pub sender : String
  pub content : String
  pub attachments : String
  pub message_type : String
  pub priority : ℤ
  pub status : String
  pub attempts : ℕ
  pub max_attempts : ℤ
  pub target_node_id : String
  pub created_at : Option ℕ
  pub started_at : Option ℕ
  pub completed_at : Option ℕ

pub record Config : Type 0 where
  pub depth : ℤ
  pub full_behavior : String
  pub priority_users : List String
  pub stale_timeout_seconds : ℤ
  pub retention_hours : ℤ

abbrev pub default_config : Config
default_config = record {
  depth = pos 50;
  full_behavior = "acknowledge";
  priority_users = [];
  stale_timeout_seconds = pos 300;
  retention_hours = pos 24;
}

-- What `NewPostgresQueue` makes of a given configuration.
unfoldable pub normalize_config : Config → Config
normalize_config cfg = record cfg {
  depth = if leb_ℤ cfg.depth (pos 0) then pos 50 else cfg.depth;
  stale_timeout_seconds =
      if leb_ℤ cfg.stale_timeout_seconds (pos 0) then pos 300 else cfg.stale_timeout_seconds;
  retention_hours = if leb_ℤ cfg.retention_hours (pos 0) then pos 24 else cfg.retention_hours;
  full_behavior = if cfg.full_behavior == "" then "acknowledge" else cfg.full_behavior;
}

pub record Metrics : Type 0 where
  pub enqueue_depth_blocked : ℕ
  pub channel_full : ℕ
  pub replay_pushed : ℕ
  pub replay_skipped : ℕ
  pub replay_in_flight_skip : ℕ
  pub replay_no_channel_skip : ℕ

-- `rows` is the table `message_queue` and `next_id` its sequence; a channel is the list of the messages
-- in its buffer.
pub record Queue : Type 0 where
  pub rows : List QueueMessage
  pub next_id : ℕ
  pub node_id : String
  pub config : Config
  pub channels : List (String × List QueueMessage)
  pub in_flight : List ℕ
  pub metrics : List (String × Metrics)

abbrev pub no_metrics : Metrics
no_metrics = record {
  enqueue_depth_blocked = 0;
  channel_full = 0;
  replay_pushed = 0;
  replay_skipped = 0;
  replay_in_flight_skip = 0;
  replay_no_channel_skip = 0;
}

unfoldable pub new_postgres_queue : List QueueMessage → ℕ → String → Option Config → Queue
unfolding normalize_config
new_postgres_queue rows next_id node_id cfg = record {
  rows = rows;
  next_id = next_id;
  node_id = node_id;
  config = elim cfg [ none ↦ default_config | some c ↦ normalize_config c ];
  channels = [];
  in_flight = [];
  metrics = [];
}

unfoldable pub add_metric : Queue → String → (Metrics → Metrics) → Queue
add_metric q agent f =
    let old : Metrics = elim (lookup agent q.metrics) [ none ↦ no_metrics | some m ↦ m ] in
    if agent == "" then q else record q { metrics = insert agent (f old) q.metrics }

unfoldable pub mark_in_flight : Queue → ℕ → Queue
mark_in_flight q id = record q { in_flight = id ∷ q.in_flight }

unfoldable pub clear_in_flight : Queue → ℕ → Queue
clear_in_flight q id = record q { in_flight = keep (λ i. not (i == id)) q.in_flight }

unfoldable pub is_in_flight : Queue → ℕ → Bool
is_in_flight q id = contains q.in_flight id

-- `UPDATE message_queue SET ... WHERE ...`.
unfoldable pub update_where : (QueueMessage → Bool) → (QueueMessage → QueueMessage) → Queue → Queue
update_where where' change q = record q {
  rows = map (λ r. if where' r then change r else r) q.rows;
}

unfoldable pub delete_where : (QueueMessage → Bool) → Queue → Queue
delete_where where' q = record q { rows = keep (λ r. not (where' r)) q.rows }

unfoldable pub row_of : Queue → ℕ → Option QueueMessage
row_of q id = find (λ r. r.id == id) q.rows

-- The buffer of a channel holds 16 messages.
abbrev pub capacity : ℕ
capacity = 16

-- A send on a channel that does not block: `none` is the default branch.
unfoldable pub try_send : Queue → String → List QueueMessage → QueueMessage → Option Queue
unfolding mark_in_flight
try_send q agent buffer msg =
    if ltb (length buffer) capacity
    then some (
        mark_in_flight (record q { channels = insert agent (buffer ++ msg ∷ []) q.channels })
          msg.id)
    else none

unfoldable pub depth : Queue → String → ℕ
depth q agent =
    length (
      keep (λ r. r.agent_id == agent && (r.status == "pending" || r.status == "processing")) q.rows)

unfoldable pub routed_here : Queue → QueueMessage → Bool
routed_here q msg = msg.target_node_id == "" || msg.target_node_id == q.node_id
