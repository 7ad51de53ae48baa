-- ===== src/Queue/Settle.antt =====
-- What becomes of delivered messages, and what removes them (internal/queue/postgres_queue.go).
use kyvik.Base.{
  ℕ, ◌+◌, ◌*◌, String, Bool, true, false, ◌&&◌, ◌||◌, Option, none, some, List, [], ◌∷◌, map, ◌==◌,
  string_eq, nat_eq, length, keep, any, ltb, if◌then◌else◌,
}
use kyvik.Base.Int.{ℤ, pos, negsuc, leb_ℤ}
use kyvik.Queue.State.{QueueMessage, Queue, clear_in_flight, row_of, update_where, delete_where}
use kyvik.Queue.Deliver.{repush_message}

abbrev pub has_id : ℕ → QueueMessage → Bool
has_id id r = r.id == id

unfoldable pub mark_processing : Queue → ℕ → ℕ → Queue
mark_processing q id now =
    update_where (has_id id) (λ r. record r { status = "processing"; started_at = some now }) q

unfoldable pub complete : Queue → ℕ → ℕ → Queue
complete q id now =
    clear_in_flight
      (update_where (has_id id) (λ r. record r { status = "completed"; completed_at = some now }) q)
      id

-- `Fail`: `false` says that there is no such message.
unfoldable pub fail : Queue → ℕ → ℕ → Queue × Bool
fail q id now = elim (row_of q id) [
  | none ↦ (q, false)
  | some row ↦
      let attempts = row.attempts + 1 in
      let given_up =
        update_where (has_id id)
          (λ r. record r { status = "failed"; attempts = attempts; completed_at = some now }) q in
      let again =
        update_where (has_id id)
          (λ r. record r { status = "pending"; attempts = attempts; started_at = none }) q in
      if leb_ℤ row.max_attempts (pos attempts)
      then (clear_in_flight given_up id, true)
      else (repush_message (clear_in_flight again id) id, true)
]

unfoldable pub is_processing_of : String → QueueMessage → Bool
is_processing_of agent r = r.agent_id == agent && r.status == "processing"

unfoldable pub reset_agent_processing : Queue → String → Queue × ℕ
reset_agent_processing q agent = (
  update_where (is_processing_of agent)
      (λ r. record r { status = "pending"; attempts = r.attempts + 1; started_at = none }) q,
  length (keep (is_processing_of agent) q.rows),
)

-- A completed row from before `now - retention_hours`; a negative retention lies in the future.
unfoldable pub is_expired : ℕ → ℤ → QueueMessage → Bool
is_expired now retention_hours r =
    let old : Bool = elim r.completed_at [
      | none ↦ false
      | some t ↦ elim retention_hours [
        | pos h ↦ ltb (t + h * 3600) now
        | negsuc h ↦ ltb t (now + (h + 1) * 3600)
      ]
    ] in
    r.status == "completed" && old

unfoldable pub cleanup : Queue → ℕ → ℤ → Queue × ℕ
cleanup q now retention_hours = (
  delete_where (is_expired now retention_hours) q,
  length (keep (is_expired now retention_hours) q.rows),
)

-- `RetryMessage`: `false` says that no failed message has that id.
unfoldable pub retry_message : Queue → ℕ → Queue × Bool
retry_message q id =
    let failed = λ (r : QueueMessage). r.id == id && r.status == "failed" in
    let reset =
      update_where failed
        (λ r. record r { status = "pending"; attempts = 0; started_at = none; completed_at = none })
        q in
    if any failed q.rows
    then (repush_message (clear_in_flight reset id) id, true)
    else (clear_in_flight q id, false)

unfoldable pub delete_message : Queue → ℕ → Queue × Bool
delete_message q id = (clear_in_flight (delete_where (has_id id) q) id, any (has_id id) q.rows)

unfoldable pub selected : String → String → QueueMessage → Bool
selected agent status_filter r =
    r.agent_id == agent && (status_filter == "" || r.status == status_filter)

unfoldable pub clear_all : Queue → List ℕ → Queue
clear_all q [] = q
clear_all q (id ∷ ids) = clear_all (clear_in_flight q id) ids

-- `DeleteMessages`: `none` is the error for a blank agent.
unfoldable pub delete_messages : (String → String) → Queue → String → String → Option (Queue × ℕ)
unfolding clear_all selected
delete_messages trim_space q agent status_filter =
    let gone = keep (selected agent status_filter) q.rows in
    if trim_space agent == ""
    then none
    else some (
      clear_all (delete_where (selected agent status_filter) q) (map (λ r. r.id) gone),
      length gone,
    )

-- `Stop` closes every channel.
unfoldable pub stop : Queue → Queue
stop q = record q { channels = []; in_flight = [] }
