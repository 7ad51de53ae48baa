-- ===== src/Queue/Requests.antt =====
-- Everything that is asked of a queue, as steps (internal/queue/queue.go). A failing row or a blank agent
-- leaves the table as it is.
use kyvik.Base.{ℕ, String, none, some, List, [], ◌∷◌}
use kyvik.Base.Int.{ℤ}
use kyvik.Queue.State.{QueueMessage, Queue}
use kyvik.Queue.Deliver.{enqueue, dequeue, receive, replay, replay_agent}
use kyvik.Queue.Settle.{
  mark_processing, complete, fail, reset_agent_processing, cleanup, retry_message, delete_message,
  delete_messages, stop,
}

-- Each with the time at which it is served, where it reads the clock.
pub data Request : Type 0 where
  to_enqueue : QueueMessage → ℕ → Request
  to_dequeue to_receive : String → Request
  to_mark to_complete to_fail : ℕ → ℕ → Request
  to_reset : String → Request
  to_replay : ℕ → Request
  to_replay_agent : String → Request
  to_clean : ℕ → ℤ → Request
  to_retry to_delete : ℕ → Request
  to_delete_all : String → String → Request
  to_stop : Request

module _ (trim_space : String → String) where
  unfoldable pub serve : Queue → Request → Queue
  serve q (to_enqueue msg now) = (enqueue q msg now).0
  serve q (to_dequeue agent) = dequeue q agent
  serve q (to_receive agent) = elim (receive q agent) [ none ↦ q | some (q', _) ↦ q' ]
  serve q (to_mark id now) = mark_processing q id now
  serve q (to_complete id now) = complete q id now
  serve q (to_fail id now) = (fail q id now).0
  serve q (to_reset agent) = (reset_agent_processing q agent).0
  serve q (to_replay now) = replay q now
  serve q (to_replay_agent agent) = replay_agent q agent
  serve q (to_clean now hours) = (cleanup q now hours).0
  serve q (to_retry id) = (retry_message q id).0
  serve q (to_delete id) = (delete_message q id).0
  serve q (to_delete_all agent status) = elim (delete_messages trim_space q agent status) [
    | none ↦ q
    | some (q', _) ↦ q'
  ]
  serve q to_stop = stop q

  unfoldable pub serve_all : Queue → List Request → Queue
  unfolding serve
  serve_all q [] = q
  serve_all q (r ∷ rs) = serve_all (serve q r) rs
