-- ===== src/Queue/Tests.antt =====
-- A small queue at work (internal/queue).
use text.Mathlib.TextEquality.{eq_iff}
use kyvik.Base.{
  String, true, false, ◌≡◌, ◌≢◌, refl, none, some, List, [], ◌∷◌, In, find, lookup, contains, ◌⊎◌,
  inl, inr, subst, ℕ, arith,
}
use kyvik.Base.Int.{pos}
use kyvik.Queue.State.{QueueMessage, Queue, new_postgres_queue, row_of, is_in_flight}
use kyvik.Queue.Deliver.{enqueue, replay_agent}
use kyvik.Queue.Kill.{kill_restart-channels}
use kyvik.Queue.Settle.{fail, reset_agent_processing}
use kyvik.Queue.Requests.{
  Request, to_mark, to_fail, to_reset, to_clean, to_replay, to_stop, to_dequeue, serve_all,
}
use kyvik.Queue.Bounds.{IsSound}
use kyvik.Queue.Table.{Awaits}
use kyvik.Queue.Durable.{enqueued_survives}
use kyvik.Queue.Retry.{failed_row, fail_lem, fail_all, fail_all_tries, Tried}

abbrev hello : QueueMessage
hello = record {
  id = 0;
  agent_id = "a";
  channel = "web";
  conversation_id = "";
  sender = "user";
  content = "hello";
  attachments = "";
  message_type = "";
  priority = pos 0;
  status = "";
  attempts = 0;
  max_attempts = pos 2;
  target_node_id = "";
  created_at = none;
  started_at = none;
  completed_at = none;
}

empty_queue : Queue
empty_queue = new_postgres_queue [] 1 "n" none

empty-IsSound : IsSound empty_queue
unfolding empty_queue new_postgres_queue lookup
empty-IsSound = record { bounded = λ k b e. cc; given = λ r i. absurd i }

abbrev kill_and_clean : List Request
kill_and_clean =
    to_dequeue "a"
    ∷ to_mark 1 5
    ∷ to_fail 1 6
    ∷ to_reset "a"
    ∷ to_stop
    ∷ to_replay 900
    ∷ to_clean 999999 (pos 24)
    ∷ []

abbrev same_text : String → String
same_text s = s

enqueued_survives_example :
    ((r : QueueMessage) → In r empty_queue.rows → r.id ≢ (enqueue empty_queue hello 3).1)
    × Awaits
        (enqueue empty_queue hello 3).1
        (serve_all same_text (enqueue empty_queue hello 3).0 kill_and_clean)
enqueued_survives_example =
    enqueued_survives same_text empty_queue hello 3 kill_and_clean empty-IsSound
      (λ e. ground (arith, eq_iff "" "completed", e)) (tt, (tt, (tt, (tt, (tt, (tt, (tt, tt)))))))

abbrev holding : Queue
holding = new_postgres_queue (record hello { id = 7 } ∷ []) 8 "n" none

fail_lem_example :
    ((row_of holding 7 ≡ none) × (fail holding 7 9 ≡ (holding, false)))
    ⊎ ((r : QueueMessage) × (row_of holding 7 ≡ some r)
        × ((fail holding 7 9).1 ≡ true)
        × (row_of (fail holding 7 9).0 7 ≡ some (failed_row 9 r.attempts r.max_attempts r))
        × (◌≢◌ {A = ℕ} 7 8 → row_of (fail holding 7 9).0 8 ≡ row_of holding 8))
fail_lem_example = fail_lem holding 7 8 9

fail_all_tries_example :
    (r : QueueMessage) × (row_of (fail_all holding 7 (9 ∷ 10 ∷ [])) 7 ≡ some r)
    × Tried (record hello { id = 7 }) 2 r
unfolding row_of find new_postgres_queue
fail_all_tries_example = fail_all_tries holding 7 9 (10 ∷ []) (record hello { id = 7 }) refl

abbrev sent : Queue
sent =
    record (new_postgres_queue (record hello { id = 7; status = "processing" } ∷ []) 8 "n" none) {
      channels = ("a", []) ∷ [];
      in_flight = 7 ∷ [];
    }

-- The message is pending again, and the channel of its agent is empty.
kill_restart-channels_example :
    (replay_agent (reset_agent_processing sent "a").0 "a").channels ≡ ("a", []) ∷ []
unfolding is_in_flight contains new_postgres_queue
kill_restart-channels_example = kill_restart-channels sent "a" flying
  where
    flying :
        (r : QueueMessage)
        → In r sent.rows
        → ◌≡◌ {A = String} r.agent_id "a"
        → (r.status ≡ "pending") ⊎ (r.status ≡ "processing")
        → is_in_flight sent r.id ≡ true
    flying r (inl e) a s = subst (λ x. is_in_flight sent x.id ≡ true) e refl
    flying r (inr e) a s = absurd e
