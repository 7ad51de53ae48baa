-- ===== src/Queue/Durable.antt =====
-- No message is lost (internal/queue/postgres_queue.go).
use kyvik.Base.{
  ℕ, String, Bool, none, some, List, [], ◌∷◌, ◌++◌, ◌≡◌, ◌≢◌, inl, inr, refl, sym, subst, ◌==◌,
  ==_iff, string_eq, nat_eq, lookup, All, In, In-append_right, In-keep, Bool-cases, Option-cases,
  arith,
}
use kyvik.Queue.State.{QueueMessage, Queue, delete_where}
use kyvik.Queue.Deliver.{prepare, enqueue, dequeue, receive}
use kyvik.Queue.Settle.{
  has_id, mark_processing, reset_agent_processing, is_processing_of, is_expired, cleanup,
  delete_message, stop,
}
use kyvik.Queue.Requests.{
  Request, to_enqueue, to_dequeue, to_receive, to_mark, to_complete, to_fail, to_reset, to_replay,
  to_replay_agent, to_clean, to_retry, to_delete, to_delete_all, to_stop, serve, serve_all,
}
use kyvik.Queue.Bounds.{IsSound, InMemory, stay, insert-Bounded, replay_agent-InMemory}
use kyvik.Queue.Table.{
  Awaits, IsKept, IsKept-both, InMemory-IsKept, clear_in_flight-InMemory, update_where-IsKept,
  delete_where-IsKept, pending_alive, processing_alive, enqueue-InMemory, enqueue-IsKept,
  replay-IsKept, complete-IsKept, fail-IsKept, retry-IsKept,
}

dequeue-InMemory : (q : Queue) (agent : String) → InMemory q (dequeue q agent)
unfolding dequeue
dequeue-InMemory q agent = elim (Option-cases (lookup agent q.channels)) [
  | inl e ↦
      rw (e, dequeue)
        (record {
          rows = refl;
          next_id = refl;
          bounded = insert-Bounded agent [] q.channels (omega arith);
        })
  | inr (b, e) ↦ rw (e, dequeue) (stay q)
]

abbrev received : Queue → String → Queue
received q agent = elim (receive q agent) [ none ↦ q | some (q', _) ↦ q' ]

receive-InMemory : (q : Queue) (agent : String) → InMemory q (received q agent)
unfolding receive
receive-InMemory q agent = elim (Option-cases (lookup agent q.channels)) [
  | inl e ↦ rw (e, received, receive) (stay q)
  | inr ([], e) ↦ rw (e, received, receive) (stay q)
  | inr (m ∷ rest, e) ↦
      rw (e, received, receive)
        (record {
          rows = refl;
          next_id = refl;
          bounded =
              λ h. insert-Bounded agent rest q.channels (omega (arith, h agent (m ∷ rest) e)) h;
        })
]

stop-InMemory : (q : Queue) → InMemory q (stop q)
unfolding stop lookup
stop-InMemory q = record { rows = refl; next_id = refl; bounded = λ h k b e. cc }

delete_where-IsSound :
    (where' : QueueMessage → Bool) (q : Queue) → IsSound q → IsSound (delete_where where' q)
unfolding delete_where
delete_where-IsSound where' q h = record {
  bounded = h.bounded;
  given = λ r i. h.given r ((In-keep _ r q.rows).0 i).0;
}

-- The request neither completes nor deletes this message.
abbrev pub Spares : ℕ → Request → Type 0
Spares id (to_complete other now) = other ≢ id
Spares id (to_delete other) = other ≢ id
Spares id (to_delete_all agent status) = ⊥
Spares id r = Unit

serve-IsKept :
    (trim : String → String) (id : ℕ) (q : Queue) (r : Request)
    → Spares id r
    → IsKept id q (serve trim q r)
unfolding serve mark_processing reset_agent_processing cleanup is_expired delete_message stop
serve-IsKept trim id q (to_enqueue msg now) s = enqueue-IsKept id q msg now
serve-IsKept trim id q (to_dequeue agent) s = InMemory-IsKept id _ _ (dequeue-InMemory q agent)
serve-IsKept trim id q (to_receive agent) s = InMemory-IsKept id _ _ (receive-InMemory q agent)
serve-IsKept trim id q (to_mark other now) s =
    update_where-IsKept id (has_id other) _ q (λ r. refl) (λ r w e. processing_alive)
serve-IsKept trim id q (to_complete other now) s = complete-IsKept id other q now s
serve-IsKept trim id q (to_fail other now) s = fail-IsKept id other q now
serve-IsKept trim id q (to_reset agent) s =
    update_where-IsKept id (is_processing_of agent) _ q (λ r. refl) (λ r w e. pending_alive)
serve-IsKept trim id q (to_replay now) s = replay-IsKept id q now
serve-IsKept trim id q (to_replay_agent agent) s =
    InMemory-IsKept id _ _ (replay_agent-InMemory q agent)
serve-IsKept trim id q (to_clean now hours) s =
    delete_where-IsKept id (is_expired now hours) q
      (λ r w e. ground (arith, w, ==_iff r.status "completed"))
serve-IsKept trim id q (to_retry other) s = retry-IsKept id other q
serve-IsKept trim id q (to_delete other) s =
    IsKept-both id q (delete_where (has_id other) q) _
      (delete_where-IsKept id (has_id other) q
        (λ r w e. absurd (s (ground (arith, e, (==_iff r.id other).0 w)))))
      (InMemory-IsKept id _ _ (clear_in_flight-InMemory _ other))
serve-IsKept trim id q (to_delete_all agent status) s = absurd s
serve-IsKept trim id q to_stop s = InMemory-IsKept id _ _ (stop-InMemory q)

serve_all-Awaits :
    (trim : String → String) (id : ℕ) (q : Queue) (rs : List Request)
    → All (Spares id) rs
    → Awaits id q
    → Awaits id (serve_all trim q rs)
unfolding serve_all
serve_all-Awaits trim id q [] s w = w
serve_all-Awaits trim id q (r ∷ rs) s w =
    serve_all-Awaits trim id (serve trim q r) rs s.1 ((serve-IsKept trim id q r s.0).waiting w)

enqueue_id : (q : Queue) (msg : QueueMessage) (now : ℕ) → (enqueue q msg now).1 ≡ q.next_id
unfolding enqueue
enqueue_id q msg now = ground arith

enqueue-rows :
    (q : Queue) (msg : QueueMessage) (now : ℕ)
    → (enqueue q msg now).0.rows ≡ q.rows ++ prepare msg now q.next_id ∷ []
enqueue-rows q msg now = (enqueue-InMemory q msg now).rows

enqueue-Awaits :
    (q : Queue) (msg : QueueMessage) (now : ℕ)
    → msg.status ≢ "completed"
    → Awaits (enqueue q msg now).1 (enqueue q msg now).0
unfolding prepare
enqueue-Awaits q msg now n = (
  prepare msg now q.next_id,
  subst (In (prepare msg now q.next_id)) (sym (enqueue-rows q msg now))
      (In-append_right _ q.rows _ (inl refl)),
  sym (enqueue_id q msg now),
  elim (Bool-cases (msg.status == "")) [ inl e ↦ rw e pending_alive | inr e ↦ rw e n ],
)

-- A message that is enqueued in a sound queue, other than as completed, is in the table under an id that
-- no message had, even if the queue is too deep, the message is for another node or the channel is full.
-- It then stays there, not completed, through failures, resets, replays, clean-ups and stops, as long as
-- no request completes it, deletes it or deletes the messages of an agent.
pub enqueued_survives :
    (trim : String → String) (q : Queue) (msg : QueueMessage) (now : ℕ) (rs : List Request)
    → IsSound q
    → msg.status ≢ "completed"
    → All (Spares (enqueue q msg now).1) rs
    → ((r : QueueMessage) → In r q.rows → r.id ≢ (enqueue q msg now).1)
      × Awaits (enqueue q msg now).1 (serve_all trim (enqueue q msg now).0 rs)
enqueued_survives trim q msg now rs h n s = (
  (λ r i e. omega (arith, h.given r i, e, enqueue_id q msg now)),
  serve_all-Awaits trim _ _ rs s (enqueue-Awaits q msg now n),
)
