-- ===== src/Queue/Kill.antt =====
-- What an agent gets again after it was killed (internal/queue/postgres_queue.go).
use kyvik.Base.{
  ℕ, ◌+◌, String, Bool, true, false, ◌&&◌, none, List, [], ◌∷◌, ◌≡◌, ◌⊎◌, inl, inr, refl, ap, ◌∙◌,
  subst, ◌==◌, ==_iff, string_eq, nat_eq, length, keep, lookup, if◌then◌else◌, In, In-map_inv,
  In-keep, Bool-cases, Option-cases, arith,
}
use kyvik.Queue.State.{
  QueueMessage, Metrics, Queue, add_metric, is_in_flight, update_where, routed_here,
}
use kyvik.Queue.Deliver.{place, before, in_order, replay_agent_rows, replay_agent}
use kyvik.Queue.Settle.{is_processing_of, reset_agent_processing}

In-place : (r m : QueueMessage) (ms : List QueueMessage) → In r (place m ms) → (m ≡ r) ⊎ In r ms
unfolding place
In-place r m [] i = i
In-place r m (x ∷ ms) i = split (before m x) (In-place r m ms) i
  where
    split :
        (b : Bool)
        → (In r (place m ms) → (m ≡ r) ⊎ In r ms)
        → In r (if b then m ∷ x ∷ ms else x ∷ place m ms)
        → (m ≡ r) ⊎ In r (x ∷ ms)
    split true rest j = j
    split false rest (inl p) = inr (inl p)
    split false rest (inr j) = elim (rest j) [ inl p ↦ inl p | inr k ↦ inr (inr k) ]

In-in_order : (r : QueueMessage) (ms : List QueueMessage) → In r (in_order ms) → In r ms
unfolding in_order
In-in_order r [] i = i
In-in_order r (m ∷ ms) i = elim (In-place r m (in_order ms) i) [
  | inl e ↦ inl e
  | inr j ↦ inr (In-in_order r ms j)
]

-- Rows in flight are skipped.
skipped :
    (q : Queue) (agent : String) (ms : List QueueMessage) (flying full : ℕ)
    → ((m : QueueMessage) → In m ms → is_in_flight q m.id ≡ true)
    → (replay_agent_rows q agent ms flying full).0 ≡ q
unfolding replay_agent_rows
skipped q agent [] flying full h = refl
skipped q agent (m ∷ ms) flying full h =
    rw (h m (inl refl), replay_agent_rows)
      (skipped q agent ms (flying + 1) full (λ x i. h x (inr i)))

add_metric-channels :
    (q : Queue) (agent : String) (f : Metrics → Metrics)
    → (add_metric q agent f).channels ≡ q.channels
unfolding add_metric
add_metric-channels q agent f = elim (Bool-cases (agent == "")) [
  | inl e ↦ rw e refl
  | inr e ↦ rw e refl
]

pending_of : Queue → String → List QueueMessage
pending_of q agent =
    keep (λ r. r.status == "pending" && r.agent_id == agent && routed_here q r) q.rows

replay_agent-channels :
    (q : Queue) (agent : String)
    → ((m : QueueMessage) → In m (pending_of q agent) → is_in_flight q m.id ≡ true)
    → (replay_agent q agent).channels ≡ q.channels
unfolding replay_agent pending_of
replay_agent-channels q agent h = elim (Option-cases (lookup agent q.channels)) [
  | inl e ↦ rw (e, replay_agent) refl
  | inr (b, e) ↦ rw (e, replay_agent) (unless_empty (length (pending_of q agent) == 0) _)
]
  where
    skips : (replay_agent_rows q agent (in_order (pending_of q agent)) 0 0).0 ≡ q
    skips =
        skipped q agent (in_order (pending_of q agent)) 0 0
          (λ m i. h m (In-in_order m (pending_of q agent) i))

    unless_empty :
        (b : Bool) (f : Metrics → Metrics)
        → (if b
            then q
            else add_metric
                (replay_agent_rows q agent (in_order (pending_of q agent)) 0 0).0
                agent
                f).channels
          ≡ q.channels
    unless_empty true f = refl
    unless_empty false f = add_metric-channels _ agent f ∙ ap (λ x. x.channels) skips

-- If the messages of an agent that are pending or in process are all in flight, then a kill, which puts
-- those in process back to pending, and a restart of the agent put none of them in its channel: what was
-- delivered once is not delivered again while it is in flight.
pub kill_restart-channels :
    (q : Queue) (agent : String)
    → ((r : QueueMessage)
        → In r q.rows
        → r.agent_id ≡ agent
        → (r.status ≡ "pending") ⊎ (r.status ≡ "processing")
        → is_in_flight q r.id ≡ true)
    → (replay_agent (reset_agent_processing q agent).0 agent).channels ≡ q.channels
unfolding reset_agent_processing update_where pending_of is_processing_of is_in_flight
kill_restart-channels q agent h =
    replay_agent-channels (reset_agent_processing q agent).0 agent in_flight
  where
    reset : QueueMessage → QueueMessage
    reset r =
        if is_processing_of agent r
        then record r { status = "pending"; attempts = r.attempts + 1; started_at = none }
        else r

    same_id : (r m : QueueMessage) → reset r ≡ m → r.id ≡ m.id
    same_id r m e = elim (Bool-cases (is_processing_of agent r)) [
      | inl w ↦ ground (arith, w, ap (λ x. x.id) e)
      | inr w ↦ ground (arith, w, ap (λ x. x.id) e)
    ]

    flying :
        (r m : QueueMessage)
        → In r q.rows
        → reset r ≡ m
        → (m.status == "pending"
            && m.agent_id == agent
            && routed_here (reset_agent_processing q agent).0 m)
          ≡ true
        → is_in_flight q r.id ≡ true
    flying r m k e p = elim (Bool-cases (is_processing_of agent r)) [
      | inl w ↦
          h r k (ground (arith, w, ==_iff r.agent_id agent))
            (inr (ground (arith, w, ==_iff r.status "processing")))
      | inr w ↦
          h r k (ground (arith, w, p, ==_iff m.agent_id agent, ap (λ x. x.agent_id) e))
            (inl (ground (arith, w, p, ==_iff m.status "pending", ap (λ x. x.status) e)))
    ]

    in_flight :
        (m : QueueMessage)
        → In m (pending_of (reset_agent_processing q agent).0 agent)
        → is_in_flight (reset_agent_processing q agent).0 m.id ≡ true
    in_flight m i =
        let (j, p) = (In-keep _ m (reset_agent_processing q agent).0.rows).0 i in
        let (r, k, e) = In-map_inv _ m q.rows j in
        subst (λ x. is_in_flight q x ≡ true) (same_id r m e) (flying r m k e p)
