-- ===== src/Queue/Table.antt =====
-- How each step changes the table (internal/queue/postgres_queue.go).
use kyvik.Base.{
  ℕ, ◌+◌, String, Bool, true, false, ◌&&◌, none, some, [], ◌∷◌, ◌++◌, ◌≡◌, ◌≢◌, inl, inr, refl, sym,
  ap, subst, ◌==◌, ==_iff, string_eq, nat_eq, any, keep, if◌then◌else◌, In, In-append,
  In-append_left, In-map, In-map_inv, In-keep, Bool-cases, Option-cases, arith,
}
use kyvik.Base.Int.{pos, leb_ℤ}
use kyvik.Queue.State.{
  QueueMessage, Metrics, Queue, add_metric, clear_in_flight, update_where, delete_where, row_of,
  routed_here,
}
use kyvik.Queue.Deliver.{prepare, push, enqueue, repush_message, in_order, is_stale, replay}
use kyvik.Queue.Settle.{has_id, complete, fail, retry_message}
use kyvik.Queue.Bounds.{
  IsSound, InMemory, stay, both, add_metric-InMemory, push-InMemory, repush-InMemory,
  replay_rows-InMemory,
}

-- The message is in the table, and is not completed.
abbrev pub Awaits : ℕ → Queue → Type 0
Awaits id q = (r : QueueMessage) × In r q.rows × (r.id ≡ id) × (r.status ≢ "completed")

-- A step that keeps the queue sound and this message waiting.
pub record IsKept (id : ℕ) (q q' : Queue) : Type 0 where
  pub sound : IsSound q → IsSound q'
  pub waiting : Awaits id q → Awaits id q'

pub IsKept-both : (id : ℕ) (q r s : Queue) → IsKept id q r → IsKept id r s → IsKept id q s
IsKept-both id q r s a b = record {
  sound = λ h. b.sound (a.sound h);
  waiting = λ h. b.waiting (a.waiting h);
}

pub InMemory-IsKept : (id : ℕ) (q q' : Queue) → InMemory q q' → IsKept id q q'
InMemory-IsKept id q q' m = record {
  sound = λ h. record {
    bounded = m.bounded h.bounded;
    given = λ r i. ground (arith, h.given r (subst (In r) m.rows i), m.next_id);
  };
  waiting = λ (r, i, e, n). (r, subst (In r) (sym m.rows) i, e, n);
}

pub clear_in_flight-InMemory : (q : Queue) (id : ℕ) → InMemory q (clear_in_flight q id)
unfolding clear_in_flight
clear_in_flight-InMemory q id = record { rows = refl; next_id = refl; bounded = λ b. b }

-- Rows that are rewritten keep their ids, and none of these becomes completed.
pub update_where-IsKept :
    (id : ℕ) (where' : QueueMessage → Bool) (change : QueueMessage → QueueMessage) (q : Queue)
    → ((r : QueueMessage) → (change r).id ≡ r.id)
    → ((r : QueueMessage) → where' r ≡ true → r.id ≡ id → (change r).status ≢ "completed")
    → IsKept id q (update_where where' change q)
unfolding update_where
update_where-IsKept id where' change q same alive = record {
  sound = λ h. record {
    bounded = h.bounded;
    given = λ r i.
        let (old, j, e) = In-map_inv (λ r. if where' r then change r else r) r q.rows i in
        ground (arith, h.given old j, ap (λ x. x.id) e, same old);
  };
  waiting = λ (r, i, e, n). (
    _,
    In-map (λ r. if where' r then change r else r) r q.rows i,
    ground (arith, e, same r),
    elim (Bool-cases (where' r)) [ inl w ↦ rw w (alive r w e) | inr w ↦ rw w n ],
  );
}

pub delete_where-IsKept :
    (id : ℕ) (where' : QueueMessage → Bool) (q : Queue)
    → ((r : QueueMessage) → where' r ≡ true → r.id ≡ id → r.status ≡ "completed")
    → IsKept id q (delete_where where' q)
unfolding delete_where
delete_where-IsKept id where' q only = record {
  sound =
      λ h. record { bounded = h.bounded; given = λ r i. h.given r ((In-keep _ r q.rows).0 i).0 };
  waiting = λ (r, i, e, n). (
    r,
    (In-keep _ r q.rows).1
        (i, elim (Bool-cases (where' r)) [ inl w ↦ absurd (n (only r w e)) | inr w ↦ rw w refl ]),
    e,
    n,
  );
}

pub pending_alive : ◌≢◌ {A = String} "pending" "completed"
pending_alive e = ground (arith, (==_iff {A = String} "pending" "completed").1 e)

failed_alive : ◌≢◌ {A = String} "failed" "completed"
failed_alive e = ground (arith, (==_iff {A = String} "failed" "completed").1 e)

pub processing_alive : ◌≢◌ {A = String} "processing" "completed"
processing_alive e = ground (arith, (==_iff {A = String} "processing" "completed").1 e)

abbrev pub inserted : Queue → QueueMessage → ℕ → Queue
inserted q msg now = record q {
  rows = q.rows ++ prepare msg now q.next_id ∷ [];
  next_id = q.next_id + 1;
}

-- Past the insertion, `Enqueue` only acts in memory.
pub enqueue-InMemory :
    (q : Queue) (msg : QueueMessage) (now : ℕ) → InMemory (inserted q msg now) (enqueue q msg now).0
unfolding enqueue
enqueue-InMemory q msg now = delivering _ _ _
  where
    delivering :
        (deep elsewhere : Bool) (f : Metrics → Metrics)
        → InMemory
            (inserted q msg now)
            (if◌then◌else◌ {A = Queue × ℕ} deep
              (add_metric (inserted q msg now) msg.agent_id f, q.next_id)
              (if elsewhere
                then (inserted q msg now, q.next_id)
                else (push (inserted q msg now) (prepare msg now q.next_id), q.next_id))).0
    delivering true elsewhere f = add_metric-InMemory (inserted q msg now) msg.agent_id f
    delivering false true f = stay (inserted q msg now)
    delivering false false f = push-InMemory (inserted q msg now) (prepare msg now q.next_id)

pub enqueue-IsKept :
    (id : ℕ) (q : Queue) (msg : QueueMessage) (now : ℕ) → IsKept id q (enqueue q msg now).0
unfolding prepare
enqueue-IsKept id q msg now =
    IsKept-both id q (inserted q msg now) _
      (record {
        sound = λ h. record {
          bounded = h.bounded;
          given = λ r i. elim (In-append r q.rows (prepare msg now q.next_id ∷ []) i) [
            | inl j ↦ ground (arith, h.given r j)
            | inr (inl e) ↦ ground (arith, ap (λ x. x.id) e)
            | inr (inr e) ↦ absurd e
          ];
        };
        waiting =
            λ (r, i, e, n). (r, In-append_left r q.rows (prepare msg now q.next_id ∷ []) i, e, n);
      })
      (InMemory-IsKept id (inserted q msg now) _ (enqueue-InMemory q msg now))

pub replay-IsKept : (id : ℕ) (q : Queue) (now : ℕ) → IsKept id q (replay q now)
unfolding replay
replay-IsKept id q now =
    let q' =
      update_where (is_stale q now)
        (λ r. record r { status = "pending"; attempts = r.attempts + 1; started_at = none }) q in
    IsKept-both id q q' _
      (update_where-IsKept id (is_stale q now) _ q (λ r. refl) (λ r w e. pending_alive))
      (InMemory-IsKept id q' _ (
        replay_rows-InMemory q'
          (in_order (keep (λ r. r.status == "pending" && routed_here q' r) q'.rows))))

pub complete-IsKept :
    (id other : ℕ) (q : Queue) (now : ℕ) → other ≢ id → IsKept id q (complete q other now)
unfolding complete
complete-IsKept id other q now n =
    IsKept-both id q
      (update_where (has_id other) (λ r. record r { status = "completed"; completed_at = some now })
        q)
      _
      (update_where-IsKept id (has_id other) _ q (λ r. refl)
        (λ r w e. absurd (n (ground (arith, (==_iff r.id other).0 w, e)))))
      (InMemory-IsKept id _ _ (clear_in_flight-InMemory _ other))

pub fail-IsKept : (id other : ℕ) (q : Queue) (now : ℕ) → IsKept id q (fail q other now).0
unfolding fail
fail-IsKept id other q now = elim (Option-cases (row_of q other)) [
  | inl e ↦ rw (e, fail) (InMemory-IsKept id q q (stay q))
  | inr (row, e) ↦
      rw (e, fail) (settled (row.attempts + 1) (leb_ℤ row.max_attempts (pos (row.attempts + 1))))
]
  where
    settled :
        (attempts : ℕ) (b : Bool)
        → IsKept id q
            (if◌then◌else◌ {A = Queue × Bool} b
              (
                clear_in_flight
                    (update_where
                      (has_id other)
                      (λ r. record r {
                        status = "failed";
                        attempts = attempts;
                        completed_at = some now;
                      })
                      q)
                    other,
                true,
              )
              (
                repush_message
                    (clear_in_flight
                      (update_where
                        (has_id other)
                        (λ r. record r {
                          status = "pending";
                          attempts = attempts;
                          started_at = none;
                        })
                        q)
                      other)
                    other,
                true,
              )).0
    settled attempts true =
        IsKept-both id q _ _
          (update_where-IsKept id (has_id other) _ q (λ r. refl) (λ r w e. failed_alive))
          (InMemory-IsKept id _ _ (clear_in_flight-InMemory _ other))
    settled attempts false =
        IsKept-both id q _ _
          (update_where-IsKept id (has_id other) _ q (λ r. refl) (λ r w e. pending_alive))
          (InMemory-IsKept id _ _
            (both _ _ _ (clear_in_flight-InMemory _ other) (repush-InMemory _ other)))

pub retry-IsKept : (id other : ℕ) (q : Queue) → IsKept id q (retry_message q other).0
unfolding retry_message
retry-IsKept id other q = settled (any (λ r. r.id == other && r.status == "failed") q.rows)
  where
    settled :
        (b : Bool)
        → IsKept id q
            (if◌then◌else◌ {A = Queue × Bool} b
              (
                repush_message
                    (clear_in_flight
                      (update_where
                        (λ r. r.id == other && r.status == "failed")
                        (λ r. record r {
                          status = "pending";
                          attempts = 0;
                          started_at = none;
                          completed_at = none;
                        })
                        q)
                      other)
                    other,
                true,
              )
              (clear_in_flight q other, false)).0
    settled true =
        IsKept-both id q _ _ (update_where-IsKept id _ _ q (λ r. refl) (λ r w e. pending_alive)) (
          InMemory-IsKept id _ _
            (both _ _ _ (clear_in_flight-InMemory _ other) (repush-InMemory _ other)))
    settled false = InMemory-IsKept id _ _ (clear_in_flight-InMemory q other)
