-- ===== src/Queue/Retry.antt =====
-- How often a message is tried, and what a replay delivers again (internal/queue/postgres_queue.go).
use kyvik.Base.{
  ℕ, ◌+◌, true, false, Option, none, some, List, [], ◌∷◌, ◌≡◌, ◌≢◌, ◌⊎◌, inl, inr, refl, ap, ◌∙◌,
  map, ◌==◌, ==_iff, ==_refl, ==_false, string_eq, nat_eq, length, find, if◌then◌else◌, Bool-cases,
  Option-cases, arith,
}
use kyvik.Base.Int.{ℤ, pos, leb_ℤ}
use kyvik.Queue.State.{QueueMessage, Queue, clear_in_flight, update_where, row_of}
use kyvik.Queue.Settle.{has_id, fail}
use kyvik.Queue.Bounds.{repush-InMemory}

find_updated :
    (id k : ℕ) (change : QueueMessage → QueueMessage) (rows : List QueueMessage)
    → ((r : QueueMessage) → (change r).id ≡ r.id)
    → find (has_id k) (map (λ r. if has_id id r then change r else r) rows)
      ≡ elim (find (has_id k) rows) [
        | none ↦ none
        | some r ↦ some (if id == k then change r else r)
      ]
unfolding find
find_updated id k change [] same = refl
find_updated id k change (r ∷ rows) same = elim (Bool-cases (r.id == k)) [
  | inl e ↦ elim (Bool-cases (r.id == id)) [
    | inl f ↦
        ground
          (arith, e, f, same r, ==_iff r.id id, ==_iff r.id k, ==_iff id k, ==_iff (change r).id k)
    | inr f ↦ ground (arith, e, f, same r, ==_iff r.id id, ==_iff r.id k, ==_iff id k)
  ]
  | inr e ↦ elim (Bool-cases (r.id == id)) [
    | inl f ↦ ground (
      arith,
      e,
      f,
      same r,
      ==_iff r.id id,
      ==_iff r.id k,
      ==_iff (change r).id k,
      find_updated id k change rows same,
    )
    | inr f ↦ ground (arith, e, f, find_updated id k change rows same)
  ]
]

-- What one failure of a message that was tried `tries` times, of at most `limit`, makes of its row.
unfoldable pub failed_row : ℕ → ℕ → ℤ → QueueMessage → QueueMessage
failed_row now tries limit r =
    if leb_ℤ limit (pos (tries + 1))
    then record r { status = "failed"; attempts = tries + 1; completed_at = some now }
    else record r { status = "pending"; attempts = tries + 1; started_at = none }

failed_row-id :
    (now tries : ℕ) (limit : ℤ) (r : QueueMessage) → (failed_row now tries limit r).id ≡ r.id
unfolding failed_row
failed_row-id now tries limit r = ground arith

fail-rows :
    (q : Queue) (id now : ℕ) (r : QueueMessage)
    → row_of q id ≡ some r
    → ((fail q id now).1 ≡ true)
      × ((fail q id now).0.rows
          ≡ map (λ x. if has_id id x then failed_row now r.attempts r.max_attempts x else x) q.rows)
unfolding fail failed_row update_where clear_in_flight
fail-rows q id now r e = elim (Bool-cases (leb_ℤ r.max_attempts (pos (r.attempts + 1)))) [
  | inl l ↦ (ground (arith, e, l), rw (e, l, fail) refl)
  | inr l ↦ (ground (arith, e, l), rw (e, l, fail) (repush-InMemory _ id).rows)
]

-- A failure of a stored message counts one attempt more. The message is given up if that reaches its
-- limit and waits again otherwise, and every other message stays as it was; for an unknown message
-- nothing changes.
pub fail_lem :
    (q : Queue) (id k now : ℕ)
    → ((row_of q id ≡ none) × (fail q id now ≡ (q, false)))
      ⊎ ((r : QueueMessage) × (row_of q id ≡ some r)
          × ((fail q id now).1 ≡ true)
          × (row_of (fail q id now).0 id ≡ some (failed_row now r.attempts r.max_attempts r))
          × (id ≢ k → row_of (fail q id now).0 k ≡ row_of q k))
unfolding row_of fail
fail_lem q id k now = elim (Option-cases (row_of q id)) [
  | inl e ↦ inl (e, rw (e, fail) refl)
  | inr (r, e) ↦
      let (ok, rows) = fail-rows q id now r e in
      let each = λ (j : ℕ).
        find_updated id j (failed_row now r.attempts r.max_attempts) q.rows (same_id r) in
      inr (
        r,
        e,
        ok,
        ap (find (has_id id)) rows ∙ each id ∙ rw (e, ==_refl id) refl,
        λ n. ap (find (has_id k)) rows ∙ each k ∙ unchanged r n (find (has_id k) q.rows),
      )
]
  where
    same_id : (r x : QueueMessage) → (failed_row now r.attempts r.max_attempts x).id ≡ x.id
    same_id r x = failed_row-id now r.attempts r.max_attempts x

    unchanged :
        (r : QueueMessage)
        → id ≢ k
        → (o : Option QueueMessage)
        → elim o [
          | none ↦ none
          | some x ↦ some (if id == k then failed_row now r.attempts r.max_attempts x else x)
        ]
          ≡ o
    unchanged r n none = refl
    unchanged r n (some x) = rw (==_false id k n) refl

-- A list of failures, each at its time.
pub fail_all : Queue → ℕ → List ℕ → Queue
fail_all q id [] = q
fail_all q id (now ∷ times) = fail_all (fail q id now).0 id times

-- The row after one failure or more.
abbrev pub Tried : QueueMessage → ℕ → QueueMessage → Type 0
Tried r n r' =
    (r'.attempts ≡ r.attempts + n)
    × (r'.max_attempts ≡ r.max_attempts)
    × (r'.status ≡ (if leb_ℤ r.max_attempts (pos (r.attempts + n)) then "failed" else "pending"))

failed_row-Tried :
    (now : ℕ) (r : QueueMessage) → Tried r 1 (failed_row now r.attempts r.max_attempts r)
unfolding failed_row
failed_row-Tried now r = (ground arith, ground arith, ground arith)

row_after :
    (q : Queue) (id now : ℕ) (r : QueueMessage)
    → row_of q id ≡ some r
    → row_of (fail q id now).0 id ≡ some (failed_row now r.attempts r.max_attempts r)
row_after q id now r e = elim (fail_lem q id id now) [
  | inl (f, z) ↦ absurd (ground (arith, e, f))
  | inr (r', f, ok, g, z) ↦ ground (arith, e, f, g)
]

-- A stored message that fails n > 0 times, whatever the times, has n attempts more, and it has been given
-- up exactly if its attempts reach its limit: not before, and at the latest then.
pub fail_all_tries :
    (q : Queue) (id now : ℕ) (times : List ℕ) (r : QueueMessage)
    → row_of q id ≡ some r
    → (r' : QueueMessage) × (row_of (fail_all q id (now ∷ times)) id ≡ some r')
      × Tried r (length (now ∷ times)) r'
unfolding fail_all
fail_all_tries q id now [] r e =
    (failed_row now r.attempts r.max_attempts r, row_after q id now r e, failed_row-Tried now r)
fail_all_tries q id now (t ∷ times) r e =
    let first = failed_row now r.attempts r.max_attempts r in
    let (a, m, s) = failed_row-Tried now r in
    let (r', g, (a', m', s')) =
      fail_all_tries (fail q id now).0 id t times first (row_after q id now r e) in
    let more : first.attempts + length (t ∷ times) ≡ r.attempts + length (now ∷ t ∷ times) =
      omega (arith, a) in
    (
      r',
      g,
      (
        omega (arith, a, a'),
        m' ∙ m,
        s'
            ∙ ap
                (λ l.
                  if leb_ℤ l (pos (first.attempts + length (t ∷ times)))
                  then "failed"
                  else "pending")
                m
            ∙ ap (λ k. if leb_ℤ r.max_attempts (pos k) then "failed" else "pending") more,
      ),
    )
