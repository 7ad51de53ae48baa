-- ===== src/Context/Answers.antt =====
-- Whether the calls of a message are answered, by the counts of ids (internal/ctxbudget/assembler.go,
-- `sanitizeToolMessages`).
use kyvik.Base.{
  true, false, List, [], ◌∷◌, ◌≡◌, map, refl, ==_iff, nat_eq, list_eq, contains, contains-add,
  add-Distinct, Distinct, Within, Within-full, length-Within-le, Bytes, length, if◌then◌else◌, ◌∙◌,
  arith,
}
use kyvik.Context.Message.{ChatMessage, ToolUse, expected_ids, found_ids, complete}

-- The ids that a run of tool messages answers, and those that an assistant's message asks for.
abbrev pub answered : List ChatMessage → List Bytes
answered run = map (λ (m : ChatMessage). m.tool_call_id) run

abbrev pub asked : ChatMessage → List Bytes
asked m = map (λ (c : ToolUse). c.id) m.tool_calls

-- The sets of expected and of found ids.
contains-expected_ids :
    (id : Bytes) (calls : List ToolUse)
    → contains (expected_ids calls) id ≡ contains (map (λ (c : ToolUse). c.id) calls) id
unfolding expected_ids contains
contains-expected_ids id [] = refl
contains-expected_ids id (c ∷ calls) =
    ground (arith, contains-add c.id id (expected_ids calls), contains-expected_ids id calls)

expected_ids-Distinct : (calls : List ToolUse) → Distinct (expected_ids calls)
unfolding expected_ids
expected_ids-Distinct [] = tt
expected_ids-Distinct (c ∷ calls) = add-Distinct c.id _ (expected_ids-Distinct calls)

found_ids-Distinct : (ids : List Bytes) (run : List ChatMessage) → Distinct (found_ids ids run)
unfolding found_ids
found_ids-Distinct ids [] = tt
found_ids-Distinct ids (m ∷ run) =
    ground (arith, found_ids-Distinct ids run, add-Distinct m.tool_call_id (found_ids ids run))

-- An id is found exactly if it is expected and answered.
contains-found_ids :
    (id : Bytes) (ids : List Bytes) (run : List ChatMessage)
    → contains (found_ids ids run) id
      ≡ (if contains ids id then contains (answered run) id else false)
unfolding found_ids contains
contains-found_ids id ids [] = ground arith
contains-found_ids id ids (m ∷ run) = ground (
  arith,
  contains-add m.tool_call_id id (found_ids ids run),
  contains-found_ids id ids run,
  ==_iff {A = Bytes} m.tool_call_id id,
)

-- The counts are equal exactly if every call is answered.
pub complete-Within :
    (m : ChatMessage) (run : List ChatMessage)
    → complete m run ≡ true
    → Within (asked m) (answered run)
unfolding complete
complete-Within m run h id k =
    let ids = expected_ids m.tool_calls in
    let full =
      Within-full (found_ids ids run) ids (found_ids-Distinct ids run)
        (λ a t. ground (arith, contains-found_ids a ids run, t))
        ((==_iff (length (found_ids ids run)) (length ids)).0 h) in
    ground
      (arith, full id (contains-expected_ids id m.tool_calls ∙ k), contains-found_ids id ids run)

pub Within-complete :
    (m : ChatMessage) (run : List ChatMessage)
    → Within (asked m) (answered run)
    → complete m run ≡ true
unfolding complete
Within-complete m run w =
    let ids = expected_ids m.tool_calls in
    let le =
      length-Within-le (found_ids ids run) ids (found_ids-Distinct ids run)
        (λ a t. ground (arith, contains-found_ids a ids run, t)) in
    let ge = length-Within-le ids (found_ids ids run) (expected_ids-Distinct m.tool_calls) (λ a t.
      ground (arith, contains-found_ids a ids run, w a, contains-expected_ids a m.tool_calls, t)) in
    ground (arith, le, ge)
