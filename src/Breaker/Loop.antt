-- ===== src/Breaker/Loop.antt =====
-- What the loop check remembers and when it trips (internal/circuitbreaker/breaker.go).
use kyvik.Base.{
  ℕ, zero, suc, ◌+◌, ◌-◌, ◌≤◌, ◌<◌, String, true, false, ◌&&◌, Option, none, some, List, [], ◌∷◌,
  ◌++◌, ◌≡◌, ◌↔◌, inl, inr, refl, sym, ap, ◌∙◌, ◌≢◌, ◌==◌, ==_iff, string_eq, length, length-append,
  length-drop, drop, all, all_iff, In, leb, ltb, if◌then◌else◌, Bool-cases, arith,
}
use kyvik.Base.Int.{pos}
use kyvik.Breaker.State.{
  Float, Trip, Breaker, Trigger, trip, active, judge_loop, check_loop, record_message,
}

-- The last `n` of a history; all of a shorter one.
unfoldable pub last : ℕ → List String → List String
last n hashes = drop (length hashes - n) hashes

drop-append : (k : ℕ) (xs ys : List String) → k ≤ length xs → drop k (xs ++ ys) ≡ drop k xs ++ ys
drop-append zero xs ys h = refl
drop-append (suc k) [] ys h = absurd (omega (arith, h))
drop-append (suc k) (x ∷ xs) ys h = drop-append k xs ys (omega (arith, h))

drop-drop : (j k m : ℕ) (xs : List String) → m ≡ k + j → drop j (drop k xs) ≡ drop m xs
drop-drop j zero m xs e = ap (λ i. drop i xs) (omega (arith, e))
drop-drop zero (suc k) zero [] e = refl
drop-drop zero (suc k) (suc m) [] e = refl
drop-drop (suc j) (suc k) zero [] e = refl
drop-drop (suc j) (suc k) (suc m) [] e = refl
drop-drop j (suc k) zero (x ∷ xs) e = absurd (omega (arith, e))
drop-drop j (suc k) (suc m) (x ∷ xs) e = drop-drop j k m xs (omega (arith, e))

-- Keeping the last n at each step keeps the last n of the whole history.
last_of_last :
    (n : ℕ) (seen : List String) (h : String)
    → last n (last n seen ++ h ∷ []) ≡ last n (seen ++ h ∷ [])
unfolding last
last_of_last n seen h =
    let k = length seen - n in
    rw (sym (drop-append k seen (h ∷ []) (omega arith))) (
      drop-drop _ k _ (seen ++ h ∷ [])
        (rw (length-drop k (seen ++ h ∷ [])) (omega (arith, length-append seen (h ∷ [])))))

abbrev pub AllSame : List String → Type 0
AllSame hashes = (x y : String) → In x hashes → In y hashes → x ≡ y

AllSame-iff :
    (first : String) (rest : List String)
    → (all (λ h. h == first) rest ≡ true) ↔ AllSame (first ∷ rest)
AllSame-iff first rest = (
  (λ a.
      let each : (x : String) → In x (first ∷ rest) → x ≡ first = λ x i. elim i [
        | inl e ↦ sym e
        | inr j ↦ (==_iff x first).0 ((all_iff (λ h. h == first) rest).0 a x j)
      ] in
      λ x y i j. each x i ∙ sym (each y j)),
  (λ s.
      (all_iff (λ h. h == first) rest).1
        (λ x i. (==_iff x first).1 (s x first (inr i) (inl refl)))),
)

-- The result of one check: what is kept, and when it trips.
abbrev pub Checked : Float → Type 0
Checked F = Breaker F × Option (Trip F)

kept-last :
    (n : ℕ) (hashes : List String)
    → (if ltb n (length hashes) then drop (length hashes - n) hashes else hashes) ≡ last n hashes
unfolding last
kept-last n hashes = elim (Bool-cases (ltb n (length hashes))) [
  | inl e ↦ rw e refl
  | inr e ↦ rw (e, fits (ground (arith, e))) refl
]
  where
    fits : length hashes ≤ n → length hashes - n ≡ 0
    fits h = omega (arith, h)

module _ (F : Float) where
  -- What is kept is remembered, and the breaker trips exactly if there are n and they are the same.
  abbrev pub LoopChecked : ℕ → List String → Checked F → Type 0
  LoopChecked n kept (b, why) =
      (b.message_hashes ≡ kept)
      × ((b.tripped ≡ true) ↔ ((n ≤ length kept) × AllSame kept))
      × ((b.tripped ≡ true) ↔ (why ≢ none))

  judge_loop-LoopChecked :
      (b : Breaker F) (n : ℕ) (kept : List String) (at : ℕ)
      → 0 < n
      → b.tripped ≡ false
      → (r : Checked F) × (judge_loop F b n kept at ≡ some r) × LoopChecked n kept r
  unfolding judge_loop trip
  judge_loop-LoopChecked b n [] at p u = (
    (record b { message_hashes = [] }, none),
    ground (arith, p),
    (refl, ground (arith, u, p), ground (arith, u)),
  )
  judge_loop-LoopChecked b n (first ∷ rest) at p u =
      elim (Bool-cases (leb n (length (first ∷ rest)) && all (λ h. h == first) rest)) [
        | inl e ↦ (
          trip F (record b { message_hashes = first ∷ rest }) (Trigger.loop_detection n) at,
          rw e refl,
          (
            refl,
            (
              (λ t. (ground (arith, e), (AllSame-iff first rest).0 (ground (arith, e)))),
              (λ t. refl),
            ),
            ((λ t z. cc), (λ t. refl)),
          ),
        )
        | inr e ↦ (
          (record b { message_hashes = first ∷ rest }, none),
          rw e refl,
          (
            refl,
            (
              (λ t. absurd (ground (arith, t, u))),
              (λ (l, s). absurd (ground (arith, e, l, (AllSame-iff first rest).1 s))),
            ),
            ((λ t. absurd (ground (arith, t, u))), (λ t. absurd (t refl))),
          ),
        )
      ]

  -- An active breaker whose loop count is n > 0, and that remembers the last n of the responses seen so
  -- far, takes the next response without running out of range. It then remembers the last n of all of
  -- them, and it trips, with a result, exactly if these are n and all the same.
  pub record_message-last :
      (b : Breaker F) (n : ℕ) (seen : List String) (h : String) (at : ℕ)
      → active F b ≡ true
      → b.config.loop_identical_count ≡ pos n
      → 0 < n
      → b.message_hashes ≡ last n seen
      → (r : Checked F) × (record_message F b h at ≡ some r)
        × LoopChecked n (last n (seen ++ h ∷ [])) r
  unfolding active record_message check_loop
  record_message-last b n seen h at a c p m =
      let (r, e, l) =
        judge_loop-LoopChecked b n (last n (seen ++ h ∷ [])) at p (ground (arith, a)) in
      let kept =
        kept-last n (b.message_hashes ++ h ∷ [])
        ∙ ap (λ x. last n (x ++ h ∷ [])) m
        ∙ last_of_last n seen h in
      let checked : check_loop F b n (b.message_hashes ++ h ∷ []) at ≡ some r = rw kept e in
      (r, ground (arith, a, c, checked), l)
