-- ===== src/Ktp/Path/Safety.antt =====
-- What `clean` makes of an absolute path (used by internal/ktp/gate.go).
use mathlib.Core.List.{reverse, reverse-reverse, reverse-cons, append_assoc, append-nil}
use mathlib.Core.Path.{ap₂}
use kyvik.Base.{
  ℕ, true, false, ◌≡◌, ◌≢◌, sym, subst, ap, ◌∙◌, In, inl, inr, refl, List, [], ◌∷◌, ◌++◌, ◌==◌,
  ==_iff, nat_eq, list_eq, Bytes, codes, has_prefix, list_beq, arith, All, All-append, All-In,
  Bool-cases,
}
use kyvik.Ktp.Path.{
  extend_first, split_path, push_component, push_all, join_reversed, is_abs, clean,
}

clean_dots : clean (codes "/data/./a/../../etc//passwd/") ≡ codes "/etc/passwd"
unfolding clean list_beq has_prefix
clean_dots = refl

clean_above : clean (codes "/../../x") ≡ codes "/x"
unfolding clean list_beq has_prefix
clean_above = refl

clean_relative : clean (codes "a/../../b") ≡ codes "../b"
unfolding clean list_beq has_prefix
clean_relative = refl

-- A component: its split is itself alone, so it holds no slash.
abbrev IsComponent : Bytes → Type 0
IsComponent w = split_path w ≡ w ∷ []

-- A component that stands for a step down.
pub record IsName (w : Bytes) : Type 0 where
  pub whole : split_path w ≡ w ∷ []
  pub not_empty : w ≢ []
  pub not_dot : w ≢ codes "."
  pub not_dots : w ≢ codes ".."

extend_first-components :
    (c : ℕ) (l : List Bytes)
    → (c == b'/') ≡ false
    → All IsComponent l
    → All IsComponent (extend_first c l)
unfolding extend_first split_path
extend_first-components c [] e h = (rw e, tt)
extend_first-components c (w ∷ ws) e h = (rw (e, h.0), h.1)

split_path-components : (s : Bytes) → All IsComponent (split_path s)
unfolding split_path
split_path-components [] = (refl, tt)
split_path-components (c ∷ s) = elim (Bool-cases (c == b'/')) [
  | inl slash ↦ rw slash (refl, split_path-components s)
  | inr other ↦ rw other (extend_first-components c (split_path s) other (split_path-components s))
]

push_component-names :
    (ks : List Bytes) (w : Bytes)
    → IsComponent w
    → All IsName ks
    → All IsName (push_component true ks w)
unfolding push_component
push_component-names [] w c h =
    ground (arith, ==_iff w [], ==_iff w (codes "."), ==_iff w (codes ".."))
push_component-names (k ∷ ks) w c h =
    ground (arith, ==_iff w [], ==_iff w (codes "."), ==_iff w (codes ".."), ==_iff k (codes ".."))

push_all-names :
    (ks ws : List Bytes) → All IsComponent ws → All IsName ks → All IsName (push_all true ks ws)
unfolding push_all
push_all-names ks [] c h = h
push_all-names ks (w ∷ ws) c h =
    push_all-names (push_component true ks w) ws c.1 (push_component-names ks w c.0 h)

split_path-ne_nil : (s : Bytes) → split_path s ≢ []
unfolding split_path extend_first
split_path-ne_nil [] = λ e. cc
split_path-ne_nil (c ∷ s) = ground arith

extend_first-append :
    (c : ℕ) (l r : List Bytes) → l ≢ [] → extend_first c (l ++ r) ≡ extend_first c l ++ r
unfolding extend_first
extend_first-append c [] r h = absurd (h refl)
extend_first-append c (w ∷ ws) r h = refl

All-whole : (ks : List Bytes) → All IsName ks → All IsComponent ks
All-whole [] h = tt
All-whole (k ∷ ks) h = (h.0.whole, All-whole ks h.1)

-- Splitting what was joined by a slash.
split_path-slash : (a w : Bytes) → split_path (a ++ codes "/" ++ w) ≡ split_path a ++ split_path w
unfolding split_path
split_path-slash [] w = refl
split_path-slash (c ∷ a) w = ground (
  arith,
  split_path-slash a w,
  extend_first-append c (split_path a) (split_path w) (split_path-ne_nil a),
)

split_path-join :
    (k : Bytes) (ks : List Bytes)
    → All IsComponent (k ∷ ks)
    → split_path (join_reversed (k ∷ ks)) ≡ reverse (k ∷ ks)
unfolding join_reversed
split_path-join k [] h = h.0
split_path-join k (v ∷ ks) h =
    split_path-slash (join_reversed (v ∷ ks)) k
    ∙ ap₂ ◌++◌ (split_path-join v ks h.1) h.0
    ∙ sym (reverse-cons k (v ∷ ks))

push_component-name :
    (kept : List Bytes) (w : Bytes) → IsName w → push_component true kept w ≡ w ∷ kept
unfolding push_component
push_component-name [] w h =
    ground (arith, ==_iff w [], ==_iff w (codes "."), ==_iff w (codes ".."))
push_component-name (k ∷ ks) w h =
    ground (arith, ==_iff w [], ==_iff w (codes "."), ==_iff w (codes ".."))

push_all-reverse :
    (kept ws : List Bytes) → All IsName ws → push_all true kept ws ≡ reverse ws ++ kept
unfolding push_all
push_all-reverse kept [] h = refl
push_all-reverse kept (w ∷ ws) h =
    rw (push_component-name kept w h.0, push_all-reverse (w ∷ kept) ws h.1, reverse-cons w ws)
      (sym (append_assoc (reverse ws) (w ∷ []) kept))

All-reverse {ℓ} : {A : Type 0} (P : A → Type ℓ) (xs : List A) → All P xs → All P (reverse xs)
All-reverse P [] h = h
All-reverse P (x ∷ xs) h =
    rw (reverse-cons x xs) (All-append P (reverse xs) (x ∷ []) (All-reverse P xs h.1) (h.0, tt))

-- The names that `clean` keeps of an absolute path, the last first.
kept_names : Bytes → List Bytes
kept_names s = push_all true [] (split_path s)

kept_names-IsName : (s : Bytes) → All IsName (kept_names s)
unfolding kept_names
kept_names-IsName s = push_all-names [] (split_path s) (split_path-components s) tt

clean-kept_names :
    (s : Bytes) → is_abs s ≡ true → clean s ≡ codes "/" ++ join_reversed (kept_names s)
unfolding clean kept_names
clean-kept_names s h = rw h

kept_names-join :
    (ks : List Bytes) → All IsName ks → kept_names (codes "/" ++ join_reversed ks) ≡ ks
unfolding kept_names split_path push_all push_component join_reversed list_beq
kept_names-join [] h = refl
kept_names-join (k ∷ ks) h = rw (split_path-join k ks (All-whole (k ∷ ks) h)) (
    push_all-reverse [] (reverse (k ∷ ks)) (All-reverse IsName (k ∷ ks) h)
    ∙ append-nil _
    ∙ reverse-reverse (k ∷ ks))

-- No component of a path is `.` or `..`.
abbrev IsStep : Bytes → Type 0
IsStep w = (w ≢ codes "..") × (w ≢ codes ".")

All-IsStep : (ks : List Bytes) → All IsName ks → All IsStep ks
All-IsStep [] h = tt
All-IsStep (k ∷ ks) h = ((h.0.not_dots, h.0.not_dot), All-IsStep ks h.1)

split_path-IsStep :
    (ks : List Bytes) → All IsName ks → All IsStep (split_path (codes "/" ++ join_reversed ks))
unfolding split_path join_reversed
split_path-IsStep [] h = ((λ e. cc, λ e. cc), ((λ e. cc, λ e. cc), tt))
split_path-IsStep (k ∷ ks) h =
    rw (split_path-join k ks (All-whole (k ∷ ks) h))
      ((λ e. cc, λ e. cc), All-reverse IsStep (k ∷ ks) (All-IsStep (k ∷ ks) h))

is_abs-slash : (s : Bytes) → is_abs (codes "/" ++ s) ≡ true
unfolding is_abs has_prefix
is_abs-slash s = refl

-- A component that is not empty, `..` included.
abbrev IsPart : Bytes → Type 0
IsPart w = (split_path w ≡ w ∷ []) × (w ≢ [])

push_component-parts :
    (ks : List Bytes) (w : Bytes)
    → IsComponent w
    → All IsPart ks
    → All IsPart (push_component false ks w)
unfolding push_component
push_component-parts [] w c h = ground (arith, ==_iff w [])
push_component-parts (k ∷ ks) w c h = ground (arith, ==_iff w [])

push_all-parts :
    (ks ws : List Bytes) → All IsComponent ws → All IsPart ks → All IsPart (push_all false ks ws)
unfolding push_all
push_all-parts ks [] c h = h
push_all-parts ks (w ∷ ws) c h =
    push_all-parts (push_component false ks w) ws c.1 (push_component-parts ks w c.0 h)

split_path-abs : (s : Bytes) → is_abs s ≡ true → (ws : List Bytes) × (split_path s ≡ [] ∷ ws)
unfolding is_abs split_path has_prefix
split_path-abs [] h = cc
split_path-abs (c ∷ s) h = (split_path s, ground arith)

All-part-whole : (ks : List Bytes) → All IsPart ks → All IsComponent ks
All-part-whole [] h = tt
All-part-whole (k ∷ ks) h = (h.0.0, All-part-whole ks h.1)

join-not-abs : (ks : List Bytes) → All IsPart ks → is_abs (join_reversed ks) ≡ false
unfolding join_reversed
join-not-abs [] h = unfold is_abs has_prefix in refl
join-not-abs (k ∷ ks) h = elim (Bool-cases (is_abs (join_reversed (k ∷ ks)))) [
  | inr e ↦ e
  | inl e ↦
      let (ws, p) = split_path-abs _ e in
      let q = split_path-join k ks (All-part-whole (k ∷ ks) h) in
      let all = All-reverse IsPart (k ∷ ks) h in
      absurd ((subst (All IsPart) (sym q ∙ p) all).0.1 refl)
]

is_abs-dot : is_abs (codes ".") ≡ false
unfolding is_abs has_prefix
is_abs-dot = refl

-- Cleaning makes no relative path absolute.
pub is_abs_of_clean : (s : Bytes) → is_abs (clean s) ≡ true → is_abs s ≡ true
unfolding clean
is_abs_of_clean s h = elim (Bool-cases (is_abs s)) [
  | inl e ↦ e
  | inr e ↦ ground (
    arith,
    e,
    is_abs-dot,
    join-not-abs _ (push_all-parts [] (split_path s) (split_path-components s) tt),
  )
]

-- An absolute path is cleaned to an absolute path of which no component is `..` or `.`, and which
-- cleaning leaves as it is.
pub clean_absolute :
    (s : Bytes)
    → is_abs s ≡ true
    → (is_abs (clean s) ≡ true)
      × ((w : Bytes) → In w (split_path (clean s)) → (w ≢ codes "..") × (w ≢ codes "."))
      × (clean (clean s) ≡ clean s)
clean_absolute s h =
    let ks = kept_names s in
    let names = kept_names-IsName s in
    let again =
      clean-kept_names (codes "/" ++ join_reversed ks) (is_abs-slash (join_reversed ks)) in
    rw (clean-kept_names s h) (
      is_abs-slash (join_reversed ks),
      (λ w. All-In IsStep w _ (split_path-IsStep ks names)),
      again ∙ ap (λ l. codes "/" ++ join_reversed l) (kept_names-join ks names),
    )
