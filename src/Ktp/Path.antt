-- ===== src/Ktp/Path.antt =====
-- Lexical paths on Unix: `filepath.Clean` and `filepath.IsAbs` of Go's standard library, as
-- internal/ktp/gate.go uses them on the resources of file tools.
pub mod Safety
use kyvik.Base.{
  ℕ, Bool, true, false, not, ◌&&◌, ◌||◌, List, [], ◌∷◌, ◌++◌, ◌==◌, nat_eq, list_eq, Bytes, codes,
  has_prefix, if◌then◌else◌,
}

extend_first : ℕ → List Bytes → List Bytes
extend_first c [] = (c ∷ []) ∷ []
extend_first c (w ∷ ws) = (c ∷ w) ∷ ws

-- The components between the slashes, empty ones included: at least one.
unfoldable pub split_path : Bytes → List Bytes
unfolding extend_first
split_path [] = [] ∷ []
split_path (c ∷ s) = let rest = split_path s in if c == b'/' then [] ∷ rest else extend_first c rest

-- One component put on those kept so far, the last kept first. `..` takes the last one off; where
-- there is none to take off, a rooted path drops it and a relative path keeps it.
unfoldable pub push_component : Bool → List Bytes → Bytes → List Bytes
push_component rooted [] w =
    if w == [] || w == codes "." || (w == codes ".." && rooted) then [] else w ∷ []
push_component rooted (k ∷ ks) w =
    if w == [] || w == codes "."
    then k ∷ ks
    else if w == codes ".."
    then (if k == codes ".." then w ∷ k ∷ ks else ks)
    else w ∷ k ∷ ks

unfoldable pub push_all : Bool → List Bytes → List Bytes → List Bytes
push_all rooted kept [] = kept
push_all rooted kept (w ∷ ws) = push_all rooted (push_component rooted kept w) ws

-- The kept components, the last first, joined by slashes.
unfoldable pub join_reversed : List Bytes → Bytes
join_reversed [] = []
join_reversed (w ∷ []) = w
join_reversed (w ∷ v ∷ ws) = join_reversed (v ∷ ws) ++ codes "/" ++ w

unfoldable pub is_abs : Bytes → Bool
is_abs s = has_prefix (codes "/") s

unfoldable pub clean : Bytes → Bytes
unfolding split_path push_all push_component join_reversed is_abs
clean s =
    let rooted = is_abs s in
    let joined = join_reversed (push_all rooted [] (split_path s)) in
    if rooted then codes "/" ++ joined else if joined == [] then codes "." else joined
