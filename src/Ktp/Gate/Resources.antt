-- ===== src/Ktp/Gate/Resources.antt =====
-- The resources that a call names and those that an agent is granted (internal/ktp/gate.go).
use kyvik.Base.{
  ◌≡◌, ◌⊎◌, inl, inr, refl, String, Bool, false, ◌||◌, Option, none, some, List, [], ◌∷◌, ◌++◌, map,
  ◌==◌, string_eq, nat_eq, list_eq, Bytes, codes, cut_suffix, contains_text, replace_all, lookup,
  if◌then◌else◌, TextOps,
}
use kyvik.Ktp.Match.{Capability}
use kyvik.Ktp.Path.{clean, is_abs}

-- The outcomes of a check, one constructor for each text that the code formats.
pub data Reason : Type 0 where
  action_not_found : String → String → Reason
  tier_too_low : String → String → Reason
  tool_not_granted : String → Reason
  path_missing path_not_string path_not_absolute : Reason
  missing_capability : Capability → Reason
  all_passed : Reason

pub data Verdict {ℓ} (A : Type ℓ) : Type ℓ where
  pass : A → Verdict A
  deny : Reason → Verdict A

pub Verdict-cases {ℓ} :
    {A : Type ℓ} (r : Verdict A) → ((a : A) × (r ≡ pass a)) ⊎ ((e : Reason) × (r ≡ deny e))
Verdict-cases (pass a) = inl (a, refl)
Verdict-cases (deny e) = inr (e, refl)

-- The next check runs only after one that passed.
infixl 5 ◌>>=◌ ◌>>◌
abbrev pub ◌>>=◌ {ℓ κ} : {X : Type ℓ} {Y : Type κ} → Verdict X → (X → Verdict Y) → Verdict Y
deny why >>= next = deny why
pass x >>= next = next x

-- A chain that passed has passed each of its checks.
pub >>=-eq-pass {ℓ κ} :
    {X : Type ℓ} {Y : Type κ} (first : Verdict X) (next : X → Verdict Y) {y : Y}
    → (first >>= next) ≡ pass y
    → (x : X) × (first ≡ pass x) × (next x ≡ pass y)
>>=-eq-pass (deny why) next h = cc
>>=-eq-pass (pass x) next h = (x, refl, h)

abbrev pub ◌>>◌ {ℓ} : {Y : Type ℓ} → Verdict (Unit {0}) → Verdict Y → Verdict Y
first >> next = first >>= λ _. next

-- A check that fails for a reason.
abbrev pub guard : Bool → Reason → Verdict (Unit {0})
guard holds why = if holds then pass tt else deny why

-- A parameter of a call: a value of Go's `any` as the gate tells them apart.
pub data Param : Type 0 where
  text : Bytes → Param
  flag : Bool → Param
  number : Bytes → Param
  other : Param

abbrev pub Params : Type 0
Params = List (String × Param)

pub record HostEntry : Type 0 where
  pub path : Bytes
  pub access : Bytes

pub record HostPaths : Type 0 where
  pub read : List Bytes
  pub write : List Bytes

-- The fields of an agent's configuration that the gate reads.
pub record Agent : Type 0 where
  pub template : String
  pub tool_grants : List String
  pub capability_grants : List Capability
  pub host_filesystem : Option (List HostEntry)
  pub host_paths : Option HostPaths

-- A pattern with a trailing slash, or with `/*`, stands for a directory and what is below it.
normalize_resource : TextOps → Bytes → Bytes
normalize_resource ops raw =
    let trimmed = ops.trim_space raw in
    elim (cut_suffix (codes "/*") trimmed) [
      | some base ↦ clean base ++ codes "/*"
      | none ↦ elim (cut_suffix (codes "/") trimmed) [
        | some _ ↦ clean trimmed ++ codes "/*"
        | none ↦ clean trimmed
      ]
    ]

-- The allowlist, or without one the older read and write lists.
host_entries : Agent → List HostEntry
host_entries agent =
    let older : List HostEntry = elim agent.host_paths [
      | none ↦ []
      | some p ↦
          map (λ x. record { path = x; access = codes "read" }) p.read
          ++ map (λ x. record { path = x; access = codes "write" }) p.write
    ] in
    elim agent.host_filesystem [
      | none ↦ older
      | some allowlist ↦ elim allowlist [ [] ↦ older | e ∷ es ↦ e ∷ es ]
    ]

host_capability : TextOps → HostEntry → List Capability
host_capability ops entry =
    let resource = normalize_resource ops entry.path in
    let access = ops.to_lower (ops.trim_space entry.access) in
    if entry.path == []
    then []
    else if access == codes "read"
    then record { kind = "host_filesystem"; access = "read"; resource = resource } ∷ []
    else if access == codes "write"
    then record { kind = "host_filesystem"; access = "write"; resource = resource } ∷ []
    else []

host_capabilities_from : TextOps → List HostEntry → List Capability
host_capabilities_from ops [] = []
host_capabilities_from ops (e ∷ es) = host_capability ops e ++ host_capabilities_from ops es

unfoldable pub host_fs_capabilities : TextOps → Agent → List Capability
unfolding host_capabilities_from host_capability host_entries normalize_resource
host_fs_capabilities ops agent = host_capabilities_from ops (host_entries agent)

-- `{path}` in a resource becomes the cleaned path parameter, which must be an absolute path.
unfoldable pub expand_resource : Bytes → Params → Verdict Bytes
expand_resource resource params =
    if contains_text (codes "{path}") resource
    then elim (lookup "path" params) [
      | none ↦ deny path_missing
      | some (text path) ↦
          if is_abs (clean path)
          then pass (replace_all (codes "{path}") (clean path) resource)
          else deny path_not_absolute
      | some _ ↦ deny path_not_string
    ]
    else pass resource

unfoldable pub expand_required_capabilities : List Capability → Params → Verdict (List Capability)
expand_required_capabilities [] params = pass []
expand_required_capabilities (c ∷ cs) params =
    let rest = expand_required_capabilities cs params in
    expand_resource c.resource params >>= λ r.
    rest >>= λ out. pass (record c { resource = r } ∷ out)

unfoldable pub bool_param : TextOps → Params → String → Bool
bool_param ops params key = elim (lookup key params) [
  | none ↦ false
  | some (flag b) ↦ b
  | some (number n) ↦ let s = ops.to_lower n in (s == codes "1") || (s == codes "true")
  | some (text t) ↦
      let s = ops.to_lower (ops.trim_space t) in (s == codes "1") || (s == codes "true")
  | some other ↦ false
]
