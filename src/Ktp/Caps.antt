-- ===== src/Ktp/Caps.antt =====
-- What each tier may do by default (internal/ktp/gate.go).
use kyvik.Base.{String, List, [], ◌∷◌, ◌++◌, codes, ◌==◌, string_eq, if◌then◌else◌}
use kyvik.Ktp.Match.{Capability}

abbrev pub triplet : String → String → String → Capability
triplet kind access resource = record { kind = kind; access = access; resource = codes resource }

abbrev pub reader_caps : List Capability
reader_caps =
    triplet "filesystem" "read" "{workspace}/*"
    ∷ triplet "memory" "read" "*"
    ∷ triplet "memory" "write" "*"
    ∷ triplet "network" "read" "*"
    ∷ triplet "scheduler" "read" "*"
    ∷ triplet "scheduler" "write" "*"
    ∷ triplet "github" "read" "api.github.com"
    ∷ triplet "git" "read" "*"
    ∷ triplet "database" "select" "*"
    ∷ triplet "obsidian" "read" "*"
    ∷ []

abbrev pub guide_caps : List Capability
guide_caps =
    triplet "system" "read" "agents"
    ∷ triplet "system" "read" "overview"
    ∷ triplet "system" "read" "spending"
    ∷ triplet "system" "read" "audit"
    ∷ triplet "system" "read" "security"
    ∷ triplet "memory" "read" "*"
    ∷ triplet "memory" "write" "*"
    ∷ triplet "scheduler" "read" "*"
    ∷ triplet "scheduler" "write" "*"
    ∷ []

abbrev pub writer_extra_caps : List Capability
writer_extra_caps =
    triplet "filesystem" "write" "{workspace}/*"
    ∷ triplet "network" "write" "*"
    ∷ triplet "github" "issues" "api.github.com"
    ∷ triplet "git" "write" "*"
    ∷ triplet "database" "insert" "*"
    ∷ triplet "database" "update" "*"
    ∷ triplet "workflow" "read" "*"
    ∷ triplet "workflow" "write" "*"
    ∷ triplet "workflow" "execute" "*"
    ∷ triplet "obsidian" "write" "*"
    ∷ []

abbrev pub operator_extra_caps : List Capability
operator_extra_caps =
    triplet "shell" "execute" "*"
    ∷ triplet "process" "execute" "*"
    ∷ triplet "code" "execute" "*"
    ∷ triplet "browser" "execute" "*"
    ∷ triplet "github" "pull_requests" "api.github.com"
    ∷ triplet "git" "push" "*"
    ∷ triplet "docker" "read" "*"
    ∷ triplet "docker" "manage" "*"
    ∷ triplet "database" "delete" "*"
    ∷ triplet "obsidian" "delete" "*"
    ∷ []

abbrev pub admin_extra_caps : List Capability
admin_extra_caps = triplet "system" "read" "*" ∷ triplet "docker" "registry" "*" ∷ []

-- Each tier above the reader has the capabilities of those below it.
unfoldable pub default_capabilities : String → List Capability
default_capabilities tier =
    if tier == "reader"
    then reader_caps
    else if tier == "guide"
    then guide_caps
    else if tier == "writer"
    then reader_caps ++ writer_extra_caps
    else if tier == "operator"
    then (reader_caps ++ writer_extra_caps) ++ operator_extra_caps
    else if tier == "admin"
    then ((reader_caps ++ writer_extra_caps) ++ operator_extra_caps) ++ admin_extra_caps
    else []
