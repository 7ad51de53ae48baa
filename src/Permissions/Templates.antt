-- ===== src/Permissions/Templates.antt =====
-- The built-in templates (internal/permissions/gate.go).
use kyvik.Base.{String, codes, List, [], ◌∷◌}
use kyvik.Permissions.Capability.{Capability}

pub record Template : Type 0 where
  pub name : String
  pub capabilities : List Capability

abbrev pub triplet : String → String → String → Capability
triplet tool action resource = record { tool = tool; action = action; resource = codes resource }

abbrev pub reader_template : Template
reader_template = record {
  name = "reader";
  capabilities =
      triplet "filesystem" "read" "*"
      ∷ triplet "http" "get" "*"
      ∷ triplet "database" "select" "*"
      ∷ [];
}

abbrev pub worker_template : Template
worker_template = record {
  name = "worker";
  capabilities =
      triplet "filesystem" "read" "*"
      ∷ triplet "filesystem" "write" "*"
      ∷ triplet "http" "get" "*"
      ∷ triplet "http" "post" "*"
      ∷ triplet "database" "select" "*"
      ∷ triplet "database" "insert" "*"
      ∷ triplet "database" "update" "*"
      ∷ [];
}

abbrev pub operator_template : Template
operator_template = record {
  name = "operator";
  capabilities =
      triplet "filesystem" "read" "*"
      ∷ triplet "filesystem" "write" "*"
      ∷ triplet "filesystem" "delete" "*"
      ∷ triplet "http" "get" "*"
      ∷ triplet "http" "post" "*"
      ∷ triplet "http" "delete" "*"
      ∷ triplet "database" "select" "*"
      ∷ triplet "database" "insert" "*"
      ∷ triplet "database" "update" "*"
      ∷ triplet "database" "delete" "*"
      ∷ triplet "shell" "execute" "*"
      ∷ triplet "code_exec" "execute" "*"
      ∷ [];
}

abbrev pub admin_template : Template
admin_template = record { name = "admin"; capabilities = triplet "*" "*" "*" ∷ [] }

abbrev pub guide_basic_template : Template
guide_basic_template = record {
  name = "guide";
  capabilities = triplet "kyvik" "read" "docs" ∷ triplet "kyvik" "read" "logs" ∷ [];
}

abbrev pub guide_full_template : Template
guide_full_template = record {
  name = "guide";
  capabilities =
      triplet "kyvik" "read" "docs"
      ∷ triplet "kyvik" "read" "logs"
      ∷ triplet "kyvik" "read" "agents"
      ∷ triplet "kyvik" "read" "status"
      ∷ [];
}

-- The gate's table before any file overrides it; `full` selects the wider guide template.
abbrev pub built_in_templates : List (String × Template)
built_in_templates =
    ("reader", reader_template)
    ∷ ("worker", worker_template)
    ∷ ("operator", operator_template)
    ∷ ("admin", admin_template)
    ∷ ("guide", guide_basic_template)
    ∷ []
