-- ===== src/Python/Environ.antt =====
-- The process environment.
use kube_delivery_platform.Prelude.{String, Option, none, some}

-- `os.getenv(name, default)`
unfoldable pub getenv : (String → Option String) → String → String → String
getenv environ name default = elim (environ name) [ none ↦ default | some v ↦ v ]
