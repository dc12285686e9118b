-- ===== src/Runtime.antt =====
-- The run times: `parse_runtime_csv` of the SPEC summaries, which read SPEC's own result tables
-- (Runtime.Spec, Runtime.Rsf), and of the two project summaries (Runtime.Project).
pub mod Spec
pub mod Selection
pub mod Tables
pub mod Rsf
pub mod Project
use desan.Prelude.{Option, none, some, [], ◌∷◌, nat_eq, list_eq, ◌==◌, if◌then◌else◌, ◌||◌}
use desan.Py.Text.{Str, codes, strip}
use desan.Py.Float.{FloatOps}

-- `numeric`, of a value that may be `None`
unfoldable pub numeric : (F : FloatOps) → Option Str → Option F.Float
unfolding strip
numeric F none = none
numeric F (some value) =
    let s = strip value in if s == [] || s == codes "--" then none else F.parse s
