-- ===== src/Tests/Comparison.antt =====
-- The comparison on a machine with all its compilers, and an environment of a build.
use desan.Batch.{Book}
use desan.Driver.{Env, System}
use desan.Prelude.{◌∷◌, [], true, ◌≡◌, some, [], nat_eq, list_eq, lookup}
use desan.Py.Text.{Str, codes}
use desan.Driver.Build.{base_env, base_settings}
use desan.Driver.Environment.{lookup-base_env}
use desan.Apply.Rewrite.{overlay}
use desan.Prelude.Int.{pos}
use desan.Tests.Floats.{whole}
use desan.Tests.Batch.{machine}
use desan.Tests.Batch as batch

abbrev full_machine : System whole
full_machine = record machine { exists = λ path n. true }

abbrev book : Book full_machine
book = record { world = record { system = 0; runtime = [] }; statuses = [] }

abbrev environ : Env
environ = (codes "DESAN_SPEC_SANITIZER", codes "msan") ∷ (codes "HOME", codes "/root") ∷ []

abbrev built : Env
built = base_env environ (codes "asan") true (codes "/out") (codes "zlib") (pos 2)

lookup-base_env_example :
    ((variable : Str)
      → lookup variable built
        ≡ overlay
            (lookup variable
              (base_settings environ (codes "asan") true (codes "/out") (codes "zlib") (pos 2)))
            (lookup variable environ))
    × (lookup (codes "DESAN_SPEC_SANITIZER") built ≡ some (codes "asan"))
    × (lookup (codes "DESAN_OUT_DIR") built ≡ some (codes "/out"))
    × (lookup (codes "DESAN_SPEC_DISABLE_PASS") built ≡ some (codes "1"))
lookup-base_env_example =
    lookup-base_env environ (codes "asan") true (codes "/out") (codes "zlib") (pos 2)
