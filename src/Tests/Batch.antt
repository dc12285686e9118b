-- ===== src/Tests/Batch.antt =====
-- A batch on a machine of which every second command fails, and one that reaches its time limit.
use desan.Prelude.{
  option_eq, ◌*◌, ℕ, zero, suc, sym, ◌≡◌, refl, true, false, none, some, [], ◌∷◌, Dict, keys,
  length, get, nat_eq, list_eq, list_beq, contains,
}
use desan.Prelude.Int.{ℤ, pos}
use desan.Py.Text.{Str, codes, strip}
use desan.Runtime.Project.{parse_project_runtime}
use desan.Driver.{Outcome, done, raised, Raised, timeout_expired, System, World, Project, Args}
use desan.Driver.Names.{names_in, check_names}
use desan.Driver.Runs.{batch_options, run_with, measure}
use desan.Driver.RunLaws.{WritesRuns, run_with-WritesRuns, is_timeout}
use desan.Driver.RunTables.{occurrences}
use desan.Driver.Measured.{measure-Measured, StartsCommands}
use desan.Batch.{Book}
use desan.Tests.Floats.{whole}

-- The exit of a command, from the number of the commands before
abbrev pub exit_of : ℕ → Outcome ℤ
exit_of zero = done (pos 0)
exit_of (suc zero) = raised (timeout_expired (codes "time is up"))
exit_of (suc (suc n)) = done (pos 1)

-- The state is the number of the commands.
abbrev pub machine : System whole
machine = record {
  State = ℕ;
  environ = [];
  list_text = λ cells. [];
  exists = λ path n. false;
  is_dir = λ path n. false;
  children = λ path n. done [];
  read_table = λ path n. [];
  perform = λ effect n. (done tt, n);
  bash = λ command n. (exit_of n, suc n);
  run_to_file = λ command path n. (done tt, n);
  log = λ text n. n;
  save = λ path table n. n;
  save_text = λ path text n. n;
  clock = λ n. (pos n, n);
}

abbrev pub args : Args
args = record {
  runs = pos 2;
  loops = pos 1;
  jobs = pos 2;
  build_timeout = pos 60;
  run_timeout = pos 5;
}

abbrev small_project : Project
small_project = record {
  archive = none;
  repo = some (codes "https://github.com/madler/zlib.git");
  ref = codes "v1.3.1";
  submodules = false;
  build = some (codes "./configure --static && make -j\"$JOBS\" minigzip");
  artifact = [];
  run = codes "\"$APP\" -h";
}

abbrev pub projects : Dict Str Project
projects = (codes "zlib", small_project) ∷ []

abbrev start : World machine
start = record { system = 0; runtime = [] }

abbrev book : Book machine
book = record { world = start; statuses = [] }

run_with-WritesRuns_example : WritesRuns machine (codes "native") 1 2 start (
    run_with machine batch_options
      (codes "zlib")
      small_project
      (codes "native")
      (codes "/b")
      (codes "/i")
      args
      start)
run_with-WritesRuns_example =
    run_with-WritesRuns machine batch_options (codes "zlib") small_project (codes "native")
      (codes "/b") (codes "/i") args start

exit_of-is_timeout : (n : ℕ) (e : Raised) → exit_of n ≡ raised e → is_timeout e ≡ true
exit_of-is_timeout zero e h = cc h
exit_of-is_timeout (suc zero) e h =
    let k : timeout_expired (codes "time is up") ≡ e = cc h in rw (sym k)
exit_of-is_timeout (suc (suc n)) e h = cc h

machine-StartsCommands : StartsCommands machine
machine-StartsCommands command n e h = exit_of-is_timeout n e h

pub names-known :
    check_names (codes "unknown project: ") (keys projects) (names_in (codes "zlib")) ≡ none
unfolding check_names names_in strip keys list_beq contains
names-known = refl

abbrev measured : Outcome {0} Unit × World machine
measured =
    measure machine batch_options (codes "zlib") small_project (codes "/i") args
      (codes "/runtime.csv") (codes "native", codes "/a") (codes "asan-base", codes "/b")
      (codes "desan", codes "/c") start

measure-Measured_example :
    (measured.0 ≡ done tt)
    × ((v : Str)
        → length (get (some v) [] (parse_project_runtime whole (some measured.1.runtime)))
          ≡ occurrences v (codes "native" ∷ codes "asan-base" ∷ codes "desan" ∷ []) * 2)
measure-Measured_example =
    measure-Measured machine batch_options (codes "zlib") small_project (codes "/i") args
      (codes "/runtime.csv") (codes "native", codes "/a") (codes "asan-base", codes "/b")
      (codes "desan", codes "/c") start machine-StartsCommands refl
