-- ===== src/Driver.antt =====
-- What scripts/run_oss_batch_after_read_check_elimination.py and scripts/run_oss_asanmm_comparison.py
-- share: programs that change the files, run commands and raise exceptions. What the machine does is
-- a parameter, the record System.
pub mod Source
pub mod Inputs
pub mod Build
pub mod Runs
pub mod Names
pub mod RunLaws
pub mod RunTables
pub mod Measured
pub mod Environment
use desan.Prelude.{
  suc, Bool, true, false, ◌||◌, Option, none, some, List, [], ◌∷◌, ◌++◌, Dict, nat_eq, list_eq,
  insert, ℕ, if◌then◌else◌,
}
use desan.Prelude.Int.{ℤ, pos, negsuc, is_zero}
use desan.Py.Text.{Str, codes}
use desan.Py.Number.{show}
use desan.Py.Table.{Table}
use desan.Py.Float.{FloatOps}

-- The exceptions that `except Exception` catches. Those of the machine, such as an `OSError`, come
-- with their text.
pub data Raised : Type 0 where
  runtime_error value_error key_error type_error timeout_expired os_error : Str → Raised

-- `str(exc)`
abbrev pub message : Raised → Str
message (runtime_error text) = text
message (value_error text) = text
message (key_error name) = codes "'" ++ name ++ codes "'"
message (type_error text) = text
message (timeout_expired text) = text
message (os_error text) = text

pub data Outcome {ℓ} (A : Type ℓ) : Type ℓ where
  done : A → Outcome A
  raised : Raised → Outcome A

-- A program on a world, which stays changed after an exception too.
abbrev pub Io {ℓ κ} : Type ℓ → Type κ → Type (ℓ ⊔ κ)
Io W A = W → Outcome A × W

-- What follows a program, from what the program has given: an exception ends it.
abbrev pub after {ℓ κ ν} :
    {W : Type ℓ} {A : Type κ} {B : Type ν} → (A → Io W B) → Outcome A × W → Outcome B × W
after next (done a, w) = next a w
after next (raised e, w) = (raised e, w)

infixl 5 ◌>>=◌ ◌>>◌
abbrev pub ◌>>=◌ {ℓ κ ν} : {W : Type ℓ} {A : Type κ} {B : Type ν} → Io W A → (A → Io W B) → Io W B
◌>>=◌ m next w = after next (m w)

abbrev pub ◌>>◌ {ℓ κ ν} : {W : Type ℓ} {A : Type κ} {B : Type ν} → Io W A → Io W B → Io W B
m >> next = m >>= λ _. next

abbrev pub pure {ℓ κ} : {W : Type ℓ} {A : Type κ} → A → Io W A
pure a w = (done a, w)

abbrev pub raise {ℓ κ} : {W : Type ℓ} {A : Type κ} → Raised → Io W A
raise e w = (raised e, w)

-- A program without a value
abbrev pub Action {ℓ} : Type ℓ → Type ℓ
Action W = Io {ℓ, 0} W Unit

abbrev pub when {ℓ} : {W : Type ℓ} → Bool → Action W → Action W
when b m = if b then m else pure tt

-- `for x in xs: f(x)`
unfoldable pub for_each {ℓ κ} : {W : Type ℓ} {A : Type κ} → (A → Action W) → List A → Action W
for_each f [] = pure tt
for_each f (x ∷ xs) = f x >> for_each f xs

-- `d[key]`
abbrev pub or_key_error {ℓ κ} : {W : Type ℓ} {A : Type κ} → Str → Option A → Io W A
or_key_error key none = raise (key_error key)
or_key_error key (some a) = pure a

-- What changes the files
pub data Effect : Type 0 where
  -- `mkdir(parents=True, exist_ok=True)`, and without `exist_ok`
  make_dirs make_new_dir : Str → Effect
  remove_tree unlink : Str → Effect
  rename : Str → Str → Effect
  -- `copytree`, with the patterns that are left out
  copy_tree : Str → Str → List Str → Effect
  write_text : Str → Str → Effect
  write_bytes : Str → List ℕ → Effect
  -- `open("w")` of a file that is written later
  create : Str → Effect
  -- `open("a")`
  append_to : Str → Effect

abbrev pub Env : Type 0
Env = Dict Str Str

-- A call of bash, with its output in the log
pub record Command : Type 0 where
  pub text : Str
  pub cwd : Str
  pub env : Option Env
  pub timeout : ℤ

-- The machine: its state, what is asked of it, and what changes it. A log and an open table take what
-- is written to them.
pub record System (F : FloatOps) : Type 1 where
  pub State : Type 0
  pub environ : Env
  -- `str(cells)`, of a list of texts
  pub list_text : List Str → Str
  pub exists : Str → State → Bool
  pub is_dir : Str → State → Bool
  -- `list(path.iterdir())`
  pub children : Str → State → Outcome (List Str)
  -- `csv.DictReader` of a file, as the rows of the table
  pub read_table : Str → State → Table
  pub perform : Effect → State → Outcome {0} Unit × State
  pub bash : Command → State → Outcome ℤ × State
  -- `subprocess.run(cmd, cwd=ROOT, stdout=out, check=False)`, with `out` an open file
  pub run_to_file : List Str → Str → State → Outcome {0} Unit × State
  pub log : Str → State → State
  -- The rows of a table, when its file is closed
  pub save : Str → Table → State → State
  -- The text of a file, when it is closed
  pub save_text : Str → Str → State → State
  -- `time.perf_counter()`
  pub clock : State → F.Float × State

-- The arguments of the command line that both scripts have
pub record Args : Type 0 where
  pub runs : ℤ
  pub loops : ℤ
  pub jobs : ℤ
  pub build_timeout : ℤ
  pub run_timeout : ℤ

-- A project: what its dict says, with the texts that `get` gives for `ref`, `artifact` and `run` if
-- they are missing.
pub record Project : Type 0 where
  pub archive : Option Str
  pub repo : Option Str
  pub ref : Str
  pub submodules : Bool
  pub build : Option Str
  pub artifact : Str
  pub run : Str

-- `str(n)` of an integer
abbrev pub show_int : ℤ → Str
show_int (pos n) = show n
show_int (negsuc n) = codes "-" ++ show (suc n)

abbrev pub newline : Str
newline = b'\n' ∷ []

-- `directory / name`, of a relative name
infixl 7 ◌/◌
abbrev pub ◌/◌ : Str → Str → Str
directory / name = directory ++ codes "/" ++ name

abbrev pub root : Str
root = codes "/home/dragon/DESAN"

abbrev pub benchmarks : Str
benchmarks = root / codes "benchmarks"

abbrev pub out_base : Str
out_base = root / codes "out"

-- `env.update(…)`
unfoldable pub update_env : List (Str × Str) → Env → Env
update_env [] env = env
update_env ((name, value) ∷ values) env = update_env values (insert name value env)

module _ {F : FloatOps} (S : System F) where
  -- The machine, and the table of run times that is open.
  pub record World : Type 0 where
    pub system : S.State
    pub runtime : Table

  abbrev pub ask {ℓ} : {A : Type ℓ} → (S.State → A) → Io World A
  ask f w = (done (f w.system), w)

  abbrev pub perform : Effect → Action World
  perform effect w = let (r, s) = S.perform effect w.system in (r, record w { system = s })

  abbrev pub list_dir : Str → Io World (List Str)
  list_dir path w = (S.children path w.system, w)

  abbrev pub log : Str → Action World
  log text w = (done tt, record w { system = S.log text w.system })

  abbrev pub clock : Io World F.Float
  clock w = let (t, s) = S.clock w.system in (done t, record w { system = s })

  abbrev pub bash : Command → Io World ℤ
  bash command w = let (r, s) = S.bash command w.system in (r, record w { system = s })

  unfoldable pub sh : Command → Io World ℤ
  sh command = log (codes "$ " ++ command.text ++ newline) >> bash command

  -- `if sh(…) != 0: raise RuntimeError(text)`
  unfoldable pub sh_or_raise : Command → Str → Action World
  unfolding sh
  sh_or_raise command text =
      sh command >>= λ rc. if is_zero rc then pure tt else raise (runtime_error text)

  -- `if path.exists(): shutil.rmtree(path)`
  unfoldable pub remove_old : Str → Action World
  remove_old path = ask (S.exists path) >>= λ there. when there (perform (remove_tree path))
