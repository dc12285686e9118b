-- ===== src/Comparison.antt =====
-- scripts/run_oss_asanmm_comparison.py: `base_env`, `build_variant`, `summarize_one`, `run_one`,
-- `collect_results` and `main`, on the programs of Driver.
pub mod Complete
pub mod Results
use desan.Driver.{
  ask, Action, Io, Outcome, ◌>>=◌, ◌>>◌, pure, raise, for_each, make_dirs, create, or_key_error,
  value_error, Env, System, Project, Args, ◌/◌, root, out_base, update_env, World, perform,
}
use desan.Comparison.Results.{write_results_csv, write_results_md}
use desan.Projects.Comparison.{default_projects}
use desan.Prelude.{
  Option, none, some, List, [], ◌∷◌, ◌++◌, ◌⊎◌, inl, inr, Dict, lookup, get, keys, nat_eq, list_eq,
  ◌==◌, if◌then◌else◌,
}
use desan.Prelude.Int.{ℤ}
use desan.Py.Text.{Str, codes, strip}
use desan.Py.Table.{Row, dict_reader_whole}
use desan.Py.Float.{FloatOps}
use desan.Driver.Source.{prepare_source}
use desan.Driver.Names.{names_in, check_names}
use desan.Driver.Inputs.{write_bench_inputs}
use desan.Driver.Build.{inherited, compiler_settings, build_in}
use desan.Driver.Runs.{measure}
use desan.Batch.{Book, on_world, run_to_file, write_status, guarded, prepare_output}

-- The compilers of the comparison
pub record Compilers : Type 0 where
  pub asanmm_clang : Str
  pub asanmm_clangxx : Str
  pub vanilla_clang : Str
  pub vanilla_clangxx : Str

-- `os.environ.get(…)` of each compiler, with its default below `ASANMM_ROOT`
unfoldable pub compilers_of : Env → Compilers
compilers_of environ =
    let asanmm_root = get (codes "ASANMM_ROOT") (codes "/home/dragon/ASAN--") environ in
    record {
      asanmm_clang =
          get (codes "ASANMM_CLANG")
            (asanmm_root / codes "llvm-4.0.0-project/ASan--Build/bin/clang") environ;
      asanmm_clangxx =
          get (codes "ASANMM_CLANGXX")
            (asanmm_root / codes "llvm-4.0.0-project/ASan--Build/bin/clang++") environ;
      vanilla_clang =
          get (codes "VANILLA_CLANG") (asanmm_root / codes "vanilla_llvm/ASan_Build/bin/clang")
            environ;
      vanilla_clangxx =
          get (codes "VANILLA_CLANGXX") (asanmm_root / codes "vanilla_llvm/ASan_Build/bin/clang++")
            environ;
    }

-- The C and the C++ compiler of a label, and its sanitizer
unfoldable pub toolchain : Compilers → Str → Option (Str × Str × Str)
toolchain cs label =
    if label == codes "asanmm"
    then some (cs.asanmm_clang, cs.asanmm_clangxx, codes "asan")
    else if label == codes "asan-base"
    then some (cs.vanilla_clang, cs.vanilla_clangxx, codes "asan")
    else if label == codes "native"
    then some (cs.vanilla_clang, cs.vanilla_clangxx, codes "none")
    else none

abbrev asan_options : Str
asan_options =
    codes "detect_leaks=0:strict_string_checks=0:strict_memcmp=0:halt_on_error=0:"
    ++ codes "abort_on_error=0:exitcode=0"

-- What `base_env` assigns, from the environment before
unfoldable pub comparison_settings : Env → Str → Str → Str → Str → Str → ℤ → List (Str × Str)
unfolding strip
comparison_settings env name clang clangxx sanitizer out_dir jobs =
    inherited env (codes "LLVM_CONFIG") (codes "llvm-config-18")
    ∷ inherited env (codes "OPT") (codes "opt-18")
    ∷ (codes "CLANG", clang)
    ∷ (codes "CLANGXX", clangxx)
    ∷ inherited env (codes "DESAN_LLVM_CONFIG")
        (get (codes "LLVM_CONFIG") (codes "llvm-config-18") env)
    ∷ inherited env (codes "DESAN_OPT") (get (codes "OPT") (codes "opt-18") env)
    ∷ (codes "DESAN_CLANG", clang)
    ∷ (codes "DESAN_CLANGXX", clangxx)
    ∷ inherited env (codes "DESAN_SPEC_LINK_CC") (codes "clang-18")
    ∷ inherited env (codes "DESAN_SPEC_LINK_CXX") (codes "clang++-18")
    ∷ inherited env (codes "DESAN_CXX_STDLIB_GXX") (codes "g++-12")
    ∷ inherited env (codes "PLUGIN") (root / codes "build/DESANPass.so")
    ∷ inherited env (codes "DESAN_SPEC_FALLBACK") (codes "1")
    ∷ inherited env (codes "DESAN_SPEC_QUIET") (codes "1")
    ∷ inherited env (codes "DESAN_SPEC_RECORD_IR_ON_DISABLE") (codes "1")
    ∷ inherited env (codes "DESAN_SPEC_KEEP_VALUE_NAMES") (codes "0")
    ∷ inherited env (codes "DESAN_ASAN_RECOVER") (codes "1")
    ∷ inherited env (codes "ASAN_OPTIONS") asan_options
    ∷ inherited env (codes "LSAN_OPTIONS") (codes "detect_leaks=0")
    ∷ (codes "LDFLAGS", strip (get (codes "LDFLAGS") [] env ++ codes " -no-pie"))
    ∷ compiler_settings name sanitizer out_dir jobs (codes "1")

-- The options of the sanitizers of a run
abbrev pub comparison_options : Env → List (Str × Str)
comparison_options env =
    inherited env (codes "ASAN_OPTIONS") asan_options
    ∷ inherited env (codes "LSAN_OPTIONS") (codes "detect_leaks=0")
    ∷ []

abbrev pub status_header : List Str
status_header = codes "Project" ∷ codes "Status" ∷ codes "Message" ∷ []

abbrev pub out_name : Str → Str
out_name name = name ++ codes "-asanmm-after-check-elimination"

abbrev pub log_path_of : Str → Str
log_path_of name = out_base / (name ++ codes "_asanmm_after_check_elimination.nohup.log")

unfoldable pub summary_command : Str → Str → List Str
summary_command name out_root =
    codes "python3"
    ∷ (root / codes "scripts/opensource_asanmm_summary.py")
    ∷ codes "--suite"
    ∷ codes "OpenSource"
    ∷ codes "--benchmark"
    ∷ name
    ∷ codes "--base-records"
    ∷ (out_root / codes "asan-base/spec-logs/compile_records.tsv")
    ∷ codes "--asanmm-records"
    ∷ (out_root / codes "asanmm/spec-logs/compile_records.tsv")
    ∷ codes "--runtime-csv"
    ∷ (out_root / codes "runtime.csv")
    ∷ codes "--csv-out"
    ∷ (out_base / (out_name name ++ codes "-summary.csv"))
    ∷ []

module _ {F : FloatOps} (S : System F) where
  -- A label without a compiler is a `ValueError`.
  unfoldable pub base_env : Str → Str → ℤ → Str → Io (World S) Env
  unfolding toolchain comparison_settings update_env compilers_of
  base_env name label jobs out_dir = elim (toolchain (compilers_of S.environ) label) [
    | none ↦ raise (value_error (codes "unknown label: " ++ label))
    | some (clang, clangxx, sanitizer) ↦ pure (
        update_env (comparison_settings S.environ name clang clangxx sanitizer out_dir jobs)
          S.environ)
  ]

  unfoldable pub build_variant : Str → Project → Str → Str → Str → Args → Io (World S) Str
  unfolding build_in base_env
  build_variant name project src_dir out_root label args =
      build_in S (base_env name label args.jobs) name project src_dir out_root label args

  unfoldable pub summarize_one : Str → Str → Action (World S)
  unfolding summary_command
  summarize_one name out_root = do
    let summary_md = out_base / (out_name name ++ codes "-summary.md")
    perform S (create summary_md)
    run_to_file S (summary_command name out_root) summary_md

  unfoldable pub run_body : Str → Project → Str → Args → Action (World S)
  unfolding prepare_source write_bench_inputs build_variant measure summarize_one
  run_body name project out_root args = do
    src_dir ← prepare_source S name project
    let bench = out_root / codes "bench"
    write_bench_inputs S bench
    native_dir ← build_variant name project src_dir out_root (codes "native") args
    base_dir ← build_variant name project src_dir out_root (codes "asan-base") args
    asanmm_dir ← build_variant name project src_dir out_root (codes "asanmm") args
    measure S comparison_options name project bench args (out_root / codes "runtime.csv")
        (codes "native", native_dir) (codes "asan-base", base_dir) (codes "asanmm", asanmm_dir)
    summarize_one name out_root

  unfoldable pub run_one : Dict Str Project → Args → Str → Action (Book S)
  unfolding prepare_output guarded run_body lookup
  run_one projects args name = do
    project ← or_key_error name (lookup name projects)
    let out_root = out_base / out_name name
    on_world S (prepare_output S out_root (log_path_of name))
    guarded S (name ∷ []) (run_body name project out_root args)

  -- The rows of the summaries that there are
  unfoldable pub summary_rows : List Str → S.State → List (Row × List Str)
  unfolding dict_reader_whole
  summary_rows [] s = []
  summary_rows (project ∷ projects) s =
      let summary = out_base / (out_name project ++ codes "-summary.csv") in
      let rest = summary_rows projects s in
      if S.exists summary s then dict_reader_whole (S.read_table summary s) ++ rest else rest

  -- The results: `collect_results`
  unfoldable pub collect_results : List Str → Action (World S)
  unfolding summary_rows write_results_csv write_results_md
  collect_results projects = do
    rows ← ask S (summary_rows projects)
    write_results_csv S rows
    write_results_md S rows

  -- The first compiler that is missing
  unfoldable pub missing_binary : List Str → S.State → Option Str
  missing_binary [] s = none
  missing_binary (path ∷ paths) s =
      let rest = missing_binary paths s in
      if S.exists path s then rest else some (codes "missing ASAN-- toolchain binary: " ++ path)

  abbrev pub binaries : Compilers → List Str
  binaries cs = cs.asanmm_clang ∷ cs.asanmm_clangxx ∷ cs.vanilla_clang ∷ cs.vanilla_clangxx ∷ []

  -- The batch of the comparison: the status file is made anew.
  unfoldable pub run_comparison : Dict Str Project → Args → Str → List Str → Action (Book S)
  unfolding for_each run_one
  run_comparison projects args status_path names = do
    on_world S (perform S (make_dirs out_base))
    on_world S (perform S (create status_path))
    write_status S status_header
    for_each (run_one projects args) names

  -- `main`: an exit with a message, or the batch and its results
  unfoldable pub main :
      Dict Str Project → Args → Str → Str → Book S → Str ⊎ (Outcome {0} Unit × Book S)
  unfolding run_comparison names_in check_names missing_binary compilers_of keys collect_results
  main projects args projects_text status_path b =
      let names = names_in projects_text in
      elim (check_names (codes "unknown project: ") (keys projects) names) [
        | some text ↦ inl text
        | none ↦ elim (missing_binary (binaries (compilers_of S.environ)) b.world.system) [
          | some text ↦ inl text
          | none ↦ inr (
              (run_comparison projects args status_path names
                  >> on_world S (collect_results default_projects))
                b)
        ]
      ]
