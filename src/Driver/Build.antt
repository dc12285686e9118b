-- ===== src/Driver/Build.antt =====
-- `base_env` and `build_variant` of scripts/run_oss_batch_after_read_check_elimination.py. The
-- comparison of scripts/run_oss_asanmm_comparison.py builds in the same way, in another environment.
use desan.Driver.{
  or_key_error, Action, Io, ◌>>=◌, ◌>>◌, pure, raise, runtime_error, make_dirs, Env, System,
  Project, Args, show_int, newline, ◌/◌, root, update_env, World, perform, log, sh,
}
use desan.Prelude.{Bool, Option, some, List, [], ◌∷◌, ◌++◌, get, nat_eq, list_eq, if◌then◌else◌}
use desan.Prelude.Int.{ℤ, is_zero}
use desan.Py.Text.{Str, codes}
use desan.Py.Float.{FloatOps}
use desan.Driver.Source.{copy_source}

-- `env.get(name, default)`, as an assignment to the name
abbrev pub inherited : Env → Str → Str → Str × Str
inherited env name default = (name, get name default env)

-- The variables of a build that are the same in both scripts
abbrev pub compiler_settings : Str → Str → Str → ℤ → Str → List (Str × Str)
compiler_settings name sanitizer out_dir jobs disable_pass =
    (codes "CC", root / codes "scripts/spec_desan_cc.sh")
    ∷ (codes "CXX", root / codes "scripts/spec_desan_cxx.sh")
    ∷ (codes "CFLAGS", codes "-O0 -g -fno-omit-frame-pointer")
    ∷ (codes "CXXFLAGS", codes "-O0 -g -fno-omit-frame-pointer")
    ∷ (codes "JOBS", show_int jobs)
    ∷ (codes "DESAN_OUT_DIR", out_dir)
    ∷ (codes "DESAN_SPEC_BENCHMARK", name)
    ∷ (codes "DESAN_SPEC_SANITIZER", sanitizer)
    ∷ (codes "DESAN_SPEC_DISABLE_PASS", disable_pass)
    ∷ []

-- What `base_env` assigns, from the environment before
unfoldable pub base_settings : Env → Str → Bool → Str → Str → ℤ → List (Str × Str)
base_settings env sanitizer disable_pass out_dir project_name jobs =
    inherited env (codes "LLVM_CONFIG") (codes "llvm-config-18")
    ∷ inherited env (codes "OPT") (codes "opt-18")
    ∷ inherited env (codes "CLANG") (codes "clang-18")
    ∷ inherited env (codes "CLANGXX") (codes "clang++-18")
    ∷ inherited env (codes "DESAN_LLVM_CONFIG")
        (get (codes "LLVM_CONFIG") (codes "llvm-config-18") env)
    ∷ inherited env (codes "DESAN_OPT") (get (codes "OPT") (codes "opt-18") env)
    ∷ inherited env (codes "DESAN_CLANG") (get (codes "CLANG") (codes "clang-18") env)
    ∷ inherited env (codes "DESAN_CLANGXX") (get (codes "CLANGXX") (codes "clang++-18") env)
    ∷ inherited env (codes "PLUGIN") (root / codes "build/DESANPass.so")
    ∷ inherited env (codes "DESAN_SPEC_FALLBACK") (codes "1")
    ∷ inherited env (codes "DESAN_SPEC_PASS_TIMEOUT") (codes "900")
    ∷ inherited env (codes "DESAN_SPEC_QUIET") (codes "1")
    ∷ inherited env (codes "DESAN_PASS_ARGS") (codes "-desan-core-top-n=0 -desan-core-min-ratio=0")
    ∷ inherited env (codes "ASAN_OPTIONS") (codes "detect_leaks=0:alloc_dealloc_mismatch=0")
    ∷ inherited env (codes "LSAN_OPTIONS") (codes "detect_leaks=0")
    ∷ inherited env (codes "UBSAN_OPTIONS") (codes "halt_on_error=0:print_stacktrace=0")
    ∷ inherited env (codes "MSAN_OPTIONS")
        (codes "halt_on_error=0:exit_code=0:report_umrs=0:print_stats=0")
    ∷ compiler_settings project_name sanitizer out_dir jobs
        (if disable_pass then codes "1" else codes "0")

unfoldable pub base_env : Env → Str → Bool → Str → Str → ℤ → Env
unfolding base_settings update_env
base_env environ sanitizer disable_pass out_dir project_name jobs =
    update_env (base_settings environ sanitizer disable_pass out_dir project_name jobs) environ

-- The directory of the output of a project, and the builds in it
abbrev pub build_dir_of : Str → Str → Str
build_dir_of out_root label = out_root / (codes "build-" ++ label)

module _ {F : FloatOps} (S : System F) where
  -- `rc = sh(project["build"], …)` and what follows
  unfoldable pub build_command : Str → Option Str → Str → Str → Env → Args → Action (World S)
  unfolding sh
  build_command name command label build_dir env args = do
    build ← or_key_error (codes "build") command
    rc ←
        sh S
          (record { text = build; cwd = build_dir; env = some env; timeout = args.build_timeout })
    if is_zero rc
        then log S
            (codes "=== " ++ name ++ codes " " ++ label ++ codes " build done ===" ++ newline)
        else raise (
            runtime_error
              (name ++ codes " " ++ label ++ codes " build failed with " ++ show_int rc))

  -- A build in the environment that a program makes of the directory of its output
  unfoldable pub build_in :
      (Str → Io (World S) Env) → Str → Project → Str → Str → Str → Args → Io (World S) Str
  unfolding copy_source build_command
  build_in make_env name project src_dir out_root label args = do
    let build_dir = build_dir_of out_root label
    copy_source S src_dir build_dir
    let variant_out = out_root / label
    perform S (make_dirs variant_out)
    env ← make_env variant_out
    log S (codes "=== " ++ name ++ codes " " ++ label ++ codes " build ===" ++ newline)
    build_command name project.build label build_dir env args
    pure build_dir

  unfoldable pub build_variant :
      Str → Project → Str → Str → Str → Str → Bool → Args → Io (World S) Str
  unfolding build_in base_env
  build_variant name project src_dir out_root label sanitizer disable_pass args =
      build_in (λ out. pure (base_env S.environ sanitizer disable_pass out name args.jobs)) name
        project src_dir out_root label args
