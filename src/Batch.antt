-- ===== src/Batch.antt =====
-- scripts/run_oss_batch_after_read_check_elimination.py: `summarize`, `run_one` and `main`, on the
-- programs of Driver.
use desan.Driver.Runs.{batch_options, measure}
use desan.Driver.{
  Io, Action, Outcome, done, raised, message, ◌>>=◌, ◌>>◌, when, for_each, make_dirs, unlink,
  create, append_to, or_key_error, System, Project, Args, newline, ◌/◌, root, out_base, World, ask,
  perform, remove_old,
}
pub mod Statuses
pub mod Output
pub mod Complete
use desan.Prelude.{
  true, false, not, none, some, List, [], ◌∷◌, ◌++◌, ◌⊎◌, inl, inr, Dict, lookup, keys, nat_eq,
  list_eq, if◌then◌else◌,
}
use desan.Py.Text.{Str, codes}
use desan.Py.Float.{FloatOps}
use desan.Py.Table.{Table}
use desan.Driver.Source.{prepare_source, is_empty}
use desan.Driver.Names.{names_in, check_names}
use desan.Driver.Inputs.{write_bench_inputs}
use desan.Driver.Build.{build_variant}

-- An entry of `SANITIZERS`
pub record Sanitizer : Type 0 where
  pub base_variant : Str
  pub core_prefixes : List Str

abbrev pub sanitizers : Dict Str Sanitizer
sanitizers =
    (
      codes "asan",
      record {
        base_variant = codes "asan-base";
        core_prefixes =
            codes "__asan_report_load"
            ∷ codes "__asan_report_store"
            ∷ codes "__asan_load"
            ∷ codes "__asan_store"
            ∷ [];
      },
    )
    ∷ (
      codes "ubsan",
      record {
        base_variant = codes "ubsan-base";
        core_prefixes =
            codes "__ubsan_handle_type_mismatch"
            ∷ codes "__ubsan_handle_pointer_overflow"
            ∷ codes "__ubsan_handle_out_of_bounds"
            ∷ codes "__ubsan_handle_shift_out_of_bounds"
            ∷ [];
      },
    )
    ∷ (
      codes "msan",
      record {
        base_variant = codes "msan-base";
        core_prefixes =
            codes "__msan_warning"
            ∷ codes "__msan_maybe_warning"
            ∷ codes "__msan_param_"
            ∷ codes "__msan_retval_"
            ∷ codes "__msan_va_arg_"
            ∷ codes "__msan_check_mem_is_initialized"
            ∷ codes "__msan_test_shadow"
            ∷ codes "__msan_print_shadow"
            ∷ [];
      },
    )
    ∷ []

abbrev pub out_name : Str → Str → Str
out_name name sanitizer = name ++ codes "-" ++ sanitizer ++ codes "-after-read-check-elimination"

abbrev prefix_arguments : List Str → List Str
prefix_arguments [] = []
prefix_arguments (p ∷ prefixes) = codes "--core-prefix" ∷ p ∷ prefix_arguments prefixes

-- The command line of the summary
unfoldable pub summary_command : Str → Str → Sanitizer → Str → List Str
summary_command name sanitizer san out_root =
    codes "python3"
    ∷ (root / codes "scripts/opensource_summary.py")
    ∷ codes "--suite"
    ∷ codes "OpenSource"
    ∷ codes "--benchmark"
    ∷ name
    ∷ codes "--records"
    ∷ (out_root / codes "desan/spec-logs/compile_records.tsv")
    ∷ codes "--runtime-csv"
    ∷ (out_root / codes "runtime.csv")
    ∷ codes "--before-variant"
    ∷ san.base_variant
    ∷ codes "--after-variant"
    ∷ codes "desan"
    ∷ codes "--csv-out"
    ∷ (out_base / (out_name name sanitizer ++ codes "-summary.csv"))
    ∷ prefix_arguments san.core_prefixes

-- The first row of the status file
abbrev pub status_header : List Str
status_header = codes "Project" ∷ codes "Sanitizer" ∷ codes "Status" ∷ codes "Message" ∷ []

abbrev pub out_root_of : Str → Str → Str
out_root_of name sanitizer = out_base / out_name name sanitizer

abbrev pub log_path_of : Str → Str → Str
log_path_of name sanitizer =
    out_base / (name ++ codes "_" ++ sanitizer ++ codes "_after_read_check_elimination.nohup.log")

module _ {F : FloatOps} (S : System F) where
  -- A command with its output in a file
  abbrev pub run_to_file : List Str → Str → Action (World S)
  run_to_file command path w =
      let (r, s) = S.run_to_file command path w.system in (r, record w { system = s })

  unfoldable pub summarize : Str → Str → Str → Action (World S)
  unfolding summary_command lookup
  summarize name sanitizer out_root = do
    san ← or_key_error sanitizer (lookup sanitizer sanitizers)
    let summary_md = out_base / (out_name name sanitizer ++ codes "-summary.md")
    perform S (create summary_md)
    run_to_file (summary_command name sanitizer san out_root) summary_md

  -- The three variants: their labels, what they are built with, and whether the pass is left out.
  unfoldable pub run_body : Str → Project → Str → Str → Args → Action (World S)
  unfolding prepare_source write_bench_inputs build_variant measure summarize lookup
  run_body name project sanitizer out_root args = do
    src_dir ← prepare_source S name project
    let bench = out_root / codes "bench"
    write_bench_inputs S bench
    native_dir ←
        build_variant S name project src_dir out_root (codes "native") (codes "none") true args
    san ← or_key_error sanitizer (lookup sanitizer sanitizers)
    base_dir ← build_variant S name project src_dir out_root san.base_variant sanitizer true args
    desan_dir ← build_variant S name project src_dir out_root (codes "desan") sanitizer false args
    measure S batch_options name project bench args (out_root / codes "runtime.csv")
        (codes "native", native_dir) (san.base_variant, base_dir) (codes "desan", desan_dir)
    summarize name sanitizer out_root

  -- The world, and the rows that are written to the status file, which only `run_one` and `main` do
  pub record Book : Type 0 where
    pub world : World S
    pub statuses : Table

  abbrev pub on_world {ℓ} : {A : Type ℓ} → Io (World S) A → Io Book A
  on_world m b = let (r, w) = m b.world in (r, record b { world = w })

  abbrev pub write_status : List Str → Action Book
  write_status row w = (done tt, record w { statuses = w.statuses ++ (row ∷ []) })

  -- The status and the message of a row
  abbrev pub status_row : List Str → Outcome {0} Unit → List Str
  status_row key (done u) = key ++ (codes "S" ∷ [] ∷ [])
  status_row key (raised e) = key ++ (codes "FAIL" ∷ message e ∷ [])

  -- `log.write(f"FAILED: {message}\n")` after an exception
  abbrev log_failure : Outcome {0} Unit → World S → World S
  log_failure (done u) w = w
  log_failure (raised e) w = record w {
    system = S.log (codes "FAILED: " ++ message e ++ newline) w.system;
  }

  -- `try: body except Exception as exc: …`, then the row
  unfoldable pub guarded : List Str → Action (World S) → Action Book
  guarded key body b =
      let (r, w) = body b.world in
      write_status (status_row key r) (record b { world = log_failure r w })

  abbrev unlink_old : Str → Action (World S)
  unlink_old path = ask S (S.exists path) >>= λ there. when there (perform S (unlink path))

  -- What is removed and made before a project is run: no exception is caught here.
  unfoldable pub prepare_output : Str → Str → Action (World S)
  unfolding remove_old
  prepare_output out_root log_path = do
    remove_old S out_root
    unlink_old (out_root ++ codes "-summary.md")
    unlink_old (out_root ++ codes "-summary.csv")
    perform S (make_dirs out_root)
    perform S (create log_path)

  unfoldable pub run_one : Dict Str Project → Args → Str → Str → Action Book
  unfolding prepare_output guarded run_body lookup
  run_one projects args name sanitizer = do
    project ← or_key_error name (lookup name projects)
    on_world (prepare_output (out_root_of name sanitizer) (log_path_of name sanitizer))
    guarded (name ∷ sanitizer ∷ [])
        (run_body name project sanitizer (out_root_of name sanitizer) args)

  -- `for project in projects: for sanitizer in sanitizers: …`
  unfoldable pub run_all : Dict Str Project → Args → List Str → List Str → Action Book
  unfolding for_each run_one
  run_all projects args names chosen =
      for_each (λ name. for_each (run_one projects args name) chosen) names

  -- The batch, once its names are known
  unfoldable pub run_batch : Dict Str Project → Args → Str → List Str → List Str → Action Book
  unfolding run_all
  run_batch projects args status_path names chosen = do
    on_world (perform S (make_dirs out_base))
    there ← on_world (ask S (S.exists status_path))
    on_world (perform S (append_to status_path))
    when (not there) (write_status status_header)
    run_all projects args names chosen

  -- `main`, with the arguments and the path of the status file: an exit with a message, or a batch
  unfoldable pub main :
      Dict Str Project → Args → Str → Str → Str → Book → Str ⊎ (Outcome {0} Unit × Book)
  unfolding run_batch names_in check_names keys
  main projects args projects_text sanitizers_text status_path w =
      let names = if is_empty projects_text then keys projects else names_in projects_text in
      let chosen = names_in sanitizers_text in
      elim (check_names (codes "unknown project: ") (keys projects) names) [
        | some text ↦ inl text
        | none ↦ elim (check_names (codes "unknown sanitizer: ") (keys sanitizers) chosen) [
          | some text ↦ inl text
          | none ↦ inr (run_batch projects args status_path names chosen w)
        ]
      ]
