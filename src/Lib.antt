-- ===== src/Lib.antt =====
-- Verification of the evaluation scripts of DESAN, a compiler pass that removes redundant sanitizer
-- checks. The Python scripts under scripts/ count the checks in the compiled modules, read the logs
-- of the pass and the run times of the benchmarks, and write the tables of the evaluation.
--
-- How the parts interact: the compiler wrapper writes a table of records, one for each compile unit,
-- with the path of a log. scripts/count_sanitizer_checks.py prints such a log for a module, and the
-- pass prints another form of it. Each summary script adds up the logs for a benchmark, reads the
-- run times of up to three builds, computes overheads, and writes a row for each benchmark.
-- scripts/collect_all_results.py joins the summaries, filters whole projects and sorts the rows.
--
-- What the files model:
--   Prelude         shared lists, dictionaries, equality tests and signed integers
--   Py              Python's exceptions, texts, int, csv rows, files and regular expressions; floats are
--                   a parameter
--   CountChecks     scripts/count_sanitizer_checks.py, whole
--   CheckLog        parse_check_log and sum_prefix of scripts/opensource_asanmm_summary.py and
--                   scripts/spec_asanmm_summary.py
--   PassLog         parse_pass_log of scripts/opensource_summary.py and scripts/spec_asan_summary.py
--   Records         parse_records of the same four scripts
--   Runtime         parse_runtime_csv, parse_runtime_rsf and summarize_runtime of the five summaries
--   Overhead        compute_overhead_metrics and overhead_metrics
--   Summary         main of the four summaries, from parsed inputs to rows and printed lines
--   Sanrazor        scripts/spec_sanrazor_summary.py, its check files and its main
--   RemovedAccess   scripts/sanrazor_removed_access_summary.py: the classification of a module's IR, the
--                   sums over the results of the tasks, and the rows
--   Apply           scripts/apply_sanrazor_detected_disabled_counts.py, without its Markdown table
--   Driver          what scripts/run_oss_batch_after_read_check_elimination.py and
--                   scripts/run_oss_asanmm_comparison.py share: the machine, the sources, the builds,
--                   the input files and the runs
--   Projects        PROJECTS of both, and DEFAULT_PROJECTS of the second
--   Batch           the rest of scripts/run_oss_batch_after_read_check_elimination.py
--   Comparison      the rest of scripts/run_oss_asanmm_comparison.py
--   Collect         scripts/collect_all_results.py, whole
--   CollectOss      scripts/collect_oss_batch_results.py, up to the writing of its files
--   Tests           the theorems at concrete inputs
--
-- The two drivers fetch the sources of each project, build three variants, run them, and call a
-- summary script; each project gets a row in a status file, which
-- scripts/collect_oss_batch_results.py reads. They are programs on a world that are run as
-- functions of it, and the machine with its files, bash and its clock is the parameter System. A
-- log and an open table take what is written to them: a full disk is not modelled.
--
-- How code corresponds to definitions: an exception is the value `err` of Result, a loop over rows or
-- lines is a recursion on the list with the local variables as its state, a dict is an association
-- list in insertion order, and a row that is updated in place is inserted anew under its key. All
-- loops are structural, so no fuel is needed. Python's integers have no bound, and so have those of
-- the model. Texts are lists of code points, of which the scripts' tests tell apart ASCII only. The
-- type `float` with its operations is the parameter FloatOps, and IsIeee states what IEEE 754 says:
-- division raises at 0 only, floats that differ have a difference other than 0, and the quotient of
-- two counts is in the range of a float, beyond which Python has an OverflowError.
--
-- What is not modelled: how the csv module cuts a text into fields; a path that holds a line end,
-- which would be several lines of a printed log; argparse, glob, the thread pool and the text of
-- the .csv and Markdown files of the summaries; the command llvm-dis, whose output classify_file
-- is given as lines; the shell scripts; and the pass itself (lib/, include/), which is C++ on the
-- interfaces of LLVM.
pub mod Prelude
pub mod Py
pub mod CheckLog
pub mod CountChecks
pub mod Overhead
pub mod PassLog
pub mod Records
pub mod Runtime
pub mod Collect
pub mod CollectOss
pub mod Apply
pub mod Driver
pub mod Projects
pub mod Batch
pub mod Comparison
pub mod Summary
pub mod Sanrazor
pub mod RemovedAccess
mod Tests
