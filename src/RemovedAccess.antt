-- ===== src/RemovedAccess.antt =====
-- scripts/sanrazor_removed_access_summary.py, from the results of `classify_file` on: the sums by level
-- and benchmark, which are added up in the order in which the tasks complete, and the rows. What
-- `classify_file` and `read_summary_removed` give are the inputs.
pub mod Patterns
pub mod Ir
pub mod Classify
pub mod Detections
pub mod ClassifyLaws
pub mod BlockLaws
pub mod RepeatLaws
pub mod Balance
pub mod Order
pub mod Completion
pub mod Totals
use desan.Prelude.{
  ℕ, ◌+◌, ◌++◌, Bool, true, false, Option, none, some, List, [], ◌∷◌, Dict, get, insert, update,
  keys, Key, nat_eq, list_eq, pair_eq, ◌==◌, if◌then◌else◌,
}
use desan.Prelude.Int.{ℤ, pos, ◌+ℤ◌, is_zero}
use desan.Py.Result.{Result, ok, err, ◌>>=◌, PyError}
use desan.Py.Text.{Str, codes}
use desan.Py.Float.{FloatOps}
use desan.Summary.{sorted_names, fmt_pct}

-- The counters of a level and a benchmark.
pub record Access : Type 0 where
  pub detected : ℕ
  pub read : ℕ
  pub write : ℕ
  pub unknown : ℕ

abbrev pub no_access : Access
no_access = record { detected = 0; read = 0; write = 0; unknown = 0 }

abbrev pub add_access : Access → Access → Access
add_access a b = record {
  detected = a.detected + b.detected;
  read = a.read + b.read;
  write = a.write + b.write;
  unknown = a.unknown + b.unknown;
}

-- What `classify_file` returns, as far as `main` reads it.
pub record FileResult : Type 0 where
  pub level : Str
  pub bench : Str
  pub access : Access

abbrev pub key_of : FileResult → Str × Str
key_of r = (r.level, r.bench)

abbrev pub Aggregated : Type 0
Aggregated = Dict (Str × Str) Access

-- `for task in as_completed(tasks)`
unfoldable pub aggregate : Aggregated → List FileResult → Aggregated
aggregate aggregated [] = aggregated
aggregate aggregated (r ∷ rs) =
    aggregate (update (key_of r) no_access (λ a. add_access a r.access) aggregated) rs

-- `bench for lev, bench in aggregated if lev == level`
unfoldable pub benches_at : Str → List (Str × Str) → List Str
benches_at level [] = []
benches_at level ((lev, bench) ∷ ks) =
    let rest = benches_at level ks in if lev == level then bench ∷ rest else rest

pub record AccessRow : Type 0 where
  pub level : Str
  pub bench : Str
  pub reported : ℤ
  pub access : Access
  pub read_share : Str
  pub write_share : Str
  pub unknown_share : Str
  pub coverage : Str

-- The counts of a level: `level_total` with its `reported_removed`. Its `removed` is its `detected`.
abbrev pub Total : Type 0
Total = ℤ × Access

module _ (F : FloatOps) (of_int : ℤ → F.Float) where
  open F use {Float}

  -- `pct`, where an integer that is an operand of a float becomes one by `of_int`
  unfoldable pub pct : ℤ → ℤ → Result (Option Float)
  unfolding is_zero
  pct num den =
      if is_zero den then ok none else elim (F.div (F.mul (of_int num) F.hundred) (of_int den)) [
        | none ↦ err PyError.zero_division_error
        | some q ↦ ok (some q)
      ]

  abbrev pub row_from :
      Str → Str → ℤ → Access → (read write unknown coverage : Option Float) → AccessRow
  row_from level bench reported c read write unknown coverage = record {
    level = level;
    bench = bench;
    reported = reported;
    access = c;
    read_share = fmt_pct F read;
    write_share = fmt_pct F write;
    unknown_share = fmt_pct F unknown;
    coverage = fmt_pct F coverage;
  }

  unfoldable pub access_row : Str → Str → ℤ → Access → Result AccessRow
  unfolding pct fmt_pct
  access_row level bench reported c = do
    read ← pct (pos c.read) (pos c.detected)
    write ← pct (pos c.write) (pos c.detected)
    unknown ← pct (pos c.unknown) (pos c.detected)
    coverage ← pct (pos c.detected) reported
    ok (row_from level bench reported c read write unknown coverage)

  -- `for bench in benches`: the rows and the total. A bench that has no results reads as zeros, and
  -- the entry that `defaultdict` makes for it then is read nowhere else.
  unfoldable pub bench_rows :
      Str → Dict Str ℤ → (Str × Str → Access) → Total → List Str → Result (List AccessRow × Total)
  unfolding access_row
  bench_rows level summary counts total [] = ok ([], total)
  bench_rows level summary counts (reported, access) (bench ∷ benches) = do
    let c = counts (level, bench)
    let reported_removed = get bench (pos c.detected) summary
    row ← access_row level bench reported_removed c
    rest ←
        bench_rows level summary counts (reported +ℤ reported_removed, add_access access c) benches
    ok (row ∷ rest.0, rest.1)

  -- `if benches: rows.append(…)`
  unfoldable pub total_row : Str → List Str → Total → Result (List AccessRow)
  unfolding access_row
  total_row level [] total = ok []
  total_row level (bench ∷ benches) (reported, access) =
      access_row level (codes "TOTAL") reported access >>= λ row. ok (row ∷ [])

  unfoldable pub level_rows : Str → Dict Str ℤ → Aggregated → Result (List AccessRow)
  unfolding bench_rows total_row benches_at sorted_names
  level_rows level summary aggregated = do
    let benches = sorted_names (benches_at level (keys aggregated) ++ keys summary)
    rows ← bench_rows level summary (λ k. get k no_access aggregated) (pos 0, no_access) benches
    last ← total_row level benches rows.1
    ok (rows.0 ++ last)

  -- `for level in args.level`
  unfoldable pub all_rows : Dict Str (Dict Str ℤ) → Aggregated → List Str → Result (List AccessRow)
  unfolding level_rows
  all_rows summary_by_level aggregated [] = ok []
  all_rows summary_by_level aggregated (level ∷ levels) = do
    rows ← level_rows level (get level [] summary_by_level) aggregated
    rest ← all_rows summary_by_level aggregated levels
    ok (rows ++ rest)

  -- The rows of `main`, from the results of the tasks as they complete.
  unfoldable pub main : Dict Str (Dict Str ℤ) → List Str → List FileResult → Result (List AccessRow)
  unfolding all_rows aggregate
  main summary_by_level levels results = all_rows summary_by_level (aggregate [] results) levels
