-- ===== src/Runtime/Rsf.antt =====
-- `parse_runtime_rsf` and `parse_runtime_csv` of scripts/spec_sanrazor_summary.py, and
-- `parse_runtime_csv` of scripts/spec_asanmm_summary.py. The regular expression of a line of an .rsf
-- file is the matcher `rsf_line`.
use desan.Prelude.{
  ℕ, ◌≡◌, refl, Bool, true, false, ◌&&◌, Option, none, some, List, [], ◌∷◌, ◌++◌, Dict, get, lookup,
  insert, nat_eq, list_eq, ◌==◌, if◌then◌else◌,
}
use mathlib.Core.Option
use desan.Py.Text.{Str, codes, strip, is_digit}
use desan.Py.Table.{Table}
use desan.Py.Float.{FloatOps}
use desan.CountChecks.{drop_prefix}
use desan.Records.Asanmm.{normalize_benchmark_name}
use desan.Runtime.{numeric}
use desan.Runtime.Spec.{RunResult, is_spec_name, record_run, runtime_tables, runtime_rows}

-- The text before the first separator and the text behind it.
unfoldable pub cut : ℕ → Str → Option (Str × Str)
cut sep [] = none
cut sep (c ∷ s) = if c == sep then some ([], s) else Option.map (λ (a, b). (c ∷ a, b)) (cut sep s)

unfoldable pub rstrip_newline : Str → Str
rstrip_newline [] = []
rstrip_newline (c ∷ s) = elim (rstrip_newline s) [
  | [] ↦ if c == 10 then [] else c ∷ []
  | d ∷ t ↦ c ∷ d ∷ t
]

abbrev pub is_filled : Str → Bool
is_filled [] = false
is_filled (c ∷ s) = true

abbrev pub all_digits : Str → Bool
all_digits [] = true
all_digits (c ∷ s) = is_digit c && all_digits s

-- `(\d+)\.([^:]+):\s*(.*)$`: the number, the field and the value
rsf_field : Str → Option (Str × Str × Str)
unfolding cut
rsf_field s = elim (cut b'.' s) [
  | none ↦ none
  | some (number, t) ↦
      if is_filled number && all_digits number
      then elim (cut b':' t) [
        | none ↦ none
        | some (name, value) ↦ if is_filled name then some (number, name, strip value) else none
      ]
      else none
]

-- `(base|peak)\.` before it
rsf_tuning : Str → Option (Str × Str × Str × Str)
unfolding rsf_field drop_prefix
rsf_tuning s = elim (drop_prefix s (codes "base.")) [
  | some t ↦ Option.map (λ f. (codes "base", f.0, f.1, f.2)) (rsf_field t)
  | none ↦ elim (drop_prefix s (codes "peak.")) [
    | some t ↦ Option.map (λ f. (codes "peak", f.0, f.1, f.2)) (rsf_field t)
    | none ↦ none
  ]
]

-- `pattern.match(line)`: the key, the field and the value
rsf_line : Str → Option (Str × Str × Str)
unfolding rsf_tuning
rsf_line line = elim (drop_prefix line (codes "spec.cpu2006.results.")) [
  | none ↦ none
  | some s ↦ elim (cut b'.' s) [
    | none ↦ none
    | some (bench, t) ↦
        if is_filled bench
        then Option.map (λ f. (bench ++ ((b'.' ∷ f.0) ++ (b'.' ∷ f.1)), f.2, f.3)) (rsf_tuning t)
        else none
  ]
]

abbrev pub Fields : Type 0
Fields = Dict Str Str

-- `raw.setdefault(key, {})[field] = value`
unfoldable pub rsf_raw : Dict Str Fields → List Str → Dict Str Fields
unfolding rsf_line rstrip_newline
rsf_raw raw [] = raw
rsf_raw raw (line ∷ lines) =
    rsf_raw
      (elim (rsf_line (rstrip_newline line)) [
        | none ↦ raw
        | some (key, field, value) ↦ insert key (insert field value (get key [] raw)) raw
      ])
      lines

module _ (F : FloatOps) where
  open F use {Float}

  abbrev pub Results : Type 0
  Results = Dict Str (RunResult Float)

  rsf_row : Fields → Results → Results
  unfolding is_spec_name record_run lookup strip normalize_benchmark_name
  rsf_row row results =
      let bench = normalize_benchmark_name (get (codes "benchmark") [] row) in
      if is_spec_name bench
      then record_run bench (numeric F (lookup (codes "reported_time") row))
          (strip (get (codes "valid") (codes "NR") row)) (strip (get (codes "selected") [] row))
          results
      else results

  -- `for row in raw.values()`
  rsf_rows : Results → Dict Str Fields → Results
  unfolding rsf_row
  rsf_rows results [] = results
  rsf_rows results ((key, row) ∷ raw) = rsf_rows (rsf_row row results) raw

  unfoldable pub parse_runtime_rsf : List Str → Results
  unfolding rsf_rows rsf_raw
  parse_runtime_rsf lines = rsf_rows [] (rsf_raw [] lines)

  -- A file that a path or a pattern gives: a table, or for the suffix ".rsf" its lines.
  pub data Source : Type 0 where
    csv : Table → Source
    rsf : List Str → Source

  -- `results.update(new)`
  unfoldable pub update_results : Results → Results → Results
  update_results results [] = results
  update_results results ((bench, r) ∷ new) = update_results (insert bench r results) new

  -- `parse_runtime_csv` of scripts/spec_sanrazor_summary.py
  unfoldable pub parse_runtime_sources : Results → List Source → Results
  unfolding parse_runtime_rsf runtime_rows update_results
  parse_runtime_sources results [] = results
  parse_runtime_sources results (csv table ∷ sources) =
      parse_runtime_sources (runtime_rows F normalize_benchmark_name (none, results) table).1
        sources
  parse_runtime_sources results (rsf lines ∷ sources) =
      parse_runtime_sources (update_results results (parse_runtime_rsf lines)) sources

  -- `parse_runtime_csv` of scripts/spec_asanmm_summary.py
  unfoldable pub parse_runtime_tables : List Table → Results
  unfolding runtime_tables
  parse_runtime_tables tables = runtime_tables F normalize_benchmark_name [] tables

rsf_line_test :
    rsf_line (codes "spec.cpu2006.results.401_bzip2.base.000.reported_time: 12.5 ")
    ≡ some (codes "401_bzip2.base.000", codes "reported_time", codes "12.5")
unfolding rsf_line strip
rsf_line_test = refl
