-- ===== src/RemovedAccess/Classify.antt =====
-- `classify_file`, `benchmark_from_path` and `read_summary_removed` of
-- scripts/sanrazor_removed_access_summary.py.
use desan.Prelude.{
  option_eq, ℕ, ◌+◌, Option, none, some, List, [], ◌∷◌, ◌++◌, Dict, get, insert, update, length,
  ltb, nat_eq, list_eq, ◌==◌, if◌then◌else◌,
}
use desan.Prelude.Int.{ℤ, pos}
use desan.Py.Result.{Result, ok, err, ◌>>=◌, PyError, except_value_error}
use desan.Py.Text.{Str, codes}
use desan.Py.Table.{Table, Row, dict_reader, row_get}
use desan.Py.Float.{FloatOps}
use desan.Records.{or_text?}
use desan.CountChecks.{total_checks}
use desan.RemovedAccess.{FileResult}
use desan.RemovedAccess.Ir.{
  Kind, read, write, unknown, Example, detect, parse_blocks, parse_type_mismatch_kinds,
}

abbrev pub kind_name : Kind → Str
kind_name read = codes "READ"
kind_name write = codes "WRITE"
kind_name unknown = codes "UNKNOWN"

-- `counts`, `callees` and `examples`
pub record ClassifyState : Type 0 where
  pub counts : Dict Str ℕ
  pub callees : Dict Str ℕ
  pub examples : List Example

abbrev pub no_detections : ClassifyState
no_detections = record { counts = []; callees = []; examples = [] }

-- `counter[key] += 1`
abbrev pub count_one : Str → Dict Str ℕ → Dict Str ℕ
count_one key counter = update key 0 (λ n. n + 1) counter

abbrev pub count_callee : Str → Dict Str ℕ → Dict Str ℕ
count_callee [] callees = callees
count_callee (c ∷ s) callees = count_one (c ∷ s) callees

abbrev pub add_example : Example → List Example → List Example
add_example e examples = if ltb (length examples) 5 then examples ++ (e ∷ []) else examples

unfoldable pub add_detection : ClassifyState → Example → ClassifyState
add_detection st e = record {
  counts = count_one (kind_name e.kind) st.counts;
  callees = count_callee e.callee st.callees;
  examples = add_example e st.examples;
}

-- `for line in blocks[label]`, and the loop over the labels around it
module _ (blocks : Dict Str (List Str)) (type_kinds : Dict Str ℤ) where
  abbrev pub classify_line : ClassifyState → Option Example → ClassifyState
  classify_line st none = st
  classify_line st (some e) = add_detection st e

  unfoldable pub classify_lines : Str → ClassifyState → List Str → ClassifyState
  unfolding detect add_detection
  classify_lines label st [] = st
  classify_lines label st (line ∷ lines) =
      classify_lines label (classify_line st (detect blocks type_kinds label line)) lines

  unfoldable pub classify_blocks : ClassifyState → List Str → ClassifyState
  unfolding classify_lines
  classify_blocks st [] = st
  classify_blocks st (label ∷ order) =
      classify_blocks (classify_lines label st (get label [] blocks)) order

-- The dict that `classify_file` returns, in parts.
pub record FileReport : Type 0 where
  pub result : FileResult
  pub callees : Dict Str ℕ
  pub examples : List Example

abbrev pub report_of : Str → Str → ClassifyState → FileReport
report_of level bench st = record {
  result = record {
    level = level;
    bench = bench;
    access = record {
      detected = total_checks st.counts;
      read = get (codes "READ") 0 st.counts;
      write = get (codes "WRITE") 0 st.counts;
      unknown = get (codes "UNKNOWN") 0 st.counts;
    };
  };
  callees = st.callees;
  examples = st.examples;
}

unfoldable pub classify_file : Str → Str → List Str → Result FileReport
unfolding parse_blocks parse_type_mismatch_kinds classify_blocks
classify_file level bench ir = do
  let parsed = parse_blocks ir
  type_kinds ← parse_type_mismatch_kinds ir
  ok (report_of level bench (classify_blocks parsed.0 type_kinds no_detections parsed.1))

-- `parts[parts.index("CPU2006") + 1]`, or "unknown" where an exception is caught
abbrev first_or_unknown : List Str → Str
first_or_unknown [] = codes "unknown"
first_or_unknown (part ∷ parts) = part

unfoldable pub benchmark_from_path : List Str → Str
benchmark_from_path [] = codes "unknown"
benchmark_from_path (part ∷ parts) =
    let rest = benchmark_from_path parts in
    if part == codes "CPU2006" then first_or_unknown parts else rest

module _ (F : FloatOps) (to_int : F.Float → Result ℤ) where
  -- `int(float(removed))`, for what `int` makes of a float
  abbrev float_to_int : Option F.Float → Result ℤ
  float_to_int none = err PyError.value_error
  float_to_int (some x) = to_int x

  -- A row's number: 0 where a `ValueError` is caught. `row.get(…) or "0"` makes a `None` "0".
  unfoldable pub removed_of_row : Row → Result ℤ
  unfolding row_get
  removed_of_row row = except_value_error (pos 0) (
      float_to_int
        (F.parse (or_text? (row_get (codes "Removed Checks") (some (codes "0")) row) (codes "0"))))

  unfoldable pub removed_rows : Dict (Option Str) ℤ → List Row → Result (Dict (Option Str) ℤ)
  unfolding removed_of_row
  removed_rows out [] = ok out
  removed_rows out (row ∷ rows) = removed_of_row row >>= λ n.
      removed_rows (insert (row_get (codes "Benchmark") (some []) row) n out) rows

  unfoldable pub read_summary_removed : Option Table → Result (Dict (Option Str) ℤ)
  unfolding removed_rows dict_reader
  read_summary_removed none = ok []
  read_summary_removed (some table) = removed_rows [] (dict_reader table)
