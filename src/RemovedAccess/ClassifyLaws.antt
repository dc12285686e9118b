-- ===== src/RemovedAccess/ClassifyLaws.antt =====
-- What `classify_file` counts: the disabled handlers of a module.
use desan.Prelude.{◌+◌, ◌≡◌, refl, ◌∙◌, List, Dict, lookup, length, nat_eq, list_eq, arith}
use desan.Prelude.Int.{ℤ}
use desan.Py.Result.{ok}
use desan.Py.Text.{Str}
use desan.CountChecks.{total_checks}
use desan.RemovedAccess.{Access}
use desan.RemovedAccess.Ir.{read, write, unknown, Example, parse_blocks, parse_type_mismatch_kinds}
use desan.RemovedAccess.Classify.{no_detections, FileReport, report_of, classify_file}
use desan.RemovedAccess.Detections.{
  detections, of_kind, first_of, add_all, total-add_all, get-add_all, examples-add_all, of_kind-sum,
  classify_blocks-detections,
}

-- A counter of accesses is balanced if what is detected is read, written or of an unknown kind.
abbrev pub IsBalanced : Access → Type 0
IsBalanced a = a.detected ≡ a.read + a.write + a.unknown

-- What a report says of the detections of a module.
pub record Reports (es : List Example) (report : FileReport) : Type 0 where
  pub total : report.result.access.detected ≡ length es
  pub reads : report.result.access.read ≡ of_kind read es
  pub writes : report.result.access.write ≡ of_kind write es
  pub unknowns : report.result.access.unknown ≡ of_kind unknown es
  pub first_five : report.examples ≡ first_of 5 es

pub Reports-IsBalanced :
    (es : List Example) (report : FileReport) → Reports es report → IsBalanced report.result.access
Reports-IsBalanced es report r =
    omega (arith, r.total, r.reads, r.writes, r.unknowns, of_kind-sum es)

start-Reports :
    (level bench : Str) (es : List Example)
    → let st = add_all no_detections es in Reports es (report_of level bench st)
unfolding total_checks lookup
start-Reports level bench es = record {
  total = total-add_all no_detections es ∙ omega arith;
  reads = get-add_all read no_detections es ∙ omega arith;
  writes = get-add_all write no_detections es ∙ omega arith;
  unknowns = get-add_all unknown no_detections es ∙ omega arith;
  first_five = examples-add_all 5 no_detections es refl;
}

-- If the kinds of a module's globals are read, then its classification returns, and counts its
-- disabled handlers: in total, by kind, and with the first five as examples.
pub classify_file-Reports :
    (level bench : Str) (ir : List Str) (kinds : Dict Str ℤ)
    → parse_type_mismatch_kinds ir ≡ ok kinds
    → let parsed = parse_blocks ir in
      (report : FileReport) × (classify_file level bench ir ≡ ok report)
      × Reports (detections parsed.0 kinds parsed.1) report
unfolding classify_file
classify_file-Reports level bench ir kinds h =
    let parsed = parse_blocks ir in
    let es = detections parsed.0 kinds parsed.1 in
    (
      report_of level bench (add_all no_detections es),
      rw (h, classify_blocks-detections parsed.0 kinds no_detections parsed.1),
      start-Reports level bench es,
    )
