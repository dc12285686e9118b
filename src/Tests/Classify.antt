-- ===== src/Tests/Classify.antt =====
-- The classification of a small module in which SanRazor has disabled a check.
use desan.RemovedAccess.RepeatLaws.{last_lines, last_detections, parse_blocks-last_lines}
use desan.RemovedAccess.Ir.{
  Example, Kind, detect, block_label, parse_blocks, parse_type_mismatch_kinds,
}
use desan.Prelude.{
  get, some, none, ◌≡◌, refl, List, [], ◌∷◌, Dict, All, none, nat_eq, list_eq, list_beq, insert,
  lookup,
}
use desan.Prelude.Int.{ℤ, pos}
use desan.Py.Result.{ok}
use desan.Py.Text.{Str, codes, starts_with, strip}
use desan.Py.Number.{int}
use desan.RemovedAccess.{AccessRow, main}
use desan.RemovedAccess.Classify.{FileReport, classify_file}
use desan.RemovedAccess.Detections.{detections}
use desan.RemovedAccess.ClassifyLaws.{Reports, classify_file-Reports}
use desan.RemovedAccess.BlockLaws.{
  Block, Fresh, print_blocks, table_of, labels_of, parse_blocks-print_blocks,
}
use desan.RemovedAccess.Balance.{IsBalancedRow, main-IsBalanced}
use desan.Tests.Floats.{whole, whole-IsIeee}
use desan.Tests.RemovedAccess.{file, reported, of_int, of_int-KeepsNonzero}

abbrev global_line : Str
global_line = codes "@4 = private global { i32, i8, i8 } { i32 7, i8 2, i8 1 }"

abbrev call_line : Str
call_line =
    codes "  call void @__ubsan_handle_type_mismatch_v1(i8* bitcast ({ i32 }* @4 to i8*), i64 %7)"

abbrev branch_line : Str
branch_line = codes "  br i1 true, label %cont, label %handler, !sanitycheck !1"

entry_label : block_label (codes "entry:") ≡ some (codes "entry")
unfolding block_label
entry_label = refl

handler_label : block_label (codes "handler:  ; preds = %entry") ≡ some (codes "handler")
unfolding block_label
handler_label = refl

plain_lines :
    (block_label branch_line ≡ none)
    × (block_label call_line ≡ none)
    × (block_label (codes "  ret void") ≡ none)
unfolding block_label
plain_lines = (refl, refl, refl)

abbrev entry : Block
entry = record {
  header = codes "entry:";
  label = codes "entry";
  lines = branch_line ∷ [];
  labelled = entry_label;
  plain = (plain_lines.0, tt);
}

abbrev handler : Block
handler = record {
  header = codes "handler:  ; preds = %entry";
  label = codes "handler";
  lines = call_line ∷ [];
  labelled = handler_label;
  plain = (plain_lines.1, tt);
}

blocks-Fresh : Fresh [] (entry ∷ handler ∷ [])
unfolding lookup list_beq
blocks-Fresh = (refl, (refl, tt))

parse_blocks-print_blocks_example :
    parse_blocks (print_blocks (entry ∷ handler ∷ []))
    ≡ (table_of (entry ∷ handler ∷ []), labels_of (entry ∷ handler ∷ []))
parse_blocks-print_blocks_example = parse_blocks-print_blocks (entry ∷ handler ∷ []) blocks-Fresh

abbrev ir : List Str
ir = global_line ∷ codes "entry:" ∷ branch_line ∷ codes "handler:" ∷ call_line ∷ []

abbrev kinds : Dict Str ℤ
kinds = (codes "@4", pos 1) ∷ []

ir-kinds : parse_type_mismatch_kinds ir ≡ ok kinds
unfolding parse_type_mismatch_kinds int strip insert starts_with
ir-kinds = refl

classify_file-Reports_example :
    (report : FileReport) × (classify_file (codes "L1") (codes "470.lbm") ir ≡ ok report)
    × Reports (detections (parse_blocks ir).0 kinds (parse_blocks ir).1) report
classify_file-Reports_example =
    classify_file-Reports (codes "L1") (codes "470.lbm") ir kinds ir-kinds

abbrev second_entry : Block
second_entry = record {
  header = codes "entry:";
  label = codes "entry";
  lines = codes "  ret void" ∷ [];
  labelled = entry_label;
  plain = (plain_lines.2, tt);
}

abbrev written : Example
written = record {
  block = codes "entry";
  disabled_block = codes "handler";
  kind = Kind.write;
  callee = codes "__ubsan_handle_type_mismatch_v1";
}

-- A function that only returns, and one whose check has been disabled: both begin with `entry`.
abbrev functions : List Block
functions = second_entry ∷ entry ∷ handler ∷ []

parse_blocks-last_lines_example :
    ((parse_blocks (print_blocks functions)).1 ≡ labels_of functions)
    × ((label : Str)
        → get label [] (parse_blocks (print_blocks functions)).0 ≡ last_lines label functions [])
    × (detections
          (parse_blocks (print_blocks functions)).0
          kinds
          (parse_blocks (print_blocks functions)).1
        ≡ last_detections (parse_blocks (print_blocks functions)).0 kinds functions functions)
parse_blocks-last_lines_example = parse_blocks-last_lines kinds functions

-- The one disabled check of the two functions is detected twice.
twice_test :
    detections
      (parse_blocks (print_blocks functions)).0
      kinds
      (parse_blocks (print_blocks functions)).1
    ≡ written ∷ written ∷ []
unfolding parse_blocks insert list_beq starts_with lookup detect
twice_test = refl

main-IsBalanced_example :
    (rows : List AccessRow) × (main whole of_int reported
        (codes "L1" ∷ [])
        (file (codes "470.lbm") ∷ [])
      ≡ ok rows)
    × All IsBalancedRow rows
main-IsBalanced_example =
    main-IsBalanced whole of_int whole-IsIeee of_int-KeepsNonzero reported (codes "L1" ∷ [])
      (file (codes "470.lbm") ∷ []) (refl, tt)
