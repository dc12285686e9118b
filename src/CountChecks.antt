-- ===== src/CountChecks.antt =====
-- scripts/count_sanitizer_checks.py: the calls of sanitizer functions in the text of an LLVM module,
-- counted by name. The regular expression `CALL_RE` is the matcher `call_name`.
pub mod Sorting
pub mod Counting
pub mod Names
use desan.Prelude.{
  ℕ, ◌+◌, ◌≡◌, refl, Bool, true, false, ◌&&◌, ◌||◌, Option, none, some, List, [], ◌∷◌, ◌++◌, Dict,
  update, nat_eq, list_eq, ◌==◌, ltb, leb, if◌then◌else◌,
}
use desan.Prelude.Int.{pos}
use desan.Py.Result.{Result, ok, err, ◌>>=◌, PyError}
use desan.Py.Text.{Str, codes, starts_with, starts_with_any, after_first, is_digit}
use desan.Py.Number.{show}
use desan.Py.Float.{FloatOps}

-- `CORE_PREFIXES.get(kind, ())`
abbrev pub core_prefixes : Str → List Str
core_prefixes kind =
    if kind == codes "asan"
    then codes "__asan_report_load"
      ∷ codes "__asan_report_store"
      ∷ codes "__asan_load"
      ∷ codes "__asan_store"
      ∷ []
    else if kind == codes "ubsan"
    then codes "__ubsan_handle_type_mismatch_v1"
      ∷ codes "__ubsan_handle_pointer_overflow"
      ∷ codes "__ubsan_handle_out_of_bounds"
      ∷ codes "__ubsan_handle_shift_out_of_bounds"
      ∷ []
    else if kind == codes "msan"
    then codes "__msan_warning"
      ∷ codes "__msan_param_"
      ∷ codes "__msan_retval_"
      ∷ codes "__msan_va_arg_"
      ∷ []
    else []

-- `kind.lower()`
unfoldable pub lower : Str → Str
lower [] = []
lower (c ∷ s) = (if leb b'A' c && leb c b'Z' then c + 32 else c) ∷ lower s

unfoldable pub sanitizer_prefix : Str → Str
unfolding lower
sanitizer_prefix kind =
    let k = lower kind in
    if k == codes "asan" || k == codes "address"
    then codes "__asan_"
    else if k == codes "ubsan" || k == codes "undefined"
    then codes "__ubsan_"
    else if k == codes "msan" || k == codes "memory"
    then codes "__msan_"
    else codes "__"

unfoldable pub sanitizer_label : Str → Str
unfolding lower
sanitizer_label kind =
    let k = lower kind in
    if k == codes "asan" || k == codes "address"
    then codes "ASan"
    else if k == codes "ubsan" || k == codes "undefined"
    then codes "UBSan"
    else if k == codes "msan" || k == codes "memory"
    then codes "MemSan"
    else k

unfoldable pub normalize_kind : Str → Str
unfolding lower
normalize_kind kind =
    let k = lower kind in
    if k == codes "address"
    then codes "asan"
    else if k == codes "undefined"
    then codes "ubsan"
    else if k == codes "memory"
    then codes "msan"
    else k

abbrev pub is_letter : ℕ → Bool
is_letter c = (leb b'A' c && leb c b'Z') || (leb b'a' c && leb c b'z')

-- `\w`
abbrev pub is_word_char : ℕ → Bool
is_word_char c = is_letter c || is_digit c || c == b'_'

-- `[A-Za-z0-9_.$]`
abbrev pub is_name_char : ℕ → Bool
is_name_char c = is_word_char c || c == b'.' || c == b'$'

-- The text behind a prefix, if it begins with it.
unfoldable pub drop_prefix : Str → Str → Option Str
drop_prefix s [] = some s
drop_prefix [] (p ∷ ps) = none
drop_prefix (c ∷ s) (p ∷ ps) = if c == p then drop_prefix s ps else none

unfoldable pub take_name : Str → Str
take_name [] = []
take_name (c ∷ s) = if is_name_char c then c ∷ take_name s else []

-- `([A-Za-z_][A-Za-z0-9_.$]*)`
unfoldable pub callee : Str → Option Str
unfolding take_name
callee [] = none
callee (c ∷ s) = if is_letter c || c == b'_' then some (c ∷ take_name s) else none

-- `\b[^@]*@`, then the callee. `[^@]*` can only end at the first `@`.
unfoldable pub behind_keyword : Str → Option Str
unfolding callee after_first
behind_keyword [] = none
behind_keyword (c ∷ s) =
    if is_word_char c
    then none
    else elim (after_first b'@' (c ∷ s)) [ none ↦ none | some t ↦ callee t ]

-- The match at a position. The flag says whether a word character stands before it.
unfoldable pub call_here : Bool → Str → Option Str
unfolding behind_keyword drop_prefix
call_here true s = none
call_here false s = elim (drop_prefix s (codes "call")) [
  | some t ↦ behind_keyword t
  | none ↦ elim (drop_prefix s (codes "invoke")) [ some t ↦ behind_keyword t | none ↦ none ]
]

unfoldable pub call_from : Bool → Str → Option Str
unfolding call_here
call_from prev [] = none
call_from prev (c ∷ s) = elim (call_here prev (c ∷ s)) [
  | some name ↦ some name
  | none ↦ call_from (is_word_char c) s
]

-- `CALL_RE.search(line)`, with the group of the match
unfoldable pub call_name : Str → Option Str
unfolding call_from
call_name line = call_from false line

-- The body of the loop over the lines.
unfoldable pub count_line : Str → Dict Str ℕ → Str → Dict Str ℕ
unfolding call_name
count_line prefix counts line = elim (call_name line) [
  | none ↦ counts
  | some name ↦ if starts_with name prefix then update name 0 (λ n. n + 1) counts else counts
]

unfoldable pub count_lines : Str → Dict Str ℕ → List Str → Dict Str ℕ
unfolding count_line
count_lines prefix counts [] = counts
count_lines prefix counts (line ∷ lines) = count_lines prefix (count_line prefix counts line) lines

-- `sum(counts.values())`
unfoldable pub total_checks : Dict Str ℕ → ℕ
total_checks [] = 0
total_checks ((name, count) ∷ counts) = count + total_checks counts

unfoldable pub core_checks : List Str → Dict Str ℕ → ℕ
core_checks prefixes [] = 0
core_checks prefixes ((name, count) ∷ counts) =
    (if starts_with_any name prefixes then count else 0) + core_checks prefixes counts

-- The order of texts by code points.
unfoldable pub str_lt : Str → Str → Bool
str_lt s [] = false
str_lt [] (d ∷ t) = true
str_lt (c ∷ s) (d ∷ t) = ltb c d || (c == d && str_lt s t)

-- `key=lambda item: (-item[1], item[0])`: whether the first item's key is the smaller.
unfoldable pub before : Str × ℕ → Str × ℕ → Bool
unfolding str_lt
before (name, count) (name', count') = ltb count' count || (count == count' && str_lt name name')

unfoldable pub insert_item : Str × ℕ → Dict Str ℕ → Dict Str ℕ
insert_item x [] = x ∷ []
insert_item x (y ∷ ys) = if before y x then y ∷ insert_item x ys else x ∷ y ∷ ys

-- `sorted(counts.items(), key=…)`. The keys of two items differ, so no order of equals is lost.
unfoldable pub sort_items : Dict Str ℕ → Dict Str ℕ
unfolding insert_item before
sort_items [] = []
sort_items (x ∷ xs) = insert_item x (sort_items xs)

-- `print(…)` ends a line by a newline.
abbrev pub line_of : Str → Str
line_of s = s ++ (10 ∷ [])

module _ (F : FloatOps) where
  -- `ratio = (count / total * 100.0) if total else 0.0`
  unfoldable pub ratio : ℕ → ℕ → Result F.Float
  ratio count total = if total == 0 then ok F.zero else elim (F.int_div (pos count) (pos total)) [
    | none ↦ err PyError.zero_division_error
    | some q ↦ ok (F.mul q F.hundred)
  ]

  unfoldable pub print_items : ℕ → Dict Str ℕ → Result (List Str)
  unfolding ratio
  print_items total [] = ok []
  print_items total ((name, count) ∷ items) = do
    r ← ratio count total
    rest ← print_items total items
    ok (
        line_of (codes "Check Type: " ++ name)
        ∷ line_of (codes "Count: " ++ show count)
        ∷ line_of (codes "Ratio: " ++ F.show_fixed 2 r ++ codes "%")
        ∷ rest)

  -- What `main` prints for the counts, with `path` and the command line's `--sanitizer`. Each `print`
  -- is one line of the log: a path with a line end in it is left out of the model.
  unfoldable pub print_summary : Str → Str → Dict Str ℕ → Result (List Str)
  unfolding print_items
  print_summary sanitizer path counts = do
    let kind = normalize_kind sanitizer
    items ← print_items (total_checks counts) (sort_items counts)
    ok (
        line_of (codes "DESAN Sanitizer Check Count Summary")
        ∷ line_of (codes "Input: " ++ path)
        ∷ line_of (codes "Total Checks: " ++ show (total_checks counts))
        ∷ line_of (codes "Core Checks: " ++ show (core_checks (core_prefixes kind) counts))
        ∷ line_of (codes "Sanitizer: " ++ sanitizer_label kind)
        ∷ items)

  -- `main` on the lines of the input file.
  unfoldable pub main : Str → Str → List Str → Result (List Str)
  unfolding print_summary count_lines
  main sanitizer path lines =
      print_summary sanitizer path
        (count_lines (sanitizer_prefix (normalize_kind sanitizer)) [] lines)

call_name_tests :
    (call_name (codes "  call void @__asan_report_load4(i64 %5)")
      ≡ some (codes "__asan_report_load4"))
    × (call_name (codes "  %3 = tail call.x i32 @f.$1(i8* @g)") ≡ some (codes "f.$1"))
    × (call_name (codes "  recall @f invoke void %p(i32 1) @4") ≡ none)
unfolding call_name
call_name_tests = (refl, refl, refl)
