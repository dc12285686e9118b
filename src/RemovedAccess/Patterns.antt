-- ===== src/RemovedAccess/Patterns.antt =====
-- The regular expressions of scripts/sanrazor_removed_access_summary.py.
use desan.Prelude.{not, ℕ, ◌≡◌, refl, Bool, ◌||◌, some, [], ◌∷◌, ◌==◌, nat_eq}
use desan.Py.Text.{codes, is_space, is_digit}
use desan.Py.Regex.{
  Regex, empty, one, many, many_lazy, alt, group, boundary, finish, ◌<>◌, literal, some_of, any,
  is_letter, is_word, match, search,
}

abbrev char : ℕ → Regex
char c = one (λ d. d == c)

-- `[A-Za-z0-9_]`
abbrev is_ascii_word : ℕ → Bool
is_ascii_word c = is_letter c || is_digit c || c == b'_'

-- `[$._-]`
abbrev is_mark : ℕ → Bool
is_mark c = c == b'$' || c == b'.' || c == b'_' || c == b'-'

-- `([A-Za-z$._-][\w$._-]*|\d+)`
abbrev label_name : Regex
label_name = group (
    alt (one (λ c. is_letter c || is_mark c) <> many (λ c. is_word c || is_mark c))
      (some_of is_digit))

abbrev pub ubsan_call_re : Regex
ubsan_call_re = char b'@' <> group (literal (codes "__ubsan_handle_") <> some_of is_ascii_word)

abbrev pub block_re : Regex
block_re = label_name <> char b':' <> many is_space <> alt (char b';' <> many any) empty <> finish

abbrev pub const_branch_re : Regex
const_branch_re =
    boundary
    <> literal (codes "br")
    <> some_of is_space
    <> literal (codes "i1")
    <> some_of is_space
    <> group (alt (literal (codes "true")) (literal (codes "false")))
    <> literal (codes ",")
    <> some_of is_space
    <> literal (codes "label")
    <> some_of is_space
    <> char b'%'
    <> label_name
    <> literal (codes ",")
    <> some_of is_space
    <> literal (codes "label")
    <> some_of is_space
    <> char b'%'
    <> label_name

-- `^(@[^\s=]+)\s*=`, which `search` can find at the start of a line only, as `match` does
abbrev pub global_name_re : Regex
global_name_re =
    group (char b'@' <> some_of (λ c. not (is_space c || c == b'='))) <> many is_space <> char b'='

abbrev pub i8_value_re : Regex
i8_value_re =
    boundary <> literal (codes "i8") <> some_of is_space <> group (some_of is_digit) <> boundary

abbrev pub type_mismatch_call_data_re : Regex
type_mismatch_call_data_re =
    literal (codes "@__ubsan_handle_type_mismatch_v1(")
    <> many_lazy any
    <> char b'*'
    <> some_of is_space
    <> group (char b'@' <> some_of (λ c. is_ascii_word c || c == b'$' || c == b'.' || c == b'-'))
    <> some_of is_space
    <> literal (codes "to")
    <> some_of is_space
    <> literal (codes "i8*")

block_re_test : match block_re (codes "cont.3:      ; preds = %entry") ≡ some (codes "cont.3" ∷ [])
unfolding match
block_re_test = refl

const_branch_re_test :
    search const_branch_re (codes "  br i1 true, label %cont, label %12, !prof !1")
    ≡ some (codes "true" ∷ codes "cont" ∷ codes "12" ∷ [])
unfolding search
const_branch_re_test = refl

type_mismatch_call_data_re_test :
    search type_mismatch_call_data_re
      (codes "call void @__ubsan_handle_type_mismatch_v1(i8* bitcast ({ i8 }* @4 to i8*), i64 %7)")
    ≡ some (codes "@4" ∷ [])
unfolding search
type_mismatch_call_data_re_test = refl
