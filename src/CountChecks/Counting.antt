-- ===== src/CountChecks/Counting.antt =====
-- What the loop of scripts/count_sanitizer_checks.py counts: the lines that call a function whose
-- name has the prefix, each by the name of its first call.
use desan.Prelude.{
  ap, ℕ, ◌+◌, ◌≡◌, ◌≢◌, Bool, true, false, Option, none, some, List, [], ◌∷◌, Dict, lookup,
  lookup-insert, insert, get, Key, nat_eq, list_eq, ◌==◌, arith, Bool-cases, Option-cases, inl, inr,
  if◌then◌else◌,
}
use desan.Py.Text.{Str, starts_with}
use desan.CountChecks.{total_checks, count_line, count_lines, call_name}

-- Whether a line calls a function of the given name.
abbrev pub calls : Str → Option Str → Bool
calls name none = false
calls name (some n) = n == name

-- Whether a line calls a function with the prefix.
abbrev pub calls_prefix : Str → Option Str → Bool
calls_prefix prefix none = false
calls_prefix prefix (some n) = starts_with n prefix

-- The number of the lines that pass a test of their call.
unfoldable pub lines_where : (Option Str → Bool) → List Str → ℕ
lines_where test [] = 0
lines_where test (line ∷ lines) = (if test (call_name line) then 1 else 0) + lines_where test lines

total_checks-insert :
    (name : Str) (v : ℕ) (d : Dict Str ℕ)
    → total_checks (insert name v d) + get name 0 d ≡ total_checks d + v
unfolding total_checks insert lookup
total_checks-insert name v [] = omega arith
total_checks-insert name v ((n, k) ∷ d) = elim (Bool-cases (n == name)) [
  | inl e ↦ rw e (omega arith)
  | inr e ↦ rw e (omega (arith, total_checks-insert name v d))
]

total_checks-count_line :
    (prefix : Str) (d : Dict Str ℕ) (line : Str)
    → total_checks (count_line prefix d line)
      ≡ total_checks d + (if calls_prefix prefix (call_name line) then 1 else 0)
unfolding count_line
total_checks-count_line prefix d line = elim (Option-cases (call_name line)) [
  | inl e ↦ rw (e, count_line) (omega arith)
  | inr (name, e) ↦
      rw (e, count_line)
        (elim (Bool-cases (starts_with name prefix)) [
          | inl p ↦ rw p (omega (arith, total_checks-insert name (get name 0 d + 1) d))
          | inr p ↦ rw p (omega arith)
        ])
]

-- The total is the number of the lines whose call has the prefix.
pub total_checks-count_lines :
    (prefix : Str) (d : Dict Str ℕ) (lines : List Str)
    → total_checks (count_lines prefix d lines)
      ≡ total_checks d + lines_where (calls_prefix prefix) lines
unfolding count_lines lines_where
total_checks-count_lines prefix d [] = omega arith
total_checks-count_lines prefix d (line ∷ lines) = omega (
  arith,
  total_checks-count_lines prefix (count_line prefix d line) lines,
  total_checks-count_line prefix d line,
)

other_prefix :
    (n name prefix : Str) → starts_with name prefix ≡ true → starts_with n prefix ≡ false → n ≢ name
other_prefix n name prefix h p e = cc (ap (λ s. starts_with s prefix) e)

get-count_line :
    (prefix name : Str) (d : Dict Str ℕ) (line : Str)
    → starts_with name prefix ≡ true
    → get name 0 (count_line prefix d line)
      ≡ get name 0 d + (if calls name (call_name line) then 1 else 0)
unfolding count_line
get-count_line prefix name d line h = elim (Option-cases (call_name line)) [
  | inl e ↦ rw (e, count_line) (omega arith)
  | inr (n, e) ↦
      rw (e, count_line)
        (elim (Bool-cases (starts_with n prefix)) [
          | inl p ↦
              rw (p, lookup-insert)
                (elim (Bool-cases (n == name)) [
                  | inl q ↦ rw (q, (Key.same_iff list_eq n name).0 q)
                  | inr q ↦ rw q (omega arith)
                ])
          | inr p ↦ rw p (ground (arith, Key.same_iff list_eq n name, other_prefix n name prefix h))
        ])
]

-- The count of a name with the prefix is the number of the lines whose call it is.
pub get-count_lines :
    (prefix name : Str) (d : Dict Str ℕ) (lines : List Str)
    → starts_with name prefix ≡ true
    → get name 0 (count_lines prefix d lines) ≡ get name 0 d + lines_where (calls name) lines
unfolding count_lines lines_where
get-count_lines prefix name d [] h = omega arith
get-count_lines prefix name d (line ∷ lines) h = omega (
  arith,
  get-count_lines prefix name (count_line prefix d line) lines h,
  get-count_line prefix name d line h,
)
