-- ===== src/CheckLog/Lines.antt =====
-- What `check_step` makes of each line that scripts/count_sanitizer_checks.py prints.
use desan.CountChecks.Names.{IsName}
use desan.Prelude.{
  ◌||◌, ℕ, ◌≡◌, refl, false, none, some, [], ◌∷◌, ◌++◌, Dict, lookup, insert, nat_eq, list_eq, ◌==◌,
  arith,
}
use desan.Py.Text.{is_space, Str, codes, strip, starts_with, after_first, last_word}
use desan.Prelude.Int.{ℤ, pos, zero-add}
use desan.Py.Result.{ok}
use desan.Py.Text.Laws.{strip_line, strip-cons, after_last-append_word, strip-space_word}
use desan.Py.Number.{show}
use desan.Py.Number.Laws.{int-show, show-IsWord, show-ne-nil}
use desan.CheckLog.{CheckState, check_step}
use desan.CountChecks.{line_of}

abbrev pub to_int : Dict Str ℕ → Dict Str ℤ
to_int [] = []
to_int ((name, count) ∷ items) = (name, pos count) ∷ to_int items

pub last_word_number : (s : Str) (n : ℕ) → last_word (s ++ (32 ∷ show n)) ≡ ok (show n)
unfolding last_word
last_word_number s n = rw (after_last-append_word s (show n) (show-IsWord n))

pub step_total :
    (st : CheckState) (n : ℕ)
    → check_step st (strip (line_of (codes "Total Checks: " ++ show n)))
      ≡ ok (record st { total = pos n })
unfolding check_step starts_with
step_total st n = rw (
  strip_line b'T' (codes "otal Checks: ") (show n) refl (show-IsWord n) (show-ne-nil n),
  last_word_number (codes "Total Checks:") n,
  int-show n,
)

pub step_type :
    (st : CheckState) (name : Str) (count : ℕ)
    → IsName (name, count)
    → check_step st (strip (line_of (codes "Check Type: " ++ name)))
      ≡ ok (record st { current_type = some name })
unfolding check_step starts_with after_first
step_type st name count h =
    rw (
      strip_line b'C' (codes "heck Type: ") name refl h.word h.filled,
      strip-space_word name h.word,
    )

pub step_count :
    (st : CheckState) (name : Str) (count : ℕ)
    → IsName (name, count)
    → lookup name st.counts ≡ none
    → check_step
        (record st { current_type = some name })
        (strip (line_of (codes "Count: " ++ show count)))
      ≡ ok (record st { counts = insert name (pos count) st.counts; current_type = none })
unfolding check_step starts_with
step_count st [] count h fresh = absurd (h.filled refl)
step_count st (c ∷ name) count h fresh = rw (
  strip_line b'C' (codes "ount: ") (show count) refl (show-IsWord count) (show-ne-nil count),
  last_word_number (codes "Count:") count,
  int-show count,
  fresh,
  zero-add count,
)

pub step_ratio :
    (st : CheckState) (r : Str) → check_step st (strip (line_of (codes "Ratio: " ++ r))) ≡ ok st
unfolding check_step starts_with
step_ratio st r = rw (strip-cons b'R' (codes "atio: " ++ r ++ (10 ∷ [])) refl)

pub step_core :
    (st : CheckState) (n : ℕ)
    → check_step st (strip (line_of (codes "Core Checks: " ++ show n))) ≡ ok st
unfolding check_step starts_with
step_core st n =
    rw (strip_line b'C' (codes "ore Checks: ") (show n) refl (show-IsWord n) (show-ne-nil n))

-- A line that begins with neither of the letters that count.
pub step_other :
    (st : CheckState) (c : ℕ) (s : Str)
    → is_space c ≡ false
    → (c == b'T' || c == b'C') ≡ false
    → check_step st (strip (line_of (c ∷ s))) ≡ ok st
unfolding check_step starts_with
step_other st c s h other = rw (strip-cons c (s ++ (10 ∷ [])) h) (ground arith)
