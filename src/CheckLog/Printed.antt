-- ===== src/CheckLog/Printed.antt =====
-- The log that scripts/count_sanitizer_checks.py prints, as the `parse_check_log` of the two ASAN--
-- summaries reads it.
use desan.CountChecks.Names.{IsName}
use desan.CheckLog.Lines.{
  to_int, step_total, step_type, step_count, step_ratio, step_core, step_other,
}
use mathlib.Core.List.{append-nil, append_assoc}
use desan.Prelude.{
  lookup-insert, Bool-cases, inl, inr, insert-fresh, ℕ, ◌≡◌, refl, ◌∙◌, ap, false, none, List, [],
  ◌∷◌, ◌++◌, Dict, keys, contains, lookup, insert, NodupKeys, Key, nat_eq, list_eq, ◌==◌, arith,
  All, if◌then◌else◌,
}
use desan.Prelude.Int.{ℤ, pos, is_zero, pos-add}
use desan.Py.Result.{ok}
use desan.Py.Text.{Str, codes, starts_with_any}
use desan.Py.Number.{show}
use desan.Py.Float.{FloatOps, IsIeee}
use desan.CheckLog.{
  CheckState, start, check_loop, sum_values, check_result, parse_check_lines, sum_prefix,
}
use desan.CountChecks.{
  total_checks, core_checks, sort_items, line_of, ratio, print_items, print_summary, core_prefixes,
  normalize_kind, sanitizer_label,
}
use desan.CountChecks.Sorting.{
  total_checks-sort_items, core_checks-sort_items, sort_items-NodupKeys, sort_items-All,
}

-- No name of the items is in the dictionary.
abbrev IsFresh : Dict Str ℤ → Dict Str ℕ → Type 0
IsFresh d items = All (λ (item : Str × ℕ). lookup item.0 d ≡ none) items

insert-IsFresh :
    (items : Dict Str ℕ) (name : Str) (v : ℤ) (d : Dict Str ℤ)
    → contains name (keys items) ≡ false
    → IsFresh d items
    → IsFresh (insert name v d) items
unfolding contains keys
insert-IsFresh [] name v d other fresh = tt
insert-IsFresh ((n, count) ∷ items) name v d other (h, fresh) = (
  rw lookup-insert (ground (arith, Key.same_iff list_eq n name, Key.same_iff list_eq name n)),
  insert-IsFresh items name v d (ground arith) fresh,
)

module _ (F : FloatOps) (ieee : IsIeee F) where
  ratio-eq-ok : (count total : ℕ) → (r : F.Float) × (ratio F count total ≡ ok r)
  unfolding ratio
  ratio-eq-ok count total = elim (Bool-cases (total == 0)) [
    | inl e ↦ (F.zero, rw e)
    | inr e ↦
        let (q, h) = ieee.int_div-total (pos count) (pos total) (ground arith) in
        (F.mul q F.hundred, rw (e, h))
  ]

  -- The items are printed, and read back behind what was read before them.
  read_items :
      (total : ℕ) (items : Dict Str ℕ) (t : ℤ) (d : Dict Str ℤ)
      → All IsName items
      → NodupKeys items
      → IsFresh d items
      → (lines : List Str) × (print_items F total items ≡ ok lines)
        × (check_loop (record { total = t; counts = d; current_type = none }) lines
            ≡ ok (record { total = t; counts = d ++ to_int items; current_type = none }))
  unfolding print_items check_loop
  read_items total [] t d names u fresh = ([], refl, rw append-nil)
  read_items total ((name, count) ∷ items) t d (h, names) (new, u) (absent, fresh) =
      let st : CheckState = record { total = t; counts = d; current_type = none } in
      let (r, ratio_ok) = ratio-eq-ok count total in
      let (lines, printed, read) =
        read_items total items t (insert name (pos count) d) names u
          (insert-IsFresh items name (pos count) d new fresh) in
      (
        line_of (codes "Check Type: " ++ name)
            ∷ line_of (codes "Count: " ++ show count)
            ∷ line_of (codes "Ratio: " ++ F.show_fixed 2 r ++ codes "%")
            ∷ lines,
        rw (ratio_ok, printed),
        rw (
          step_type st name count h,
          step_count st name count h absent,
          step_ratio (record st { counts = insert name (pos count) d })
              (F.show_fixed 2 r ++ codes "%"),
          read,
          insert-fresh name (pos count) d absent,
          append_assoc,
        ),
      )

  -- The five lines above the items.
  read_header :
      (path label : Str) (total core : ℕ) (lines : List Str)
      → check_loop start (
          line_of (codes "DESAN Sanitizer Check Count Summary")
          ∷ line_of (codes "Input: " ++ path)
          ∷ line_of (codes "Total Checks: " ++ show total)
          ∷ line_of (codes "Core Checks: " ++ show core)
          ∷ line_of (codes "Sanitizer: " ++ label)
          ∷ lines)
        ≡ check_loop (record start { total = pos total }) lines
  unfolding check_loop
  read_header path label total core lines = rw (
    step_other start b'D' (codes "ESAN Sanitizer Check Count Summary") refl refl,
    step_other start b'I' (codes "nput: " ++ path) refl refl,
    step_total start total,
    step_core (record start { total = pos total }) core,
    step_other (record start { total = pos total }) b'S' (codes "anitizer: " ++ label) refl refl,
  )

to_int-sum : (items : Dict Str ℕ) → sum_values (to_int items) ≡ pos (total_checks items)
unfolding sum_values total_checks
to_int-sum [] = refl
to_int-sum ((name, count) ∷ items) = rw (to_int-sum items) (pos-add count (total_checks items))

to_int-sum_prefix :
    (prefixes : List Str) (items : Dict Str ℕ)
    → sum_prefix (to_int items) prefixes ≡ pos (core_checks prefixes items)
unfolding sum_prefix core_checks
to_int-sum_prefix prefixes [] = refl
to_int-sum_prefix prefixes ((name, count) ∷ items) =
    rw (to_int-sum_prefix prefixes items) (elim (Bool-cases (starts_with_any name prefixes)) [
      | inl e ↦ rw e (pos-add count (core_checks prefixes items))
      | inr e ↦ rw e (pos-add 0 (core_checks prefixes items))
    ])

result_total :
    (counts : Dict Str ℤ) (total : ℕ)
    → sum_values counts ≡ pos total
    → (if is_zero (pos total) then sum_values counts else pos total) ≡ pos total
unfolding is_zero
result_total counts total h = ground arith

IsFresh-nil : (items : Dict Str ℕ) → IsFresh [] items
unfolding lookup
IsFresh-nil [] = tt
IsFresh-nil (item ∷ items) = (refl, IsFresh-nil items)

-- With IEEE floats, and for counts of distinct names without white space, the program that counts
-- prints a summary, whatever the sanitizer and the path are. `parse_check_log` reads from it the
-- total and the counts in printed order, and `sum_prefix` gives the same sum over any prefixes as
-- the program's own count of the core checks gives for them.
pub parse-print_summary :
    (F : FloatOps) (sanitizer path : Str) (prefixes : List Str) (counts : Dict Str ℕ)
    → IsIeee F
    → All IsName counts
    → NodupKeys counts
    → (lines : List Str) × (print_summary F sanitizer path counts ≡ ok lines)
      × (parse_check_lines lines ≡ ok (pos (total_checks counts), to_int (sort_items counts)))
      × (sum_prefix (to_int (sort_items counts)) prefixes ≡ pos (core_checks prefixes counts))
unfolding print_summary parse_check_lines check_result
parse-print_summary F sanitizer path prefixes counts ieee names u =
    let kind : Str = normalize_kind sanitizer in
    let total : ℕ = total_checks counts in
    let core : ℕ = core_checks (core_prefixes kind) counts in
    let items : Dict Str ℕ = sort_items counts in
    let (lines, printed, read) =
      read_items F ieee total items (pos total) [] (sort_items-All IsName counts names)
        (sort_items-NodupKeys counts u) (IsFresh-nil items) in
    (
      line_of (codes "DESAN Sanitizer Check Count Summary")
          ∷ line_of (codes "Input: " ++ path)
          ∷ line_of (codes "Total Checks: " ++ show total)
          ∷ line_of (codes "Core Checks: " ++ show core)
          ∷ line_of (codes "Sanitizer: " ++ sanitizer_label kind)
          ∷ lines,
      rw printed,
      rw (read_header F ieee path (sanitizer_label kind) total core lines, read)
          (ap (λ t. ok (t, to_int items))
            (result_total (to_int items) total
              (to_int-sum items ∙ ap pos (total_checks-sort_items counts)))),
      to_int-sum_prefix prefixes items ∙ ap pos (core_checks-sort_items prefixes counts),
    )
