-- ===== src/Collect/FilterLaws.antt =====
-- scripts/collect_all_results.py: what the two filters leave. The dictionaries that they build in one
-- pass are compared with what the rows of a project say.
use desan.Prelude.{
  ℕ, suc, ◌+◌, ◌≡◌, refl, ◌∙◌, sym, ap, Bool, false, ◌&&◌, not, List, [], ◌∷◌, Dict, get, lookup,
  update, keys, contains, Key, nat_eq, list_eq, option_eq, pair_eq, ◌==◌, leb, lookup-insert,
  NodupKeys, insert-NodupKeys, Bool-cases, inl, inr, arith, if◌then◌else◌,
}
use desan.Py.Table.{Row}
use desan.Py.Float.{FloatOps}
use desan.Collect.{Project, project_key, is_sanitized, keep_rows, has_negative_overhead_reduction}
use desan.Collect.Filters.{
  negative_counts, removed_negative, filter_projects_with_multiple_negative_reductions,
}

pub keep_rows-ext :
    (f g : Row → Bool) (rows : List Row)
    → ((row : Row) → f row ≡ g row)
    → keep_rows f rows ≡ keep_rows g rows
unfolding keep_rows
keep_rows-ext f g [] h = refl
keep_rows-ext f g (row ∷ rows) h = rw (h row, keep_rows-ext f g rows h)

module _ (F : FloatOps) where
  -- The number of a project's rows with a sanitizer's name and a negative reduction.
  abbrev pub negatives : Project → List Row → ℕ
  negatives key [] = 0
  negatives key (row ∷ rows) =
      let rest = negatives key rows in
      if (is_sanitized row && has_negative_overhead_reduction F row) && project_key row == key
      then suc rest
      else rest

  abbrev bump : Dict Project ℕ → Row → Dict Project ℕ
  bump counts row =
      if is_sanitized row && has_negative_overhead_reduction F row
      then update (project_key row) 0 (λ n. n + 1) counts
      else counts

  get-negative_counts :
      (key : Project) (counts : Dict Project ℕ) (rows : List Row)
      → get key 0 (negative_counts F counts rows) ≡ get key 0 counts + negatives key rows
  unfolding negative_counts
  get-negative_counts key counts [] = omega arith
  get-negative_counts key counts (row ∷ rows) =
      get-negative_counts key (bump counts row) rows
      ∙ elim (Bool-cases (is_sanitized row && has_negative_overhead_reduction F row)) [
        | inl e ↦ elim (Bool-cases (project_key row == key)) [
          | inl k ↦
              rw (e, lookup-insert, k, (Key.same_iff pair_eq (project_key row) key).0 k)
                (omega arith)
          | inr k ↦ rw (e, lookup-insert, k)
        ]
        | inr e ↦ rw e
      ]

  negative_counts-NodupKeys :
      (counts : Dict Project ℕ) (rows : List Row)
      → NodupKeys counts
      → NodupKeys (negative_counts F counts rows)
  unfolding negative_counts
  negative_counts-NodupKeys counts [] u = u
  negative_counts-NodupKeys counts (row ∷ rows) u =
      negative_counts-NodupKeys (bump counts row) rows
        (elim (Bool-cases (is_sanitized row && has_negative_overhead_reduction F row)) [
          | inl e ↦
              rw e
                (insert-NodupKeys (project_key row) (get (project_key row) 0 counts + 1) counts u)
          | inr e ↦ rw e u
        ])

-- A key that is not in a dictionary is none of those that a test picks from it.
module _ {ℓ} {V : Type ℓ} (test : V → Bool) (zero : V) (z : test zero ≡ false) where
  abbrev pub picked : Dict Project V → List Project
  picked [] = []
  picked ((key, v) ∷ d) = let rest = picked d in if test v then key ∷ rest else rest

  contains-picked_absent :
      (key : Project) (d : Dict Project V)
      → contains key (keys d) ≡ false
      → contains key (picked d) ≡ false
  unfolding contains keys
  contains-picked_absent key [] h = refl
  contains-picked_absent key ((j, v) ∷ d) h = ground (arith, contains-picked_absent key d)

  pub contains-picked :
      (key : Project) (d : Dict Project V)
      → NodupKeys d
      → contains key (picked d) ≡ test (get key zero d)
  unfolding contains keys lookup
  contains-picked key [] u = sym z
  contains-picked key ((j, v) ∷ d) (fresh, u) = elim (Bool-cases (j == key)) [
    | inl e ↦ elim (Bool-cases (test v)) [
      | inl t ↦ rw (e, t, e)
      | inr t ↦
          rw (e, t)
            (contains-picked_absent key d (rw (sym ((Key.same_iff pair_eq j key).0 e)) fresh))
    ]
    | inr e ↦ elim (Bool-cases (test v)) [
      | inl t ↦ rw (e, t, e) (contains-picked key d u)
      | inr t ↦ rw (e, t) (contains-picked key d u)
    ]
  ]

removed_negative-picked :
    (counts : Dict Project ℕ) → removed_negative counts ≡ picked (λ n. leb 2 n) 0 refl counts
unfolding removed_negative
removed_negative-picked [] = refl
removed_negative-picked ((key, n) ∷ counts) = rw (removed_negative-picked counts)

module _ (F : FloatOps) where
  start_count :
      (row : Row) (rows : List Row)
      → get (project_key row) 0 (negative_counts F [] rows) ≡ negatives F (project_key row) rows
  unfolding lookup
  start_count row rows = get-negative_counts F (project_key row) [] rows ∙ omega arith

  -- The first filter keeps, in their order, the rows of the projects with fewer than two negative
  -- reductions, and of such a project it keeps all rows.
  pub filter_negative-keep_rows :
      (rows : List Row)
      → (filter_projects_with_multiple_negative_reductions F rows).0
        ≡ keep_rows (λ row. not (leb 2 (negatives F (project_key row) rows))) rows
  unfolding filter_projects_with_multiple_negative_reductions
  filter_negative-keep_rows rows = keep_rows-ext _ _ rows (λ row. ap not (
      ap (contains (project_key row)) (removed_negative-picked (negative_counts F [] rows))
      ∙ contains-picked (λ n. leb 2 n) 0 refl (project_key row) (negative_counts F [] rows)
          (negative_counts-NodupKeys F [] rows tt)
      ∙ ap (leb 2) (start_count row rows)))
