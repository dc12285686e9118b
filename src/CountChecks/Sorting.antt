-- ===== src/CountChecks/Sorting.antt =====
-- Sorting the counts of scripts/count_sanitizer_checks.py keeps their names, their sums, and the
-- number of entries of a name.
use desan.CountChecks.{List, total_checks, core_checks, insert_item, sort_items, before}
use desan.Prelude.{
  ℕ, ◌+◌, ◌≡◌, refl, ◌∙◌, false, ◌||◌, [], ◌∷◌, Dict, keys, contains, NodupKeys, Key, nat_eq,
  list_eq, ◌==◌, arith, All, inl, inr, Bool-cases, if◌then◌else◌,
}
use desan.Py.Text.{Str, starts_with_any}

total_checks-insert_item :
    (name : Str) (count : ℕ) (items : Dict Str ℕ)
    → total_checks (insert_item (name, count) items) ≡ count + total_checks items
unfolding total_checks insert_item
total_checks-insert_item name count [] = refl
total_checks-insert_item name count ((n, k) ∷ items) =
    elim (Bool-cases (before (n, k) (name, count))) [
      | inl e ↦ rw e (omega (arith, total_checks-insert_item name count items))
      | inr e ↦ rw e
    ]

pub total_checks-sort_items :
    (items : Dict Str ℕ) → total_checks (sort_items items) ≡ total_checks items
unfolding sort_items total_checks
total_checks-sort_items [] = refl
total_checks-sort_items ((name, count) ∷ items) =
    omega
      (arith, total_checks-insert_item name count (sort_items items), total_checks-sort_items items)

abbrev counted : List Str → Str × ℕ → ℕ
counted prefixes (name, count) = if starts_with_any name prefixes then count else 0

core_checks-insert_item :
    (prefixes : List Str) (name : Str) (count : ℕ) (items : Dict Str ℕ)
    → core_checks prefixes (insert_item (name, count) items)
      ≡ counted prefixes (name, count) + core_checks prefixes items
unfolding core_checks insert_item
core_checks-insert_item prefixes name count [] = refl
core_checks-insert_item prefixes name count ((n, k) ∷ items) =
    elim (Bool-cases (before (n, k) (name, count))) [
      | inl e ↦ rw e (omega (arith, core_checks-insert_item prefixes name count items))
      | inr e ↦ rw e
    ]

pub core_checks-sort_items :
    (prefixes : List Str) (items : Dict Str ℕ)
    → core_checks prefixes (sort_items items) ≡ core_checks prefixes items
unfolding sort_items core_checks
core_checks-sort_items prefixes [] = refl
core_checks-sort_items prefixes ((name, count) ∷ items) = omega (
  arith,
  core_checks-insert_item prefixes name count (sort_items items),
  core_checks-sort_items prefixes items,
)

contains-insert_item :
    (j name : Str) (count : ℕ) (items : Dict Str ℕ)
    → contains j (keys (insert_item (name, count) items)) ≡ (name == j || contains j (keys items))
unfolding contains keys insert_item
contains-insert_item j name count [] = refl
contains-insert_item j name count ((n, k) ∷ items) =
    elim (Bool-cases (before (n, k) (name, count))) [
      | inl e ↦ rw (e, contains-insert_item j name count items) (ground arith)
      | inr e ↦ rw e
    ]

contains-sort_items :
    (j : Str) (items : Dict Str ℕ) → contains j (keys (sort_items items)) ≡ contains j (keys items)
unfolding contains keys sort_items
contains-sort_items j [] = refl
contains-sort_items j ((name, count) ∷ items) =
    contains-insert_item j name count (sort_items items) ∙ rw (contains-sort_items j items)

insert_item-NodupKeys :
    (name : Str) (count : ℕ) (items : Dict Str ℕ)
    → contains name (keys items) ≡ false
    → NodupKeys items
    → NodupKeys (insert_item (name, count) items)
unfolding contains keys insert_item
insert_item-NodupKeys name count [] fresh u = (refl, tt)
insert_item-NodupKeys name count ((n, k) ∷ items) fresh (h, u) =
    elim (Bool-cases (before (n, k) (name, count))) [
      | inl e ↦ rw e (
        rw contains-insert_item
            (ground (arith, Key.same_iff list_eq n name, Key.same_iff list_eq name n)),
        insert_item-NodupKeys name count items (ground arith) u,
      )
      | inr e ↦ rw e (fresh, (h, u))
    ]

pub sort_items-NodupKeys : (items : Dict Str ℕ) → NodupKeys items → NodupKeys (sort_items items)
unfolding sort_items
sort_items-NodupKeys [] u = tt
sort_items-NodupKeys ((name, count) ∷ items) (fresh, u) =
    insert_item-NodupKeys name count (sort_items items) (contains-sort_items name items ∙ fresh)
      (sort_items-NodupKeys items u)

-- A predicate of all items.
insert_item-All {ℓ} :
    (P : Str × ℕ → Type ℓ) (x : Str × ℕ) (items : Dict Str ℕ)
    → P x
    → All P items
    → All P (insert_item x items)
unfolding insert_item
insert_item-All P x [] p h = (p, h)
insert_item-All P x (y ∷ ys) p (q, h) = elim (Bool-cases (before y x)) [
  | inl e ↦ rw e (q, insert_item-All P x ys p h)
  | inr e ↦ rw e (p, (q, h))
]

pub sort_items-All {ℓ} :
    (P : Str × ℕ → Type ℓ) (items : Dict Str ℕ) → All P items → All P (sort_items items)
unfolding sort_items
sort_items-All P [] h = h
sort_items-All P (x ∷ xs) (p, h) = insert_item-All P x (sort_items xs) p (sort_items-All P xs h)
