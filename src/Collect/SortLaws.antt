-- ===== src/Collect/SortLaws.antt =====
-- scripts/collect_all_results.py: the order of the rows in the table.
use desan.Prelude.{
  ℕ, suc, ◌<◌, ◌≤◌, ◌⊎◌, ltb, Option, if◌then◌else◌, ◌≡◌, sym, refl, ap, ◌∙◌, true, false, List, [],
  ◌∷◌, Key, nat_eq, list_eq, pair_eq, ◌==◌, All, Bool-cases, inl, inr, arith,
}
use desan.Py.Text.{Str, codes}
use desan.Py.Table.{Row}
use desan.CountChecks.{str_lt}
use desan.Summary.Names.{str_lt_irrefl}
use desan.Collect.{keep_rows, sanitizer_of}
use desan.Records.{field, is_text, or_text?}
use desan.Collect.Sorting.{SortKey, sort_key, key_lt, insert_row, sort_rows}

instance abbrev pub sort_key_eq : Key SortKey
sort_key_eq = pair_eq ⦃d = nat_eq⦄ ⦃e = pair_eq ⦃d = list_eq⦄ ⦃e = nat_eq⦄⦄

str_le_trans : (a b c : Str) → str_lt b a ≡ false → str_lt c b ≡ false → str_lt c a ≡ false
unfolding str_lt
str_le_trans [] b c h k = refl
str_le_trans (x ∷ a) [] c h k = cc
str_le_trans (x ∷ a) (y ∷ b) [] h k = cc
str_le_trans (x ∷ a) (y ∷ b) (z ∷ c) h k = ground (arith, str_le_trans a b c)

str_lt_asym : (a b : Str) → str_lt a b ≡ true → str_lt b a ≡ false
unfolding str_lt
str_lt_asym a [] h = cc
str_lt_asym [] (y ∷ b) h = refl
str_lt_asym (x ∷ a) (y ∷ b) h = ground (arith, str_lt_asym a b)

-- Two texts of which neither is the smaller are equal.
str_lt_antisym : (a b : Str) → str_lt a b ≡ false → str_lt b a ≡ false → a ≡ b
unfolding str_lt
str_lt_antisym [] [] h k = refl
str_lt_antisym [] (y ∷ b) h k = cc
str_lt_antisym (x ∷ a) [] h k = cc
str_lt_antisym (x ∷ a) (y ∷ b) h k = ground (arith, str_lt_antisym a b)

key_le_trans : (a b c : SortKey) → key_lt b a ≡ false → key_lt c b ≡ false → key_lt c a ≡ false
unfolding key_lt
key_le_trans (g, (s, n)) (g', (s', n')) (g'', (s'', n'')) h k = ground (
  arith,
  str_le_trans s s' s'',
  str_lt_antisym s s',
  str_lt_antisym s' s'',
  str_lt_irrefl s,
  Key.same_iff list_eq s s',
  Key.same_iff list_eq s' s'',
  Key.same_iff list_eq s'' s,
  Key.same_iff list_eq s' s,
  Key.same_iff list_eq s'' s',
)

key_lt_asym : (a b : SortKey) → key_lt a b ≡ true → key_lt b a ≡ false
unfolding key_lt
key_lt_asym (g, (s, n)) (g', (s', n')) h =
    ground (
      arith,
      str_lt_asym s s',
      str_lt_irrefl s,
      Key.same_iff list_eq s s',
      Key.same_iff list_eq s' s,
    )

key_lt_ne : (a b : SortKey) → key_lt a b ≡ true → (a == b) ≡ false
unfolding key_lt
key_lt_ne (g, (s, n)) (g', (s', n')) h = ground (arith, str_lt_irrefl s, Key.same_iff list_eq s s')

-- No row behind has a smaller key.
abbrev pub IsOrdered : List Row → Type 0
IsOrdered [] = Unit
IsOrdered (x ∷ xs) = All (λ y. key_lt (sort_key y) (sort_key x) ≡ false) xs × IsOrdered xs

abbrev Under : Row → List Row → Type 0
Under x ys = All (λ y. key_lt (sort_key y) (sort_key x) ≡ false) ys

Under-insert_row :
    (a x : Row) (ys : List Row)
    → key_lt (sort_key x) (sort_key a) ≡ false
    → Under a ys
    → Under a (insert_row x ys)
unfolding insert_row
Under-insert_row a x [] h k = (h, tt)
Under-insert_row a x (y ∷ ys) h (ky, k) = elim (Bool-cases (key_lt (sort_key y) (sort_key x))) [
  | inl e ↦ rw e (ky, Under-insert_row a x ys h k)
  | inr e ↦ rw e (h, (ky, k))
]

Under-trans :
    (a b : Row) (ys : List Row) → key_lt (sort_key b) (sort_key a) ≡ false → Under b ys → Under a ys
Under-trans a b [] h k = tt
Under-trans a b (y ∷ ys) h (ky, k) =
    (key_le_trans (sort_key a) (sort_key b) (sort_key y) h ky, Under-trans a b ys h k)

insert_row-IsOrdered : (x : Row) (ys : List Row) → IsOrdered ys → IsOrdered (insert_row x ys)
unfolding insert_row
insert_row-IsOrdered x [] s = (tt, tt)
insert_row-IsOrdered x (y ∷ ys) (u, s) = elim (Bool-cases (key_lt (sort_key y) (sort_key x))) [
  | inl e ↦ rw e (
    Under-insert_row y x ys (key_lt_asym (sort_key y) (sort_key x) e) u,
    insert_row-IsOrdered x ys s,
  )
  | inr e ↦ rw e ((e, Under-trans x y ys e u), (u, s))
]

-- The rows of a key.
abbrev pub of_key : SortKey → List Row → List Row
of_key k rows = keep_rows (λ row. sort_key row == k) rows

of_key-insert_row :
    (k : SortKey) (x : Row) (ys : List Row) → of_key k (insert_row x ys) ≡ of_key k (x ∷ ys)
unfolding insert_row keep_rows
of_key-insert_row k x [] = refl
of_key-insert_row k x (y ∷ ys) = elim (Bool-cases (key_lt (sort_key y) (sort_key x))) [
  | inl e ↦ elim (Bool-cases (sort_key x == k)) [
    | inl h ↦ rw (
      e,
      of_key-insert_row k x ys,
      h,
      ap (λ j. sort_key y == j) (sym ((Key.same_iff sort_key_eq (sort_key x) k).0 h)),
      key_lt_ne (sort_key y) (sort_key x) e,
    )
    | inr h ↦ rw (e, of_key-insert_row k x ys, h)
  ]
  | inr e ↦ rw e
]

sort_rows-IsOrdered : (rows : List Row) → IsOrdered (sort_rows rows)
unfolding sort_rows
sort_rows-IsOrdered [] = tt
sort_rows-IsOrdered (x ∷ xs) = insert_row-IsOrdered x (sort_rows xs) (sort_rows-IsOrdered xs)

of_key-sort_rows : (rows : List Row) (k : SortKey) → of_key k (sort_rows rows) ≡ of_key k rows
unfolding sort_rows keep_rows
of_key-sort_rows [] k = refl
of_key-sort_rows (x ∷ xs) k = of_key-insert_row k x (sort_rows xs) ∙ rw (of_key-sort_rows xs k)

-- The position of a text in a list, or 99
abbrev position_from : ℕ → List Str → Option Str → ℕ
position_from n [] x = 99
position_from n (name ∷ names) x =
    let rest = position_from (suc n) names x in if is_text x name then n else rest

-- Where a row belongs: the place of its group, its benchmark, and the place of its sanitizer
abbrev group_place : Row → ℕ
group_place row =
    position_from 0
      (codes "spec-cpu2006"
        ∷ codes "spec-cpu2017"
        ∷ codes "openssl"
        ∷ codes "git"
        ∷ codes "opensource"
        ∷ [])
      (field (codes "Result Group") row)

abbrev benchmark_text : Row → Str
benchmark_text row = or_text? (field (codes "Benchmark") row) []

abbrev sanitizer_place : Row → ℕ
sanitizer_place row =
    position_from 0 (codes "asan" ∷ codes "ubsan" ∷ codes "msan" ∷ []) (sanitizer_of row)

abbrev pub place : Row → ℕ × (Str × ℕ)
place row = (group_place row, (benchmark_text row, sanitizer_place row))

-- A row may stand before another: its group comes first, or within a group its benchmark, or of one
-- benchmark its sanitizer, or they belong to the same place.
abbrev pub MayPrecede : ℕ × (Str × ℕ) → ℕ × (Str × ℕ) → Type 0
MayPrecede (g, (b, s)) (g', (b', s')) =
    (g < g') ⊎ ((g ≡ g') × ((str_lt b b' ≡ true) ⊎ ((b ≡ b') × (s ≤ s'))))

abbrev pub InPlace : List Row → Type 0
InPlace [] = Unit
InPlace (x ∷ xs) = All (λ y. MayPrecede (place x) (place y)) xs × InPlace xs

key_lt-MayPrecede : (k l : SortKey) → key_lt l k ≡ false → MayPrecede k l
unfolding key_lt
key_lt-MayPrecede (g, (b, s)) (g', (b', s')) h = elim (Bool-cases (ltb g g')) [
  | inl e ↦ inl (ground (arith, e))
  | inr e ↦
      let same : g ≡ g' = ground (arith, h, e) in
      inr (
        same,
        elim (Bool-cases (str_lt b b')) [
          | inl k ↦ inl k
          | inr k ↦
              let rest : str_lt b' b ≡ false = ground (arith, h, same) in
              let text : b ≡ b' = str_lt_antisym b b' k rest in
              inr (text, ground (arith, h, same, Key.same_iff list_eq b' b, sym text))
        ],
      )
]

Under-MayPrecede :
    (x : Row) (ys : List Row) → Under x ys → All (λ y. MayPrecede (place x) (place y)) ys
unfolding sort_key
Under-MayPrecede x [] h = tt
Under-MayPrecede x (y ∷ ys) (hy, h) =
    (key_lt-MayPrecede (place x) (place y) hy, Under-MayPrecede x ys h)

IsOrdered-InPlace : (rows : List Row) → IsOrdered rows → InPlace rows
IsOrdered-InPlace [] h = tt
IsOrdered-InPlace (x ∷ xs) (u, h) = (Under-MayPrecede x xs u, IsOrdered-InPlace xs h)

-- The rows of a place
abbrev pub of_place : ℕ × (Str × ℕ) → List Row → List Row
of_place k rows = keep_rows (λ row. place row == k) rows

of_key-of_place : (k : SortKey) (rows : List Row) → of_key k rows ≡ of_place k rows
unfolding sort_key
of_key-of_place k rows = refl

-- The sorted rows are in place, and those of one place stand in the order they had.
pub sort_rows-InPlace :
    (rows : List Row)
    → InPlace (sort_rows rows)
      × ((k : ℕ × (Str × ℕ)) → of_place k (sort_rows rows) ≡ of_place k rows)
sort_rows-InPlace rows = (
  IsOrdered-InPlace (sort_rows rows) (sort_rows-IsOrdered rows),
  (λ k.
      sym (of_key-of_place k (sort_rows rows)) ∙ of_key-sort_rows rows k ∙ of_key-of_place k rows),
)
