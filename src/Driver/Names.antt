-- ===== src/Driver/Names.antt =====
-- The names on the command lines of the two scripts.
use desan.Prelude.{
  ◌≡◌, refl, Option, none, some, ℕ, List, [], ◌∷◌, ◌++◌, contains, nat_eq, list_eq, ◌==◌,
  if◌then◌else◌,
}
use desan.Py.Text.{Str, codes, strip}
use desan.Driver.Source.{is_empty}

-- `text.split(c)`: the text before the first separator, and the parts after it
abbrev split_parts : ℕ → Str → Str × List Str
split_parts c [] = ([], [])
split_parts c (d ∷ s) =
    let (part, parts) = split_parts c s in if d == c then ([], part ∷ parts) else (d ∷ part, parts)

abbrev stripped : List Str → List Str
stripped [] = []
stripped (s ∷ ss) = let rest = stripped ss in if is_empty (strip s) then rest else strip s ∷ rest

-- `[p.strip() for p in text.split(",") if p.strip()]`
unfoldable pub names_in : Str → List Str
unfolding strip
names_in text = let (part, parts) = split_parts b',' text in stripped (part ∷ parts)

-- `for p in names: if p not in known: raise SystemExit(…)`: the message of the exit, if there is one
unfoldable pub check_names : Str → List Str → List Str → Option Str
unfolding contains
check_names text known [] = none
check_names text known (name ∷ names) =
    let rest = check_names text known names in
    if contains name known then rest else some (text ++ name)

names_in_test : names_in (codes "zlib, bzip2,,xz ") ≡ codes "zlib" ∷ codes "bzip2" ∷ codes "xz" ∷ []
unfolding names_in
names_in_test = refl
