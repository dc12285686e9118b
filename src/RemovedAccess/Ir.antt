-- ===== src/RemovedAccess/Ir.antt =====
-- `parse_blocks`, `parse_type_mismatch_kinds`, `classify_handler` and `classify_file` of
-- scripts/sanrazor_removed_access_summary.py. A module's IR, which `llvm-dis` prints, comes as the
-- list of its lines, as `splitlines` gives it.
use desan.Prelude.{
  Bool, ◌||◌, Option, none, some, List, [], ◌∷◌, ◌++◌, Dict, get, lookup, insert, update, nat_eq,
  list_eq, ◌==◌, if◌then◌else◌,
}
use desan.Prelude.Int.{ℤ, pos}
use desan.Py.Result.{Result, ok, ◌>>=◌}
use desan.Py.Text.{Str, codes, starts_with}
use desan.Py.Number.{int}
use desan.Py.Regex.{match, search, findall}
use desan.RemovedAccess.Patterns.{
  ubsan_call_re, block_re, const_branch_re, global_name_re, i8_value_re, type_mismatch_call_data_re,
}

-- The first group of a match
abbrev pub first_group : Option (List Str) → Option Str
first_group none = none
first_group (some []) = none
first_group (some (g ∷ groups)) = some g

-- `blocks`, `order` and `current`
pub record BlockState : Type 0 where
  pub blocks : Dict Str (List Str)
  pub order : List Str
  pub current : Option Str

abbrev pub no_blocks : BlockState
no_blocks = record { blocks = []; order = []; current = none }

-- `BLOCK_RE.match(line)`, with its group
unfoldable pub block_label : Str → Option Str
unfolding match
block_label line = first_group (match block_re line)

abbrev pub add_line : BlockState → Str → BlockState
add_line st line = elim st.current [
  | none ↦ st
  | some label ↦ record st { blocks = update label [] (λ ls. ls ++ (line ∷ [])) st.blocks }
]

abbrev pub open_block : BlockState → Str → BlockState
open_block st label = record {
  blocks = insert label [] st.blocks;
  order = st.order ++ (label ∷ []);
  current = some label;
}

unfoldable pub block_step : BlockState → Str → BlockState
unfolding block_label
block_step st line = elim (block_label line) [
  | some label ↦ open_block st label
  | none ↦ add_line st line
]

unfoldable pub block_loop : BlockState → List Str → BlockState
unfolding block_step
block_loop st [] = st
block_loop st (line ∷ lines) = block_loop (block_step st line) lines

unfoldable pub parse_blocks : List Str → Dict Str (List Str) × List Str
unfolding block_loop
parse_blocks ir = let st = block_loop no_blocks ir in (st.blocks, st.order)

-- `text in line`
unfoldable pub occurs : Str → Str → Bool
unfolding starts_with
occurs text [] = starts_with [] text
occurs text (c ∷ s) = starts_with (c ∷ s) text || occurs text s

-- The group of the last of at least two matches
abbrev last_value : Option Str → List (List Str) → Option Str
last_value prev [] = prev
last_value prev (groups ∷ more) = last_value (first_group (some groups)) more

abbrev pub kind_text : List (List Str) → Option Str
kind_text [] = none
kind_text (a ∷ []) = none
kind_text (a ∷ b ∷ more) = last_value none (b ∷ more)

-- The name of the global and the digits of its TypeCheckKind, on a line that has both
unfoldable pub kind_line : Str → Option (Str × Str)
unfolding match findall occurs
kind_line line =
    if occurs (codes "i8, i8") line
    then elim (first_group (match global_name_re line)) [
      | none ↦ none
      | some name ↦ elim (kind_text (findall i8_value_re line)) [
        | none ↦ none
        | some value ↦ some (name, value)
      ]
    ]
    else none

unfoldable pub kinds_loop : Dict Str ℤ → List Str → Result (Dict Str ℤ)
unfolding kind_line
kinds_loop kinds [] = ok kinds
kinds_loop kinds (line ∷ lines) = elim (kind_line line) [
  | none ↦ kinds_loop kinds lines
  | some (name, value) ↦ int value >>= λ n. kinds_loop (insert name n kinds) lines
]

unfoldable pub parse_type_mismatch_kinds : List Str → Result (Dict Str ℤ)
unfolding kinds_loop
parse_type_mismatch_kinds ir = kinds_loop [] ir

pub data Kind : Type 0 where
  read write unknown : Kind

abbrev pub kind_of : Option ℤ → Kind
kind_of none = unknown
kind_of (some (pos n)) = if n == 0 then read else if n == 1 then write else unknown
kind_of (some n) = unknown

-- `type_kinds.get(data_match.group(1)) if data_match else None`
abbrev pub kind_at : Option Str → Dict Str ℤ → Option ℤ
kind_at none kinds = none
kind_at (some name) kinds = lookup name kinds

-- The kind and the callee
unfoldable pub classify_handler : Str → Dict Str ℤ → Kind × Str
unfolding search lookup
classify_handler call_line type_kinds = elim (first_group (search ubsan_call_re call_line)) [
  | none ↦ (unknown, [])
  | some callee ↦
      if callee == codes "__ubsan_handle_type_mismatch_v1"
      then (
        kind_of (kind_at (first_group (search type_mismatch_call_data_re call_line)) type_kinds),
        callee,
      )
      else (unknown, callee)
]

unfoldable pub first_ubsan_call : List Str → Option Str
unfolding search
first_ubsan_call [] = none
first_ubsan_call (line ∷ lines) = elim (search ubsan_call_re line) [
  | some groups ↦ some line
  | none ↦ first_ubsan_call lines
]

-- The successor that a branch on a constant leaves out
abbrev pub disabled_of : Option (List Str) → Option Str
disabled_of (some (const ∷ true_succ ∷ false_succ ∷ [])) =
    some (if const == codes "true" then false_succ else true_succ)
disabled_of _ = none

unfoldable pub disabled_succ : Str → Option Str
unfolding search occurs
disabled_succ line =
    if occurs (codes "!sanitycheck") line then disabled_of (search const_branch_re line) else none

pub record Example : Type 0 where
  pub block : Str
  pub disabled_block : Str
  pub kind : Kind
  pub callee : Str

-- What a line of a block counts as: a disabled handler, if it branches away from one.
unfoldable pub detect : Dict Str (List Str) → Dict Str ℤ → Str → Str → Option Example
unfolding disabled_succ first_ubsan_call classify_handler
detect blocks type_kinds label line = elim (disabled_succ line) [
  | none ↦ none
  | some succ ↦ elim (first_ubsan_call (get succ [] blocks)) [
    | none ↦ none
    | some call_line ↦
        let (kind, callee) = classify_handler call_line type_kinds in
        some (record { block = label; disabled_block = succ; kind = kind; callee = callee })
  ]
]
