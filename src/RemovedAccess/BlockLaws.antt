-- ===== src/RemovedAccess/BlockLaws.antt =====
-- `parse_blocks`: which lines belong to which label.
use desan.RemovedAccess.Ir.{
  no_blocks, parse_blocks, BlockState, block_label, block_step, block_loop,
}
use desan.Prelude.{
  insert-fresh, ◌≡◌, refl, sym, ap, ◌∙◌, true, none, some, List, [], ◌∷◌, ◌++◌, Dict, lookup,
  insert, Key, nat_eq, list_eq, ◌==◌, All, Bool-cases, inl, inr,
}
use mathlib.Core.List.{append_assoc, append-nil}
use desan.Py.Text.{Str}

pub same_label : (x : Str) → (x == x) ≡ true
same_label x = (Key.same_iff list_eq x x).1 refl

lookup-last :
    (label : Str) (bs : Dict Str (List Str)) (v : List Str)
    → lookup label bs ≡ none
    → lookup label (bs ++ ((label, v) ∷ [])) ≡ some v
unfolding lookup
lookup-last label [] v h = rw (same_label label)
lookup-last label ((l, w) ∷ bs) v h = elim (Bool-cases (l == label)) [
  | inl e ↦ cc (rw e at h)
  | inr e ↦ rw e (lookup-last label bs v (rw e at h))
]

insert-last :
    (label : Str) (bs : Dict Str (List Str)) (v w : List Str)
    → lookup label bs ≡ none
    → insert label w (bs ++ ((label, v) ∷ [])) ≡ bs ++ ((label, w) ∷ [])
unfolding insert lookup
insert-last label [] v w h = rw (same_label label)
insert-last label ((l, u) ∷ bs) v w h = elim (Bool-cases (l == label)) [
  | inl e ↦ cc (rw e at h)
  | inr e ↦ rw (e, insert-last label bs v w (rw e at h))
]

abbrev pub NoLabel : Str → Type 0
NoLabel line = block_label line ≡ none

-- The state below a label, with the lines that have come since.
abbrev below : Dict Str (List Str) → List Str → Str → List Str → BlockState
below bs order label acc = record {
  blocks = bs ++ ((label, acc) ∷ []);
  order = order;
  current = some label;
}

line_step :
    (bs : Dict Str (List Str)) (order : List Str) (label : Str) (acc : List Str) (line : Str)
    → lookup label bs ≡ none
    → NoLabel line
    → block_step (below bs order label acc) line ≡ below bs order label (acc ++ (line ∷ []))
unfolding block_step
line_step bs order label acc line h n =
    rw (n, lookup-last label bs acc h, insert-last label bs acc (acc ++ (line ∷ [])) h, block_step)

block_loop-lines :
    (bs : Dict Str (List Str)) (order : List Str) (label : Str) (acc lines more : List Str)
    → lookup label bs ≡ none
    → All NoLabel lines
    → block_loop (below bs order label acc) (lines ++ more)
      ≡ block_loop (below bs order label (acc ++ lines)) more
unfolding block_loop
block_loop-lines bs order label acc [] more h n =
    ap (λ a. block_loop (below bs order label a) more) (sym (append-nil acc))
block_loop-lines bs order label acc (line ∷ lines) more h (n, ns) =
    ap (λ st. block_loop st (lines ++ more)) (line_step bs order label acc line h n)
    ∙ block_loop-lines bs order label (acc ++ (line ∷ [])) lines more h ns
    ∙ ap (λ a. block_loop (below bs order label a) more) (append_assoc acc (line ∷ []) lines)

-- A block as it stands in the IR: the line of the label, the label, and the lines.
pub record Block : Type 0 where
  pub header : Str
  pub label : Str
  pub lines : List Str
  pub labelled : block_label header ≡ some label
  pub plain : All NoLabel lines

abbrev pub print_blocks : List Block → List Str
print_blocks [] = []
print_blocks (b ∷ bs) = b.header ∷ (b.lines ++ print_blocks bs)

abbrev pub labels_of : List Block → List Str
labels_of [] = []
labels_of (b ∷ bs) = b.label ∷ labels_of bs

abbrev pub table_of : List Block → Dict Str (List Str)
table_of [] = []
table_of (b ∷ bs) = (b.label, b.lines) ∷ table_of bs

-- No label of the blocks is in the table already, nor do two blocks have the same.
abbrev pub Fresh : Dict Str (List Str) → List Block → Type 0
Fresh ds [] = Unit
Fresh ds (b ∷ bs) = (lookup b.label ds ≡ none) × Fresh (ds ++ ((b.label, b.lines) ∷ [])) bs

abbrev parsed : BlockState → Dict Str (List Str) × List Str
parsed st = (st.blocks, st.order)

open_step :
    (st : BlockState) (b : Block)
    → lookup b.label st.blocks ≡ none
    → block_step st b.header ≡ below st.blocks (st.order ++ (b.label ∷ [])) b.label []
unfolding block_step
open_step st b h = rw (b.labelled, insert-fresh b.label [] st.blocks h, block_step)

block_loop-print_blocks :
    (st : BlockState) (bs : List Block)
    → Fresh st.blocks bs
    → parsed (block_loop st (print_blocks bs))
      ≡ (st.blocks ++ table_of bs, st.order ++ labels_of bs)
unfolding block_loop
block_loop-print_blocks st [] h = λ i. (sym (append-nil st.blocks) i, sym (append-nil st.order) i)
block_loop-print_blocks st (b ∷ bs) (h, hs) =
    let order = st.order ++ (b.label ∷ []) in
    ap (λ s. parsed (block_loop s (b.lines ++ print_blocks bs))) (open_step st b h)
    ∙ ap parsed (block_loop-lines st.blocks order b.label [] b.lines (print_blocks bs) h b.plain)
    ∙ block_loop-print_blocks (below st.blocks order b.label b.lines) bs hs
    ∙ (λ i. (
      append_assoc st.blocks ((b.label, b.lines) ∷ []) (table_of bs) i,
      append_assoc st.order (b.label ∷ []) (labels_of bs) i,
    ))

-- Blocks of distinct labels are read back from their lines, in their order.
pub parse_blocks-print_blocks :
    (bs : List Block) → Fresh [] bs → parse_blocks (print_blocks bs) ≡ (table_of bs, labels_of bs)
unfolding parse_blocks
parse_blocks-print_blocks bs h = block_loop-print_blocks no_blocks bs h
