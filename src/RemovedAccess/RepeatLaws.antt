-- ===== src/RemovedAccess/RepeatLaws.antt =====
-- `parse_blocks` on a module in which labels repeat, as those of two functions do.
use desan.RemovedAccess.BlockLaws.{same_label, Block, NoLabel, print_blocks, labels_of}
use desan.Prelude.{
  ◌≡◌, refl, sym, ap, ◌∙◌, some, List, [], ◌∷◌, ◌++◌, Dict, get, lookup, insert, update,
  lookup-insert, Key, nat_eq, list_eq, ◌==◌, All, Bool-cases, inl, inr, if◌then◌else◌,
}
use mathlib.Core.List.{append_assoc, append-nil}
use desan.Prelude.Int.{ℤ}
use desan.Py.Text.{Str}
use desan.RemovedAccess.Ir.{
  BlockState, Example, no_blocks, add_line, open_block, block_step, block_loop, parse_blocks,
}
use desan.RemovedAccess.Detections.{detections, detections_of}

-- The lines of the last block with a label, or else the given ones
abbrev pub last_lines : Str → List Block → List Str → List Str
last_lines label [] lines = lines
last_lines label (b ∷ bs) lines = last_lines label bs (if b.label == label then b.lines else lines)

-- What the lines below a label leave of a state
abbrev Follows : BlockState → Str → List Str → BlockState → Type 0
Follows st label lines st' =
    (st'.order ≡ st.order)
    × ((l : Str)
        → get l [] st'.blocks
          ≡ (if label == l then get label [] st.blocks ++ lines else get l [] st.blocks))

add_lines : BlockState → List Str → BlockState
add_lines st [] = st
add_lines st (line ∷ lines) = add_lines (add_line st line) lines

plain_step : (st : BlockState) (line : Str) → NoLabel line → block_step st line ≡ add_line st line
unfolding block_step
plain_step st line h = rw (h, block_step)

label_step : (st : BlockState) (b : Block) → block_step st b.header ≡ open_block st b.label
unfolding block_step
label_step st b = rw (b.labelled, block_step)

block_loop-add_lines :
    (st : BlockState) (lines more : List Str)
    → All NoLabel lines
    → block_loop st (lines ++ more) ≡ block_loop (add_lines st lines) more
unfolding block_loop block_step add_lines
block_loop-add_lines st [] more h = refl
block_loop-add_lines st (line ∷ lines) more (h, hs) =
    ap (λ s. block_loop s (lines ++ more)) (plain_step st line h)
    ∙ block_loop-add_lines (add_line st line) lines more hs

-- A state in a block
abbrev in_block : Dict Str (List Str) → List Str → Str → BlockState
in_block blocks order label = record { blocks = blocks; order = order; current = some label }

add_lines-Follows :
    (blocks : Dict Str (List Str)) (order : List Str) (label : Str) (lines : List Str)
    → Follows
        (in_block blocks order label)
        label
        lines
        (add_lines (in_block blocks order label) lines)
unfolding add_lines lookup
add_lines-Follows blocks order label [] = (
  refl,
  λ l. elim (Bool-cases (label == l)) [
    | inl e ↦ rw (e, append-nil, (Key.same_iff list_eq label l).0 e)
    | inr e ↦ rw e
  ],
)
add_lines-Follows blocks order label (line ∷ lines) =
    let next = update label [] (λ ls. ls ++ (line ∷ [])) blocks in
    let (o, h) = add_lines-Follows next order label lines in
    (
      o,
      λ l. h l ∙ elim (Bool-cases (label == l)) [
        | inl e ↦
            rw (e, lookup-insert, same_label label)
              (append_assoc (get label [] blocks) (line ∷ []) lines)
        | inr e ↦ rw (e, lookup-insert, e)
      ],
    )

-- What a block leaves of a state: its lines under its label, in place of those before.
abbrev after_block : BlockState → Block → BlockState
after_block st b = add_lines (open_block st b.label) b.lines

get-after_block :
    (st : BlockState) (b : Block) (l : Str)
    → get l [] (after_block st b).blocks ≡ (if b.label == l then b.lines else get l [] st.blocks)
unfolding lookup
get-after_block st b l =
    (add_lines-Follows (insert b.label [] st.blocks) (st.order ++ (b.label ∷ [])) b.label b.lines).1
      l
    ∙ elim (Bool-cases (b.label == l)) [
      | inl e ↦ rw (e, lookup-insert, same_label b.label)
      | inr e ↦ rw (e, lookup-insert, e)
    ]

block_loop-last_lines :
    (st : BlockState) (bs : List Block)
    → let st' = block_loop st (print_blocks bs) in
      (st'.order ≡ st.order ++ labels_of bs)
      × ((l : Str) → get l [] st'.blocks ≡ last_lines l bs (get l [] st.blocks))
unfolding block_loop
block_loop-last_lines st [] = (sym (append-nil st.order), λ l. refl)
block_loop-last_lines st (b ∷ bs) =
    let reached : block_loop st (print_blocks (b ∷ bs))
        ≡ block_loop (after_block st b) (print_blocks bs) =
      ap (λ s. block_loop s (b.lines ++ print_blocks bs)) (label_step st b)
      ∙ block_loop-add_lines (open_block st b.label) b.lines (print_blocks bs) b.plain in
    let (o, h) = block_loop-last_lines (after_block st b) bs in
    let o' =
      (add_lines-Follows (insert b.label [] st.blocks) (st.order ++ (b.label ∷ [])) b.label
        b.lines).0 in
    (
      ap (λ s. s.order) reached
          ∙ o
          ∙ ap (λ t. t ++ labels_of bs) o'
          ∙ append_assoc st.order (b.label ∷ []) (labels_of bs),
      (λ l.
          ap (λ s. get l [] s.blocks) reached
          ∙ h l
          ∙ ap (last_lines l bs) (get-after_block st b l)),
    )

-- The disabled handlers of a module's blocks, where each counts with the lines of the last block that
-- has its label
abbrev pub last_detections :
    Dict Str (List Str) → Dict Str ℤ → List Block → List Block → List Example
last_detections blocks kinds all [] = []
last_detections blocks kinds all (b ∷ bs) =
    detections_of blocks kinds b.label (last_lines b.label all [])
    ++ last_detections blocks kinds all bs

detections-last_detections :
    (blocks : Dict Str (List Str)) (kinds : Dict Str ℤ) (all bs : List Block)
    → ((l : Str) → get l [] blocks ≡ last_lines l all [])
    → detections blocks kinds (labels_of bs) ≡ last_detections blocks kinds all bs
detections-last_detections blocks kinds all [] h = refl
detections-last_detections blocks kinds all (b ∷ bs) h =
    rw (h b.label, detections-last_detections blocks kinds all bs h)

-- Whatever labels the blocks of a module have, as those of several functions: parse_blocks keeps under
-- a label the lines of its last block only, and the order has the label of every block. So a handler
-- is detected in the lines of the last block with a label, once for each block that has the label,
-- and in those of the blocks before not at all.
pub parse_blocks-last_lines :
    (kinds : Dict Str ℤ) (bs : List Block)
    → let (blocks, order) = parse_blocks (print_blocks bs) in
      (order ≡ labels_of bs)
      × ((label : Str) → get label [] blocks ≡ last_lines label bs [])
      × (detections blocks kinds order ≡ last_detections blocks kinds bs bs)
unfolding parse_blocks lookup
parse_blocks-last_lines kinds bs =
    let (o, h) = block_loop-last_lines no_blocks bs in
    (
      o,
      h,
      ap (detections (block_loop no_blocks (print_blocks bs)).blocks kinds) o
          ∙ detections-last_detections (block_loop no_blocks (print_blocks bs)).blocks kinds bs bs
              h,
    )
