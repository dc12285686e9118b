-- ===== src/Driver/Inputs.antt =====
-- `write_bench_inputs` of scripts/run_oss_batch_after_read_check_elimination.py: the files that the
-- benchmarks read.
use desan.Prelude.{
  ℕ, suc, zero, ◌+◌, ◌-◌, ◌*◌, ◌%◌, List, [], ◌∷◌, ◌++◌, map, nat_eq, list_eq, ltb, if◌then◌else◌,
}
use desan.Py.Text.{Str, codes, starts_with}
use desan.Py.Number.{show}
use desan.Py.Float.{FloatOps}
use desan.Driver.{
  Action, ◌>>◌, for_each, make_dirs, write_text, write_bytes, System, newline, ◌/◌, World, perform,
  remove_old,
}

-- `range(first, first + n)`
unfoldable pub range_from : ℕ → ℕ → List ℕ
range_from first zero = []
range_from first (suc n) = first ∷ range_from (suc first) n

unfoldable pub concat : List Str → Str
concat [] = []
concat (s ∷ ss) = s ++ concat ss

-- `separator.join(texts)`
unfoldable pub join : Str → List Str → Str
join separator [] = []
join separator (s ∷ []) = s
join separator (s ∷ t ∷ ss) = s ++ separator ++ join separator (t ∷ ss)

unfoldable pub zeros : ℕ → Str
zeros zero = []
zeros (suc n) = b'0' ∷ zeros n

abbrev text_length : Str → ℕ
text_length [] = 0
text_length (c ∷ s) = suc (text_length s)

-- `f"{n:05d}"`
abbrev five_digits : ℕ → Str
five_digits n = zeros (5 - text_length (show n)) ++ show n

-- `text.replace(old, new, count)`, of an old text that is not empty: the letters that are still to be
-- skipped belong to an occurrence that has been replaced.
unfoldable pub replace_loop : Str → Str → ℕ → ℕ → Str → Str
unfolding starts_with
replace_loop old new count skip [] = []
replace_loop old new count (suc skip) (c ∷ s) = replace_loop old new count skip s
replace_loop old new zero zero (c ∷ s) = c ∷ replace_loop old new zero zero s
replace_loop old new (suc count) zero (c ∷ s) =
    let here = starts_with (c ∷ s) old in
    (if here then new else c ∷ [])
    ++ replace_loop old new (if here then count else suc count)
        (if here then text_length old - 1 else 0) s

-- `bytes.fromhex(text)`
abbrev hex_digit : ℕ → ℕ
hex_digit c = if ltb c b'a' then c - b'0' else c - b'a' + 10

unfoldable pub from_hex : Str → List ℕ
from_hex [] = []
from_hex (c ∷ []) = []
from_hex (c ∷ d ∷ s) = (hex_digit c * 16 + hex_digit d) ∷ from_hex s

abbrev text_line : ℕ → Str
text_line i = codes "line " ++ five_digits i ++ codes " needle value " ++ show (i % 97)

unfoldable pub input_text : Str
input_text = join newline (map text_line (range_from 0 20000)) ++ newline

unfoldable pub small_text : Str
small_text = join newline (map (λ i. codes "short needle " ++ show i) (range_from 0 100)) ++ newline

abbrev json_item : ℕ → Str
json_item i = codes "{\"value\":" ++ show i ++ codes ",\"name\":\"needle-" ++ show i ++ codes "\"}"

unfoldable pub json_text : Str
json_text =
    codes "{\"items\":["
    ++ join (codes ",") (map json_item (range_from 0 1000))
    ++ codes "]}"
    ++ newline

abbrev xml_item : ℕ → Str
xml_item i = codes "<item id=\"" ++ show i ++ codes "\">needle-" ++ show i ++ codes "</item>"

unfoldable pub xml_text : Str
xml_text = codes "<root>" ++ concat (map xml_item (range_from 0 1000)) ++ codes "</root>" ++ newline

unfoldable pub m4_text : Str
m4_text = concat (
    map (λ i. codes "define(`x', `needle')" ++ newline ++ codes "x" ++ newline) (range_from 0 1000))

abbrev pixel : ℕ → ℕ → Str
pixel y x =
    show (x % 256) ++ codes " " ++ show (y % 256) ++ codes " " ++ show (x * y % 256) ++ newline

unfoldable pub ppm_text : Str
ppm_text =
    codes "P3"
    ++ newline
    ++ codes "128 128"
    ++ newline
    ++ codes "255"
    ++ newline
    ++ concat (map (λ y. concat (map (pixel y) (range_from 0 128))) (range_from 0 128))

-- A transparent GIF and a minimal PNG
abbrev pub gif : Str
gif = codes "47494638396101000100800000000000ffffff21f90401000000002c00000000010001000002024401003b"

abbrev pub png : Str
png =
    codes "89504e470d0a1a0a0000000d4948445200000001000000010802000000907753de"
    ++ codes "0000000c49444154789c6360000000020001e221bc330000000049454e44ae426082"

module _ {F : FloatOps} (S : System F) where
  -- A file of the tree, in one of ten directories
  abbrev tree_file : Str → ℕ → Action (World S)
  tree_file tree i = do
    let d = tree / (codes "dir" ++ show (i % 10))
    perform S (make_dirs d)
    perform S (
        write_text (d / (codes "file" ++ show i ++ codes ".txt"))
          (codes "needle " ++ show i ++ newline))

  unfoldable pub write_bench_inputs : Str → Action (World S)
  unfolding for_each remove_old
  write_bench_inputs bench = do
    perform S (make_dirs bench)
    perform S (write_text (bench / codes "input.txt") input_text)
    perform S (write_text (bench / codes "small.txt") small_text)
    perform S (
        write_text (bench / codes "input2.txt")
          (replace_loop (codes "needle") (codes "other") 200 0 input_text))
    perform S (write_text (bench / codes "input.json") json_text)
    perform S (write_text (bench / codes "input.xml") xml_text)
    perform S (
        write_text (bench / codes "script.lua")
          (codes "local s=0; for i=1,100000 do s=s+i end; print(s)" ++ newline))
    perform S (
        write_text (bench / codes "script.js")
          (codes "var s=0; for (var i=0;i<100000;i++) s+=i; print(s);" ++ newline))
    perform S (write_text (bench / codes "input.m4") m4_text)
    perform S (
        write_text (bench / codes "Makefile.small")
          (codes "all:" ++ newline ++ (b'\t' ∷ []) ++ codes "@echo needle" ++ newline))
    let tree = bench / codes "tree"
    remove_old S tree
    for_each (tree_file tree) (range_from 0 50)
    perform S (write_text (bench / codes "input.ppm") ppm_text)
    perform S (write_bytes (bench / codes "input.gif") (from_hex gif))
    perform S (write_bytes (bench / codes "input.png") (from_hex png))
