-- ===== src/RemovedAccess/Detections.antt =====
-- The disabled handlers of a module, one by one, and the counters that `classify_file` keeps of them.
use desan.Prelude.{
  ℕ, zero, suc, ◌+◌, ◌≡◌, refl, sym, ap, ◌∙◌, Bool, true, false, Option, none, some, List, [], ◌∷◌,
  ◌++◌, Dict, get, lookup, insert, length, length-append, lookup-insert, ltb, Key, nat_eq, list_eq,
  list_beq, ◌==◌, Bool-cases, inl, inr, arith, if◌then◌else◌,
}
use mathlib.Core.List.{append_assoc, append-nil}
use desan.Prelude.Int.{ℤ}
use desan.Py.Text.{Str}
use desan.CountChecks.{total_checks}
use desan.RemovedAccess.Ir.{Kind, read, write, unknown, Example, detect}
use desan.RemovedAccess.Classify.{
  kind_name, ClassifyState, count_one, add_example, add_detection, classify_line, classify_lines,
  classify_blocks,
}

abbrev pub cons_some {ℓ} : {A : Type ℓ} → Option A → List A → List A
cons_some none xs = xs
cons_some (some a) xs = a ∷ xs

-- The disabled handlers, in the order of the blocks and their lines.
module _ (blocks : Dict Str (List Str)) (type_kinds : Dict Str ℤ) where
  abbrev pub detections_of : Str → List Str → List Example
  detections_of label [] = []
  detections_of label (line ∷ lines) =
      cons_some (detect blocks type_kinds label line) (detections_of label lines)

  abbrev pub detections : List Str → List Example
  detections [] = []
  detections (label ∷ order) = detections_of label (get label [] blocks) ++ detections order

abbrev pub is_kind : Kind → Kind → Bool
is_kind k l = kind_name k == kind_name l

-- How many are of a kind
abbrev pub of_kind : Kind → List Example → ℕ
of_kind k [] = 0
of_kind k (e ∷ es) = let rest = of_kind k es in if is_kind e.kind k then suc rest else rest

abbrev pub add_all : ClassifyState → List Example → ClassifyState
add_all st [] = st
add_all st (e ∷ es) = add_all (add_detection st e) es

add_all-append :
    (st : ClassifyState) (xs ys : List Example) → add_all st (xs ++ ys) ≡ add_all (add_all st xs) ys
add_all-append st [] ys = refl
add_all-append st (x ∷ xs) ys = add_all-append (add_detection st x) xs ys

add_all-cons_some :
    (blocks : Dict Str (List Str)) (kinds : Dict Str ℤ) (st : ClassifyState) (o : Option Example)
    (es : List Example)
    → add_all st (cons_some o es) ≡ add_all (classify_line blocks kinds st o) es
add_all-cons_some blocks kinds st none es = refl
add_all-cons_some blocks kinds st (some e) es = refl

module _ (blocks : Dict Str (List Str)) (kinds : Dict Str ℤ) where
  classify_lines-detections :
      (label : Str) (st : ClassifyState) (lines : List Str)
      → classify_lines blocks kinds label st lines
        ≡ add_all st (detections_of blocks kinds label lines)
  unfolding classify_lines
  classify_lines-detections label st [] = refl
  classify_lines-detections label st (line ∷ lines) =
      classify_lines-detections label
        (classify_line blocks kinds st (detect blocks kinds label line)) lines
      ∙ sym (
          add_all-cons_some blocks kinds st (detect blocks kinds label line)
            (detections_of blocks kinds label lines))

  pub classify_blocks-detections :
      (st : ClassifyState) (order : List Str)
      → classify_blocks blocks kinds st order ≡ add_all st (detections blocks kinds order)
  unfolding classify_blocks
  classify_blocks-detections st [] = refl
  classify_blocks-detections st (label ∷ order) =
      classify_blocks-detections (classify_lines blocks kinds label st (get label [] blocks)) order
      ∙ ap (λ s. add_all s (detections blocks kinds order))
          (classify_lines-detections label st (get label [] blocks))
      ∙ sym (
          add_all-append st (detections_of blocks kinds label (get label [] blocks))
            (detections blocks kinds order))

total-insert :
    (key : Str) (n : ℕ) (d : Dict Str ℕ)
    → total_checks (insert key n d) + get key 0 d ≡ total_checks d + n
unfolding total_checks insert lookup
total-insert key n [] = omega arith
total-insert key n ((k, m) ∷ d) = elim (Bool-cases (k == key)) [
  | inl e ↦ rw e (omega arith)
  | inr e ↦ rw e (omega (arith, total-insert key n d))
]

total-count_one :
    (key : Str) (d : Dict Str ℕ) → total_checks (count_one key d) ≡ suc (total_checks d)
total-count_one key d = omega (arith, total-insert key (get key 0 d + 1) d)

pub total-add_all :
    (st : ClassifyState) (es : List Example)
    → total_checks (add_all st es).counts ≡ total_checks st.counts + length es
unfolding add_detection
total-add_all st [] = omega arith
total-add_all st (e ∷ es) =
    omega
      (arith, total-add_all (add_detection st e) es, total-count_one (kind_name e.kind) st.counts)

pub get-add_all :
    (k : Kind) (st : ClassifyState) (es : List Example)
    → get (kind_name k) 0 (add_all st es).counts ≡ get (kind_name k) 0 st.counts + of_kind k es
unfolding add_detection
get-add_all k st [] = omega arith
get-add_all k st (e ∷ es) =
    get-add_all k (add_detection st e) es ∙ elim (Bool-cases (is_kind e.kind k)) [
      | inl h ↦
          rw (lookup-insert, h, (Key.same_iff list_eq (kind_name e.kind) (kind_name k)).0 h)
            (omega arith)
      | inr h ↦ rw (lookup-insert, h)
    ]

abbrev pub first_of {ℓ} : {A : Type ℓ} → ℕ → List A → List A
first_of zero xs = []
first_of (suc n) [] = []
first_of (suc n) (x ∷ xs) = x ∷ first_of n xs

pub examples-add_all :
    (n : ℕ) (st : ClassifyState) (es : List Example)
    → length st.examples + n ≡ 5
    → (add_all st es).examples ≡ st.examples ++ first_of n es
unfolding add_detection
examples-add_all zero st [] h = sym (append-nil st.examples)
examples-add_all (suc n) st [] h = sym (append-nil st.examples)
examples-add_all zero st (e ∷ es) h =
    let full : ltb (length st.examples) 5 ≡ false = ground arith in
    let same : add_example e st.examples ≡ st.examples = rw full in
    examples-add_all zero (add_detection st e) es (ap (λ xs. length xs + 0) same ∙ h)
    ∙ ap (λ xs. xs ++ []) same
examples-add_all (suc n) st (e ∷ es) h =
    let free : ltb (length st.examples) 5 ≡ true = ground arith in
    let more : add_example e st.examples ≡ st.examples ++ (e ∷ []) = rw free in
    examples-add_all n (add_detection st e) es
      (ap (λ xs. length xs + n) more ∙ omega (arith, h, length-append st.examples (e ∷ [])))
    ∙ ap (λ xs. xs ++ first_of n es) more
    ∙ append_assoc st.examples (e ∷ []) (first_of n es)

pub of_kind-sum :
    (es : List Example) → of_kind read es + of_kind write es + of_kind unknown es ≡ length es
unfolding list_beq
of_kind-sum [] = refl
of_kind-sum (e ∷ es) = go e.kind ∙ ap suc (of_kind-sum es)
  where
    go :
        (k : Kind)
        → (if is_kind k read then suc (of_kind read es) else of_kind read es)
            + (if is_kind k write then suc (of_kind write es) else of_kind write es)
            + (if is_kind k unknown then suc (of_kind unknown es) else of_kind unknown es)
          ≡ suc (of_kind read es + of_kind write es + of_kind unknown es)
    go read = omega arith
    go write = omega arith
    go unknown = omega arith
