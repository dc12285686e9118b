-- ===== src/Overhead/Laws.antt =====
-- The metrics are computed for every input, and it is known when each of them has a value.
use desan.Prelude.{
  ◌≡◌, ◌≢◌, ◌↔◌, refl, Bool, true, false, ◌&&◌, Option, none, some, Key, nat_eq, list_eq, arith,
  Bool-cases, inl, inr,
}
use desan.Py.Result.{ok}
use desan.Py.Text.{Str, codes}
use desan.Py.Float.{FloatOps, IsIeee}
use desan.Overhead.{
  Overheads, unknown, all_succeeded, percent, reduction, overheads, guarded,
  compute_overhead_metrics, runtime_reduction, overhead_metrics,
}

succeeded_parts :
    (ns bs as' : Str)
    → all_succeeded ns bs as' ≡ true
    → (ns ≡ codes "S") × (bs ≡ codes "S") × (as' ≡ codes "S")
succeeded_parts ns bs as' h = ground (
  arith,
  Key.same_iff list_eq ns (codes "S"),
  Key.same_iff list_eq bs (codes "S"),
  Key.same_iff list_eq as' (codes "S"),
)

all_succeeded_of :
    (ns bs as' : Str)
    → ns ≡ codes "S"
    → bs ≡ codes "S"
    → as' ≡ codes "S"
    → all_succeeded ns bs as' ≡ true
all_succeeded_of ns bs as' n b a = ground (
  arith,
  Key.same_iff list_eq ns (codes "S"),
  Key.same_iff list_eq bs (codes "S"),
  Key.same_iff list_eq as' (codes "S"),
)

module _ (F : FloatOps) where
  open F use {Float}

  -- The time is known and passes the test.
  abbrev pub Holds : (Float → Bool) → Option Float → Type 0
  Holds test none = ⊥
  Holds test (some t) = test t ≡ true

  abbrev pub Positive : Option Float → Type 0
  Positive = Holds (F.lt F.zero)

  -- The two times are known and differ.
  abbrev pub Differ : Option Float → Option Float → Type 0
  Differ (some a) (some b) = F.eq a b ≡ false
  Differ _ _ = ⊥

  -- All three runs have succeeded, their times are known, and that of the native run is positive.
  pub record IsComparable (native before after : Str)
      (native_time before_time after_time : Option Float) : Type 0 where
    pub native_succeeded : native ≡ codes "S"
    pub before_succeeded : before ≡ codes "S"
    pub after_succeeded : after ≡ codes "S"
    pub native_positive : Positive native_time
    pub before_known : before_time ≢ none
    pub after_known : after_time ≢ none

  module _ (ieee : IsIeee F) where
    percent-eq-ok :
        (part whole : Float)
        → F.eq whole F.zero ≡ false
        → (q : Float) × (percent F part whole ≡ ok q)
    unfolding percent
    percent-eq-ok part whole h =
        let (q, e) = ieee.div-total part whole h in (F.mul q F.hundred, rw (e, percent))

    -- The reduction is computed, and has a value unless the two times are equal.
    reduction-eq-ok :
        (native before after : Float)
        → (r : Option Float) × (reduction F native before after ≡ ok r)
          × ((r ≢ none) ↔ (F.eq before native ≡ false))
    unfolding reduction
    reduction-eq-ok native before after = elim (Bool-cases (F.eq before native)) [
      | inl e ↦ (none, rw e, (λ h. absurd (h refl), λ h. cc))
      | inr e ↦
          let (q, p) =
            percent-eq-ok (F.sub before after) (F.sub before native)
              (ieee.sub_nonzero before native e) in
          (some q, rw (e, p), (λ _. e, λ _ h. cc))
    ]

    overheads-eq-ok :
        (native before after : Float)
        → F.lt F.zero native ≡ true
        → (m : Overheads Float) × (overheads F native before after ≡ ok m)
          × (m.sanitizer_overhead ≢ none)
          × (m.tool_overhead ≢ none)
          × ((m.overhead_reduction ≢ none) ↔ (F.eq before native ≡ false))
    unfolding overheads
    overheads-eq-ok native before after h =
        let (s, es) = percent-eq-ok (F.sub before native) native (ieee.pos_nonzero native h) in
        let (t, et) = percent-eq-ok (F.sub after native) native (ieee.pos_nonzero native h) in
        let (r, er, iff) = reduction-eq-ok native before after in
        (
          record { sanitizer_overhead = some s; tool_overhead = some t; overhead_reduction = r },
          rw (es, et, er),
          λ p. cc,
          λ p. cc,
          iff,
        )

    abbrev Guard : Bool → Option Float → Option Float → Option Float → Type 0
    Guard succeeded native before after =
        (succeeded ≡ true) × Positive native × (before ≢ none) × (after ≢ none)

    guarded-eq-ok :
        (succeeded : Bool) (native before after : Option Float)
        → (m : Overheads Float) × (guarded F succeeded native before after ≡ ok m)
          × ((m.sanitizer_overhead ≢ none) ↔ Guard succeeded native before after)
          × ((m.tool_overhead ≢ none) ↔ Guard succeeded native before after)
          × ((m.overhead_reduction ≢ none)
              ↔ (Guard succeeded native before after × Differ before native))
    unfolding guarded
    guarded-eq-ok true (some native) (some before) (some after) =
        elim (Bool-cases (F.lt F.zero native)) [
          | inl e ↦
              let (m, p, s, t, r) = overheads-eq-ok native before after e in
              let g : Guard true (some native) (some before) (some after) =
                (refl, e, λ q. cc, λ q. cc) in
              (m, rw (e, p), (λ _. g, λ _. s), (λ _. g, λ _. t), (λ h. (g, r.0 h), λ h. r.1 h.1))
          | inr e ↦ (
            unknown,
            rw e,
            (λ h. absurd (h refl), λ h. cc),
            (λ h. absurd (h refl), λ h. cc),
            (λ h. absurd (h refl), λ h. cc),
          )
        ]
    guarded-eq-ok _ _ _ _ = (
      unknown,
      refl,
      (λ h. absurd (h refl), λ h. ground arith),
      (λ h. absurd (h refl), λ h. ground arith),
      (λ h. absurd (h refl), λ h. ground arith),
    )

    Guard-IsComparable :
        (ns bs as' : Str) (nt bt at : Option Float)
        → Guard (all_succeeded ns bs as') nt bt at ↔ IsComparable ns bs as' nt bt at
    Guard-IsComparable ns bs as' nt bt at = (
      λ g. record {
        native_succeeded = (succeeded_parts ns bs as' g.0).0;
        before_succeeded = (succeeded_parts ns bs as' g.0).1;
        after_succeeded = (succeeded_parts ns bs as' g.0).2;
        native_positive = g.1;
        before_known = g.2;
        after_known = g.3;
      },
      λ c. (
        all_succeeded_of ns bs as' c.native_succeeded c.before_succeeded c.after_succeeded,
        c.native_positive,
        c.before_known,
        c.after_known,
      ),
    )

    -- With IEEE floats the three metrics are computed for all inputs, with no division by zero. The
    -- two overheads are known exactly when the runs are comparable, and the reduction exactly when
    -- moreover the time before differs from the native time.
    pub compute_overhead_metrics-eq-ok :
        (native before after : Str) (native_time before_time after_time : Option Float)
        → (m : Overheads Float) × (compute_overhead_metrics F native before after native_time
              before_time after_time
            ≡ ok m)
          × ((m.sanitizer_overhead ≢ none)
              ↔ IsComparable native before after native_time before_time after_time)
          × ((m.tool_overhead ≢ none)
              ↔ IsComparable native before after native_time before_time after_time)
          × ((m.overhead_reduction ≢ none) ↔ (
              IsComparable native before after native_time before_time after_time
              × Differ before_time native_time))
    unfolding compute_overhead_metrics
    compute_overhead_metrics-eq-ok ns bs as' nt bt at =
        let (m, p, s, t, r) = guarded-eq-ok (all_succeeded ns bs as') nt bt at in
        let (to, from) = Guard-IsComparable ns bs as' nt bt at in
        (
          m,
          p,
          (λ h. to (s.0 h), λ c. s.1 (from c)),
          (λ h. to (t.0 h), λ c. t.1 (from c)),
          (λ h. (to (r.0 h).0, (r.0 h).1), λ c. r.1 (from c.0, c.1)),
        )

    runtime_reduction-eq-ok :
        (succeeded : Bool) (native base tool : Option Float)
        → (r : Option Float) × (runtime_reduction F succeeded native base tool ≡ ok r)
          × ((r ≢ none) ↔ (Guard succeeded native base tool × Positive base))
    unfolding runtime_reduction
    runtime_reduction-eq-ok true (some native) (some base) (some tool) =
        elim (Bool-cases (F.lt F.zero native && F.lt F.zero base)) [
          | inl e ↦
              let (q, p) =
                percent-eq-ok (F.sub base tool) base (ieee.pos_nonzero base (ground arith)) in
              (
                some q,
                rw (e, p),
                (λ _. ((refl, ground arith, λ h. cc, λ h. cc), ground arith), λ _ h. cc),
              )
          | inr e ↦ (none, rw e, (λ h. absurd (h refl), λ h. ground arith))
        ]
    runtime_reduction-eq-ok _ _ _ _ = (none, refl, (λ h. absurd (h refl), λ h. ground arith))

    -- With IEEE floats the four metrics of the comparisons are computed for all inputs. The
    -- reduction of the run time is known exactly when the runs are comparable and the base time is
    -- positive.
    pub overhead_metrics-eq-ok :
        (native base tool : Str) (native_time base_time tool_time : Option Float)
        → (m : Overheads Float) × (r : Option Float) × (overhead_metrics F native base tool
              native_time base_time tool_time
            ≡ ok (m, r))
          × (compute_overhead_metrics F native base tool native_time base_time tool_time ≡ ok m)
          × ((r ≢ none) ↔ (
              IsComparable native base tool native_time base_time tool_time × Positive base_time))
    unfolding overhead_metrics compute_overhead_metrics
    overhead_metrics-eq-ok ns bs ts nt bt tt' =
        let (m, p, _, _, _) = guarded-eq-ok (all_succeeded ns bs ts) nt bt tt' in
        let (r, q, iff) = runtime_reduction-eq-ok (all_succeeded ns bs ts) nt bt tt' in
        let (to, from) = Guard-IsComparable ns bs ts nt bt tt' in
        (m, r, rw (p, q), p, (λ h. (to (iff.0 h).0, (iff.0 h).1), λ c. iff.1 (from c.0, c.1)))
