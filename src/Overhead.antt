-- ===== src/Overhead.antt =====
-- The overhead metrics: `compute_overhead_metrics` of scripts/opensource_summary.py and
-- scripts/spec_asan_summary.py, and `overhead_metrics` of scripts/opensource_asanmm_summary.py,
-- scripts/spec_asanmm_summary.py and scripts/spec_sanrazor_summary.py, which add one more.
pub mod Laws
use desan.Prelude.{
  ◌≡◌, Bool, true, false, ◌&&◌, Option, none, some, ◌==◌, nat_eq, list_eq, if◌then◌else◌,
}
use desan.Py.Result.{Result, ok, err, ◌>>=◌, PyError}
use desan.Py.Text.{Str, codes}
use desan.Py.Float.{FloatOps}

pub record Overheads {ℓ} (T : Type ℓ) : Type ℓ where
  pub sanitizer_overhead : Option T
  pub tool_overhead : Option T
  pub overhead_reduction : Option T

abbrev pub unknown {ℓ} : {T : Type ℓ} → Overheads T
unknown = record { sanitizer_overhead = none; tool_overhead = none; overhead_reduction = none }

-- The tests on the three statuses.
abbrev pub all_succeeded : Str → Str → Str → Bool
all_succeeded native before after = native == codes "S" && before == codes "S" && after == codes "S"

module _ (F : FloatOps) where
  open F use {Float}

  -- `part / whole * 100.0`
  unfoldable pub percent : Float → Float → Result Float
  percent part whole = elim (F.div part whole) [
    | none ↦ err PyError.zero_division_error
    | some q ↦ ok (F.mul q F.hundred)
  ]

  -- `if before_time != native_time: …`
  unfoldable pub reduction : Float → Float → Float → Result (Option Float)
  unfolding percent
  reduction native before after =
      if F.eq before native
      then ok none
      else percent (F.sub before after) (F.sub before native) >>= λ r. ok (some r)

  unfoldable pub overheads : Float → Float → Float → Result (Overheads Float)
  unfolding reduction
  overheads native before after = do
    sanitizer ← percent (F.sub before native) native
    tool ← percent (F.sub after native) native
    reduced ← reduction native before after
    ok (record {
      sanitizer_overhead = some sanitizer;
      tool_overhead = some tool;
      overhead_reduction = reduced;
    })

  -- `if …: …`, for the three results of the tests on the statuses and the times.
  unfoldable pub guarded :
      Bool → Option Float → Option Float → Option Float → Result (Overheads Float)
  unfolding overheads
  guarded true (some native) (some before) (some after) =
      if F.lt F.zero native then overheads native before after else ok unknown
  guarded _ _ _ _ = ok unknown

  unfoldable pub compute_overhead_metrics :
      (native_status before_status after_status : Str)
      (native_time before_time after_time : Option Float)
      → Result (Overheads Float)
  unfolding guarded
  compute_overhead_metrics native_status before_status after_status native_time before_time
        after_time =
      guarded (all_succeeded native_status before_status after_status) native_time before_time
        after_time

  -- `if base_time > 0: runtime_reduction = (base_time - asanmm_time) / base_time * 100.0`
  unfoldable pub runtime_reduction :
      Bool → Option Float → Option Float → Option Float → Result (Option Float)
  unfolding percent
  runtime_reduction true (some native) (some base) (some tool) =
      if F.lt F.zero native && F.lt F.zero base
      then (percent (F.sub base tool) base >>= λ r. ok (some r))
      else ok none
  runtime_reduction _ _ _ _ = ok none

  unfoldable pub overhead_metrics :
      (native_status base_status tool_status : Str) (native_time base_time tool_time : Option Float)
      → Result (Overheads Float × Option Float)
  unfolding guarded runtime_reduction
  overhead_metrics native_status base_status tool_status native_time base_time tool_time = do
    let succeeded = all_succeeded native_status base_status tool_status
    metrics ← guarded succeeded native_time base_time tool_time
    reduced ← runtime_reduction succeeded native_time base_time tool_time
    ok (metrics, reduced)
