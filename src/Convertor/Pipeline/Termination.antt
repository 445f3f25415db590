-- ===== src/Convertor/Pipeline/Termination.antt =====
-- Every schedule ends: each step uses up some of a measure of the state.
use accelerated_container_im.Base.{ℕ, suc, ◌+◌, ◌*◌, ◌<◌, ◌≤◌, ◌≡◌, Bool, true, false, arith}
use accelerated_container_im.Convertor.Pipeline.{
  State, Dedup, checking, offering, checked, Download, waiting, fetching_converted, fetching,
  delivering, Convert, for_layer, got_layer, for_previous, got_previous, building, sending, Upload,
  for_converted, got_converted, uploading, Action, Enabled, next_state, Reach, start, later,
  start_state,
}
use accelerated_container_im.Convertor.Pipeline.Family.{sum, sum-put_at, sum-const}

abbrev dedup_rank : Dedup → ℕ
dedup_rank checking = 2
dedup_rank offering = 1
dedup_rank checked = 0

abbrev download_rank : Download → ℕ
download_rank waiting = 4
download_rank fetching_converted = 3
download_rank fetching = 2
download_rank delivering = 1
download_rank _ = 0

abbrev convert_rank : Convert → ℕ
convert_rank for_layer = 8
convert_rank got_layer = 7
convert_rank for_previous = 6
convert_rank got_previous = 5
convert_rank building = 4
convert_rank (sending k) = suc k
convert_rank _ = 0

abbrev upload_rank : Upload → ℕ
upload_rank for_converted = 3
upload_rank got_converted = 2
upload_rank uploading = 1
upload_rank _ = 0

abbrev context_rank : Bool → ℕ
context_rank false = 1
context_rank true = 0

pub measure : ℕ → State → ℕ
measure n s =
    sum dedup_rank n s.dedup
    + sum download_rank n s.download
    + sum convert_rank n s.convert
    + sum upload_rank n s.upload
    + context_rank s.cancelled

module _ (n : ℕ) (s : State) where
  pub measure_falls : (a : Action) → Enabled n s a → measure n (next_state n a s) < measure n s
  unfolding measure
  measure_falls a g = grind (
    arith,
    g,
    sum-put_at dedup_rank n,
    sum-put_at download_rank n,
    sum-put_at convert_rank n,
    sum-put_at upload_rank n,
  )

-- The number of steps of a schedule
unfoldable pub steps : {n : ℕ} {s : State} → Reach n s → ℕ
steps start = 0
steps (later a r g) = suc (steps r)

measure-start : (n : ℕ) → measure n start_state ≡ 17 * n + 1
unfolding measure
measure-start n = omega (
  arith,
  sum-const dedup_rank n checking,
  sum-const download_rank n waiting,
  sum-const convert_rank n for_layer,
  sum-const upload_rank n for_converted,
)

steps-measure : {n : ℕ} {s : State} (r : Reach n s) → steps r + measure n s ≤ 17 * n + 1
unfolding steps
steps-measure {n} start = omega (arith, measure-start n)
steps-measure {n} (later {s} a r g) = omega (arith, steps-measure r, measure_falls n s a g)

-- Every schedule for `n` layers has at most 17 n + 1 steps, whatever the engine answers.
pub steps_le : {n : ℕ} {s : State} (r : Reach n s) → steps r ≤ 17 * n + 1
steps_le r = omega (arith, steps-measure r)
