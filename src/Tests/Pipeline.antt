-- ===== src/Tests/Pipeline.antt =====
-- Schedules of the conversion of an image with one layer (cmd/convertor/builder/builder.go), and
-- examples of the theorems on concrete inputs.
use accelerated_container_im.Base.{ℕ, ◌+◌, ◌*◌, ◌≤◌, ◌<◌, ◌≡◌, refl, ◌⊎◌, inl, arith}
use native.Mathlib.Decide.{ℕ_discrete}
use accelerated_container_im.Convertor.Pipeline.{
  State, Action, Enabled, Reach, start, later, start_state, next_state, Awaited, Returned, building,
  miss, no_offer, fetch_ok, fetch_bad, deliver, layer_first, layer_closed, build_ok, send_upload,
  send_done, upload_go, upload_ok, download_failed,
}
use accelerated_container_im.Convertor.Pipeline.Log.{Complete, Awaited-Complete}
use accelerated_container_im.Convertor.Pipeline.Completion.{
  Completes, Ends, Reach-Completes, Reach-Ends,
}
use accelerated_container_im.Convertor.Pipeline.Progress.{Can, Reach-Can}
use accelerated_container_im.Convertor.Pipeline.Termination.{steps}
use accelerated_container_im.Convertor.Pipeline.Turns.{building_alone}

-- A schedule with the state that it reaches.
record Run (n : ℕ) : Type 0 where
  last : State
  reach : Reach n last

abbrev begin : Run 1
begin = record { last = start_state; reach = start }

module _ {n : ℕ} where
  infixl 20 ◌then◌by◌
  abbrev ◌then◌by◌ : (r : Run n) (a : Action) → Enabled n r.last a → Run n
  r then a by g = record { last = next_state n a r.last; reach = later a r.reach g }

abbrev low : 0 < 1
low = omega arith

-- Layer 0 is downloaded, and its building begins.
unfoldable building_run : Run 1
unfolding ℕ_discrete
building_run =
    begin
    then miss 0 by (low, refl)
    then no_offer 0 by (low, refl, inl refl)
    then fetch_ok 0 by (low, refl)
    then deliver 0 by (low, refl, refl)
    then layer_first 0 by (low, refl, refl, refl)

-- The whole conversion.
unfoldable whole_run : Run 1
unfolding ℕ_discrete building_run
whole_run =
    building_run
    then build_ok 0 by (low, refl)
    then send_upload 0 by (low, refl, refl)
    then send_done 0 by (low, refl)
    then upload_go 0 by (low, refl, refl)
    then upload_ok 0 by (low, refl)

-- The download fails and its channel is closed: before the group cancels its context, the layer is
-- built all the same.
unfoldable failing_run : Run 1
unfolding ℕ_discrete
failing_run =
    begin
    then miss 0 by (low, refl)
    then no_offer 0 by (low, refl, inl refl)
    then fetch_bad 0 by (low, refl)
    then layer_closed 0 by (low, refl, inl refl)
    then layer_first 0 by (low, refl, refl, refl)

builds_without_layer :
    (failing_run.last.download 0 ≡ download_failed) × (failing_run.last.convert 0 ≡ building)
unfolding failing_run ℕ_discrete
builds_without_layer = (refl, refl)

whole_run_Awaited : Awaited 1 whole_run.last
unfolding whole_run ℕ_discrete
whole_run_Awaited = record {
  no_error = refl;
  returned = record {
    dedups = λ i l. ground (arith, l);
    downloads = λ i l. ground (arith, l);
    converts = λ i l. ground (arith, l);
    uploads = λ i l. ground (arith, l);
  };
}

Awaited-Complete_example : Complete 1 whole_run.last.log
Awaited-Complete_example = Awaited-Complete whole_run.reach whole_run_Awaited

building_alone_example : ◌≡◌ {A = ℕ} 0 0
unfolding building_run ℕ_discrete
building_alone_example = building_alone building_run.reach 0 0 refl refl

Reach-Can_example : Returned 1 building_run.last ⊎ Can 1 building_run.last
Reach-Can_example = Reach-Can building_run.reach

Reach-Ends_example : (steps building_run.reach ≤ 17 * 1 + 1) × Ends 1 building_run.last
Reach-Ends_example = Reach-Ends building_run.reach

Reach-Completes_example : Completes 1 building_run.last
unfolding building_run ℕ_discrete
Reach-Completes_example = Reach-Completes building_run.reach refl refl
