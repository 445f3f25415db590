-- ===== src/RecordTrace.antt =====
-- cmd/ctr/record_trace.go: an image is run to record what it reads, and gets the trace as a layer on
-- top. `defer` in the command runs when the command ends, so that what comes behind it stands inside.
pub mod Resources
pub mod Nested
use accelerated_container_im.Base.{
  ℕ, zero, suc, ◌*◌, String, ◌<>◌, Bool, true, false, not, Option, none, some, List, [], ◌∷◌, ◌++◌,
  ◌==◌, string_eq, nat_eq, if◌then◌else◌,
}
use accelerated_container_im.Base.Dict.{Dict, lookup}
use accelerated_container_im.Base.Text.{trim_suffix}
use accelerated_container_im.Convertor.Engine.{plain_descriptor}
use accelerated_container_im.Convertor.Overlaybd.Dedup.{is_not_found}
use accelerated_container_im.Convertor.Registry.{is_already_exists}
use accelerated_container_im.Host.{
  Host, stored_blob, store_blob, remove, sleep, stat, mkdir, create, run, get_image, platform_image,
  create_image, update_image, with_lease, delete_lease, time_text, random_text, cancelled,
  is_unpacked, unpack_image, image_root_fs, new_container, delete_container, new_task, delete_task,
  task_wait, task_start, exit_status, is_running, kill_task, cni_load, cni_setup, cni_remove,
  copy_file, sn_prepare,
}
use accelerated_container_im.Host.Exec.{
  Exec, act, ask, pure, fail, attempt, ignore, ensure, when, on_result, on_option, ◌>>=◌, ◌>>◌,
}
use accelerated_container_im.Host.Registry.{Descriptor, Manifest, Image}
use accelerated_container_im.Host.Types.{Error, not_exist, not_found, failed, panicked}
use accelerated_container_im.Snapshot.Label
use accelerated_container_im.Store.{Layer}
use accelerated_container_im.Store.Image.{gc_labels}
use accelerated_container_im.Store.Loader.{load}
use accelerated_container_im.Tools.{is_not_exist}

-- The flags and arguments of the command; the container's process is the host's.
pub record TraceOptions : Type 0 where
  pub old_ref : String
  pub new_ref : String
  -- in seconds
  pub record_time : ℕ
  pub priority_list : Option String
  pub working_dir : String
  pub isolated : Bool

-- The image with the acceleration layer: the history and the times are not modelled.
unfoldable pub with_accel_diff_id : Image → Layer → Image
with_accel_diff_id config layer = record config {
  diff_ids = config.diff_ids ++ (layer.diff_id ∷ []);
}

module _ (H : Host) where
  unfoldable pub accel_config_desc : Manifest → Image → Layer → Descriptor
  unfolding with_accel_diff_id
  accel_config_desc old config layer =
      plain_descriptor old.config.media_type (H.encode_image (with_accel_diff_id config layer))

  -- The fields that the new manifest does not take over are empty.
  unfoldable pub accel_manifest : Manifest → Image → Layer → Manifest
  unfolding accel_config_desc
  accel_manifest old config layer = record {
    media_type = old.media_type;
    config = accel_config_desc old config layer;
    layers = old.layers ++ (layer.desc ∷ []);
    artifact_type = "";
    subject = none;
  }

  -- createImageWithAccelLayer
  unfoldable pub create_image_with_accel_layer : Manifest → Layer → Exec Descriptor
  unfolding accel_manifest accel_config_desc gc_labels
  create_image_with_accel_layer old layer = do
    config ← ask H.image (stored_blob old.config)
    let config_desc = accel_config_desc old config layer in
        let final = accel_manifest old config layer in
        let desc = plain_descriptor old.media_type (H.encode_manifest final) in
        do
          act H (store_blob (H.ref_key config_desc) config_desc [])
          act H (
              store_blob (H.ref_key desc) desc (
                ("containerd.io/gc.ref.content.config", config_desc.digest)
                ∷ gc_labels 0 final.layers))
          pure desc

  -- uniqueObjectString: the time to the second, and a random text
  unfoldable pub unique_object_string : Exec String
  unique_object_string = do
    t ← ask H.text time_text
    b ← ask H.text random_text
    pure ("record-trace-" <> t <> "-" <> b)

  -- The loop of collectTrace, for a trace that may take `left` seconds more.
  unfoldable pub await_trace : ℕ → String → Exec (Unit {0})
  await_trace zero ok_file = do ask H.holds cancelled; fail failed
  await_trace (suc left) ok_file = do
    stop ← ask H.holds cancelled
    if stop then fail failed else do
      ignore (act H (sleep 1000))
      there ← attempt (act H (stat ok_file))
      on_result there pure (λ e. await_trace left ok_file)

  -- collectTrace, in at most `limit` seconds
  unfoldable pub collect_trace : ℕ → String → Exec (Unit {0})
  collect_trace limit trace_file = do
    unlocked ← attempt (act H (remove (trace_file <> ".lock")))
    on_result unlocked pure (λ e. if is_not_exist e then pure tt else fail e)
    ensure (act H (remove (trace_file <> ".ok"))) (await_trace limit (trace_file <> ".ok"))

  -- preventTaskHang, which runs beside the command
  unfoldable pub prevent_task_hang : ℕ → String → Exec (Unit {0})
  prevent_task_hang limit task = do
    ignore (act H (sleep (limit * 1000)))
    running ← attempt (ask H.holds (is_running task))
    on_result running (λ r. when r (ignore (act H (kill_task task "KILL")))) (λ e. pure tt)

  -- watchThread behind the first event, whichever it is, without the thread that prevents a hang
  unfoldable pub stop_task : String → Exec (Unit {0})
  stop_task task = do
    running ← attempt (ask H.holds (is_running task))
    on_result running (λ r. when r (ignore (act H (kill_task task "TERM")))) (λ e. pure tt)

  -- withNewSnapshot, which NewContainer runs
  unfoldable pub with_new_snapshot : String → String → String → Exec (List String)
  with_new_snapshot key image trace_file = do
    diff_ids ← ask H.names (image_root_fs image)
    ask H.names (
        sn_prepare key (H.chain_id diff_ids)
          ((Label.record_trace, "yes") ∷ (Label.record_trace_path, trace_file) ∷ []))

  -- createContainer before its container is made: the key of the container, its snapshot and its task.
  unfoldable pub prepare_container : String → String → Exec String
  prepare_container image trace_file = do
    unpacked ← ask H.holds (is_unpacked image)
    when (not unpacked) (act H (unpack_image image))
    key ← unique_object_string
    with_new_snapshot key image trace_file
    pure key

  -- The network of the container around `m`. An error of its removal is lost.
  unfoldable pub in_network : Bool → Exec (Unit {0}) → Exec (Unit {0})
  in_network false m = m
  in_network true m = do
    name ← unique_object_string
    act H (run "ip" ("netns" ∷ "add" ∷ name ∷ []))
    ensure (act H (run "ip" ("netns" ∷ "delete" ∷ name ∷ [])))
        (do act H cni_load; ensure (act H (cni_remove name)) (do act H (cni_setup name); m))

  -- The recording, and `m` behind it.
  unfoldable pub recording : TraceOptions → String → Exec (Unit {0}) → Exec (Unit {0})
  recording o trace_file m = do
    unique_object_string
    act H with_lease
    ensure (act H delete_lease) (
        in_network o.isolated (do
          key ← prepare_container o.old_ref trace_file
          act H (new_container key)
          ensure (act H (delete_container key)) (do
            act H (new_task key)
            ensure (act H (delete_task key)) (do
              act H (task_wait key)
              act H (task_start key)
              act H (exit_status key)
              collect_trace o.record_time trace_file
              m))))

  -- An error that is formatted by %v loses its class.
  unfoldable pub unclassed {ℓ} : {A : Type ℓ} → Exec A → Exec A
  unclassed m = do r ← attempt m; on_result r pure (λ e. fail failed)

  -- The loop that names the image, in at most `rounds` rounds.
  unfoldable pub name_image : ℕ → String → Descriptor → Exec (Unit {0})
  name_image zero name desc = fail not_found
  name_image (suc rounds) name desc =
      let again = name_image rounds name desc in
      do
        created ← attempt (act H (create_image name desc))
        on_result created pure (λ e. if not (is_already_exists e) then fail failed else do
          updated ← attempt (act H (update_image name desc))
          on_result updated pure (λ u. if is_not_found u then again else fail failed))

  -- From the trace file to the named image.
  unfoldable pub publish_trace : ℕ → TraceOptions → Manifest → String → String → Exec (Unit {0})
  publish_trace rounds o manifest fs_type trace_file = do
    layer ← unclassed (
        load H (record {
          files = record { src_file_path = trace_file; dst_file_name = "trace" } ∷ [];
          is_accel_layer = true;
          loaded_fs_type = fs_type;
        }))
    desc ← unclassed (create_image_with_accel_layer manifest layer)
    name_image rounds o.new_ref desc

  -- The validation of the top layer: its file system type. An image without layers makes it panic.
  unfoldable pub top_fs_type : List Descriptor → Exec String
  unfolding lookup string_eq
  top_fs_type [] = fail panicked
  top_fs_type (d ∷ []) =
      on_option (lookup Label.blob_digest d.annotations)
        (λ _.
          if annotation Label.acceleration_layer == "yes"
          then fail failed
          else pure (annotation Label.blob_fs_type))
        (fail failed)
    where
      annotation : String → String
      annotation k = elim (lookup k d.annotations) [ some v ↦ v | none ↦ "" ]
  top_fs_type (_ ∷ d ∷ ds) = top_fs_type (d ∷ ds)

  -- The trace file is filled from a list of files, or by the recording.
  unfoldable pub fill_trace : TraceOptions → String → Exec (Unit {0}) → Exec (Unit {0})
  fill_trace o trace_file m =
      on_option o.priority_list (λ list. do act H (copy_file list trace_file); m)
        (recording o trace_file m)

  -- What the command does behind the creation of the trace file, which is removed at its end.
  unfoldable pub with_trace_file : ℕ → TraceOptions → Manifest → String → String → Exec (Unit {0})
  with_trace_file rounds o manifest fs_type trace_file =
      ensure (act H (remove trace_file))
        (fill_trace o trace_file (publish_trace rounds o manifest fs_type trace_file))

  -- The checks in front: the new image must not be there.
  unfoldable pub check_new_image : TraceOptions → Exec (Unit {0})
  unfolding string_eq nat_eq
  check_new_image o =
      if o.record_time == 0
      then fail failed
      else if o.old_ref == ""
      then fail failed
      else if o.new_ref == ""
      then fail failed
      else do
        found ← attempt (ask H.descriptor (get_image o.new_ref))
        on_result found (λ _. fail failed) (λ e. if is_not_found e then pure tt else fail failed)

  -- The Action of recordTraceCommand
  unfoldable pub record_trace_action : ℕ → TraceOptions → Exec (Unit {0})
  unfolding trim_suffix
  record_trace_action rounds o = do
    check_new_image o
    target ← unclassed (ask H.descriptor (get_image o.old_ref))
    manifest ← ask H.manifest (platform_image target)
    fs_type ← top_fs_type manifest.layers
    made ← attempt (act H (mkdir o.working_dir))
    on_result made pure (λ e. if is_already_exists e then pure tt else fail e)
    name ← unique_object_string
    unclassed (act H (create (trim_suffix o.working_dir "/" <> "/" <> name)))
    with_trace_file rounds o manifest fs_type (trim_suffix o.working_dir "/" <> "/" <> name)
