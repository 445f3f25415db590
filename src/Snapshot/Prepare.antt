-- ===== src/Snapshot/Prepare.antt =====
-- createMountPoint (overlay.go), behind Prepare and View: a new snapshot, and what is mounted for it.
use accelerated_container_im.Base.{
  String, Bool, true, false, not, ◌&&◌, ◌||◌, Option, none, some, List, [], ◌∷◌, if◌then◌else◌,
  ◌==◌, string_eq,
}
use accelerated_container_im.Base.Dict.{Dict, lookup, insert, erase}
use accelerated_container_im.Host.{
  Host, tx_begin, tx_commit, tx_rollback, get_info, get_snapshot, commit_active, update_info,
  disk_usage, remove_all, unmount,
}
use accelerated_container_im.Host.Types.{
  already_exists, panicked, Info, Kind, view, active, Snapshot,
}
use accelerated_container_im.Host.Exec.{
  Exec, act, ask, pure, fail, attempt, ignore, when, on_error, on_result, on_option, ◌>>=◌, ◌>>◌,
}
use accelerated_container_im.Snapshot.{
  Snapshotter, StorageType, normal, local_block, remote_block, Mount, ro_dir, rw_dir, sn_path,
  upper_path, overlaybd_mountpoint,
}
use accelerated_container_im.Snapshot.Construct.{construct_overlaybd_spec}
use accelerated_container_im.Snapshot.Create.{create_snapshot_dir}
use accelerated_container_im.Snapshot.Device.{fs_type_of}
use accelerated_container_im.Snapshot.Device.Mount.{attach_and_mount_block_device}
use accelerated_container_im.Snapshot.Docker.{
  is_docker_init_layer, is_docker_container_layer, prepare_docker_layer,
}
use accelerated_container_im.Snapshot.Identify.{identify_snapshot_storage_type}
use accelerated_container_im.Snapshot.Label
use accelerated_container_im.Snapshot.Modes.{
  label, label_text, has_label, is_turbo_oci, is_prepare_rootfs, get_writable_type, is_block,
}
use accelerated_container_im.Snapshot.Mounts.{
  bind_mount, normal_overlay_mount, based_on_block_device_mount,
}
use accelerated_container_im.Snapshot.Spec.{construct_spec_for_accel_layer, update_spec}

-- What is left to do once the transaction is committed.
pub data Plan : Type 0 where
  -- return these mounts
  ready : List Mount → Plan
  -- return ErrAlreadyExists: the layer needs no download
  skip : Plan
  -- compute the mounts of a snapshot; the device that is mounted for writing, if there is one
  compute : StorageType → String → Info → Snapshot → Option String → Plan

abbrev pub is_remote : StorageType → Bool
is_remote remote_block = true
is_remote _ = false

abbrev pub is_normal : StorageType → Bool
is_normal normal = true
is_normal _ = false

-- snapshots.Info{}
abbrev pub no_info : Info
no_info = record { kind = view; name = ""; parent = ""; labels = [] }

module _ (H : Host) (o : Snapshotter) where
  -- commit: the active snapshot `key` becomes the committed snapshot `name`.
  unfoldable pub commit_snapshot : String → String → Dict String → Exec (String × Info)
  commit_snapshot name key labels = do
    found ← ask H.info (get_info key)
    ask H.number (disk_usage (upper_path o found.0))
    act H (commit_active key name labels)
    ask H.info (get_info name)

  abbrev pulled : String → Plan
  pulled id = ready (bind_mount (upper_path o id) ("rw" ∷ "bind" ∷ []))

  -- A layer that is pulled on demand is committed at once.
  unfoldable pub commit_remote : String → String → Info → Exec (Option Plan)
  unfolding insert
  commit_remote ref key info = do
    commit_snapshot ref key (insert Label.remote_label Label.remote_label_val info.labels)
    construct_overlaybd_spec H o ref false
    pure (some skip)

  -- The part of createMountPoint for pulling an image; `none` goes on below it.
  unfoldable pub plan_pull : String → String → Info → String → String → Exec (Option Plan)
  unfolding lookup string_eq
  plan_pull ref key info id parent_id =
      if label_text info Label.acceleration_layer == "yes"
      then (do construct_spec_for_accel_layer H o id parent_id; pure (some (pulled id)))
      else do
        stype ← identify_snapshot_storage_type H o id info
        if label_text info Label.download_remote_blob == "download" && is_remote stype
            then (do construct_overlaybd_spec H o key false; pure (some (pulled id)))
            else if not (is_turbo_oci info) && is_remote stype
            then commit_remote ref key info
            else pure none

  -- updateSpec on the parent and, for a writable device, on the snapshot itself, whose error is dropped.
  unfoldable pub update_both : String → String → Bool → Bool → String → Exec (Unit {0})
  update_both parent_id id writable accel path = do
    done ← attempt (update_spec H o parent_id accel path)
    when writable (ignore (update_spec H o id accel path))
    on_result done pure fail

  unfoldable pub update_specs : String → String → Info → Info → Bool → Exec (Unit {0})
  unfolding lookup string_eq
  update_specs parent_id id parent_info info writable =
      if label_text parent_info Label.acceleration_layer == "yes"
      then update_both parent_id id writable true ""
      else if label_text info Label.record_trace == "yes"
          && not (label_text info Label.record_trace_path == "")
      then update_both parent_id id writable false (label_text info Label.record_trace_path)
      else update_both parent_id id false false ""

  -- The device of a container's rootfs: its own if it is writable, or else its parent's.
  unfoldable pub attach_rootfs :
      String → String → String → Info → Info → String → Exec (Option String)
  unfolding string_eq
  attach_rootfs parent parent_id id parent_info info write_type = do
    let writable = not (write_type == ro_dir)
    when (not (parent == "")) (update_specs parent_id id parent_info info writable)
    let obd_id = if writable then id else parent_id
    fs_type ← fs_type_of H o obd_id (if writable then info else parent_info)
    attach_and_mount_block_device H o obd_id write_type fs_type (parent == "")
    pure (if write_type == rw_dir then some obd_id else none)

  -- The storage type that a container's rootfs is based on.
  unfoldable pub rootfs_storage : String → String → String → Info → String → Exec StorageType
  unfolding string_eq
  rootfs_storage key parent parent_id parent_info write_type =
      if not (write_type == ro_dir)
      then (do construct_overlaybd_spec H o key true; pure local_block)
      else if not (parent == "")
      then identify_snapshot_storage_type H o parent_id parent_info
      else pure normal

  -- "if is not overlaybd writable layer, delete label before commit"; the update's error is dropped.
  unfoldable pub drop_writable_label : StorageType → Info → Exec Info
  unfolding lookup erase
  drop_writable_label stype info =
      let info' = record info { labels = erase Label.support_read_write_mode info.labels } in
      if is_normal stype && has_label info Label.support_read_write_mode
      then (do ignore (act H (update_info info')); pure info')
      else pure info

  -- The storage type of a container's rootfs, and the device that is mounted for writing.
  unfoldable pub prepare_rootfs :
      String → String → String → String → Info → Info → String → Exec (StorageType × Option String)
  prepare_rootfs key parent parent_id id parent_info info write_type = do
    stype ← rootfs_storage key parent parent_id parent_info write_type
    device ←
        if is_block stype
        then attach_rootfs parent parent_id id parent_info info write_type
        else pure none
    pure (stype, device)

  -- createMountPoint from the rootfs to the commit
  unfoldable pub plan_rootfs :
      String → String → String → String → Info → Info → Snapshot → String → Exec Plan
  unfolding is_prepare_rootfs
  plan_rootfs key parent parent_id id parent_info info s write_type = do
    found ←
        if is_prepare_rootfs info
        then prepare_rootfs key parent parent_id id parent_info info write_type
        else pure (normal, none)
    info' ← drop_writable_label found.0 info
    pure (compute found.0 write_type info' s found.1)

  -- createMountPoint behind the pull
  unfoldable pub plan_mounts :
      String → String → String → String → Info → Info → Snapshot → Exec Plan
  plan_mounts key parent parent_id id parent_info info s = do
    write_type ← get_writable_type H o parent_id info
    if is_docker_init_layer o key || is_docker_container_layer o parent
        then (do
          found ← prepare_docker_layer H o key parent s parent_id parent_info
          pure (ready found.0))
        else plan_rootfs key parent parent_id id parent_info info s write_type

  unfoldable pub parent_of : String → Exec (String × Info)
  unfolding string_eq
  parent_of parent = if parent == "" then pure ("", no_info) else ask H.info (get_info parent)

  unfoldable pub plan_snapshot : String → String → String → Info → Exec Plan
  unfolding lookup
  plan_snapshot key parent id info = do
    s ← ask H.snapshot (get_snapshot key)
    p ← parent_of parent
    pull ←
        on_option (label info Label.target_snapshot_ref) (λ ref. plan_pull ref key info id p.0)
          (pure none)
    on_option pull pure (plan_mounts key parent p.0 id p.1 info s)

  -- createMountPoint up to the commit; a snapshot that is made and then given up is removed.
  unfoldable pub plan_mount_point : Kind → String → String → Exec Plan
  plan_mount_point kind key parent = do
    made ← create_snapshot_dir H o kind key parent
    on_error (ignore (act H (remove_all (sn_path o made.0))))
        (plan_snapshot key parent made.0 made.1)

  unfoldable pub finish_normal : Info → Snapshot → Exec (List Mount)
  unfolding lookup
  finish_normal info s =
      if has_label info Label.layer_to_turbo_oci
      then pure (bind_mount (upper_path o s.id) ("rw" ∷ "rbind" ∷ []))
      else normal_overlay_mount H o s info

  -- createMountPoint behind the commit
  unfoldable pub finish : Plan → Exec (List Mount)
  finish (ready m) = pure m
  finish skip = fail already_exists
  finish (compute normal w info s d) = finish_normal info s
  finish (compute local_block w info s d) = based_on_block_device_mount H o s w info
  finish (compute remote_block w info s d) = based_on_block_device_mount H o s w info
  finish (compute _ w info s d) = fail panicked

  -- The deferred unmount of a writable device.
  unfoldable pub undo : Plan → Exec (Unit {0})
  undo (compute t w info s (some id)) = ignore (act H (unmount (overlaybd_mountpoint o id)))
  undo _ = pure tt

  -- createMountPoint
  unfoldable pub create_mount_point : Kind → String → String → Exec (List Mount)
  create_mount_point kind key parent = do
    act H (tx_begin true)
    plan ← on_error (ignore (act H tx_rollback)) (plan_mount_point kind key parent)
    on_error (undo plan) (do act H tx_commit; finish plan)

  -- Prepare, View
  unfoldable pub prepare : String → String → Exec (List Mount)
  unfolding create_mount_point
  prepare key parent = create_mount_point active key parent

  unfoldable pub view_of : String → String → Exec (List Mount)
  unfolding create_mount_point
  view_of key parent = create_mount_point view key parent
