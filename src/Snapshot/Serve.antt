-- ===== src/Snapshot/Serve.antt =====
-- The snapshotter's other methods that work on one snapshot (overlay.go): Mounts, Commit, Stat,
-- Update and Usage.
use accelerated_container_im.Base.{
  ℕ, ◌+◌, String, Bool, true, false, not, ◌&&◌, List, [], ◌∷◌, if◌then◌else◌, ◌==◌, string_eq,
}
use accelerated_container_im.Base.Dict.{Dict, lookup, insert, erase}
use accelerated_container_im.Host.{
  Host, tx_begin, tx_commit, tx_rollback, get_info, get_snapshot, update_info, disk_usage,
  zdfs_prepare, lock, unlock,
}
use accelerated_container_im.Host.Types.{
  Result, ok, err, Info, Kind, view, active, committed, Snapshot,
}
use accelerated_container_im.Host.Exec.{
  Exec, act, ask, pure, attempt, ignore, ensure, when, on_error, on_result, ◌>>=◌, ◌>>◌,
}
use accelerated_container_im.Snapshot.{
  Snapshotter, StorageType, normal, local_block, local_layer, Mount, ro_dir, upper_path, block_path,
  sealed_file_path,
}
use accelerated_container_im.Snapshot.Construct.{construct_overlaybd_spec}
use accelerated_container_im.Snapshot.Device.{fs_type_of}
use accelerated_container_im.Snapshot.Device.Detach.{unmount_and_detach_block_device}
use accelerated_container_im.Snapshot.Device.Mount.{attach_and_mount_block_device}
use accelerated_container_im.Snapshot.Docker.{
  is_docker_container_layer, docker_container_layer_mount,
}
use accelerated_container_im.Snapshot.Identify.{identify_snapshot_storage_type}
use accelerated_container_im.Snapshot.Label
use accelerated_container_im.Snapshot.Modes.{
  label_text, has_label, is_turbo_oci, get_writable_type, is_block, load_backing_store_config,
}
use accelerated_container_im.Snapshot.Mounts.{normal_overlay_mount, based_on_block_device_mount}
use accelerated_container_im.Snapshot.Prepare.{no_info, commit_snapshot}
use accelerated_container_im.Snapshot.Spec.{seal_writable_overlaybd}

abbrev pub is_local_layer : StorageType → Bool
is_local_layer local_layer = true
is_local_layer _ = false

abbrev pub is_local_block : StorageType → Bool
is_local_block local_block = true
is_local_block _ = false

-- Two values that one call returns.
abbrev pub both {ℓ κ} : {A : Type ℓ} {B : Type κ} → Result A → Result B → Result (A × B)
both (ok a) (ok b) = ok (a, b)
both (ok a) (err e) = err e
both (err e) r = err e

module _ (H : Host) (o : Snapshotter) where
  -- Mounts for a snapshot with parents, read-only: on its parent's device, or on directories.
  unfoldable pub mounts_on_parent : Snapshot → Info → Exec (List Mount)
  unfolding string_eq
  mounts_on_parent s info = do
    parent ← ask H.info (get_info info.parent)
    stype ← identify_snapshot_storage_type H o parent.0 parent.1
    if is_block stype
        then (do
          fs_type ← fs_type_of H o parent.0 parent.1
          attach_and_mount_block_device H o parent.0 ro_dir fs_type false
          based_on_block_device_mount H o s ro_dir info)
        else if o.runtime_type == "docker" && is_docker_container_layer o info.parent
        then docker_container_layer_mount H o parent.1 s parent.0 info
        else normal_overlay_mount H o s info

  unfoldable pub mounts_with_parent : String → Snapshot → Exec (List Mount)
  unfolding string_eq
  mounts_with_parent key s = do
    found ← ask H.info (get_info key)
    write_type ← get_writable_type H o s.id found.1
    if not (write_type == ro_dir)
        then based_on_block_device_mount H o s write_type found.1
        else mounts_on_parent s found.1

  -- Two locks that are held while `m` runs; `Lock` does not fail.
  unfoldable pub locked {ℓ} : {A : Type ℓ} → Bool → String → String → Exec A → Exec A
  locked false id parent_id m = m
  locked true id parent_id m = do
    ignore (act H (lock id))
    ensure (ignore (act H (unlock id)))
        (do ignore (act H (lock parent_id)); ensure (ignore (act H (unlock parent_id))) m)

  unfoldable pub mounts_by_parents : List String → String → Snapshot → Exec (List Mount)
  mounts_by_parents [] key s = normal_overlay_mount H o s no_info
  mounts_by_parents (p ∷ _) key s = locked o.auto_remove_dev s.id p (mounts_with_parent key s)

  -- Mounts, in a transaction that is only read
  unfoldable pub mounts_of : String → Exec (List Mount)
  mounts_of key = do
    act H (tx_begin false)
    ensure (ignore (act H tx_rollback))
        (do s ← ask H.snapshot (get_snapshot key); mounts_by_parents s.parent_ids key s)

  -- The sealing of a writable layer in Commit; the labels to add.
  unfoldable pub seal_layer : String → String → Exec (Dict String)
  seal_layer id key = do
    unmount_and_detach_block_device H o id key ""
    seal_writable_overlaybd H o id
    pure ((Label.local_overlaybd_path, sealed_file_path o id) ∷ [])

  unfoldable pub seal_if_writable : String → String → Info → Exec (Dict String)
  unfolding lookup string_eq
  seal_if_writable id key info =
      if has_label info Label.support_read_write_mode
      then (if label_text info Label.acceleration_layer == "yes" then pure [] else (do
        loaded ← attempt (load_backing_store_config H o id)
        on_result loaded (λ _. seal_layer id key) (λ _. pure [])))
      else pure []

  -- The specifications that Commit writes, and the storage type that it goes on with.
  unfoldable pub spec_for_turbo_oci : String → Info → StorageType → Exec StorageType
  unfolding lookup
  spec_for_turbo_oci name info stype =
      if is_turbo_oci info
      then (do construct_overlaybd_spec H o name false; pure normal)
      else pure stype

  unfoldable pub spec_for_local_layer : String → StorageType → Exec StorageType
  spec_for_local_layer name stype =
      if is_local_layer stype
      then (do construct_overlaybd_spec H o name false; pure local_block)
      else pure stype

  unfoldable pub spec_for_local_block : String → String → Info → StorageType → Exec (Unit {0})
  unfolding insert erase
  spec_for_local_block name id info stype = when (is_local_block stype) (do
    construct_overlaybd_spec H o name false
    act H (
        update_info (record info {
          labels =
              erase Label.support_read_write_mode
                (insert Label.local_overlaybd_path (sealed_file_path o id) info.labels);
        })))

  unfoldable pub commit_body : String → String → Exec (Unit {0})
  commit_body name key = do
    found ← ask H.info (get_info key)
    labels ← seal_if_writable found.0 key found.1
    ask H.holds (zdfs_prepare key found.0)
    done ← commit_snapshot H o name key labels
    identified ← identify_snapshot_storage_type H o done.0 done.1
    converted ← spec_for_turbo_oci name done.1 identified
    stype ← spec_for_local_layer name converted
    spec_for_local_block name done.0 done.1 stype

  -- Commit
  unfoldable pub commit : String → String → Exec (Unit {0})
  commit name key = do
    act H (tx_begin true)
    on_error (ignore (act H tx_rollback)) (commit_body name key)
    act H tx_commit

  -- Stat
  unfoldable pub stat_of : String → Exec Info
  stat_of key = do
    act H (tx_begin false)
    ensure (ignore (act H tx_rollback)) (do found ← ask H.info (get_info key); pure found.1)

  -- Update
  unfoldable pub update : Info → Exec Info
  update info = do
    act H (tx_begin true)
    found ← on_error (ignore (act H tx_rollback)) (ask H.info (update_info info))
    act H tx_commit
    pure found.1

  -- diskUsageWithBlock: the sizes are added
  unfoldable pub disk_usage_with_block : String → StorageType → Exec ℕ
  disk_usage_with_block id stype = do
    upper ← ask H.number (disk_usage (upper_path o id))
    if is_block stype
        then (do block ← ask H.number (disk_usage (block_path o id)); pure (upper + block))
        else pure upper

  abbrev counts_block : Kind → StorageType → Bool
  counts_block active stype = true
  counts_block committed stype = is_block stype
  counts_block view stype = false

  -- Usage; GetInfo answers with the stored usage too.
  unfoldable pub usage : String → Exec ℕ
  usage key = do
    act H (tx_begin false)
    (found, stored) ←
        ensure (ignore (act H tx_rollback))
          (ask (λ h op. both (H.info h op) (H.number h op)) (get_info key))
    stype ← identify_snapshot_storage_type H o found.0 found.1
    if counts_block found.1.kind stype then disk_usage_with_block found.0 stype else pure stored
