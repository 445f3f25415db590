-- ===== src/Snapshot/Remove.antt =====
-- Remove and Cleanup (overlay.go).
pub mod Directories
use accelerated_container_im.Base.{
  String, ◌<>◌, true, not, List, [], ◌∷◌, if◌then◌else◌, string_eq, contains,
}
use accelerated_container_im.Host.{
  Host, tx_begin, tx_commit, tx_rollback, get_info, get_snapshot, remove_snapshot, mounted, unmount,
  stat, id_map, read_dir, remove_all,
}
use accelerated_container_im.Host.Types.{failed, Info, Snapshot}
use accelerated_container_im.Host.Exec.{
  Exec, act, ask, pure, fail, attempt, ignore, ensure, when, on_error, on_result, ◌>>=◌, ◌>>◌,
}
use accelerated_container_im.Snapshot.{
  Snapshotter, overlaybd_mountpoint, idmapped_lower_path, backstore_mark_file,
}
use accelerated_container_im.Snapshot.Device.Detach.{unmount_and_detach_block_device}
use accelerated_container_im.Snapshot.Docker.{is_docker_init_layer, remove_docker_layer}
use accelerated_container_im.Snapshot.Identify.{identify_snapshot_storage_type}
use accelerated_container_im.Snapshot.Mounts.{is_active}
use accelerated_container_im.Snapshot.Prepare.{is_normal}
use accelerated_container_im.Snapshot.Serve.{locked}

-- The loop of getCleanupDirectories: the directories that belong to no snapshot.
unfoldable pub dead_dirs : String → List String → List String → List String
unfolding string_eq
dead_dirs snapshot_dir ids [] = []
dead_dirs snapshot_dir ids (d ∷ dirs) =
    let rest = dead_dirs snapshot_dir ids dirs in
    if contains ids d then rest else (snapshot_dir <> "/" <> d) ∷ rest

module _ (H : Host) (o : Snapshotter) where
  -- getCleanupDirectories; opening the directory and reading it is one call.
  unfoldable pub get_cleanup_directories : Exec (List String)
  get_cleanup_directories = do
    ids ← ask H.names id_map
    dirs ← ask H.names (read_dir (o.root <> "/snapshots"))
    pure (dead_dirs (o.root <> "/snapshots") ids dirs)

  unfoldable pub remove_dirs : List String → Exec (Unit {0})
  remove_dirs [] = pure tt
  remove_dirs (d ∷ ds) = let rest = remove_dirs ds in do ignore (act H (remove_all d)); rest

  -- Cleanup
  unfoldable pub cleanup : Exec (Unit {0})
  cleanup = do
    act H (tx_begin true)
    dirs ← ensure (ignore (act H tx_rollback)) get_cleanup_directories
    remove_dirs dirs

  -- The end of Remove. The directories are removed before the transaction is committed.
  unfoldable pub remove_metadata : String → String → Exec (Unit {0})
  remove_metadata key id = do
    busy ← ask H.holds (mounted (overlaybd_mountpoint o id))
    if busy then fail failed else do
      act H (remove_snapshot key)
      when (not o.async_remove) (do dirs ← get_cleanup_directories; remove_dirs dirs)

  -- The parent's device goes with its last user. The storage type is asked with the labels of the
  -- snapshot itself.
  unfoldable pub detach_parent : String → String → Info → Exec (Unit {0})
  detach_parent key parent_id info = do
    found ← attempt (identify_snapshot_storage_type H o parent_id info)
    on_result found
        (λ stype. if is_normal stype then pure tt else (do
          parent ← ask H.info (get_info info.parent)
          unmount_and_detach_block_device H o parent_id parent.1.name key))
        (λ _. pure tt)

  -- Under `autoRemoveDev`, for an active snapshot with parents.
  unfoldable pub remove_locked : List String → String → String → Info → Snapshot → Exec (Unit {0})
  remove_locked [] key id info s = remove_metadata key id
  remove_locked (p ∷ _) key id info s =
      if is_active s.kind
      then locked H o true s.id p (do detach_parent key p info; remove_metadata key id)
      else remove_metadata key id

  unfoldable pub remove_with_parent : String → String → Info → Exec (Unit {0})
  remove_with_parent key id info =
      if o.auto_remove_dev
      then (do
        found ← attempt (ask H.snapshot (get_snapshot key))
        on_result found (λ s. remove_locked s.parent_ids key id info s)
            (λ _. remove_metadata key id))
      else remove_metadata key id

  -- The snapshot's own mounts and device, before its metadata.
  unfoldable pub release_device : String → String → Info → Exec (Unit {0})
  release_device key id info = do
    idmapped ← ask H.holds (mounted (idmapped_lower_path o id))
    when idmapped (act H (unmount (idmapped_lower_path o id)))
    stype ← identify_snapshot_storage_type H o id info
    when (not (is_normal stype)) (do
      mark ← attempt (act H (stat (backstore_mark_file o id)))
      on_result mark (λ _. unmount_and_detach_block_device H o id key "") (λ _. pure tt))
    when (is_docker_init_layer o key) (ignore (remove_docker_layer H o key info))

  unfoldable pub remove_body : String → Exec (Unit {0})
  remove_body key = do
    found ← ask H.info (get_info key)
    release_device key found.0 found.1
    remove_with_parent key found.0 found.1

  -- Remove; the error of its commit is dropped.
  unfoldable pub remove : String → Exec (Unit {0})
  remove key = do
    act H (tx_begin true)
    on_error (ignore (act H tx_rollback)) (remove_body key)
    ignore (act H tx_commit)
