-- ===== src/Snapshot/Device/Detach.antt =====
-- DetachDevice, UnmountAndDetachBlockDevice and what they ask first (storage.go).
use accelerated_container_im.Base.{
  String, ◌<>◌, Bool, true, false, not, ◌&&◌, ◌||◌, List, [], ◌∷◌, if◌then◌else◌, ◌==◌, string_eq,
}
use accelerated_container_im.Base.Int.{ℤ}
use accelerated_container_im.Host.{
  Host, remove_all, read_file, overlay_uses, walk_info, unmount_all,
}
use accelerated_container_im.Host.Types.{Kind, active, view, Info}
use accelerated_container_im.Host.Exec.{Exec, act, ask, pure, ignore, ◌>>=◌, ◌>>◌}
use accelerated_container_im.Snapshot.{Snapshotter, overlaybd_mountpoint, backstore_mark_file}
use accelerated_container_im.Snapshot.Device.Names.{
  obd_hba_num, overlaybd_target_path, overlaybd_loopback_device_id, overlaybd_loopback_device_path,
  overlaybd_loopback_device_lun_path,
}

abbrev pub is_running : Kind → Bool
is_running active = true
is_running view = true
is_running _ = false

-- The function that checkIsParent hands to WalkInfo, over the snapshots that are walked.
unfoldable pub has_child : String → String → List Info → Bool
unfolding string_eq
has_child key exclude [] = false
has_child key exclude (i ∷ infos) =
    (not (i.name == exclude) && (i.parent == key && is_running i.kind))
    || has_child key exclude infos

module _ (H : Host) where
  -- checkIsParent
  unfoldable pub check_is_parent : String → String → Exec Bool
  check_is_parent key exclude = do infos ← ask H.infos walk_info; pure (has_child key exclude infos)

  -- DetachDevice
  unfoldable pub detach_device : String → ℤ → Exec (Unit {0})
  detach_device id tenant =
      let dev_id = overlaybd_loopback_device_id tenant id in
      let lun = overlaybd_loopback_device_lun_path dev_id in
      let loop_dev = overlaybd_loopback_device_path dev_id in
      do
        act H (remove_all (lun <> "/dev_" <> id))
        act H (remove_all lun)
        act H (remove_all (loop_dev <> "/tpgt_1"))
        act H (remove_all loop_dev)
        act H (remove_all (overlaybd_target_path (obd_hba_num tenant) id))

  -- The parent's other users are asked only if a key to leave out is given.
  unfoldable pub parent_in_use : String → String → Exec Bool
  unfolding string_eq
  parent_in_use key exclude = if exclude == "" then pure false else check_is_parent key exclude

  -- UnmountAndDetachBlockDevice; `overlay_uses` is checkOverlaybdInUse's reading of the mount table.
  unfoldable pub unmount_and_detach_block_device :
      Snapshotter → String → String → String → Exec (Unit {0})
  unmount_and_detach_block_device o id key upper_dir_key = do
    ignore (ask H.text (read_file (backstore_mark_file o id)))
    busy ← ask H.holds (overlay_uses (overlaybd_mountpoint o id))
    if busy then pure tt else do
      in_use ← parent_in_use key upper_dir_key
      if in_use
          then pure tt
          else do act H (unmount_all (overlaybd_mountpoint o id)); detach_device id o.tenant
