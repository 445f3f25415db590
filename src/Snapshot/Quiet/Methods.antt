-- ===== src/Snapshot/Quiet/Methods.antt =====
-- The transaction calls of new snapshots, Docker layers and the body of createMountPoint (overlay.go,
-- docker.go).
use accelerated_container_im.Base.{ℕ, String, Bool, some, List, [], ◌∷◌}
use accelerated_container_im.Base.Dict.{Dict}
use accelerated_container_im.Base.Int.{ℤ}
use accelerated_container_im.Host.{Host}
use accelerated_container_im.Host.Types.{Info, Kind, Snapshot}
use accelerated_container_im.Host.Trace.{Emits, emits_rules}
use accelerated_container_im.Host.Transactions.{no_tx}
use accelerated_container_im.Snapshot.{Snapshotter, StorageType, normal, local_block, remote_block}
use accelerated_container_im.Snapshot.Create.{
  fill_directory, set_disk_quota, owner_ids, set_owner, set_quota_of_rootfs, fill_snapshot,
  note_image, create_snapshot_dir,
}
use accelerated_container_im.Snapshot.Docker.{
  prepare_docker_init_layer, image_lowers, prepare_docker_container_layer, prepare_docker_layer,
  destroy_image_device, remove_docker_layer, docker_container_layer_mount,
}
use accelerated_container_im.Snapshot.Prepare.{
  Plan, ready, skip, compute, commit_snapshot, commit_remote, plan_pull, update_both, update_specs,
  attach_rootfs, rootfs_storage, drop_writable_label, prepare_rootfs, plan_rootfs, plan_mounts,
  parent_of, plan_snapshot, plan_mount_point, finish_normal, finish, undo,
}
use accelerated_container_im.Snapshot.Quiet.Device.{
  attach_and_mount-Emits, unmount_and_detach-Emits,
}
use accelerated_container_im.Snapshot.Quota.{
  check_regular_file, get_quota_id_in_file_attr, set_quota_of_size, check_mountpoint,
  limit_directory, check_dev_limit, get_dev_limit, set_file_attr, set_quota_of,
}
use accelerated_container_im.Snapshot.Quiet.Layers.{
  supports_index-Emits, identify-quiet, writable_type-Emits, fs_type_of-Emits, normal_mount-Emits,
  block_mount-Emits, accel_spec-Emits, update_spec-Emits, construct-Emits,
}

module _ (H : Host) (o : Snapshotter) where
  fill_directory-Emits : (t : String) (k : Kind) → Emits no_tx (fill_directory H o t k)
  unfolding fill_directory
  fill_directory-Emits t k = search emits_rules depth 20

  quota-Emits : (d s : String) (q : ℕ) → Emits no_tx (set_disk_quota H o d s q)
  unfolding set_disk_quota check_regular_file get_quota_id_in_file_attr set_quota_of_size
      check_mountpoint limit_directory check_dev_limit get_dev_limit set_file_attr set_quota_of
  quota-Emits d s q = search emits_rules depth 30

  owner_ids-Emits : (u g : ℤ) (ps : List String) → Emits no_tx (owner_ids H o u g ps)
  unfolding owner_ids
  owner_ids-Emits u g [] = search emits_rules
  owner_ids-Emits u g (p ∷ ps) = search emits_rules depth 20

  set_owner-Emits : (t : String) (i : Info) (ps : List String) → Emits no_tx (set_owner H o t i ps)
  unfolding set_owner
  set_owner-Emits t i ps = search (emits_rules, owner_ids-Emits) depth 20

  rootfs_quota-Emits :
      (t : String) (i : Info) (ps : List String) → Emits no_tx (set_quota_of_rootfs H o t i ps)
  unfolding set_quota_of_rootfs
  rootfs_quota-Emits t i ps = search (emits_rules, quota-Emits) depth 20

  fill_snapshot-Emits :
      (t : String) (k : Kind) (key p : String) → Emits no_tx (fill_snapshot H o t k key p)
  unfolding fill_snapshot
  fill_snapshot-Emits t k key p =
      search (emits_rules, fill_directory-Emits, set_owner-Emits, rootfs_quota-Emits) depth 20

  note_image-Emits : (p : String) (i : Info) → Emits no_tx (note_image H o p i)
  unfolding note_image
  note_image-Emits p i = search emits_rules depth 20

  create-Emits : (k : Kind) (key p : String) → Emits no_tx (create_snapshot_dir H o k key p)
  unfolding create_snapshot_dir
  create-Emits k key p = search (emits_rules, fill_snapshot-Emits, note_image-Emits) depth 20

  init_layer-Emits :
      (s : Snapshot) (p : String) (i : Info) (t : StorageType)
      → Emits no_tx (prepare_docker_init_layer H o s p i t)
  unfolding prepare_docker_init_layer
  init_layer-Emits s p i t = search (emits_rules, fs_type_of-Emits, attach_and_mount-Emits) depth 20

  image_lowers-Emits : (s : Snapshot) (i : Info) → Emits no_tx (image_lowers H o s i)
  unfolding image_lowers
  image_lowers-Emits s i = search (emits_rules, identify-quiet) depth 20

  container_layer-Emits :
      (s : Snapshot) (p : String) (i : Info)
      → Emits no_tx (prepare_docker_container_layer H o s p i)
  unfolding prepare_docker_container_layer
  container_layer-Emits s p i =
      search (emits_rules, image_lowers-Emits, supports_index-Emits) depth 20

  docker-Emits :
      (k p : String) (s : Snapshot) (pid : String) (i : Info)
      → Emits no_tx (prepare_docker_layer H o k p s pid i)
  unfolding prepare_docker_layer
  docker-Emits k p s pid i =
      search (emits_rules, identify-quiet, init_layer-Emits, container_layer-Emits) depth 20

  destroy-Emits : (k p : String) (i : Info) → Emits no_tx (destroy_image_device H o k p i)
  unfolding destroy_image_device
  destroy-Emits k p i = search (emits_rules, identify-quiet, unmount_and_detach-Emits) depth 20

  pub remove_docker-Emits : (k : String) (i : Info) → Emits no_tx (remove_docker_layer H o k i)
  unfolding remove_docker_layer
  remove_docker-Emits k i = search (emits_rules, destroy-Emits) depth 20

  pub docker_mount-Emits :
      (pi : Info) (s : Snapshot) (p : String) (i : Info)
      → Emits no_tx (docker_container_layer_mount H o pi s p i)
  unfolding docker_container_layer_mount
  docker_mount-Emits pi s p i =
      search (emits_rules, identify-quiet, normal_mount-Emits, supports_index-Emits) depth 20

  -- Prepare
  pub commit_snapshot-Emits :
      (n k : String) (l : Dict String) → Emits no_tx (commit_snapshot H o n k l)
  unfolding commit_snapshot
  commit_snapshot-Emits n k l = search emits_rules depth 20

  commit_remote-Emits : (r k : String) (i : Info) → Emits no_tx (commit_remote H o r k i)
  unfolding commit_remote
  commit_remote-Emits r k i = search (emits_rules, commit_snapshot-Emits, construct-Emits) depth 20

  pull-Emits : (r k : String) (i : Info) (id p : String) → Emits no_tx (plan_pull H o r k i id p)
  unfolding plan_pull
  pull-Emits r k i id p =
      search (emits_rules, accel_spec-Emits, identify-quiet, construct-Emits, commit_remote-Emits)
        depth 20

  update_both-Emits :
      (p id : String) (w a : Bool) (t : String) → Emits no_tx (update_both H o p id w a t)
  unfolding update_both
  update_both-Emits p id w a t = search (emits_rules, update_spec-Emits) depth 20

  update_specs-Emits :
      (p id : String) (pi i : Info) (w : Bool) → Emits no_tx (update_specs H o p id pi i w)
  unfolding update_specs
  update_specs-Emits p id pi i w = search (emits_rules, update_both-Emits) depth 20

  attach_rootfs-Emits :
      (p pid id : String) (pi i : Info) (w : String)
      → Emits no_tx (attach_rootfs H o p pid id pi i w)
  unfolding attach_rootfs
  attach_rootfs-Emits p pid id pi i w =
      search (emits_rules, update_specs-Emits, fs_type_of-Emits, attach_and_mount-Emits) depth 20

  rootfs_storage-Emits :
      (k p pid : String) (pi : Info) (w : String) → Emits no_tx (rootfs_storage H o k p pid pi w)
  unfolding rootfs_storage
  rootfs_storage-Emits k p pid pi w = search (emits_rules, construct-Emits, identify-quiet) depth 20

  drop_label-Emits : (t : StorageType) (i : Info) → Emits no_tx (drop_writable_label H o t i)
  unfolding drop_writable_label
  drop_label-Emits t i = search emits_rules depth 20

  rootfs-Emits :
      (k p pid id : String) (pi i : Info) (w : String)
      → Emits no_tx (prepare_rootfs H o k p pid id pi i w)
  unfolding prepare_rootfs
  rootfs-Emits k p pid id pi i w =
      search (emits_rules, rootfs_storage-Emits, attach_rootfs-Emits) depth 20

  plan_rootfs-Emits :
      (k p pid id : String) (pi i : Info) (s : Snapshot) (w : String)
      → Emits no_tx (plan_rootfs H o k p pid id pi i s w)
  unfolding plan_rootfs
  plan_rootfs-Emits k p pid id pi i s w =
      search (emits_rules, rootfs-Emits, drop_label-Emits) depth 20

  plan_mounts-Emits :
      (k p pid id : String) (pi i : Info) (s : Snapshot)
      → Emits no_tx (plan_mounts H o k p pid id pi i s)
  unfolding plan_mounts
  plan_mounts-Emits k p pid id pi i s =
      search (emits_rules, writable_type-Emits, docker-Emits, plan_rootfs-Emits) depth 20

  parent_of-Emits : (p : String) → Emits no_tx (parent_of H o p)
  unfolding parent_of
  parent_of-Emits p = search emits_rules depth 12

  plan_snapshot-Emits : (k p id : String) (i : Info) → Emits no_tx (plan_snapshot H o k p id i)
  unfolding plan_snapshot
  plan_snapshot-Emits k p id i =
      search (emits_rules, parent_of-Emits, pull-Emits, plan_mounts-Emits) depth 20

  pub plan-Emits : (kind : Kind) (k p : String) → Emits no_tx (plan_mount_point H o kind k p)
  unfolding plan_mount_point
  plan-Emits kind k p = search (emits_rules, create-Emits, plan_snapshot-Emits) depth 20

  finish_normal-Emits : (i : Info) (s : Snapshot) → Emits no_tx (finish_normal H o i s)
  unfolding finish_normal
  finish_normal-Emits i s = search (emits_rules, normal_mount-Emits) depth 20

  pub finish-Emits : (p : Plan) → Emits no_tx (finish H o p)
  unfolding finish
  finish-Emits (ready m) = search emits_rules
  finish-Emits skip = search emits_rules
  finish-Emits (compute normal w i s d) = finish_normal-Emits i s
  finish-Emits (compute local_block w i s d) = block_mount-Emits H o s w i
  finish-Emits (compute remote_block w i s d) = block_mount-Emits H o s w i
  finish-Emits (compute _ w i s d) = search emits_rules

  pub undo-Emits : (p : Plan) → Emits no_tx (undo H o p)
  unfolding undo
  undo-Emits (compute t w i s (some id)) = search emits_rules
  undo-Emits _ = search emits_rules
