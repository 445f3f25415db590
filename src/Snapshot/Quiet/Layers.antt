-- ===== src/Snapshot/Quiet/Layers.antt =====
-- The transaction calls of the operations on layers: storage types, mounts and specifications
-- (overlay.go, storage.go).
use accelerated_container_im.Base.{String, ◌≡◌, Bool, true, List, [], ◌∷◌, arith}
use accelerated_container_im.Base.Int.{ℤ}
use accelerated_container_im.Host.{Op, Host}
use accelerated_container_im.Host.Types.{Info, Config, Lower, Snapshot}
use accelerated_container_im.Host.Trace.{Emits, Emits-weaken, emits_rules}
use accelerated_container_im.Host.Transactions.{no_tx}
use accelerated_container_im.Snapshot.{
  Snapshotter, StorageType, local_block, remote_block, local_layer,
}
use accelerated_container_im.Snapshot.Construct.{
  first_file, turbo_oci_file, remote_lower, remote_config, local_config, converted_config,
  writable_config, config_by_type, ext4_fallback, construct_overlaybd_spec,
}
use accelerated_container_im.Snapshot.Device.{find_fs_meta, turbo_oci_fs_meta, fs_type_of}
use accelerated_container_im.Snapshot.Identify.{identify_snapshot_storage_type}
use accelerated_container_im.Snapshot.Identify.Outcome.{is_look, identify-Emits}
use accelerated_container_im.Snapshot.Modes.{get_writable_type, load_backing_store_config}
use accelerated_container_im.Snapshot.Mounts.{
  supports_index, normal_with_parents, normal_by_parents, normal_overlay_mount, make_idmapped_lower,
  ensure_idmapped_lower, block_by_parents, based_on_block_device_mount,
}
use accelerated_container_im.Snapshot.Spec.{
  construct_image_blob_url, write_target_config, construct_spec_for_accel_layer, update_spec,
  prepare_writable_overlaybd, seal_writable_overlaybd, parent_config,
}
use accelerated_container_im.Tools.{
  all_exist, create_layer, seal, generate_tar_meta, convert_layer_in, convert_layer,
}

look-no_tx : (op : Op) → is_look op ≡ true → no_tx op ≡ true
look-no_tx op h = ground arith

module _ (H : Host) where
  pub supports_index-Emits : Emits no_tx (supports_index H)
  unfolding supports_index
  supports_index-Emits = search emits_rules depth 20

  all_exist-Emits : (fs : List String) → Emits no_tx (all_exist H fs)
  unfolding all_exist
  all_exist-Emits [] = search emits_rules
  all_exist-Emits (f ∷ fs) =
      let ih = λ (u : Unit {0}). all_exist-Emits fs in search (emits_rules, ih, tt) depth 12

  create_layer-Emits : (d : String) (opts : List String) → Emits no_tx (create_layer H d opts)
  unfolding create_layer
  create_layer-Emits d opts = search (emits_rules, all_exist-Emits) depth 12

  pub seal-Emits : (d t : String) (opts : List String) → Emits no_tx (seal H d t opts)
  unfolding seal
  seal-Emits d t opts = search emits_rules depth 12

  generate_tar_meta-Emits : (s d : String) → Emits no_tx (generate_tar_meta H s d)
  unfolding generate_tar_meta
  generate_tar_meta-Emits s d = search emits_rules depth 12

  convert_layer-Emits : (c : _) (t : String) → Emits no_tx (convert_layer H c t)
  unfolding convert_layer convert_layer_in
  convert_layer-Emits c t = search emits_rules depth 20

module _ (H : Host) (o : Snapshotter) where
  pub identify-quiet :
      (id : String) (info : Info) → Emits no_tx (identify_snapshot_storage_type H o id info)
  identify-quiet id info = Emits-weaken look-no_tx (identify-Emits H o id info)

  pub load-Emits : (id : String) → Emits no_tx (load_backing_store_config H o id)
  unfolding load_backing_store_config
  load-Emits id = search emits_rules

  pub writable_type-Emits :
      (id : String) (info : Info) → Emits no_tx (get_writable_type H o id info)
  unfolding get_writable_type
  writable_type-Emits id info = search (emits_rules, load-Emits) depth 12

  find_fs_meta-Emits : (id : String) (ts : List String) → Emits no_tx (find_fs_meta H o id ts)
  unfolding find_fs_meta
  find_fs_meta-Emits id [] = search emits_rules
  find_fs_meta-Emits id (t ∷ ts) =
      let ih = λ (u : Unit {0}). find_fs_meta-Emits id ts in search (emits_rules, ih, tt) depth 12

  turbo_oci_fs_meta-Emits : (id : String) → Emits no_tx (turbo_oci_fs_meta H o id)
  unfolding turbo_oci_fs_meta
  turbo_oci_fs_meta-Emits id = find_fs_meta-Emits id o.turbo_fs_type

  pub fs_type_of-Emits : (id : String) (info : Info) → Emits no_tx (fs_type_of H o id info)
  unfolding fs_type_of
  fs_type_of-Emits id info = search (emits_rules, turbo_oci_fs_meta-Emits) depth 12

  normal_by_parents-Emits :
      (ps : List String) (s : Snapshot) (info : Info)
      → Emits no_tx (normal_by_parents H o ps s info)
  unfolding normal_by_parents normal_with_parents
  normal_by_parents-Emits [] s info = search emits_rules
  normal_by_parents-Emits (p ∷ ps) s info = search (emits_rules, supports_index-Emits) depth 12

  pub normal_mount-Emits :
      (s : Snapshot) (info : Info) → Emits no_tx (normal_overlay_mount H o s info)
  unfolding normal_overlay_mount
  normal_mount-Emits s info = normal_by_parents-Emits s.parent_ids s info

  lower-Emits : (a p : String) (info : Info) → Emits no_tx (ensure_idmapped_lower H o a p info)
  unfolding ensure_idmapped_lower make_idmapped_lower
  lower-Emits a p info = search emits_rules depth 20

  block_by_parents-Emits :
      (ps : List String) (s : Snapshot) (info : Info) → Emits no_tx (block_by_parents H o ps s info)
  unfolding block_by_parents
  block_by_parents-Emits [] s info = search emits_rules
  block_by_parents-Emits (p ∷ ps) s info =
      search (emits_rules, supports_index-Emits, lower-Emits) depth 20

  pub block_mount-Emits :
      (s : Snapshot) (w : String) (info : Info)
      → Emits no_tx (based_on_block_device_mount H o s w info)
  unfolding based_on_block_device_mount
  block_mount-Emits s w info = search (emits_rules, block_by_parents-Emits) depth 20

  write-Emits : (id : String) (c : Config) → Emits no_tx (write_target_config H o id c)
  unfolding write_target_config
  write-Emits id c = search emits_rules

  pub accel_spec-Emits : (id p : String) → Emits no_tx (construct_spec_for_accel_layer H o id p)
  unfolding construct_spec_for_accel_layer
  accel_spec-Emits id p = search (emits_rules, load-Emits, write-Emits) depth 12

  pub update_spec-Emits :
      (id : String) (a : Bool) (p : String) → Emits no_tx (update_spec H o id a p)
  unfolding update_spec
  update_spec-Emits id a p = search (emits_rules, load-Emits, write-Emits) depth 12

  pub seal_writable-Emits : (id : String) → Emits no_tx (seal_writable_overlaybd H o id)
  unfolding seal_writable_overlaybd
  seal_writable-Emits id = seal-Emits H _ _ _

  writable-Emits : (d : String) (v : ℤ) → Emits no_tx (prepare_writable_overlaybd H o d v)
  unfolding prepare_writable_overlaybd
  writable-Emits d v = search (emits_rules, create_layer-Emits) depth 12

  parent_config-Emits : (id : String) (info : Info) → Emits no_tx (parent_config H o id info)
  unfolding parent_config
  parent_config-Emits id info = search (emits_rules, load-Emits) depth 20

  url-Emits : (r : String) → Emits no_tx (construct_image_blob_url H o r)
  unfolding construct_image_blob_url
  url-Emits r = search emits_rules depth 12

  module _ (id : String) (info : Info) where
    first_file-Emits : (ls : List Lower) → Emits no_tx (first_file H o id info ls)
    unfolding first_file
    first_file-Emits [] = search emits_rules
    first_file-Emits (l ∷ ls) = search emits_rules

    turbo_file-Emits : (c : Config) → Emits no_tx (turbo_oci_file H o id info c)
    unfolding turbo_oci_file
    turbo_file-Emits c = search (emits_rules, first_file-Emits, turbo_oci_fs_meta-Emits) depth 12

    remote_lower-Emits : (c : Config) (n : ℤ) → Emits no_tx (remote_lower H o id info c n)
    unfolding remote_lower
    remote_lower-Emits c n = search (emits_rules, turbo_file-Emits) depth 12

    remote-Emits : (w : Bool) (c : Config) → Emits no_tx (remote_config H o id info w c)
    unfolding remote_config
    remote-Emits w c = search (emits_rules, url-Emits, remote_lower-Emits) depth 20

    local-Emits : (w : Bool) (c : Config) → Emits no_tx (local_config H o id info w c)
    unfolding local_config
    local-Emits w c = search emits_rules depth 20

    converted-Emits : (c : Config) → Emits no_tx (converted_config H o id info c)
    unfolding converted_config
    converted-Emits c = search (emits_rules, generate_tar_meta-Emits, convert_layer-Emits) depth 20

    writable_config-Emits : (w : Bool) (c : Config) → Emits no_tx (writable_config H o id info w c)
    unfolding writable_config
    writable_config-Emits w c = search (emits_rules, writable-Emits) depth 20

    by_type-Emits :
        (t : StorageType) (w : Bool) (c : Config) → Emits no_tx (config_by_type H o id info t w c)
    unfolding config_by_type
    by_type-Emits remote_block w c = remote-Emits w c
    by_type-Emits local_block w c = local-Emits w c
    by_type-Emits local_layer w c = converted-Emits c
    by_type-Emits _ w c = writable_config-Emits w c

    fallback-Emits : (c : Config) → Emits no_tx (ext4_fallback H o id info c)
    unfolding ext4_fallback
    fallback-Emits c = search (emits_rules, first_file-Emits) depth 20

  pub construct-Emits : (k : String) (w : Bool) → Emits no_tx (construct_overlaybd_spec H o k w)
  unfolding construct_overlaybd_spec
  construct-Emits k w =
      search
        (
          emits_rules, identify-quiet, parent_config-Emits, by_type-Emits, fallback-Emits,
          write-Emits,
        )
        depth 20
