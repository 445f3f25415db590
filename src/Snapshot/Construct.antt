-- ===== src/Snapshot/Construct.antt =====
-- ConstructOverlayBDSpec (storage.go): the configuration of a snapshot's device, from its storage
-- type, its labels and its parent's configuration.
pub mod Lowers
use accelerated_container_im.Base.{
  String, ◌<>◌, Bool, not, Option, none, some, List, [], ◌∷◌, ◌++◌, map, if◌then◌else◌, ◌==◌,
  string_eq,
}
use accelerated_container_im.Base.Dict.{lookup}
use accelerated_container_im.Base.Int.{ℤ, pos}
use accelerated_container_im.Base.Text.{atoi, base_name, dir_name}
use accelerated_container_im.Host.{Host, stat, get_info, remove, remove_all}
use accelerated_container_im.Host.Types.{failed, panicked, Info, Config, Lower, no_lower, no_upper}
use accelerated_container_im.Host.Exec.{
  Exec, act, ask, pure, fail, attempt, ignore, when, on_error, on_result, on_option, ◌>>=◌, ◌>>◌,
}
use accelerated_container_im.Snapshot.{
  Snapshotter, StorageType, local_block, remote_block, local_layer, upper_path, block_path,
  oci_layer_path, oci_layer_meta, magic_file_path, convert_tempdir, gzip_idx,
}
use accelerated_container_im.Snapshot.Device.{turbo_oci_fs_meta}
use accelerated_container_im.Snapshot.Identify.{identify_snapshot_storage_type}
use accelerated_container_im.Snapshot.Label
use accelerated_container_im.Snapshot.Modes.{label, label_text, check_turbo_oci, is_turbo_oci}
use accelerated_container_im.Snapshot.Spec.{
  is_gzip_layer_type, construct_image_blob_url, write_target_config, prepare_writable_overlaybd,
  parent_config,
}
use accelerated_container_im.Tools.{ConvertOption, generate_tar_meta, convert_layer}

-- `append(config.Lowers, lower)`
abbrev pub add_lower : Config → Lower → Config
add_lower config lower = record config { lowers = config.lowers ++ (lower ∷ []) }

-- The image reference in the labels.
abbrev pub image_ref : Info → Option String
image_ref info = elim (label info Label.target_image_ref) [
  | some r ↦ some r
  | none ↦ label info Label.cri_image_ref
]

-- The size of a new writable device in GB: the label's value, or 64; 0 above a parent.
unfoldable pub vsize_of : Info → ℤ
unfolding lookup atoi string_eq
vsize_of info =
    if info.parent == ""
    then elim (label info Label.overlaybd_vsize) [
      | some v ↦ elim (atoi v) [ some n ↦ n | none ↦ pos 64 ]
      | none ↦ pos 64
    ]
    else pos 0

module _ (H : Host) (o : Snapshotter) (id : String) (info : Info) where
  -- `configJSON.Lowers[0].File`
  unfoldable pub first_file : List Lower → Exec String
  first_file [] = fail panicked
  first_file (l ∷ _) = pure l.file

  -- The metadata file of a TurboOCI layer: of the kind that the bottom layer has.
  unfoldable pub turbo_oci_file : Config → Exec String
  unfolding string_eq
  turbo_oci_file config =
      if not (info.parent == "")
      then (do
        bottom ← first_file config.lowers
        pure (o.root <> "/snapshots/" <> id <> "/fs/" <> base_name bottom))
      else (do found ← turbo_oci_fs_meta H o id; pure found.0)

  -- The lower layer of a blob that is pulled on demand.
  unfoldable pub remote_lower : Config → ℤ → Exec Lower
  unfolding lookup
  remote_lower config size =
      on_option (check_turbo_oci info)
        (λ (digest, media_type). do
          file ← turbo_oci_file config
          pure (record no_lower {
            dir = upper_path o id;
            file = file;
            target_digest = digest;
            gzip_index = if is_gzip_layer_type media_type then gzip_idx o id else "";
          }))
        (pure (record no_lower {
          digest = label_text info Label.blob_digest;
          size = size;
          dir = upper_path o id;
        }))

  -- The case storageTypeRemoteBlock
  unfoldable pub remote_config : Bool → Config → Exec Config
  unfolding lookup
  remote_config writable config =
      if writable
      then fail failed
      else on_option (atoi (label_text info Label.blob_size))
          (λ size.
            on_option (image_ref info)
              (λ ref. do
                url ← construct_image_blob_url H o ref
                let config' = record config { repo_blob_url = url }
                lower ← remote_lower config' size
                pure (add_lower config' lower))
              (fail failed))
          (fail failed)

  -- The case storageTypeLocalBlock
  unfoldable pub local_config : Bool → Config → Exec Config
  local_config writable config = if writable then fail failed else do
    layer ← attempt (act H (stat (oci_layer_path o id)))
    on_result layer
        (λ _. pure (
          add_lower config
            (record no_lower { target_file = oci_layer_path o id; file = magic_file_path o id })))
        (λ _. pure (add_lower config (record no_lower { dir = upper_path o id })))

  abbrev pub rootfs_type : String
  rootfs_type =
      if not (label_text info Label.blob_fs_type == "")
      then label_text info Label.blob_fs_type
      else o.default_fs_type

  abbrev convert_option : String → Config → ConvertOption
  convert_option meta config = record {
    tar_meta_path = meta;
    config = config;
    workdir = convert_tempdir o id;
    ext4_fs_meta_path = magic_file_path o id;
  }

  -- The case storageTypeLocalLayer: layer.tar becomes a TurboOCI layer.
  unfoldable pub converted_config : Config → Exec Config
  unfolding lookup string_eq
  converted_config config = do
    let erofs = rootfs_type == "erofs"
    when (not erofs) (generate_tar_meta H (oci_layer_path o id) (oci_layer_meta o id))
    on_error
        (do
          ignore (act H (remove_all (convert_tempdir o id)))
          ignore (act H (remove (magic_file_path o id))))
        (convert_layer H
          (convert_option (if erofs then oci_layer_path o id else oci_layer_meta o id) config)
          rootfs_type)
    pure (
        add_lower config
          (record no_lower { target_file = oci_layer_path o id; file = magic_file_path o id }))

  abbrev writable_dir : String
  writable_dir =
      if not (label_text info Label.active_layer_dir == "")
      then label_text info Label.active_layer_dir
      else block_path o id

  -- The other storage types: a new writable layer.
  unfoldable pub writable_config : Bool → Config → Exec Config
  unfolding lookup string_eq
  writable_config writable config = if not writable then fail failed else do
    prepare_writable_overlaybd H o writable_dir (vsize_of info)
    pure (record config {
      upper = record no_upper {
        index = writable_dir <> "/writable_index";
        data_file = writable_dir <> "/writable_data";
        vsize = vsize_of info;
      };
    })

  unfoldable pub config_by_type : StorageType → Bool → Config → Exec Config
  config_by_type remote_block writable config = remote_config writable config
  config_by_type local_block writable config = local_config writable config
  config_by_type local_layer writable config = converted_config config
  config_by_type _ writable config = writable_config writable config

  abbrev as_ext4 : Lower → Lower
  as_ext4 l = record l { file = dir_name l.file <> "ext4.fs.meta" }

  abbrev with_ext4 : Config → Config
  with_ext4 config = record config { lowers = map as_ext4 config.lowers }

  -- The fallback of TurboOCI layers to ext4 where the file for it exists.
  unfoldable pub ext4_fallback : Config → Exec Config
  unfolding lookup string_eq
  ext4_fallback config =
      if is_turbo_oci info
      then (do
        there ← attempt (act H (stat (o.root <> "/.TurboOCI_ext4")))
        on_result there
            (λ _. do
              file ← first_file config.lowers
              pure (if file == "" then config else with_ext4 config))
            (λ _. pure config))
      else pure config

-- ConstructOverlayBDSpec
unfoldable pub construct_overlaybd_spec : Host → Snapshotter → String → Bool → Exec (Unit {0})
construct_overlaybd_spec H o key writable = do
  found ← ask H.info (get_info key)
  let id = found.0
  let info = found.1
  stype ← identify_snapshot_storage_type H o id info
  start ← parent_config H o id info
  config ← config_by_type H o id info stype writable start
  final ← ext4_fallback H o id info config
  write_target_config H o id final
