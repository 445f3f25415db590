-- ===== src/Snapshot/Modes.antt =====
-- The decisions that overlay.go takes on a snapshot's labels: how it is written to, whether it is a
-- TurboOCI layer, whether it is a container's rootfs, and its file system; with the two probes of
-- kernel features.
use accelerated_container_im.Base.{
  String, Bool, true, false, Option, none, some, if◌then◌else◌, ◌==◌, string_eq,
}
use accelerated_container_im.Base.Dict.{lookup}
use accelerated_container_im.Host.{Host, read_config}
use accelerated_container_im.Host.Types.{Info, Config}
use accelerated_container_im.Host.Exec.{Exec, ask, pure, attempt, on_result, ◌>>=◌}
use accelerated_container_im.Snapshot.{
  Snapshotter, StorageType, local_block, remote_block, ro_dir, rw_dir, rw_dev, conf_path,
}
use accelerated_container_im.Snapshot.Label

-- `v, ok := info.Labels[key]`
abbrev pub label : Info → String → Option String
label info key = lookup key info.labels

-- `info.Labels[key]`, "" if the key is missing
abbrev pub label_text : Info → String → String
label_text info key = elim (lookup key info.labels) [ some v ↦ v | none ↦ "" ]

abbrev pub has_label : Info → String → Bool
has_label info key = elim (lookup key info.labels) [ some v ↦ true | none ↦ false ]

-- `parseMode` in getWritableType
unfoldable pub parse_mode : String → String
unfolding string_eq
parse_mode m = if m == "dir" then rw_dir else if m == "dev" then rw_dev else ro_dir

-- `_, err := loadBackingStoreConfig(snID)`
unfoldable pub load_backing_store_config : Host → Snapshotter → String → Exec Config
load_backing_store_config H o id = ask H.config (read_config (conf_path o id))

-- The mode that an explicit label asks for, or else `mode`.
unfoldable pub labelled_mode : Info → String → String
unfolding parse_mode lookup
labelled_mode info mode = elim (label info Label.support_read_write_mode) [
  | some m ↦ parse_mode m
  | none ↦ parse_mode mode
]

-- getWritableType
unfoldable pub get_writable_type : Host → Snapshotter → String → Info → Exec String
unfolding labelled_mode
get_writable_type H o id info = if id == "" then pure (labelled_mode info ro_dir) else do
  loaded ← attempt (load_backing_store_config H o id)
  on_result loaded (λ _. pure (labelled_mode info o.rw_mode)) (λ _. pure ro_dir)

-- checkTurboOCI: the digest and the media type of a TurboOCI layer
unfoldable pub check_turbo_oci : Info → Option (String × String)
unfolding lookup
check_turbo_oci info = elim (label info Label.turbo_oci_digest) [
  | some digest ↦ some (digest, label_text info Label.turbo_oci_media_type)
  | none ↦ elim (label info Label.fast_oci_digest) [
    | some digest ↦ some (digest, label_text info Label.fast_oci_media_type)
    | none ↦ none
  ]
]

abbrev pub is_turbo_oci : Info → Bool
is_turbo_oci info = elim (check_turbo_oci info) [ some _ ↦ true | none ↦ false ]

-- isPrepareRootfs
unfoldable pub is_prepare_rootfs : Info → Bool
unfolding lookup string_eq
is_prepare_rootfs info =
    if has_label info Label.target_snapshot_ref
    then false
    else if label_text info Label.snapshot_type == "image"
    then false
    else true

-- storageTypeLocalBlock or storageTypeRemoteBlock
abbrev pub is_block : StorageType → Bool
is_block local_block = true
is_block remote_block = true
is_block _ = false
