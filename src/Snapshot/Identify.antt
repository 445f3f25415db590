-- ===== src/Snapshot/Identify.antt =====
-- identifySnapshotStorageType and identifyLocalStorageType (overlay.go): what a snapshot holds, from
-- its labels, the first bytes of its files, and which files there are.
pub mod Outcome
pub mod Probes
use accelerated_container_im.Base.{
  ℕ, String, ◌<>◌, Bool, true, false, not, ◌&&◌, ◌||◌, List, [], ◌∷◌, ◌++◌, if◌then◌else◌, ◌==◌,
  string_eq,
}
use accelerated_container_im.Base.Dict.{lookup}
use accelerated_container_im.Base.Lists.{take, replicate}
use accelerated_container_im.Host.{Op, Host, stat, read_header}
use accelerated_container_im.Host.Types.{Error, Result, ok, err, not_exist, Info}
use accelerated_container_im.Host.Exec.{Exec, act, ask, pure, fail, attempt, on_result, ◌>>=◌, ◌>>◌}
use accelerated_container_im.Snapshot.{
  Snapshotter, StorageType, normal, local_block, remote_block, local_layer, magic_file_path,
  sealed_file_path, block_path, oci_layer_path, conf_path,
}
use accelerated_container_im.Snapshot.Header.{is_overlaybd_file_header}
use accelerated_container_im.Snapshot.Label
use accelerated_container_im.Snapshot.Modes.{label_text, has_label}

-- The 32-byte buffer after reading `got` into it.
abbrev pub header_of : List ℕ → List ℕ
header_of got = take 32 (got ++ replicate 32 0)

abbrev pub type_of_header : List ℕ → StorageType
type_of_header got = if is_overlaybd_file_header (header_of got) then local_block else normal

-- identifyLocalStorageType
unfoldable pub identify_local_storage_type : Host → String → Exec StorageType
identify_local_storage_type H path = do
  got ← ask H.bytes (read_header path)
  pure (type_of_header got)

-- The labels of a layer that is pulled on demand.
abbrev pub is_remote_by_labels : Info → Bool
is_remote_by_labels info =
    has_label info Label.target_snapshot_ref
    && (has_label info Label.blob_size
        && (has_label info Label.blob_digest
            && (has_label info Label.target_image_ref || has_label info Label.cri_image_ref)))

abbrev pub writable_data_path : Snapshotter → String → Info → String
writable_data_path o id info =
    if not (label_text info Label.active_layer_dir == "")
    then label_text info Label.active_layer_dir <> "/writable_data"
    else block_path o id <> "/writable_data"

module _ (H : Host) (o : Snapshotter) (id : String) where
  -- Behind the probe of writable_data: the test for a missing file is made on that probe's error, and
  -- not on the error of looking for layer.tar.
  unfoldable pub on_unreadable : Error → Exec StorageType
  on_unreadable not_exist = do
    conf ← attempt (act H (stat (conf_path o id)))
    on_result conf (λ _. pure remote_block) (λ _. pure normal)
  on_unreadable e = fail e

  unfoldable pub identify_by_files : Error → Exec StorageType
  identify_by_files e = do
    layer ← attempt (act H (stat (oci_layer_path o id)))
    on_result layer (λ _. pure local_layer) (λ _. on_unreadable e)

  -- identifySnapshotStorageType
  unfoldable pub identify_snapshot_storage_type : Info → Exec StorageType
  unfolding lookup string_eq
  identify_snapshot_storage_type info = if is_remote_by_labels info then pure remote_block else do
    magic ← attempt (identify_local_storage_type H (magic_file_path o id))
    on_result magic pure λ _. do
      sealed ← attempt (identify_local_storage_type H (sealed_file_path o id))
      on_result sealed pure λ _. do
        data_file ← attempt (identify_local_storage_type H (writable_data_path o id info))
        on_result data_file pure identify_by_files
