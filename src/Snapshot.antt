-- ===== src/Snapshot.antt =====
-- pkg/snapshot: the snapshotter. This file has its configuration and constants (overlay.go) and the
-- paths of a snapshot's files (overlay.go); its children have the operations.
pub mod Label
pub mod Header
pub mod Modes
pub mod Identify
pub mod Mounts
pub mod MountTable
pub mod Device
pub mod Docker
pub mod Spec
pub mod Construct
pub mod Mapping
pub mod Quota
pub mod Start
pub mod Create
pub mod Prepare
pub mod Serve
pub mod Remove
pub mod Quiet
pub mod Transactions
pub mod Queries
use accelerated_container_im.Base.{ℕ, String, Bool, List, ◌<>◌}
use accelerated_container_im.Base.Int.{ℤ}

-- Registry
pub record Registry : Type 0 where
  pub host : String
  pub insecure : Bool

-- snapshotter: the fields that operations read. The two flags that remember kernel features
-- (`indexOff`, `metacopyOption`) and the locks are shared with other requests, so they are calls
-- that the host answers.
pub record Snapshotter : Type 0 where
  pub root : String
  pub rw_mode : String
  pub auto_remove_dev : Bool
  pub writable_layer_type : String
  pub mirror_registry : List Registry
  pub default_fs_type : String
  pub tenant : ℤ
  pub turbo_fs_type : List String
  pub async_remove : Bool
  pub runtime_type : String
  pub remap_ids : Bool
  pub quota_size : String

-- storageType
pub data StorageType : Type 0 where
  unknown normal local_block remote_block local_layer : StorageType

-- RoDir, RwDir, RwDev
abbrev pub ro_dir : String
ro_dir = "overlayfs"

abbrev pub rw_dir : String
rw_dir = "dir"

abbrev pub rw_dev : String
rw_dev = "dev"

-- mount.Mount
pub record Mount : Type 0 where
  pub mount_type : String
  pub source : String
  pub options : List String

-- The paths below `${root}/snapshots/${id}`. `root` is a clean path (NewSnapshotter resolves it) and
-- an ID is the number that the metadata store gives, so that filepath.Join only puts the slashes.
module _ (o : Snapshotter) (id : String) where
  abbrev pub sn_path : String
  sn_path = o.root <> "/snapshots/" <> id

  abbrev pub upper_path : String
  upper_path = o.root <> "/snapshots/" <> id <> "/fs"

  abbrev pub work_path : String
  work_path = o.root <> "/snapshots/" <> id <> "/work"

  abbrev pub convert_tempdir : String
  convert_tempdir = o.root <> "/snapshots/" <> id <> "/temp"

  abbrev pub block_path : String
  block_path = o.root <> "/snapshots/" <> id <> "/block"

  abbrev pub magic_file_path : String
  magic_file_path = o.root <> "/snapshots/" <> id <> "/fs/overlaybd.commit"

  abbrev pub sealed_file_path : String
  sealed_file_path = o.root <> "/snapshots/" <> id <> "/fs/overlaybd.sealed"

  abbrev pub overlaybd_mountpoint : String
  overlaybd_mountpoint = o.root <> "/snapshots/" <> id <> "/block/mountpoint"

  abbrev pub idmapped_lower_path : String
  idmapped_lower_path = o.root <> "/snapshots/" <> id <> "/block/idmapped-lower"

  abbrev pub conf_path : String
  conf_path = o.root <> "/snapshots/" <> id <> "/block/config.v1.json"

  abbrev pub init_debuglog_path : String
  init_debuglog_path = o.root <> "/snapshots/" <> id <> "/block/init-debug.log"

  abbrev pub oci_layer_path : String
  oci_layer_path = o.root <> "/snapshots/" <> id <> "/layer.tar"

  abbrev pub oci_layer_meta : String
  oci_layer_meta = o.root <> "/snapshots/" <> id <> "/layer.metadata"

  abbrev pub backstore_mark_file : String
  backstore_mark_file = o.root <> "/snapshots/" <> id <> "/block/backstore_mark"

  abbrev pub gzip_idx : String
  gzip_idx = o.root <> "/snapshots/" <> id <> "/fs/gzip.meta"
