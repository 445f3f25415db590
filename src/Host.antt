-- ===== src/Host.antt =====
-- What the program runs on, as an interface: the operating system, the kernel's configfs and mount
-- table, the external tools and containerd's metadata store. `Op` lists the calls that the program
-- makes; a `Host` answers each call, and its answer may depend on all calls made before, so that a
-- call may fail at any point and a poll may see another answer each time. Nothing is assumed of it.
pub mod Types
pub mod Registry
pub mod Exec
pub mod Trace
pub mod Success
pub mod Returns
pub mod Leaves
pub mod Ends
pub mod Transactions
pub mod Settled
pub mod Discarded
use accelerated_container_im.Base.{ℕ, String, Bool, Option, List}
use accelerated_container_im.Base.Dict.{Dict}
use accelerated_container_im.Base.Int.{ℤ}
use Types.{Error, Result, Kind, Info, Snapshot, Config}
use Registry.{Descriptor, Manifest, Image, Index, LayerEntry, ManifestEntry}

pub data Op : Type 0 where
  mkdir_all mkdir create remove_all remove : String → Op
  write_file : String → String → Op
  rename symlink : String → String → Op
  lchown : String → ℤ → ℤ → Op
  stat read_file read_dir read_header mkdir_temp : String → Op
  read_config : String → Op
  write_config : String → Config → Op
  sleep : ℕ → Op
  run : String → List String → Op
  mount : String → String → String → Bool → String → Op
  unmount unmount_all mounted overlay_uses : String → Op
  idmap_mount : String → String → Op
  userns_fd : String → String → Op
  disk_usage : String → Op
  tx_begin : Bool → Op
  tx_commit tx_rollback : Op
  create_snapshot : Kind → String → String → Op
  get_info get_snapshot remove_snapshot : String → Op
  -- with the labels that are added
  commit_active : String → String → Dict String → Op
  zdfs_prepare : String → String → Op
  update_info : Info → Op
  id_map walk_info : Op
  load_flag store_flag : String → Op
  erofs_supported : Op
  is_erofs lookup_mount : String → Op
  lock unlock : String → Op
  -- The resolver and what it gives: a fetcher or a pusher is named by the reference that it is for.
  resolve fetcher_for pusher_for : String → Op
  fetch push : String → Descriptor → Op
  -- The content of a blob that was fetched is read; its digest is checked.
  read_blob verified : Descriptor → Op
  -- A stream is decompressed, and copied into a file.
  decompress save : String → Op
  -- Content is copied to the writer that a push gave.
  copy_content : Descriptor → Op
  hash_file : String → Bool → Op
  get_layer_entry : String → String → String → Op
  get_layer_entries : String → String → Op
  create_layer_entry : String → String → String → String → ℤ → Op
  delete_layer_entry : String → String → String → Op
  get_manifest_entry : String → String → String → String → Op
  get_manifest_entries : String → String → String → Op
  create_manifest_entry : String → String → String → String → String → ℤ → Op
  delete_manifest_entry : String → String → String → String → Op
  -- The counter of the manifests that are built goes up.
  next_id : Op
  -- The base layer is packed in a tar file, whose digest and size are the answer.
  pack_base_layer : String → Op
  -- The compression of a blob that was fetched, by its file extension.
  probe_compression : Descriptor → Op
  -- containerd's content store: a blob is opened, read, or written whole; a writer is named by its
  -- reference, and takes what is copied to it, some of it through a tar writer.
  reader_at stored_blob : Descriptor → Op
  store_blob : String → Descriptor → Dict String → Op
  open_writer written close_tar : String → Op
  copy_raw copy_tar : String → String → Op
  write_header : String → String → ℕ → Op
  commit_content : String → String × ℤ → Dict String → Op
  file_size : String → Op
  -- containerd's snapshotter service, with the labels that are given.
  sn_stat sn_remove : String → Op
  sn_prepare sn_commit : String → String → Dict String → Op
  -- The stream of a blob is decompressed; applied as an archive in a temporary mount of the mounts
  -- given; read to its end; and the digest of what was read is taken.
  open_stream drain stream_digest : Descriptor → Op
  apply_stream : Descriptor → List String → Op
  nanosecond random_text : Op
  open_db get_image : String → Op
  platform_image : Descriptor → Op
  lstat stat_fs abs_path : String → Op
  -- Start-up: the metadata store is opened, a link resolved, and what the kernel and the file system
  -- support is asked.
  open_store resolve_links supports_dtype : String → Op
  idmap_supported : Op
  -- The certificates of the system; the certificates of a file; and a pair of a certificate and a key.
  system_certs : Op
  load_key_pair : String → String → Op
  -- containerd's client: images, a lease, and a container with its task, named by its key; an isolated
  -- network; a file that is copied; and whether the user has asked to stop.
  create_image update_image : String → Descriptor → Op
  with_lease delete_lease time_text cancelled : Op
  is_unpacked unpack_image image_root_fs : String → Op
  new_container delete_container new_task delete_task : String → Op
  task_wait task_start exit_status is_running : String → Op
  kill_task : String → String → Op
  cni_load : Op
  cni_setup cni_remove : String → Op
  copy_file : String → String → Op

-- The calls made so far, the newest first.
abbrev pub History : Type 0
History = List Op

pub record Host : Type 0 where
  -- `none`: the call succeeded.
  pub acts : History → Op → Option Error
  -- The answer of a call that asks.
  pub text : History → Op → Result String
  pub names : History → Op → Result (List String)
  pub bytes : History → Op → Result (List ℕ)
  pub holds : History → Op → Result Bool
  pub number : History → Op → Result ℕ
  pub owner : History → Op → Result (ℤ × ℤ)
  -- The number and the size of the blocks of a file system.
  pub blocks : History → Op → Result (ℕ × ℕ)
  -- The mount point and the options of a mount.
  pub mount_info : History → Op → Result (String × String)
  pub config : History → Op → Result Config
  pub info : History → Op → Result (String × Info)
  pub infos : History → Op → Result (List Info)
  pub snapshot : History → Op → Result Snapshot
  -- containerd's reference.Parse: the host name and the locator of an image reference.
  pub parse_reference : String → Result (String × String)
  pub descriptor : History → Op → Result Descriptor
  pub manifest : History → Op → Result Manifest
  pub image : History → Op → Result Image
  pub index : History → Op → Result Index
  -- A digest and a size.
  pub content : History → Op → Result (String × ℤ)
  -- A query of the database fails by finding nothing.
  pub layer_entries : History → Op → List LayerEntry
  pub manifest_entries : History → Op → List ManifestEntry
  -- Rows that are read one by one; `none` is a row that cannot be read.
  pub rows : History → Op → Result (List (Option LayerEntry))
  -- The digest and the size of what json.Marshal gives.
  pub encode_manifest : Manifest → String × ℤ
  pub encode_image : Image → String × ℤ
  pub encode_index : Index → String × ℤ
  -- json.Marshal of the compression settings: the algorithm and the block size.
  pub encode_zfile : String → ℤ → String
  -- units.RAMInBytes
  pub ram_in_bytes : String → Result ℤ
  -- remotes.MakeRefKey
  pub ref_key : Descriptor → String
  -- identity.ChainID
  pub chain_id : List String → String
  -- The default platform matches.
  pub platform_matches : String → Bool
  -- images.IsDockerType
  pub is_docker_type : String → Bool
