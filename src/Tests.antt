-- ===== src/Tests.antt =====
-- Runs of the snapshotter (pkg/snapshot) on a host where every call succeeds, and examples of the
-- theorems on concrete inputs.
mod Convertor
mod Pipeline
mod Store
use accelerated_container_im.Base.{
  ℕ, some, String, List, refl, ◌≡◌, true, false, none, [], ◌∷◌, ◌⊎◌, ◌↔◌, arith,
}
use accelerated_container_im.Base.Lists.{take, none_left, both}
use accelerated_container_im.Base.Int.{pos, wrap, ◌+ℤ◌, ◌-ℤ◌}
use accelerated_container_im.Host.Registry.{Descriptor}
use accelerated_container_im.Host.{Host}
use accelerated_container_im.Host.{Op, mount}
use accelerated_container_im.Host.Discarded.{Discarded}
use accelerated_container_im.Host.Exec.{Exec, ◌>>=◌}
use accelerated_container_im.Host.Returns.{Returns}
use accelerated_container_im.Host.Trace.{Emits}
use accelerated_container_im.Host.Types.{failed}
use accelerated_container_im.Snapshot.{local_block}
use accelerated_container_im.Snapshot.Construct.{config_by_type, ext4_fallback}
use accelerated_container_im.Snapshot.Construct.Lowers.{Adds, FallenBack, config-Adds}
use accelerated_container_im.Snapshot.Device.Attach.{
  AttachParams, target_of, attach_device, find_ready_block_device, wait_for_block_device,
}
use accelerated_container_im.Snapshot.Device.Attempts.{
  Mounted, Found, retry_mount-Mounted, wait_for_block_device-Found,
}
use accelerated_container_im.Snapshot.Device.Detach.{has_child}
use accelerated_container_im.Snapshot.Device.Mount.{retry_mount}
use accelerated_container_im.Snapshot.Device.Undone.{Undone, attach_device-Undone}
use accelerated_container_im.Snapshot.Device.Users.{HasUser, has_child_iff}
use accelerated_container_im.Snapshot.Identify.{identify_snapshot_storage_type}
use accelerated_container_im.Snapshot.Identify.Probes.{Identified, identify-Identified}
use accelerated_container_im.Snapshot.Mapping.{Entry, numbers, root_of_entries}
use accelerated_container_im.Snapshot.Mapping.Entries.{MapsRoot, root_of_entries_iff}
use accelerated_container_im.Snapshot.MountTable.{separator_of, check_mounted, uses_overlay}
use accelerated_container_im.Snapshot.MountTable.Matches.{
  Separated, HasMatch, separator_of-Separated, check_mounted_iff,
}
use accelerated_container_im.Snapshot.Queries.{queries-Discarded}
use accelerated_container_im.Snapshot.Remove.{dead_dirs, cleanup}
use accelerated_container_im.Snapshot.Remove.Directories.{Occurs, Dead, dead_dirs_iff}
use accelerated_container_im.Snapshot.Serve.{mounts_of, usage, update}
use accelerated_container_im.Host.Settled.{Settled}
use accelerated_container_im.Host.Types.{Result, ok, Info, Snapshot, Config, active, no_upper}
use accelerated_container_im.Snapshot.{Snapshotter, ro_dir}
use accelerated_container_im.Snapshot.Header.{is_overlaybd_file_header}
use accelerated_container_im.Snapshot.Header.Signatures.{
  Bytes, zfile_signature, lsmt_signature, is_overlaybd_file_header_iff,
}
use accelerated_container_im.Snapshot.Prepare.{create_mount_point}
use accelerated_container_im.Snapshot.Remove.{remove}
use accelerated_container_im.Snapshot.Serve.{commit}
use accelerated_container_im.Snapshot.Transactions.{create_mount_point-Settled, writes-Settled}

abbrev layer_info : Info
layer_info = record { kind = active; name = "layer"; parent = ""; labels = [] }

abbrev layer_snapshot : Snapshot
layer_snapshot = record { kind = active; id = "1"; parent_ids = [] }

abbrev empty_config : Config
empty_config = record {
  repo_blob_url = "";
  lowers = [];
  upper = no_upper;
  result_file = "";
  acceleration_layer = false;
  record_trace_path = "";
}

abbrev calm_layer : Descriptor
calm_layer = record {
  media_type = "";
  digest = "sha256:layer";
  size = pos 3;
  annotations = [];
  platform = none;
}

-- Every call succeeds; nothing is mounted, and the store knows one snapshot.
abbrev calm : Host
calm = record {
  acts = λ h op. none;
  text = λ h op. ok "";
  names = λ h op. ok ("1" ∷ []);
  bytes = λ h op. ok [];
  holds = λ h op. ok false;
  number = λ h op. ok 0;
  owner = λ h op. ok (pos 0, pos 0);
  blocks = λ h op. ok (1024, 4096);
  mount_info = λ h op. ok ("/", "rw,prjquota");
  config = λ h op. ok empty_config;
  info = λ h op. ok ("1", layer_info);
  infos = λ h op. ok (layer_info ∷ []);
  snapshot = λ h op. ok layer_snapshot;
  parse_reference = λ r. ok ("registry", "registry/image");
  descriptor = λ h op. ok calm_layer;
  manifest = λ h op. ok (record {
    media_type = "";
    config = calm_layer;
    layers = calm_layer ∷ [];
    artifact_type = "";
    subject = none;
  });
  image = λ h op. ok (record { diff_ids = "sha256:diff" ∷ []; rest = "" });
  index =
      λ h op. ok (record { media_type = ""; manifests = []; artifact_type = ""; subject = none });
  content = λ h op. ok ("sha256:content", pos 4);
  layer_entries = λ h op. [];
  manifest_entries = λ h op. [];
  rows = λ h op. ok [];
  encode_manifest = λ m. ("sha256:manifest", pos 5);
  encode_image = λ m. ("sha256:image", pos 6);
  encode_index = λ m. ("sha256:index", pos 7);
  encode_zfile = λ algorithm size. "{}";
  ram_in_bytes = λ s. ok (pos 1048576);
  ref_key = λ d. d.digest;
  chain_id = λ ds. "sha256:0123456789abcdef0123456789abcdef";
  platform_matches = λ p. true;
  is_docker_type = λ t. false;
}

abbrev node : Snapshotter
node = record {
  root = "/var/lib/overlaybd";
  rw_mode = ro_dir;
  auto_remove_dev = false;
  writable_layer_type = "append";
  mirror_registry = [];
  default_fs_type = "ext4";
  tenant = pos 0;
  turbo_fs_type = "ext4" ∷ [];
  async_remove = false;
  runtime_type = "containerd";
  remap_ids = false;
  quota_size = "";
}

create_mount_point-Settled_example :
    Settled calm
      (create_mount_point calm node active "layer" "" []).0
      []
      (create_mount_point calm node active "layer" "" []).1
create_mount_point-Settled_example = create_mount_point-Settled calm node active "layer" "" []

writes-Settled_example :
    Settled calm (commit calm node "layer" "key" []).0 [] (commit calm node "layer" "key" []).1
    × Settled calm (remove calm node "key" []).0 [] (remove calm node "key" []).1
    × Settled calm (update calm node layer_info []).0 [] (update calm node layer_info []).1
writes-Settled_example = writes-Settled calm node "layer" "key" layer_info []

zfile_signature-Bytes : Bytes zfile_signature
zfile_signature-Bytes = ground arith

is_overlaybd_file_header_iff_example :
    (is_overlaybd_file_header zfile_signature ≡ true)
    ↔ ((take 24 zfile_signature ≡ zfile_signature) ⊎ (take 24 zfile_signature ≡ lsmt_signature))
is_overlaybd_file_header_iff_example =
    is_overlaybd_file_header_iff zfile_signature zfile_signature-Bytes

queries-Discarded_example :
    Discarded calm false (mounts_of calm node "layer" []).0 [] (mounts_of calm node "layer" []).1
    × Discarded calm false (usage calm node "layer" []).0 [] (usage calm node "layer" []).1
    × Discarded calm true (cleanup calm node []).0 [] (cleanup calm node []).1
queries-Discarded_example = queries-Discarded calm node "layer" []

abbrev device : AttachParams
device = record {
  id = "1";
  tenant = pos 0;
  config_path = "config";
  result_file = "log";
  with_dev_id = false;
}

attach_device-Undone_example :
    Undone calm
      (target_of calm device)
      []
      (attach_device calm device []).0
      (attach_device calm device []).1
attach_device-Undone_example = attach_device-Undone calm device []

abbrev mount_op : Op
mount_op = mount "/dev/sda" "/mnt" "ext4" true ""

retry_mount-Mounted_example :
    Mounted calm 500 mount_op []
      (retry_mount calm 500 mount_op failed []).0
      (retry_mount calm 500 mount_op failed []).1
retry_mount-Mounted_example = retry_mount-Mounted calm mount_op 500 failed []

abbrev find : String → Exec String
find = find_ready_block_device calm

wait_for_block_device-Found_example :
    Found find "0:0:0" 3 failed []
      (wait_for_block_device calm find 3 failed "0:0:0" []).0
      (wait_for_block_device calm find 3 failed "0:0:0" []).1
wait_for_block_device-Found_example = wait_for_block_device-Found calm find "0:0:0" 3 failed []

has_child_iff_example :
    (has_child "image" "container" (layer_info ∷ []) ≡ true)
    ↔ HasUser "image" "container" (layer_info ∷ [])
has_child_iff_example = has_child_iff "image" "container" (layer_info ∷ [])

dead_dirs_iff_example :
    Occurs "/s/2" (dead_dirs "/s" ("1" ∷ []) ("1" ∷ "2" ∷ []))
    ↔ Dead "/s" ("1" ∷ []) ("1" ∷ "2" ∷ []) "/s/2"
dead_dirs_iff_example = dead_dirs_iff "/s" ("1" ∷ []) "/s/2" ("1" ∷ "2" ∷ [])

abbrev mapping : List Entry
mapping = numbers (pos 1) (pos 5) (pos 9) ∷ numbers (pos 0) (pos 1000) (pos 1) ∷ []

root_of_entries_iff_example :
    (root_of_entries mapping ≡ some (pos 1000)) ↔ MapsRoot mapping (pos 1000)
unfolding wrap ◌+ℤ◌ ◌-ℤ◌
root_of_entries_iff_example =
    root_of_entries_iff mapping (pos 1000) (both (refl, refl) (both (refl, refl) none_left))

-- No byte is read on the calm host.
no-Bytes : (got : List ℕ) → ◌≡◌ {A = Result (List ℕ)} (ok []) (ok got) → Bytes got
no-Bytes [] e = tt
no-Bytes (b ∷ bs) e = absurd (ground (arith, e))

identify-Identified_example :
    Identified calm node "1" layer_info []
      (identify_snapshot_storage_type calm node "1" layer_info []).0
      (identify_snapshot_storage_type calm node "1" layer_info []).1
identify-Identified_example =
    identify-Identified calm node "1" (λ h op got e. no-Bytes got e) layer_info []

config-Adds_example :
    Returns
      (λ c'.
        (config : Config) × Adds calm node "1" layer_info local_block empty_config config
        × FallenBack calm node "1" layer_info config c')
      (do
        config ← config_by_type calm node "1" layer_info local_block false empty_config
        ext4_fallback calm node "1" layer_info config)
config-Adds_example = config-Adds calm node "1" layer_info local_block false empty_config

abbrev row : List String
row =
    "489" ∷ "29" ∷ "0:51" ∷ "/" ∷ "/run/rootfs" ∷ "rw" ∷ "shared:272" ∷ "-" ∷ "overlay" ∷ "overlay"
    ∷ "rw" ∷ []

row_separator : separator_of row ≡ some 7
unfolding separator_of
row_separator = refl

separator_of-Separated_example : Separated row 7
separator_of-Separated_example = separator_of-Separated row 7 row_separator

abbrev row_text : String
row_text = "489 29 0:51 / /run/rootfs rw shared:272 - overlay overlay rw,lowerdir=/lower"

check_mounted_iff_example :
    (check_mounted (uses_overlay "/lower") ("short line" ∷ row_text ∷ []) ≡ true)
    ↔ HasMatch (uses_overlay "/lower") ("short line" ∷ row_text ∷ [])
check_mounted_iff_example = check_mounted_iff (uses_overlay "/lower") ("short line" ∷ row_text ∷ [])
