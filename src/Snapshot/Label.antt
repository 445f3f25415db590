-- ===== src/Snapshot/Label.antt =====
-- pkg/label/label.go and the two labels of pkg/snapshot/overlay.go for ID mappings.
use accelerated_container_im.Base.{String}

abbrev pub target_snapshot_ref : String
target_snapshot_ref = "containerd.io/snapshot.ref"

abbrev pub target_image_ref : String
target_image_ref = "containerd.io/snapshot/image-ref"

abbrev pub blob_digest : String
blob_digest = "containerd.io/snapshot/overlaybd/blob-digest"

abbrev pub blob_size : String
blob_size = "containerd.io/snapshot/overlaybd/blob-size"

abbrev pub blob_fs_type : String
blob_fs_type = "containerd.io/snapshot/overlaybd/blob-fs-type"

abbrev pub acceleration_layer : String
acceleration_layer = "containerd.io/snapshot/overlaybd/acceleration-layer"

abbrev pub record_trace : String
record_trace = "containerd.io/snapshot/overlaybd/record-trace"

abbrev pub record_trace_path : String
record_trace_path = "containerd.io/snapshot/overlaybd/record-trace-path"

abbrev pub overlaybd_vsize : String
overlaybd_vsize = "containerd.io/snapshot/overlaybd/vsize"

abbrev pub cri_image_ref : String
cri_image_ref = "containerd.io/snapshot/cri.image-ref"

abbrev pub fast_oci_digest : String
fast_oci_digest = "containerd.io/snapshot/overlaybd/fastoci/target-digest"

abbrev pub turbo_oci_digest : String
turbo_oci_digest = "containerd.io/snapshot/overlaybd/turbo-oci/target-digest"

abbrev pub fast_oci_media_type : String
fast_oci_media_type = "containerd.io/snapshot/overlaybd/fastoci/target-media-type"

abbrev pub turbo_oci_media_type : String
turbo_oci_media_type = "containerd.io/snapshot/overlaybd/turbo-oci/target-media-type"

abbrev pub download_remote_blob : String
download_remote_blob = "containerd.io/snapshot/overlaybd/download-remote-blob"

abbrev pub remote_label : String
remote_label = "containerd.io/snapshot/remote"

abbrev pub remote_label_val : String
remote_label_val = "remote snapshot"

abbrev pub layer_to_turbo_oci : String
layer_to_turbo_oci = "containerd.io/snapshot/overlaybd/convert2turbo-oci"

abbrev pub snapshot_type : String
snapshot_type = "containerd.io/snapshot/type"

abbrev pub rootfs_quota : String
rootfs_quota = "containerd.io/snapshot/disk_quota"

abbrev pub active_layer_dir : String
active_layer_dir = "containerd.io/snapshot/overlay.active.path"

abbrev pub support_read_write_mode : String
support_read_write_mode = "containerd.io/snapshot/overlaybd.writable"

abbrev pub local_overlaybd_path : String
local_overlaybd_path = "containerd.io/snapshot/overlaybd.localcommitpath"

abbrev pub uid_mapping : String
uid_mapping = "containerd.io/snapshot/uidmapping"

abbrev pub gid_mapping : String
gid_mapping = "containerd.io/snapshot/gidmapping"

abbrev pub zfile_config : String
zfile_config = "containerd.io/snapshot/overlaybd/zfile-config"

abbrev pub overlaybd_version : String
overlaybd_version = "containerd.io/snapshot/overlaybd/version"
