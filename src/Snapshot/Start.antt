-- ===== src/Snapshot/Start.antt =====
-- The start of the snapshotter: NewSnapshotter and its configuration (pkg/snapshot/overlay.go), and what
-- the host supports (overlay.go, idmap_linux.go).
use accelerated_container_im.Base.{
  String, ◌<>◌, Bool, true, false, not, List, [], ◌∷◌, string_eq, if◌then◌else◌,
}
use accelerated_container_im.Base.Int.{ℤ, negsuc}
use accelerated_container_im.Base.Text.{contains_text}
use accelerated_container_im.Convertor.Registry.{is_already_exists}
use accelerated_container_im.Host.{
  Host, mkdir_all, mkdir, stat, run, read_file, open_store, resolve_links, idmap_supported,
  supports_dtype, userns_fd,
}
use accelerated_container_im.Host.Exec.{
  Exec, act, ask, pure, fail, attempt, ignore, on_result, ◌>>=◌, ◌>>◌,
}
use accelerated_container_im.Snapshot.{Registry, Snapshotter}

-- BootConfig: the fields that NewSnapshotter reads
pub record BootConfig : Type 0 where
  pub boot_root : String
  pub boot_rw_mode : String
  pub boot_auto_remove_dev : Bool
  pub boot_writable_type : String
  pub boot_mirrors : List Registry
  pub boot_fs_type : String
  pub rootfs_quota_size : String
  pub boot_tenant : ℤ
  pub boot_turbo_fs_types : List String
  pub boot_runtime_type : String
  pub boot_async_remove : Bool
  pub boot_remap_ids : Bool

-- DefaultBootConfig
unfoldable pub default_boot_config : BootConfig
default_boot_config = record {
  boot_root = "";
  boot_rw_mode = "overlayfs";
  boot_auto_remove_dev = false;
  boot_writable_type = "append";
  boot_mirrors = [];
  boot_fs_type = "ext4";
  rootfs_quota_size = "";
  boot_tenant = negsuc 0;
  boot_turbo_fs_types = "erofs" ∷ "ext4" ∷ [];
  boot_runtime_type = "containerd";
  boot_async_remove = false;
  boot_remap_ids = false;
}

-- AsynchronousRemove
unfoldable pub asynchronous_remove : BootConfig → BootConfig
asynchronous_remove boot = record boot { boot_async_remove = true }

-- The snapshotter that NewSnapshotter returns.
unfoldable pub snapshotter_of : BootConfig → String → Bool → Snapshotter
snapshotter_of boot root remap_ids = record {
  root = root;
  rw_mode = boot.boot_rw_mode;
  auto_remove_dev = boot.boot_auto_remove_dev;
  writable_layer_type = boot.boot_writable_type;
  mirror_registry = boot.boot_mirrors;
  default_fs_type = boot.boot_fs_type;
  tenant = boot.boot_tenant;
  turbo_fs_type = boot.boot_turbo_fs_types;
  async_remove = boot.boot_async_remove;
  runtime_type = boot.boot_runtime_type;
  remap_ids = remap_ids;
  quota_size = boot.rootfs_quota_size;
}

module _ (H : Host) where
  -- detectRemapIDsSupport; a user namespace that cannot be made is no error.
  unfoldable pub detect_remap_ids_support : String → Exec Bool
  detect_remap_ids_support root = do
    mounts ← ask H.holds idmap_supported
    if not mounts then pure false else do
      types ← ask H.holds (supports_dtype root)
      if not types then pure false else do
        made ← attempt (act H (userns_fd "0:65534:1" "0:65534:1"))
        on_result made (λ _. pure true) (λ _. pure false)

  -- Whether IDs are remapped: only if this is asked for, and a probe that fails counts as no.
  unfoldable pub probe_remap_ids : Bool → String → Exec Bool
  probe_remap_ids false root = pure false
  probe_remap_ids true root = do
    supported ← attempt (detect_remap_ids_support root)
    on_result supported pure (λ _. pure false)

  -- NewSnapshotter; the options only set the directory of the tools.
  unfoldable pub new_snapshotter : BootConfig → Exec Snapshotter
  unfolding snapshotter_of
  new_snapshotter boot = do
    act H (mkdir_all boot.boot_root)
    act H (open_store (boot.boot_root <> "/metadata.db"))
    made ← attempt (act H (mkdir (boot.boot_root <> "/snapshots")))
    on_result made pure (λ e. if is_already_exists e then pure tt else fail e)
    root ← ask H.text (resolve_links boot.boot_root)
    ignore (act H (stat "/sys/module/overlay/parameters/index"))
    ignore (act H (stat "/sys/module/overlay/parameters/metacopy"))
    remap_ids ← probe_remap_ids boot.boot_remap_ids root
    pure (snapshotter_of boot root remap_ids)

  -- Whether the file systems of the kernel have EROFS.
  unfoldable pub lists_erofs : Exec Bool
  unfolding contains_text
  lists_erofs = do
    systems ← attempt (ask H.text (read_file "/proc/filesystems"))
    on_result systems (λ text. pure (contains_text text "\terofs\n")) (λ _. pure false)

  -- What IsErofsSupported finds out once: the module is loaded if EROFS is not there.
  unfoldable pub probe_erofs : Exec Bool
  probe_erofs = do
    there ← lists_erofs
    if there then pure true else do
      loaded ← attempt (act H (run "modprobe" ("erofs" ∷ [])))
      on_result loaded (λ _. lists_erofs) (λ _. pure false)
