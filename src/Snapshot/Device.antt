-- ===== src/Snapshot/Device.antt =====
-- Block devices (storage.go, overlay.go): the names of a device in the kernel's configfs, its
-- attachment with clean-up on failure, its mount, and its removal.
pub mod Names
pub mod Attach
pub mod Attempts
pub mod Users
pub mod Undone
pub mod Mount
pub mod Detach
use accelerated_container_im.Base.{
  Option, none, some, String, ◌<>◌, Bool, true, false, not, ◌&&◌, List, [], ◌∷◌, if◌then◌else◌,
  ◌==◌, string_eq,
}
use accelerated_container_im.Host.{Host, stat, erofs_supported}
use accelerated_container_im.Host.Exec.{Exec, act, ask, pure, attempt, on_result, on_option, ◌>>=◌}
use accelerated_container_im.Base.Dict.{lookup}
use accelerated_container_im.Host.Types.{Info}
use accelerated_container_im.Snapshot.{Snapshotter}
use accelerated_container_im.Snapshot.Label
use accelerated_container_im.Snapshot.Modes.{label, is_turbo_oci}

module _ (H : Host) (o : Snapshotter) where
  abbrev fs_meta : String → String → String
  fs_meta id fs_type = o.root <> "/snapshots/" <> id <> "/fs/" <> fs_type <> ".fs.meta"

  -- The loop of turboOCIFsMeta over the configured types. IsErofsSupported, which looks at the
  -- kernel once, is a call that the host answers.
  unfoldable pub find_fs_meta : String → List String → Exec (String × String)
  unfolding string_eq
  find_fs_meta id [] = pure (fs_meta id "ext4", "ext4")
  find_fs_meta id (t ∷ ts) =
      let rest = find_fs_meta id ts in
      do
        there ← attempt (act H (stat (fs_meta id t)))
        on_result there
            (λ _.
              if t == "erofs"
              then (do
                erofs ← ask H.holds erofs_supported
                if erofs then pure (fs_meta id t, t) else rest)
              else pure (fs_meta id t, t))
            (λ _. rest)

  -- turboOCIFsMeta: the metadata file and its file system
  unfoldable pub turbo_oci_fs_meta : String → Exec (String × String)
  unfolding find_fs_meta
  turbo_oci_fs_meta id = find_fs_meta id o.turbo_fs_type

  -- The file system of a block device: its label, or for a TurboOCI layer the kind of its metadata,
  -- or the configured default. Four functions hold a copy of these lines.
  unfoldable pub fs_type_of : String → Info → Exec String
  unfolding lookup
  fs_type_of id info = on_option (label info Label.blob_fs_type) pure (
      if is_turbo_oci info
      then (do found ← turbo_oci_fs_meta id; pure found.1)
      else pure o.default_fs_type)
