-- ===== src/Snapshot/Device/Mount.antt =====
-- attachAndMountBlockDevice (storage.go).
use accelerated_container_im.Base.{
  ℕ, zero, suc, String, Bool, false, Option, none, some, List, [], ◌∷◌, ◌++◌, if◌then◌else◌, ◌==◌,
  string_eq,
}
use accelerated_container_im.Base.Lists.{get_elem?}
use accelerated_container_im.Base.Text.{split}
use accelerated_container_im.Host.{Op, Host, write_file, run, mount, sleep, is_erofs, lookup_mount}
use accelerated_container_im.Host.Types.{Error, failed}
use accelerated_container_im.Host.Exec.{
  Exec, act, ask, pure, fail, attempt, when, on_result, ◌>>=◌, ◌>>◌, ignore,
}
use accelerated_container_im.Snapshot.{
  Snapshotter, ro_dir, rw_dev, overlaybd_mountpoint, conf_path, init_debuglog_path,
  backstore_mark_file,
}
use accelerated_container_im.Snapshot.Device.Attach.{attach_device}

-- The part of "type;mount options;mkfs options" at an index.
abbrev pub part : String → ℕ → Option String
part fs_type i = get_elem? (split b';' fs_type) i

abbrev pub fs_name : String → String
fs_name fs_type = elim (part fs_type 0) [ some t ↦ t | none ↦ "" ]

-- The options of mkfs where none are given.
unfoldable pub default_mkfs_options : String → List String
unfolding string_eq
default_mkfs_options t =
    if t == "ext4"
    then "-O" ∷ "^has_journal,sparse_super,flex_bg" ∷ "-G" ∷ "1" ∷ "-E" ∷ "discard" ∷ "-F" ∷ []
    else if t == "xfs"
    then "-f" ∷ "-l" ∷ "size=4m" ∷ "-m" ∷ "crc=0" ∷ []
    else if t == "f2fs"
    then "-S" ∷ "-w" ∷ "4096" ∷ []
    else if t == "ntfs"
    then "-F" ∷ "-f" ∷ []
    else []

unfoldable pub mkfs_options : String → String → List String
unfolding default_mkfs_options split string_eq
mkfs_options fs_type t = elim (part fs_type 2) [
  | some given ↦ if given == "" then [] else split b' ' given
  | none ↦ default_mkfs_options t
]

unfoldable pub mount_options : String → String → String
unfolding split string_eq
mount_options fs_type t = elim (part fs_type 1) [
  | some given ↦ given
  | none ↦ if t == "ext4" then "discard" else if t == "xfs" then "nouuid,discard" else ""
]

module _ (H : Host) where
  -- A mount that is tried up to a number of times, 10 ms apart.
  unfoldable pub retry_mount : ℕ → Op → Error → Exec (Unit {0})
  retry_mount zero op last = fail last
  retry_mount (suc tries) op last = do
    done ← attempt (act H op)
    on_result done pure λ e. do ignore (act H (sleep 10)); retry_mount tries op e

  abbrev ntfs_args : String → String → String → String → List String
  ntfs_args writable options device mount_point =
      ("-t" ∷ "ntfs" ∷ [])
      ++ ((if writable == ro_dir then "-r" ∷ [] else [])
          ++ ((if options == "" then [] else "-o" ∷ options ∷ []) ++ (device ∷ mount_point ∷ [])))

  -- The call that mounts: mount(8) for ntfs, mount(2) for the others, read-only in the read-only mode.
  unfoldable pub mount_call : String → String → String → String → String → Op
  unfolding string_eq
  mount_call t writable options device mount_point =
      if t == "ntfs"
      then run "mount" (ntfs_args writable options device mount_point)
      else mount device mount_point t (writable == ro_dir) options

  -- attachAndMountBlockDevice behind the attachment of `device`; IsErofsFilesystem, which reads the
  -- device's magic number, is a call that the host answers.
  unfoldable pub mount_device :
      Snapshotter → String → String → String → Bool → String → Exec (Unit {0})
  unfolding string_eq
  mount_device o id writable fs_type mkfs device = do
    act H (write_file (backstore_mark_file o id) device)
    erofs ← ask H.holds (is_erofs device)
    let t = if erofs then "erofs" else fs_name fs_type
    when mkfs (act H (run "mkfs" (("-t" ∷ t ∷ []) ++ (mkfs_options fs_type t ++ (device ∷ [])))))
    if writable == rw_dev
        then pure tt
        else retry_mount 500
            (mount_call t writable (mount_options fs_type t) device (overlaybd_mountpoint o id))
            failed

  -- attachAndMountBlockDevice; lookup is one call.
  unfoldable pub attach_and_mount_block_device :
      Snapshotter → String → String → String → Bool → Exec (Unit {0})
  attach_and_mount_block_device o id writable fs_type mkfs = do
    there ← attempt (act H (lookup_mount (overlaybd_mountpoint o id)))
    on_result there pure λ _. do
      device ← attach_device H (record {
        id = id;
        tenant = o.tenant;
        config_path = conf_path o id;
        result_file = init_debuglog_path o id;
        with_dev_id = false;
      })
      mount_device o id writable fs_type mkfs device
