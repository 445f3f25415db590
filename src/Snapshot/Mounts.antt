-- ===== src/Snapshot/Mounts.antt =====
-- The mounts that the snapshotter returns (overlay.go): normalOverlayMount, basedOnBlockDeviceMount
-- and what they use. A mount option is the text that the program builds.
use accelerated_container_im.Base.{
  String, ◌<>◌, Bool, true, false, not, ◌&&◌, ◌||◌, Option, none, some, List, [], ◌∷◌, ◌++◌, map,
  if◌then◌else◌, ◌==◌, string_eq,
}
use accelerated_container_im.Base.Dict.{lookup}
use accelerated_container_im.Host.{
  Host, stat, read_file, mkdir_all, mounted, userns_fd, idmap_mount, load_flag, store_flag,
}
use accelerated_container_im.Host.Types.{Result, ok, err, Info, Kind, view, active, Snapshot}
use accelerated_container_im.Host.Exec.{
  Exec, act, ask, pure, attempt, on_result, ◌>>=◌, ◌>>◌, ignore,
}
use accelerated_container_im.Snapshot.{
  Snapshotter, Mount, rw_dir, rw_dev, upper_path, work_path, overlaybd_mountpoint,
  idmapped_lower_path, backstore_mark_file,
}
use accelerated_container_im.Snapshot.Label
use accelerated_container_im.Snapshot.Modes.{label, label_text}

-- strings.Join
unfoldable pub join : String → List String → String
join sep [] = ""
join sep (x ∷ []) = x
join sep (x ∷ xs) = x <> sep <> join sep xs

abbrev pub bind_mount : String → List String → List Mount
bind_mount source options = record { mount_type = "bind"; source = source; options = options } ∷ []

abbrev pub overlay_mount : List String → List Mount
overlay_mount options =
    record { mount_type = "overlay"; source = "overlay"; options = options } ∷ []

abbrev pub is_view : Kind → Bool
is_view view = true
is_view _ = false

abbrev pub is_active : Kind → Bool
is_active active = true
is_active _ = false

-- `b, err := ...; err == nil && b`
abbrev pub answered_yes : Result Bool → Bool
answered_yes (ok b) = b
answered_yes (err e) = false

-- supportsIndex: the flag remembers that the kernel's parameter was seen once.
unfoldable pub supports_index : Host → Exec Bool
supports_index H = do
  off ← ask H.holds (load_flag "indexOff")
  if off then pure true else do
    seen ← attempt (act H (stat "/sys/module/overlay/parameters/index"))
    on_result seen (λ _. ignore (act H (store_flag "indexOff")) >> pure true) (λ _. pure false)

abbrev pub index_option : Bool → List String
index_option true = "index=off" ∷ []
index_option false = []

-- One of the two additions of appendIDMapMountOptions.
abbrev pub mapping_option : String → Option String → List String
mapping_option prefix none = []
mapping_option prefix (some v) = if v == "" then [] else (prefix <> v) ∷ []

module _ (H : Host) (o : Snapshotter) where
  -- appendIDMapMountOptions
  unfoldable pub append_idmap_mount_options : List String → Info → List String
  unfolding lookup string_eq
  append_idmap_mount_options options info =
      if o.remap_ids
      then (options ++ mapping_option "uidmap=" (label info Label.uid_mapping))
        ++ mapping_option "gidmap=" (label info Label.gid_mapping)
      else options

  abbrev pub overlay_dirs : Snapshot → String → List String
  overlay_dirs s lower =
      ("workdir=" <> work_path o s.id)
      ∷ ("upperdir=" <> upper_path o s.id)
      ∷ ("lowerdir=" <> lower)
      ∷ []

  -- The end of normalOverlayMount for a view, whose parents behind the first are `ps`.
  unfoldable pub normal_view_mount : String → List String → Bool → String → Info → List Mount
  unfolding append_idmap_mount_options
  normal_view_mount p [] off lower info = bind_mount (upper_path o p) ("ro" ∷ "rbind" ∷ [])
  normal_view_mount p (_ ∷ _) off lower info =
      overlay_mount
        (append_idmap_mount_options (index_option off ++ (("lowerdir=" <> lower) ∷ [])) info)

  -- normalOverlayMount below its first test, for a snapshot with the parents `p ∷ ps`
  unfoldable pub normal_with_parents : Snapshot → String → List String → Info → Exec (List Mount)
  unfolding append_idmap_mount_options normal_view_mount
  normal_with_parents s p ps info = do
    off ← supports_index H
    let lower = join ":" (map (upper_path o) (p ∷ ps))
    pure (
        if is_active s.kind
        then overlay_mount
            (append_idmap_mount_options (index_option off ++ overlay_dirs s lower) info)
        else normal_view_mount p ps off lower info)

  unfoldable pub normal_by_parents : List String → Snapshot → Info → Exec (List Mount)
  unfolding normal_with_parents
  normal_by_parents [] s info =
      pure (bind_mount (upper_path o s.id) ((if is_view s.kind then "ro" else "rw") ∷ "rbind" ∷ []))
  normal_by_parents (p ∷ ps) s info = normal_with_parents s p ps info

  -- normalOverlayMount
  unfoldable pub normal_overlay_mount : Snapshot → Info → Exec (List Mount)
  unfolding normal_by_parents
  normal_overlay_mount s info = normal_by_parents s.parent_ids s info

  -- ensureIDMappedLower behind its tests
  unfoldable pub make_idmapped_lower : String → String → String → String → Exec String
  make_idmapped_lower dst original uidmap gidmap = do
    act H (mkdir_all dst)
    there ← attempt (ask H.holds (mounted dst))
    if answered_yes there then pure dst else do
      fd ← attempt (act H (userns_fd uidmap gidmap))
      on_result fd
          (λ _. do
            done ← attempt (act H (idmap_mount original dst))
            on_result done (λ _. pure dst) (λ _. pure original))
          (λ _. pure original)

  -- ensureIDMappedLower; a missing label reads as "", which the test refuses too.
  unfoldable pub ensure_idmapped_lower : String → String → Info → Exec String
  unfolding lookup string_eq make_idmapped_lower
  ensure_idmapped_lower active_id parent_id info =
      let original = overlaybd_mountpoint o parent_id in
      let uidmap = label_text info Label.uid_mapping in
      let gidmap = label_text info Label.gid_mapping in
      if not o.remap_ids
      then pure original
      else if uidmap == "" || gidmap == ""
      then pure original
      else make_idmapped_lower (idmapped_lower_path o active_id) original uidmap gidmap

  -- basedOnBlockDeviceMount for the read-only mode
  unfoldable pub block_by_parents : List String → Snapshot → Info → Exec (List Mount)
  unfolding ensure_idmapped_lower append_idmap_mount_options
  block_by_parents [] s info = pure (bind_mount (overlaybd_mountpoint o s.id) ("ro" ∷ "rbind" ∷ []))
  block_by_parents (p ∷ ps) s info =
      if is_active s.kind
      then (do
        off ← supports_index H
        lower ← ensure_idmapped_lower s.id p info
        let options = index_option off ++ overlay_dirs s lower
        pure (
            overlay_mount (
              if lower == overlaybd_mountpoint o p
              then append_idmap_mount_options options info
              else options)))
      else pure (bind_mount (overlaybd_mountpoint o p) ("ro" ∷ "rbind" ∷ []))

  -- The read-write flag: it is "ro" for a view whose mode is "rw" or `RwDev`.
  unfoldable pub rw_flag : Snapshot → String → String
  unfolding string_eq
  rw_flag s write_type =
      if is_view s.kind && (write_type == "rw" || write_type == rw_dev) then "ro" else "rw"

  -- basedOnBlockDeviceMount
  unfoldable pub based_on_block_device_mount : Snapshot → String → Info → Exec (List Mount)
  unfolding rw_flag string_eq block_by_parents
  based_on_block_device_mount s write_type info =
      if write_type == rw_dir
      then pure (bind_mount (overlaybd_mountpoint o s.id) (rw_flag s write_type ∷ "rbind" ∷ []))
      else if write_type == rw_dev
      then (do
        device ← ask H.text (read_file (backstore_mark_file o s.id))
        pure (
            record {
              mount_type = "ext4";
              source = device;
              options = rw_flag s write_type ∷ "discard" ∷ [];
            }
            ∷ []))
      else block_by_parents s.parent_ids s info
