-- ===== src/Snapshot/Create.antt =====
-- createSnapshot and prepareDirectory (overlay.go): a new snapshot in the metadata store and its
-- directory, which is filled under a temporary name.
use accelerated_container_im.Base.{
  ℕ, zero, String, ◌<>◌, Bool, true, false, not, ◌&&◌, ◌||◌, Option, none, some, List, [], ◌∷◌,
  if◌then◌else◌, ltb, ◌==◌, string_eq, nat_eq,
}
use accelerated_container_im.Base.Dict.{lookup}
use accelerated_container_im.Base.Int.{ℤ, negsuc}
use accelerated_container_im.Host.{
  Host, mkdir_temp, mkdir, create, remove_all, rename, lchown, stat, write_file, create_snapshot,
  get_info,
}
use accelerated_container_im.Host.Types.{failed, Info, Kind, Snapshot}
use accelerated_container_im.Host.Exec.{
  Exec, act, ask, pure, fail, ignore, when, on_error, on_option, ◌>>=◌, ◌>>◌,
}
use accelerated_container_im.Snapshot.{Snapshotter, upper_path}
use accelerated_container_im.Snapshot.Label
use accelerated_container_im.Snapshot.Mapping.{root_id_from_mapping}
use accelerated_container_im.Snapshot.Modes.{label, is_prepare_rootfs}
use accelerated_container_im.Snapshot.Mounts.{is_active}
use accelerated_container_im.Snapshot.Quota.{
  quota_min_id, check_regular_file, get_quota_id_in_file_attr, set_quota_of_size,
}

-- -1 stands for an ID that is not known.
abbrev pub is_unset : ℤ → Bool
is_unset (negsuc zero) = true
is_unset _ = false

-- The mapped ID that a label gives, or -1.
unfoldable pub mapped_id : Snapshotter → Option String → ℤ
unfolding root_id_from_mapping
mapped_id o none = negsuc 0
mapped_id o (some v) =
    if o.remap_ids
    then elim (root_id_from_mapping v) [ some id ↦ id | none ↦ negsuc 0 ]
    else negsuc 0

abbrev pub or_else : ℤ → ℤ → ℤ
or_else id other = if is_unset id then other else id

-- getDiskQuotaSize
unfoldable pub disk_quota_size : Snapshotter → Info → String
unfolding lookup
disk_quota_size o info = elim (label info Label.rootfs_quota) [
  | some size ↦ size
  | none ↦ o.quota_size
]

-- The image reference that is noted in the directory.
abbrev image_label : Info → Option String
image_label i = elim (label i Label.cri_image_ref) [
  | some r ↦ some r
  | none ↦ label i Label.target_image_ref
]

module _ (H : Host) (o : Snapshotter) where
  -- prepareDirectory behind the temporary directory `td`
  unfoldable pub fill_directory : String → Kind → Exec (Unit {0})
  fill_directory td kind = do
    act H (mkdir (td <> "/fs"))
    act H (mkdir (td <> "/block"))
    act H (mkdir (td <> "/block/mountpoint"))
    act H (create (td <> "/block/init-debug.log"))
    when (is_active kind) (act H (mkdir (td <> "/work")))

  -- setDiskQuota: a directory that is not regular is passed over.
  unfoldable pub set_disk_quota : String → String → ℕ → Exec (Unit {0})
  unfolding nat_eq
  set_disk_quota dir size quota = do
    regular ← check_regular_file H dir
    if not regular then pure tt else do
      id ← get_quota_id_in_file_attr H dir
      if ltb 0 id && not (id == quota) then fail failed else set_quota_of_size H dir size quota

  -- The owner of the parent's directory, where an ID is not mapped.
  unfoldable pub owner_ids : ℤ → ℤ → List String → Exec (ℤ × ℤ)
  owner_ids uid gid [] = pure (uid, gid)
  owner_ids uid gid (p ∷ _) =
      if is_unset uid || is_unset gid
      then (do
        owner ← ask H.owner (stat (upper_path o p))
        pure (or_else uid owner.0, or_else gid owner.1))
      else pure (uid, gid)

  unfoldable pub set_owner : String → Info → List String → Exec (Unit {0})
  unfolding lookup mapped_id
  set_owner td info parents = do
    ids ←
        owner_ids (mapped_id o (label info Label.uid_mapping))
          (mapped_id o (label info Label.gid_mapping)) parents
    when (not (is_unset ids.0) && not (is_unset ids.1)) (act H (lchown (td <> "/fs") ids.0 ids.1))

  abbrev has_parent : List String → Bool
  has_parent [] = false
  has_parent (_ ∷ _) = true

  unfoldable pub set_quota_of_rootfs : String → Info → List String → Exec (Unit {0})
  unfolding disk_quota_size is_prepare_rootfs string_eq
  set_quota_of_rootfs td info parents =
      if is_prepare_rootfs info && not (disk_quota_size o info == "")
      then (do
        set_disk_quota (td <> "/fs") (disk_quota_size o info) quota_min_id
        when (has_parent parents)
            (set_disk_quota (td <> "/work") (disk_quota_size o info) quota_min_id))
      else pure tt

  -- createSnapshot up to the rename: the ID, the snapshot and its information.
  unfoldable pub fill_snapshot : String → Kind → String → String → Exec (Snapshot × String × Info)
  fill_snapshot td kind key parent = do
    fill_directory td kind
    s ← ask H.snapshot (create_snapshot kind key parent)
    found ← ask H.info (get_info key)
    set_owner td found.1 s.parent_ids
    set_quota_of_rootfs td found.1 s.parent_ids
    pure (s, found.0, found.1)

  abbrev remove_quietly : String → Exec (Unit {0})
  remove_quietly path = ignore (act H (remove_all path))

  unfoldable pub note_image : String → Info → Exec (Unit {0})
  unfolding lookup
  note_image path info =
      on_option (image_label info) (λ img. ignore (act H (write_file (path <> "/image_ref") img)))
        (pure tt)

  -- createSnapshot: the ID of the new snapshot and its information.
  unfoldable pub create_snapshot_dir : Kind → String → String → Exec (String × Info)
  create_snapshot_dir kind key parent = do
    td ← ask H.text (mkdir_temp (o.root <> "/snapshots"))
    made ← on_error (remove_quietly td) (fill_snapshot td kind key parent)
    let path = o.root <> "/snapshots/" <> made.0.id
    on_error (do remove_quietly td; remove_quietly path) (act H (rename td path))
    note_image path made.2
    pure (made.1, made.2)
