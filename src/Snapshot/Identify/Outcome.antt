-- ===== src/Snapshot/Identify/Outcome.antt =====
-- The calls that identifySnapshotStorageType (overlay.go) makes.
use accelerated_container_im.Base.{String, Bool, true, false}
use accelerated_container_im.Host.{Op, Host, stat, read_header}
use accelerated_container_im.Host.Types.{Error, not_exist, Info}
use accelerated_container_im.Host.Trace.{Emits, emits_rules}
use accelerated_container_im.Snapshot.{Snapshotter}
use accelerated_container_im.Snapshot.Identify.{
  identify_local_storage_type, on_unreadable, identify_by_files, identify_snapshot_storage_type,
}

-- The calls that look at files.
abbrev pub is_look : Op → Bool
is_look (stat _) = true
is_look (read_header _) = true
is_look _ = false

module _ (H : Host) (o : Snapshotter) (id : String) (info : Info) where
  on_unreadable-Emits : (e : Error) → Emits is_look (on_unreadable H o id e)
  unfolding on_unreadable
  on_unreadable-Emits not_exist = search emits_rules depth 12
  on_unreadable-Emits e = search emits_rules depth 12

  identify_by_files-Emits : (e : Error) → Emits is_look (identify_by_files H o id e)
  unfolding identify_by_files
  identify_by_files-Emits e = search (emits_rules, on_unreadable-Emits) depth 12

  identify_local-Emits : (path : String) → Emits is_look (identify_local_storage_type H path)
  unfolding identify_local_storage_type
  identify_local-Emits path = search emits_rules depth 12

  -- Whatever the host answers, telling the storage type of a layer calls nothing but looks at files.
  pub identify-Emits : Emits is_look (identify_snapshot_storage_type H o id info)
  unfolding identify_snapshot_storage_type
  identify-Emits = search (emits_rules, identify_by_files-Emits, identify_local-Emits) depth 20
