-- ===== src/Snapshot/Quiet/Queries.antt =====
-- The transaction calls of the bodies of Mounts and Usage (overlay.go).
use accelerated_container_im.Base.{String, List, [], ◌∷◌}
use accelerated_container_im.Host.{Host}
use accelerated_container_im.Host.Trace.{Emits, emits_rules}
use accelerated_container_im.Host.Transactions.{no_tx}
use accelerated_container_im.Host.Types.{Info, Snapshot}
use accelerated_container_im.Snapshot.{Snapshotter, StorageType}
use accelerated_container_im.Snapshot.Quiet.Device.{attach_and_mount-Emits}
use accelerated_container_im.Snapshot.Quiet.Layers.{
  identify-quiet, writable_type-Emits, fs_type_of-Emits, normal_mount-Emits, block_mount-Emits,
}
use accelerated_container_im.Snapshot.Quiet.Methods.{docker_mount-Emits}
use accelerated_container_im.Snapshot.Quiet.Services.{locked-Emits}
use accelerated_container_im.Snapshot.Serve.{
  mounts_on_parent, mounts_with_parent, mounts_by_parents, disk_usage_with_block,
}

module _ (H : Host) (o : Snapshotter) where
  on_parent-Emits : (s : Snapshot) (i : Info) → Emits no_tx (mounts_on_parent H o s i)
  unfolding mounts_on_parent
  on_parent-Emits s i =
      search
        (
          emits_rules, identify-quiet, fs_type_of-Emits, attach_and_mount-Emits, block_mount-Emits,
          docker_mount-Emits, normal_mount-Emits,
        )
        depth 20

  with_parent-Emits : (k : String) (s : Snapshot) → Emits no_tx (mounts_with_parent H o k s)
  unfolding mounts_with_parent
  with_parent-Emits k s =
      search (emits_rules, writable_type-Emits, block_mount-Emits, on_parent-Emits) depth 20

  pub by_parents-Emits :
      (ps : List String) (k : String) (s : Snapshot) → Emits no_tx (mounts_by_parents H o ps k s)
  unfolding mounts_by_parents
  by_parents-Emits [] k s = search (emits_rules, normal_mount-Emits)
  by_parents-Emits (p ∷ ps) k s = search (emits_rules, locked-Emits, with_parent-Emits) depth 12

  pub disk_usage-Emits :
      (id : String) (t : StorageType) → Emits no_tx (disk_usage_with_block H o id t)
  unfolding disk_usage_with_block
  disk_usage-Emits id t = search emits_rules depth 12
