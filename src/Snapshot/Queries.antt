-- ===== src/Snapshot/Queries.antt =====
-- The transactions of the snapshotter's methods that ask the metadata store (overlay.go).
use accelerated_container_im.Base.{String, true, false}
use accelerated_container_im.Host.{Host, History}
use accelerated_container_im.Host.Discarded.{
  Discarded, RollsBack-ensure, RollsBack-bind, begin-Discarded,
}
use accelerated_container_im.Host.Trace.{emits_rules}
use accelerated_container_im.Snapshot.{Snapshotter}
use accelerated_container_im.Snapshot.Quiet.Layers.{identify-quiet}
use accelerated_container_im.Snapshot.Quiet.Queries.{by_parents-Emits, disk_usage-Emits}
use accelerated_container_im.Snapshot.Quiet.Services.{directories-Emits, remove_dirs-Emits}
use accelerated_container_im.Snapshot.Remove.{cleanup}
use accelerated_container_im.Snapshot.Serve.{mounts_of, usage}

module _ (H : Host) (o : Snapshotter) where
  mounts_of-Discarded :
      (key : String) (h : History)
      → Discarded H false (mounts_of H o key h).0 h (mounts_of H o key h).1
  unfolding mounts_of
  mounts_of-Discarded key h =
      begin-Discarded H false _ (search (RollsBack-ensure, emits_rules, by_parents-Emits) depth 12)
        h

  usage-Discarded :
      (key : String) (h : History) → Discarded H false (usage H o key h).0 h (usage H o key h).1
  unfolding usage
  usage-Discarded key h =
      begin-Discarded H false _
        (search (RollsBack-ensure, RollsBack-bind, emits_rules, identify-quiet, disk_usage-Emits)
          depth 20)
        h

  cleanup-Discarded : (h : History) → Discarded H true (cleanup H o h).0 h (cleanup H o h).1
  unfolding cleanup
  cleanup-Discarded h =
      begin-Discarded H true _
        (search
          (RollsBack-ensure, RollsBack-bind, emits_rules, directories-Emits, remove_dirs-Emits)
          depth 20)
        h

  -- Whatever the host answers, Mounts, also if it attaches and mounts a device, and Usage each begin one
  -- read transaction, and Cleanup one write transaction; each rolls it back and commits none, and fails
  -- without a rollback only if the store refused to begin.
  pub queries-Discarded :
      (key : String) (h : History)
      → Discarded H false (mounts_of H o key h).0 h (mounts_of H o key h).1
        × Discarded H false (usage H o key h).0 h (usage H o key h).1
        × Discarded H true (cleanup H o h).0 h (cleanup H o h).1
  queries-Discarded key h = (mounts_of-Discarded key h, usage-Discarded key h, cleanup-Discarded h)
