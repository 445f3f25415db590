-- ===== src/Snapshot/Quiet/Services.antt =====
-- The transaction calls of the bodies of Commit and Remove (overlay.go).
use accelerated_container_im.Base.{String, Bool, true, false, List, [], ◌∷◌}
use accelerated_container_im.Host.{Host}
use accelerated_container_im.Host.Types.{Info, Snapshot}
use accelerated_container_im.Host.Exec.{Exec}
use accelerated_container_im.Host.Trace.{Emits, emits_rules}
use accelerated_container_im.Host.Transactions.{no_tx}
use accelerated_container_im.Snapshot.{Snapshotter, StorageType}
use accelerated_container_im.Snapshot.Quiet.Device.{unmount_and_detach-Emits}
use accelerated_container_im.Snapshot.Quiet.Layers.{
  identify-quiet, load-Emits, seal_writable-Emits, construct-Emits,
}
use accelerated_container_im.Snapshot.Quiet.Methods.{commit_snapshot-Emits, remove_docker-Emits}
use accelerated_container_im.Snapshot.Remove.{
  get_cleanup_directories, remove_dirs, remove_metadata, detach_parent, remove_locked,
  remove_with_parent, release_device, remove_body,
}
use accelerated_container_im.Snapshot.Serve.{
  locked, seal_layer, seal_if_writable, spec_for_turbo_oci, spec_for_local_layer,
  spec_for_local_block, commit_body,
}

module _ (H : Host) (o : Snapshotter) where
  seal_layer-Emits : (id k : String) → Emits no_tx (seal_layer H o id k)
  unfolding seal_layer
  seal_layer-Emits id k =
      search (emits_rules, unmount_and_detach-Emits, seal_writable-Emits) depth 20

  seal_if-Emits : (id k : String) (i : Info) → Emits no_tx (seal_if_writable H o id k i)
  unfolding seal_if_writable
  seal_if-Emits id k i = search (emits_rules, load-Emits, seal_layer-Emits) depth 20

  turbo_spec-Emits :
      (n : String) (i : Info) (t : StorageType) → Emits no_tx (spec_for_turbo_oci H o n i t)
  unfolding spec_for_turbo_oci
  turbo_spec-Emits n i t = search (emits_rules, construct-Emits) depth 20

  layer_spec-Emits : (n : String) (t : StorageType) → Emits no_tx (spec_for_local_layer H o n t)
  unfolding spec_for_local_layer
  layer_spec-Emits n t = search (emits_rules, construct-Emits) depth 20

  block_spec-Emits :
      (n id : String) (i : Info) (t : StorageType) → Emits no_tx (spec_for_local_block H o n id i t)
  unfolding spec_for_local_block
  block_spec-Emits n id i t = search (emits_rules, construct-Emits) depth 20

  pub commit_body-Emits : (n k : String) → Emits no_tx (commit_body H o n k)
  unfolding commit_body
  commit_body-Emits n k =
      search
        (
          emits_rules, seal_if-Emits, commit_snapshot-Emits, identify-quiet, turbo_spec-Emits,
          layer_spec-Emits, block_spec-Emits,
        )
        depth 20

  pub directories-Emits : Emits no_tx (get_cleanup_directories H o)
  unfolding get_cleanup_directories
  directories-Emits = search emits_rules depth 20

  pub remove_dirs-Emits : (ds : List String) → Emits no_tx (remove_dirs H o ds)
  unfolding remove_dirs
  remove_dirs-Emits [] = search emits_rules
  remove_dirs-Emits (d ∷ ds) =
      let ih = λ (u : Unit {0}). remove_dirs-Emits ds in search (emits_rules, ih) depth 12

  metadata-Emits : (k id : String) → Emits no_tx (remove_metadata H o k id)
  unfolding remove_metadata
  metadata-Emits k id =
      let dirs = λ (u : Unit {0}). directories-Emits in
      search (emits_rules, dirs, remove_dirs-Emits) depth 20

  detach_parent-Emits : (k p : String) (i : Info) → Emits no_tx (detach_parent H o k p i)
  unfolding detach_parent
  detach_parent-Emits k p i =
      search (emits_rules, identify-quiet, unmount_and_detach-Emits) depth 20

  pub locked-Emits {ℓ} :
      {A : Type ℓ} (b : Bool) (id p : String) {m : Exec A}
      → Emits no_tx m
      → Emits no_tx (locked H o b id p m)
  unfolding locked
  locked-Emits true id p k = search emits_rules depth 20
  locked-Emits false id p k = k

  remove_locked-Emits :
      (ps : List String) (k id : String) (i : Info) (s : Snapshot)
      → Emits no_tx (remove_locked H o ps k id i s)
  unfolding remove_locked
  remove_locked-Emits [] k id i s = metadata-Emits k id
  remove_locked-Emits (p ∷ ps) k id i s =
      search (emits_rules, locked-Emits, detach_parent-Emits, metadata-Emits) depth 20

  with_parent-Emits : (k id : String) (i : Info) → Emits no_tx (remove_with_parent H o k id i)
  unfolding remove_with_parent
  with_parent-Emits k id i = search (emits_rules, remove_locked-Emits, metadata-Emits) depth 20

  release-Emits : (k id : String) (i : Info) → Emits no_tx (release_device H o k id i)
  unfolding release_device
  release-Emits k id i =
      search (emits_rules, identify-quiet, unmount_and_detach-Emits, remove_docker-Emits) depth 20

  pub remove_body-Emits : (k : String) → Emits no_tx (remove_body H o k)
  unfolding remove_body
  remove_body-Emits k = search (emits_rules, release-Emits, with_parent-Emits) depth 20
