-- ===== src/Snapshot/Transactions.antt =====
-- The transactions of the snapshotter's methods that change the metadata store (overlay.go).
use accelerated_container_im.Base.{String}
use accelerated_container_im.Host.Trace.{emits_rules}
use accelerated_container_im.Host.{update_info, Host, History, tx_commit}
use accelerated_container_im.Host.Exec.{pure, ask, act, ignore, on_error, ◌>>◌}
use accelerated_container_im.Host.Settled.{
  Settled, Commits-act, Commits-bind_pure, Commits-ignore, Commits-on_error, in_transaction-Settled,
}
use accelerated_container_im.Host.Types.{Kind, Info}
use accelerated_container_im.Snapshot.{Snapshotter}
use accelerated_container_im.Snapshot.Prepare.{create_mount_point, plan_mount_point, finish, undo}
use accelerated_container_im.Snapshot.Quiet.Methods.{plan-Emits, finish-Emits, undo-Emits}
use accelerated_container_im.Snapshot.Quiet.Services.{commit_body-Emits, remove_body-Emits}
use accelerated_container_im.Snapshot.Remove.{remove_body, remove}
use accelerated_container_im.Snapshot.Serve.{commit_body, commit, update}

module _ (H : Host) (o : Snapshotter) where
  -- Whatever the host answers, Prepare and View begin at most one transaction of the metadata store.
  -- If they return mounts, the only other call on it was its commit. If they return an error, either
  -- the store refused to begin, or the only other call was a rollback, or it was the commit.
  pub create_mount_point-Settled :
      (kind : Kind) (key parent : String) (h : History)
      → Settled H
          (create_mount_point H o kind key parent h).0
          h
          (create_mount_point H o kind key parent h).1
  unfolding create_mount_point
  create_mount_point-Settled kind key parent h =
      in_transaction-Settled H (plan_mount_point H o kind key parent)
        (λ p. on_error (undo H o p) (act H tx_commit >> finish H o p))
        (plan-Emits H o kind key parent)
        (λ p.
          Commits-on_error H (undo H o p) (finish H o p) (undo-Emits H o p) (finish-Emits H o p))
        h

  commit-Settled :
      (name key : String) (h : History)
      → Settled H (commit H o name key h).0 h (commit H o name key h).1
  unfolding commit
  commit-Settled name key h =
      in_transaction-Settled H (commit_body H o name key) (λ _. act H tx_commit)
        (commit_body-Emits H o name key) (λ _. Commits-act H) h

  remove-Settled :
      (key : String) (h : History) → Settled H (remove H o key h).0 h (remove H o key h).1
  unfolding remove
  remove-Settled key h =
      in_transaction-Settled H (remove_body H o key) (λ _. ignore (act H tx_commit))
        (remove_body-Emits H o key) (λ _. Commits-ignore H) h

  update-Settled :
      (info : Info) (h : History) → Settled H (update H o info h).0 h (update H o info h).1
  unfolding update
  update-Settled info h =
      in_transaction-Settled H (ask H.info (update_info info)) (λ f. act H tx_commit >> pure f.1)
        (search emits_rules) (λ f. Commits-bind_pure H _ f.1 (Commits-act H)) h

  -- Whatever the host answers, Commit, Remove and Update each begin one write transaction. If one of
  -- them succeeds, the only other call on a transaction was its commit. If it fails, the store refused to
  -- begin, or the only other call was a rollback, or it was the commit.
  pub writes-Settled :
      (name key : String) (info : Info) (h : History)
      → Settled H (commit H o name key h).0 h (commit H o name key h).1
        × Settled H (remove H o key h).0 h (remove H o key h).1
        × Settled H (update H o info h).0 h (update H o info h).1
  writes-Settled name key info h =
      (commit-Settled name key h, remove-Settled key h, update-Settled info h)
