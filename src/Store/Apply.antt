-- ===== src/Store/Apply.antt =====
-- applyOCIV1LayerInObd (pkg/convertor/convertor.go): a layer of an image is unpacked in a new snapshot,
-- which is committed.
pub mod Rollback
use accelerated_container_im.Base.{ℕ, zero, suc, String, Bool, true, false, List, if◌then◌else◌}
use accelerated_container_im.Base.Dict.{Dict}
use accelerated_container_im.Convertor.Registry.{is_already_exists}
use accelerated_container_im.Host.{
  Host, reader_at, sn_prepare, sn_remove, sn_commit, open_stream, drain, stream_digest,
  apply_stream,
}
use accelerated_container_im.Host.Exec.{
  Exec, act, ask, pure, fail, attempt, ignore, when, on_result, ◌>>=◌, ◌>>◌,
}
use accelerated_container_im.Host.Registry.{Descriptor}
use accelerated_container_im.Host.Types.{already_exists}
use accelerated_container_im.Store.{conv_name, unique_part}

module _ (H : Host) where
  -- The loop that finds a key that is not taken, in at most `tries` rounds: the key and the mounts.
  unfoldable pub prepare_unique : ℕ → String → Dict String → Exec (String × List String)
  unfolding conv_name
  prepare_unique zero parent labels = fail already_exists
  prepare_unique (suc tries) parent labels =
      let again = prepare_unique tries parent labels in
      do
        part ← unique_part H
        prepared ← attempt (ask H.names (sn_prepare (conv_name part) parent labels))
        on_result prepared (λ mounts. pure (conv_name part, mounts))
            (λ e. if is_already_exists e then again else fail e)

  -- The snapshot `key` is committed; `true` if there is such a snapshot already, so that `key` is left.
  unfoldable pub commit_or_keep : String → String → Dict String → Exec Bool
  commit_or_keep name key labels = do
    committed ← attempt (act H (sn_commit name key labels))
    on_result committed (λ _. pure false) (λ e. if is_already_exists e then pure true else fail e)

  -- What is done behind the preparation: the ID of the committed snapshot, and whether to roll back.
  unfoldable pub apply_in : String → List String → Descriptor → Dict String → Exec (String × Bool)
  unfolding conv_name
  apply_in key mounts desc labels = do
    act H (open_stream desc)
    act H (apply_stream desc mounts)
    act H (drain desc)
    digest ← ask H.text (stream_digest desc)
    rollback ← commit_or_keep (conv_name digest) key labels
    pure (conv_name digest, rollback)

  -- The deferred removal of the snapshot `key` around `m`, which returns the flag `rollback` too.
  unfoldable pub with_rollback : String → Exec (String × Bool) → Exec String
  with_rollback key m = do
    done ← attempt m
    on_result done (λ (id, rollback). do when rollback (ignore (act H (sn_remove key))); pure id)
        (λ e. do ignore (act H (sn_remove key)); fail e)

  -- applyOCIV1LayerInObd, with at most `tries` keys; nothing is done behind the archive.
  unfoldable pub apply_layer : ℕ → String → Descriptor → Dict String → Exec String
  apply_layer tries parent desc labels = do
    act H (reader_at desc)
    prepared ← prepare_unique tries parent labels
    with_rollback prepared.0 (apply_in prepared.0 prepared.1 desc labels)
