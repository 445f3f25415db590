-- ===== src/Store/Layers.antt =====
-- convertLayers (pkg/convertor/convertor.go): the layers of an image, from the bottom to the top.
pub mod Snapshots
pub mod Tidy
pub mod Plain
use accelerated_container_im.Base.{
  ℕ, zero, suc, String, ◌<>◌, Bool, true, false, Option, none, some, List, [], ◌∷◌, ◌++◌,
  if◌then◌else◌,
}
use accelerated_container_im.Base.Dict.{Dict, lookup}
use accelerated_container_im.Base.Lists.{get_elem?}
use accelerated_container_im.Base.Text.{decimal_ℤ}
use accelerated_container_im.Convertor.Overlaybd.Dedup.{is_not_found}
use accelerated_container_im.Convertor.Registry.{is_already_exists}
use accelerated_container_im.Host.{Host, sn_stat, sn_prepare, sn_remove}
use accelerated_container_im.Host.Exec.{
  Exec, act, ask, pure, fail, attempt, ignore, on_result, on_option, ◌>>=◌, ◌>>◌,
}
use accelerated_container_im.Host.Registry.{Descriptor}
use accelerated_container_im.Host.Types.{Error, Result, ok, err, failed, panicked}
use accelerated_container_im.Snapshot.Label
use accelerated_container_im.Store.{Layer, StoreConvertor, conv_name}
use accelerated_container_im.Store.Apply.{apply_layer}
use accelerated_container_im.Store.Loader.{layer_media_type, load}
use accelerated_container_im.Store.Remote.{find_remote, sent_to_remote}

-- An entry of commitLayers: a layer, or the snapshot that a goroutine packs.
pub data Slot : Type 0 where
  made : Layer → Slot
  packing : String → Slot

-- `labels[key]`, of a map that may lack the key.
abbrev label_or_empty : Dict String → String → String
label_or_empty labels key = elim (lookup key labels) [ some v ↦ v | none ↦ "" ]

-- The layer of a blob that the registry has.
unfoldable pub remote_layer : Descriptor → Layer
unfolding decimal_ℤ
remote_layer desc = record {
  desc = record {
    media_type = layer_media_type;
    digest = desc.digest;
    size = desc.size;
    annotations = (Label.blob_digest, desc.digest) ∷ (Label.blob_size, decimal_ℤ desc.size) ∷ [];
    platform = none;
  };
  diff_id = desc.digest;
}

module _ (H : Host) (c : StoreConvertor) (fs_type : String) where
  -- sendToContentStore
  unfoldable pub send_to_content_store : String → Exec Layer
  unfolding lookup
  send_to_content_store id = do
    found ← ask H.info (sn_stat id)
    load H (record {
      files =
          record {
            src_file_path = label_or_empty found.1.labels Label.local_overlaybd_path;
            dst_file_name = "overlaybd.commit";
          }
          ∷ [];
      is_accel_layer = false;
      loaded_fs_type = fs_type;
    })

  -- The search for the layer in the registry; a layer that is not there is no error.
  unfoldable pub find_converted : String → Exec (Option Descriptor)
  find_converted chain_id =
      if c.remote
      then (do
        found ← attempt (find_remote H c chain_id)
        on_result found (λ desc. pure (some desc))
            (λ e. if is_not_found e then pure none else fail e))
      else pure none

  -- The labels of a snapshot that is made of a blob in the registry.
  unfoldable pub remote_labels : String → Descriptor → Dict String
  unfolding decimal_ℤ
  remote_labels key desc =
      (Label.target_snapshot_ref, key)
      ∷ (Label.target_image_ref, c.host <> "/" <> c.repo)
      ∷ (Label.blob_digest, desc.digest)
      ∷ (Label.blob_size, decimal_ℤ desc.size)
      ∷ []

  -- The snapshot of a layer that the registry has: the snapshotter commits it at once, which Prepare
  -- reports as a snapshot that exists. A success is an error without a class.
  unfoldable pub prepare_remote : String → String → Descriptor → Exec String
  unfolding conv_name remote_labels
  prepare_remote parent chain_id desc =
      let key = conv_name chain_id in
      do
        prepared ←
            attempt (ask H.names (sn_prepare ("prepare-" <> key) parent (remote_labels key desc)))
        on_result prepared (λ _. do ignore (act H (sn_remove ("prepare-" <> key))); fail failed)
            (λ e. if is_already_exists e then pure key else fail e)

  -- The labels of a snapshot that a layer is unpacked in.
  unfoldable pub apply_labels : Dict String
  unfolding decimal_ℤ
  apply_labels =
      (Label.support_read_write_mode, "dir")
      ∷ (Label.blob_fs_type, fs_type)
      ∷ (Label.overlaybd_vsize, decimal_ℤ c.vsize)
      ∷ (Label.zfile_config, H.encode_zfile c.zfile.algorithm c.zfile.block_size)
      ∷ []

  -- What becomes of a layer that was unpacked and committed as the snapshot `id`.
  unfoldable pub keep_or_pack : String → String → Exec Slot
  keep_or_pack chain_id id =
      if c.remote
      then (do
        layer ← send_to_content_store id
        sent_to_remote H c layer.desc chain_id
        pure (made layer))
      else pure (packing id)

  -- The body of the loop: the snapshot that the next layer stands on, and the entry of this layer.
  unfoldable pub store_layer : ℕ → String → String → Descriptor → Exec (String × Slot)
  unfolding apply_labels remote_layer
  store_layer tries parent chain_id desc = do
    found ← find_converted chain_id
    on_option found
        (λ remote. do
          key ← prepare_remote parent chain_id remote
          pure (key, made (remote_layer remote)))
        (do
          id ← apply_layer H tries parent desc apply_labels
          slot ← keep_or_pack chain_id id
          pure (id, slot))

  -- The loop from the layer `idx` on, on the snapshot `parent` and the diff IDs `chain` of the layers
  -- below; a layer without a diff ID makes it panic.
  unfoldable pub store_layers :
      ℕ → List String → List Descriptor → ℕ → String → List String → Exec (List Slot)
  store_layers tries diff_ids [] idx parent chain = pure []
  store_layers tries diff_ids (desc ∷ descs) idx parent chain =
      on_option (get_elem? diff_ids idx)
        (λ diff_id.
          let chain = chain ++ (diff_id ∷ []) in
          do
            stored ← store_layer tries parent (H.chain_id chain) desc
            slots ← store_layers tries diff_ids descs (suc idx) stored.0 chain
            pure (stored.1 ∷ slots))
        (fail panicked)

  -- The goroutines and eg.Wait. Each goroutine runs, and the first error is returned.
  unfoldable pub wait_layers : List Slot → Exec (List Layer)
  wait_layers [] = pure []
  wait_layers (made layer ∷ slots) = do layers ← wait_layers slots; pure (layer ∷ layers)
  wait_layers (packing id ∷ slots) = do
    sent ← attempt (send_to_content_store id)
    rest ← attempt (wait_layers slots)
    layer ← on_result sent pure fail
    layers ← on_result rest pure fail
    pure (layer ∷ layers)

  -- convertLayers
  unfoldable pub convert_store_layers : ℕ → List Descriptor → List String → Exec (List Layer)
  convert_store_layers tries descs diff_ids = do
    slots ← store_layers tries diff_ids descs 0 "" []
    wait_layers slots
