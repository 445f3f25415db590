-- ===== src/Convertor/Overlaybd/Dedup.antt =====
-- The engine's deduplication (overlaybd_builder.go): converted layers and manifests that the database
-- knows are reused if the registry still has them, and mounted from other repositories.
use accelerated_container_im.Base.{
  ℕ, String, ◌<>◌, Bool, true, false, not, Option, none, some, List, [], ◌∷◌, ◌==◌, string_eq,
  if◌then◌else◌,
}
use accelerated_container_im.Base.Lists.{set}
use accelerated_container_im.Convertor.Engine.{
  Base, media_type_layer, media_type_manifest, plain_descriptor,
}
use accelerated_container_im.Convertor.Overlaybd.{Work, layer_dir, result_of}
use accelerated_container_im.Convertor.Registry.{
  fetch_manifest, download_layer, upload_bytes, is_already_exists,
}
use accelerated_container_im.Host.{
  Host, fetch, push, remove, fetcher_for, get_layer_entry, get_layer_entries, create_layer_entry,
  delete_layer_entry, get_manifest_entry, get_manifest_entries, create_manifest_entry,
  delete_manifest_entry,
}
use accelerated_container_im.Host.Exec.{
  Exec, act, ask, pure, fail, attempt, ignore, when, on_error, on_result, on_option, ◌>>=◌, ◌>>◌,
}
use accelerated_container_im.Host.Registry.{Descriptor, Manifest, LayerEntry, ManifestEntry}
use accelerated_container_im.Host.Types.{Error, ok, not_found, failed}

abbrev pub is_not_found : Error → Bool
is_not_found not_found = true
is_not_found _ = false

-- The first row of an answer.
abbrev pub first_of {ℓ} : {A : Type ℓ} → List A → Option A
first_of [] = none
first_of (a ∷ _) = some a

-- The descriptor with the annotation that makes a push mount the blob from another repository.
abbrev pub mounted_from : Base → String → Descriptor → Descriptor
mounted_from b repository desc = record desc {
  annotations = ("containerd.io/distribution.source." <> b.host, repository) ∷ [];
}

module _ (H : Host) (b : Base) where
  abbrev pub entry_layer : LayerEntry → Descriptor
  entry_layer entry =
      plain_descriptor (media_type_layer b) (entry.converted_digest, entry.data_size)

  abbrev pub entry_manifest : ManifestEntry → Descriptor
  entry_manifest entry =
      plain_descriptor (media_type_manifest b) (entry.converted_digest, entry.data_size)

  -- The search in the target repository: the layer if the registry has it; a row whose layer is gone is
  -- deleted.
  unfoldable pub layer_in_repo : String → Exec (Option Descriptor)
  unfolding string_eq
  layer_in_repo chain_id = do
    rows ← ask (λ h op. ok (H.layer_entries h op)) (get_layer_entry b.host b.repository chain_id)
    on_option (first_of rows)
        (λ entry. if entry.chain_id == "" then pure none else (do
          fetched ← attempt (act H (fetch b.source_ref (entry_layer entry)))
          on_result fetched (λ _. pure (some (entry_layer entry)))
              (λ e.
                if is_not_found e
                then (do act H (delete_layer_entry b.host b.repository chain_id); pure none)
                else pure none)))
        (pure none)

  -- The search in the other repositories of the registry: the first from which the layer can be mounted.
  unfoldable pub layer_elsewhere : String → List LayerEntry → Exec Descriptor
  layer_elsewhere chain_id [] = fail not_found
  layer_elsewhere chain_id (entry ∷ entries) =
      let rest = layer_elsewhere chain_id entries in
      do
        pushed ←
            attempt
              (act H (push b.target_ref (mounted_from b entry.repository (entry_layer entry))))
        on_result pushed (λ _. rest)
            (λ e.
              if is_already_exists e
              then (do
                created ← attempt (
                    act H (
                      create_layer_entry b.host b.repository entry.converted_digest chain_id
                        entry.data_size))
                on_result created (λ _. pure (entry_layer entry)) (λ _. rest))
              else rest)

  -- CheckForConvertedLayer
  unfoldable pub check_for_converted_layer : Work → ℕ → Exec Descriptor
  check_for_converted_layer w idx = if not b.has_db then fail not_found else do
    result ← result_of H b w idx
    found ← layer_in_repo result.chain_id
    on_option found pure (do
      entries ← ask (λ h op. ok (H.layer_entries h op)) (get_layer_entries b.host result.chain_id)
      layer_elsewhere result.chain_id entries)

  -- DownloadConvertedLayer: what a failed download left is removed.
  unfoldable pub download_converted_layer : Work → ℕ → Descriptor → Exec Work
  download_converted_layer w idx desc = do
    dir ← layer_dir H b w.manifest.layers idx
    on_error (ignore (act H (remove (dir <> "/overlaybd.commit"))))
        (download_layer H b.source_ref (dir <> "/overlaybd.commit") desc true)
    result ← result_of H b w idx
    pure (record w {
      results = set w.results idx (record result { from_dedup = true; desc = desc });
    })

  -- StoreConvertedLayerDetails
  unfoldable pub store_converted_layer_details : Work → ℕ → Exec (Unit {0})
  store_converted_layer_details w idx = when b.has_db (do
    result ← result_of H b w idx
    when (not result.from_dedup) (
        act H (
          create_layer_entry b.host b.repository result.desc.digest result.chain_id
            result.desc.size)))

  -- StoreConvertedManifestDetails
  unfoldable pub store_converted_manifest_details : Work → Exec (Unit {0})
  store_converted_manifest_details w = when b.has_db (
      on_option w.output
        (λ desc. act H (
          create_manifest_entry b.host b.repository (media_type_manifest b) b.input_desc.digest
            desc.digest desc.size))
        (fail failed))

  -- A push that is meant to mount a blob; it may also open an upload, which is left.
  unfoldable pub mount_blob : String → Descriptor → Exec (Unit {0})
  mount_blob repository desc = do
    pushed ← attempt (act H (push b.target_ref (mounted_from b repository desc)))
    on_result pushed pure (λ e. if is_already_exists e then pure tt else fail e)

  unfoldable pub mount_blobs : String → List Descriptor → Exec (Unit {0})
  mount_blobs repository [] = pure tt
  mount_blobs repository (d ∷ ds) = do mount_blob repository d; mount_blobs repository ds

  -- mountImage
  unfoldable pub mount_image : Manifest → Descriptor → String → Exec (Unit {0})
  mount_image manifest desc repository = do
    mount_blob repository manifest.config
    mount_blobs repository manifest.layers
    upload_bytes H b.target_ref desc

  unfoldable pub manifest_in_repo : Exec (Option Descriptor)
  unfolding string_eq
  manifest_in_repo =
      let media_type = media_type_manifest b in
      do
        rows ←
            ask (λ h op. ok (H.manifest_entries h op))
              (get_manifest_entry b.host b.repository media_type b.input_desc.digest)
        on_option (first_of rows)
            (λ entry. if entry.converted_digest == "" then pure none else (do
              fetched ← attempt (act H (fetch b.source_ref (entry_manifest entry)))
              on_result fetched (λ _. pure (some (entry_manifest entry)))
                  (λ e.
                    if is_not_found e
                    then (do
                      act H
                          (delete_manifest_entry b.host b.repository media_type b.input_desc.digest)
                      pure none)
                    else pure none)))
            (pure none)

  -- An entry of another repository whose manifest was read.
  unfoldable pub mount_manifest : ManifestEntry → Manifest → Exec Descriptor → Exec Descriptor
  mount_manifest entry manifest rest = do
    mounted ← attempt (mount_image manifest (entry_manifest entry) entry.repository)
    on_result mounted
        (λ _. do
          created ← attempt (
              act H (
                create_manifest_entry b.host b.repository (media_type_manifest b)
                  b.input_desc.digest entry.converted_digest entry.data_size))
          on_result created (λ _. pure (entry_manifest entry)) (λ _. rest))
        (λ _. rest)

  unfoldable pub manifest_elsewhere : List ManifestEntry → Exec Descriptor
  manifest_elsewhere [] = fail not_found
  manifest_elsewhere (entry ∷ entries) =
      let rest = manifest_elsewhere entries in
      let ref = entry.host <> "/" <> entry.repository <> "@" <> entry.converted_digest in
      do
        act H (fetcher_for ref)
        read ← attempt (fetch_manifest H 0 ref (entry_manifest entry))
        on_result read (λ manifest. mount_manifest entry manifest rest)
            (λ e.
              if is_not_found e
              then (do
                act H (
                    delete_manifest_entry entry.host entry.repository (media_type_manifest b)
                      b.input_desc.digest)
                rest)
              else rest)

  -- CheckForConvertedManifest
  unfoldable pub check_for_converted_manifest : Exec Descriptor
  check_for_converted_manifest = if not b.has_db then fail not_found else do
    found ← manifest_in_repo
    on_option found pure (do
      entries ←
          ask (λ h op. ok (H.manifest_entries h op))
            (get_manifest_entries b.host (media_type_manifest b) b.input_desc.digest)
      manifest_elsewhere entries)
