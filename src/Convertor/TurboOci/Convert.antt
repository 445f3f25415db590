-- ===== src/Convertor/TurboOci/Convert.antt =====
-- The upload of TurboOCI layers and of the image made of them (turboOCI_builder.go), and the conversion
-- of an image with this engine (overlaybdBuilder.Build in builder.go), whose layers go through it one
-- by one. The engine knows no converted layers and no converted manifests.
use accelerated_container_im.Base.{
  ℕ, zero, suc, String, ◌<>◌, Bool, true, false, none, some, List, [], ◌∷◌, if◌then◌else◌,
}
use accelerated_container_im.Base.Int.{ℤ, pos}
use accelerated_container_im.Base.Lists.{get_elem?, set, length}
use accelerated_container_im.Base.Text.{decimal_ℤ}
use accelerated_container_im.Convertor.Engine.{
  Base, turbo_oci, artifact_type_of, plain_descriptor, media_type_layer, media_type_layer_gzip,
  final_manifest, upload_manifest_and_config,
}
use accelerated_container_im.Convertor.Overlaybd.{layer_dir, clean_up}
use accelerated_container_im.Convertor.Overlaybd.Finish.{base_layer}
use accelerated_container_im.Convertor.Registry.{get_file_desc, upload_blob}
use accelerated_container_im.Convertor.TurboOci.{TurboWork, download_turbo, build_turbo}
use accelerated_container_im.Host.{Host}
use accelerated_container_im.Host.Exec.{Exec, pure, fail, ensure, on_option, ◌>>=◌, ◌>>◌}
use accelerated_container_im.Host.Registry.{Descriptor, Manifest}
use accelerated_container_im.Host.Types.{panicked}
use accelerated_container_im.Snapshot.Label

module _ (H : Host) (b : Base) where
  -- The media type of the blob that a layer indexes.
  abbrev pub target_media_type : String → Bool → String
  target_media_type media_type gzip =
      if H.is_docker_type media_type
      then (if gzip
          then "application/vnd.docker.image.rootfs.diff.tar.gzip"
          else "application/vnd.docker.image.rootfs.diff.tar")
      else if gzip
      then "application/vnd.oci.image.layer.v1.tar+gzip"
      else "application/vnd.oci.image.layer.v1.tar"

  abbrev pub turbo_descriptor : Descriptor → Bool → String → ℤ → Descriptor
  turbo_descriptor layer gzip digest size = record {
    media_type = media_type_layer_gzip b;
    digest = digest;
    size = size;
    annotations =
        ("containerd.io/snapshot/overlaybd/version", "0.1.0-turbo.ociv1")
        ∷ (Label.blob_digest, digest)
        ∷ (Label.blob_size, decimal_ℤ size)
        ∷ (Label.turbo_oci_digest, layer.digest)
        ∷ (Label.turbo_oci_media_type, target_media_type layer.media_type gzip)
        ∷ [];
    platform = none;
  }

  -- UploadLayer
  unfoldable pub upload_turbo : TurboWork → ℕ → Exec TurboWork
  upload_turbo w idx = do
    dir ← layer_dir H b w.manifest.layers idx
    found ← get_file_desc H (dir <> "/turboOCIv1.tar.gz") false
    on_option (get_elem? w.manifest.layers idx)
        (λ layer.
          on_option (get_elem? w.is_gzip idx)
            (λ gzip. do
              let desc = turbo_descriptor layer gzip found.0 found.1
              upload_blob H b.target_ref (dir <> "/turboOCIv1.tar.gz") desc
              pure (record w { toci_layers = set w.toci_layers idx desc }))
            (fail panicked))
        (fail panicked)

  -- The loop of UploadImage over the `n` layers from `idx` on, with the diff IDs from there on: each is
  -- replaced by the digest of the archive without compression. It panics if there are too few.
  unfoldable pub turbo_ids : List Descriptor → ℕ → ℕ → List String → Exec (List String)
  turbo_ids layers zero idx ids = pure ids
  turbo_ids layers (suc n) idx [] = do
    dir ← layer_dir H b layers idx
    get_file_desc H (dir <> "/turboOCIv1.tar.gz") true
    fail panicked
  turbo_ids layers (suc n) idx (d ∷ ids) = do
    dir ← layer_dir H b layers idx
    found ← get_file_desc H (dir <> "/turboOCIv1.tar.gz") true
    rest ← turbo_ids layers n (suc idx) ids
    pure (found.0 ∷ rest)

  abbrev pub turbo_base : Descriptor
  turbo_base = record {
    media_type = media_type_layer b;
    digest = "sha256:c3a417552a6cf9ffa959b541850bab7d7f08f4255425bf8b48c85f7b36b378d9";
    size = pos 4737695;
    annotations =
        ("containerd.io/snapshot/overlaybd/version", "0.1.0")
        ∷ (
          Label.blob_digest,
          "sha256:c3a417552a6cf9ffa959b541850bab7d7f08f4255425bf8b48c85f7b36b378d9",
        )
        ∷ (Label.blob_size, "4737695")
        ∷ [];
    platform = none;
  }

  -- The base layer of UploadImage, which is the same for all images.
  unfoldable pub add_turbo_base : TurboWork → Exec TurboWork
  add_turbo_base w = if b.mkfs then pure w else do
    upload_blob H b.target_ref base_layer turbo_base
    pure (record w {
      manifest = record w.manifest { layers = turbo_base ∷ w.manifest.layers };
      config = record w.config { diff_ids = turbo_base.digest ∷ w.config.diff_ids };
    })

  abbrev pub turbo_referring : Manifest → Manifest
  turbo_referring manifest =
      if b.referrer
      then record manifest {
        artifact_type = artifact_type_of turbo_oci;
        subject =
            some
              (plain_descriptor b.input_desc.media_type (b.input_desc.digest, b.input_desc.size));
      }
      else manifest

  -- UploadImage
  unfoldable pub upload_turbo_image : TurboWork → Exec (TurboWork × Descriptor)
  upload_turbo_image w = do
    ids ← turbo_ids w.manifest.layers (length w.manifest.layers) 0 w.config.diff_ids
    based ← add_turbo_base (record w {
      manifest = record w.manifest { layers = w.toci_layers };
      config = record w.config { diff_ids = ids };
    })
    let manifest = turbo_referring based.manifest
    desc ← upload_manifest_and_config H b manifest based.config
    pure (
      record based {
        manifest = final_manifest H b manifest based.config;
        output = if b.no_upload then none else some desc;
      },
      desc,
    )

  -- The goroutines of a layer in turn: CheckForConvertedLayer finds nothing, and
  -- StoreConvertedLayerDetails does nothing.
  unfoldable pub convert_turbo_layer : TurboWork → ℕ → Exec TurboWork
  convert_turbo_layer w idx = do
    obtained ← download_turbo H b w idx
    built ← build_turbo H b obtained idx
    upload_turbo built idx

  unfoldable pub convert_turbo_layers : ℕ → TurboWork → ℕ → Exec TurboWork
  convert_turbo_layers zero w idx = pure w
  convert_turbo_layers (suc n) w idx = do
    done ← convert_turbo_layer w idx
    convert_turbo_layers n done (suc idx)

  -- overlaybdBuilder.Build: CheckForConvertedManifest and StoreConvertedManifestDetails do nothing but
  -- return errors, which are dropped.
  unfoldable pub build_turbo_image : TurboWork → Exec Descriptor
  build_turbo_image w = ensure (clean_up H b) (do
    done ← convert_turbo_layers (length w.manifest.layers) w 0
    (final, desc) ← upload_turbo_image done
    pure desc)
