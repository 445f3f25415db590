-- ===== src/Convertor/Engine.antt =====
-- cmd/convertor/builder/builder_engine.go: what the engines of the image convertor share. The fields
-- that a conversion does not change are `Base`; the manifest and the configuration, which it does
-- change, are passed on.
use accelerated_container_im.Base.{String, ◌<>◌, Bool, not, none, [], if◌then◌else◌}
use accelerated_container_im.Base.Int.{ℤ}
use accelerated_container_im.Convertor.Registry.{oci_manifest, docker_manifest, upload_bytes}
use accelerated_container_im.Host.{Host, write_file}
use accelerated_container_im.Host.Exec.{Exec, act, pure, when, ◌>>◌}
use accelerated_container_im.Host.Registry.{Descriptor, Manifest, Image}

-- BuilderEngineType
pub data EngineType : Type 0 where
  overlaybd turbo_oci : EngineType

-- ArtifactType
unfoldable pub artifact_type_of : EngineType → String
artifact_type_of overlaybd = "application/vnd.containerd.overlaybd.native.v1+json"
artifact_type_of turbo_oci = "application/vnd.containerd.overlaybd.turbo.v1+json"

-- builderEngineBase. A fetcher or a pusher is named by its reference; whether there is a database is
-- a flag.
pub record Base : Type 0 where
  pub source_ref : String
  pub target_ref : String
  pub work_dir : String
  pub oci : Bool
  pub fs_type : String
  pub mkfs : Bool
  pub vsize : ℤ
  pub has_db : Bool
  pub host : String
  pub repository : String
  pub input_desc : Descriptor
  pub reserve : Bool
  pub no_upload : Bool
  pub dump_manifest : Bool
  pub referrer : Bool
  -- overlaybdBuilderEngine.disableSparse
  pub disable_sparse : Bool

module _ (b : Base) where
  abbrev pub media_type_manifest : String
  media_type_manifest = if b.oci then oci_manifest else docker_manifest

  abbrev pub media_type_config : String
  media_type_config =
      if b.oci
      then "application/vnd.oci.image.config.v1+json"
      else "application/vnd.docker.container.image.v1+json"

  abbrev pub media_type_layer_gzip : String
  media_type_layer_gzip =
      if b.oci
      then "application/vnd.oci.image.layer.v1.tar+gzip"
      else "application/vnd.docker.image.rootfs.diff.tar.gzip"

  abbrev pub media_type_layer : String
  media_type_layer =
      if b.oci
      then "application/vnd.oci.image.layer.v1.tar"
      else "application/vnd.docker.image.rootfs.diff.tar"

abbrev pub plain_descriptor : String → String × ℤ → Descriptor
plain_descriptor media_type (digest, size) = record {
  media_type = media_type;
  digest = digest;
  size = size;
  annotations = [];
  platform = none;
}

module _ (H : Host) (b : Base) where
  -- The descriptors that uploadManifestAndConfig computes.
  abbrev pub config_descriptor : Image → Descriptor
  config_descriptor config = plain_descriptor (media_type_config b) (H.encode_image config)

  abbrev pub final_manifest : Manifest → Image → Manifest
  final_manifest manifest config = record manifest {
    config = config_descriptor config;
    media_type = media_type_manifest b;
  }

  abbrev pub manifest_descriptor : Manifest → Image → Descriptor
  manifest_descriptor manifest config =
      plain_descriptor (media_type_manifest b) (H.encode_manifest (final_manifest manifest config))

  -- uploadManifestAndConfig: the configuration goes up before the manifest that names it. An encoded
  -- text is named by its digest.
  unfoldable pub upload_manifest_and_config : Manifest → Image → Exec Descriptor
  upload_manifest_and_config manifest config =
      let config_desc = config_descriptor config in
      let desc = manifest_descriptor manifest config in
      do
        when (not b.no_upload) (upload_bytes H b.target_ref config_desc)
        when b.dump_manifest (act H (write_file (b.work_dir <> "/config.json") config_desc.digest))
        when (not b.no_upload) (upload_bytes H b.target_ref desc)
        when b.dump_manifest (act H (write_file (b.work_dir <> "/manifest.json") desc.digest))
        pure desc
