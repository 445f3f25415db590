-- ===== src/Convertor/Overlaybd/Finish.antt =====
-- The engine's work on the image as a whole (overlaybd_builder.go): its start, the base layer, and the
-- manifest and configuration of the converted image.
use accelerated_container_im.Base.{
  String, ◌<>◌, Bool, false, not, none, some, List, [], ◌∷◌, ◌++◌, map, if◌then◌else◌,
}
use accelerated_container_im.Base.Int.{pos}
use accelerated_container_im.Convertor.Engine.{
  Base, overlaybd, artifact_type_of, plain_descriptor, upload_manifest_and_config, final_manifest,
}
use accelerated_container_im.Convertor.Overlaybd.{LayerResult, Work, layer_descriptor}
use accelerated_container_im.Convertor.Registry.{upload_blob}
use accelerated_container_im.Host.{Host, create, stat, pack_base_layer}
use accelerated_container_im.Host.Exec.{Exec, act, ask, pure, fail, when, ◌>>=◌, ◌>>◌}
use accelerated_container_im.Host.Registry.{Descriptor, Manifest, Image}
use accelerated_container_im.Host.Types.{panicked, Config, no_lower, no_upper}

abbrev pub base_layer : String
base_layer = "/opt/overlaybd/baselayers/ext4_64"

abbrev pub start_config : Bool → Config
start_config mkfs = record {
  repo_blob_url = "";
  lowers = if mkfs then [] else record no_lower { file = base_layer } ∷ [];
  upper = no_upper;
  result_file = "";
  acceleration_layer = false;
  record_trace_path = "";
}

abbrev pub start_result : String → LayerResult
start_result chain_id = record {
  desc = plain_descriptor "" ("", pos 0);
  chain_id = chain_id;
  from_dedup = false;
}

-- The descriptors of the results, in the manifest's layers.
abbrev pub result_descs : List LayerResult → List Descriptor
result_descs = map (λ r. r.desc)

-- The loop of UploadImage over the diff IDs: those behind the layers stay. That there are enough is
-- asked in chain_results.
unfoldable pub set_diff_ids : List LayerResult → List String → List String
set_diff_ids [] ds = ds
set_diff_ids (r ∷ rs) [] = []
set_diff_ids (r ∷ rs) (d ∷ ds) = r.desc.digest ∷ set_diff_ids rs ds

abbrev pub referring : Base → Manifest → Manifest
referring b manifest =
    if b.referrer
    then record manifest {
      artifact_type = artifact_type_of overlaybd;
      subject =
          some (plain_descriptor b.input_desc.media_type (b.input_desc.digest, b.input_desc.size));
    }
    else manifest

-- UploadImage in front of the base layer
abbrev pub with_results : Work → Work
with_results w = record w {
  manifest = record w.manifest { layers = result_descs w.results };
  config = record w.config { diff_ids = set_diff_ids w.results w.config.diff_ids };
}

abbrev pub with_base : Work → Descriptor → Work
with_base w desc = record w {
  manifest = record w.manifest { layers = desc ∷ w.manifest.layers };
  config = record w.config { diff_ids = desc.digest ∷ w.config.diff_ids };
}

module _ (H : Host) (b : Base) where
  -- The loop of NewOverlayBDBuilderEngine: the chain ID of each layer. A configuration with fewer
  -- diff IDs than layers makes it panic.
  unfoldable pub chain_results :
      List String → List Descriptor → List String → Exec (List LayerResult)
  chain_results chain [] diff_ids = pure []
  chain_results chain (layer ∷ layers) [] = fail panicked
  chain_results chain (layer ∷ layers) (d ∷ diff_ids) =
      let chain' = chain ++ (d ∷ []) in
      do rest ← chain_results chain' layers diff_ids; pure (start_result (H.chain_id chain') ∷ rest)

  -- NewOverlayBDBuilderEngine
  unfoldable pub new_engine : Manifest → Image → Exec Work
  new_engine manifest config = do
    results ← chain_results [] manifest.layers config.diff_ids
    pure (record {
      manifest = manifest;
      config = config;
      overlaybd_config = start_config b.mkfs;
      results = results;
      output = none;
    })

  -- uploadBaseLayer
  unfoldable pub upload_base_layer : Exec Descriptor
  upload_base_layer =
      let tar_file = b.work_dir <> "/ext4_64.tar" in
      do
        act H (create tar_file)
        act H (stat base_layer)
        packed ← ask H.content (pack_base_layer tar_file)
        let desc = layer_descriptor H b packed.0 packed.1
        when (not b.no_upload) (upload_blob H b.target_ref tar_file desc)
        pure desc

  unfoldable pub add_base_layer : Work → Exec Work
  add_base_layer w = if b.mkfs then pure w else do desc ← upload_base_layer; pure (with_base w desc)

  -- UploadImage
  unfoldable pub upload_image : Work → Exec (Work × Descriptor)
  upload_image w = do
    based ← add_base_layer (with_results w)
    let manifest = referring b based.manifest
    desc ← upload_manifest_and_config H b manifest based.config
    pure (
      record based {
        manifest = final_manifest H b manifest based.config;
        output = if b.no_upload then none else some desc;
      },
      desc,
    )
