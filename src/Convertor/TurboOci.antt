-- ===== src/Convertor/TurboOci.antt =====
-- cmd/convertor/builder/turboOCI_builder.go: the engine that builds TurboOCI layers, which index the
-- blobs of the source image, and isGzipLayer of builder_engine.go. What it does with the image as a whole
-- is in Convert.
pub mod Convert
pub mod Targets
use accelerated_container_im.Base.{
  ℕ, zero, suc, String, ◌<>◌, Bool, true, false, not, ◌&&◌, ◌||◌, Option, none, some, List, [], ◌∷◌,
  ◌++◌, ◌==◌, string_eq, nat_eq, map, if◌then◌else◌,
}
use accelerated_container_im.Base.Int.{ℤ, pos}
use accelerated_container_im.Base.Lists.{get_elem?, set, length}
use accelerated_container_im.Base.Text.{decimal_ℤ}
use accelerated_container_im.Convertor.Engine.{
  Base, turbo_oci, artifact_type_of, plain_descriptor, media_type_layer, media_type_layer_gzip,
  final_manifest, upload_manifest_and_config,
}
use accelerated_container_im.Convertor.Overlaybd.{layer_dir}
use accelerated_container_im.Convertor.Overlaybd.Finish.{base_layer, start_config}
use accelerated_container_im.Convertor.Registry.{
  download_layer, write_layer_config, get_file_desc, upload_blob, build_archive_from_files,
}
use accelerated_container_im.Host.{Host, fetch, probe_compression, create, rename, remove}
use accelerated_container_im.Host.Exec.{Exec, act, ask, pure, fail, ignore, on_option, ◌>>=◌, ◌>>◌}
use accelerated_container_im.Host.Registry.{Descriptor, Manifest, Image}
use accelerated_container_im.Host.Types.{Error, failed, panicked, Config, no_lower, no_upper}
use accelerated_container_im.Snapshot.Label
use accelerated_container_im.Tools.{create_layer, apply_turbo_oci, commit_layer}

-- turboOCIBuilderEngine: what a conversion changes. `output` is outputDesc.
pub record TurboWork : Type 0 where
  pub manifest : Manifest
  pub config : Image
  pub overlaybd_config : Config
  pub toci_layers : List Descriptor
  pub is_gzip : List Bool
  pub output : Option Descriptor

-- NewTurboOCIBuilderEngine
unfoldable pub new_turbo_engine : Base → Manifest → Image → TurboWork
new_turbo_engine b manifest config = record {
  manifest = manifest;
  config = config;
  overlaybd_config = start_config b.mkfs;
  toci_layers = map (λ l. plain_descriptor "" ("", pos 0)) manifest.layers;
  is_gzip = map (λ l. false) manifest.layers;
  output = none;
}

-- The name of the index of a layer's block device.
unfoldable pub fs_meta_file : String → String
unfolding string_eq
fs_meta_file fs_type = if fs_type == "" then "ext4.fs.meta" else fs_type <> ".fs.meta"

module _ (H : Host) (b : Base) where
  -- isGzipLayer
  unfoldable pub is_gzip_layer : Descriptor → Exec Bool
  unfolding string_eq
  is_gzip_layer desc = do
    act H (fetch b.source_ref desc)
    compression ← ask H.text (probe_compression desc)
    if compression == "" then pure false else if compression == "gz" then pure true else fail failed

  -- DownloadLayer
  unfoldable pub download_turbo : TurboWork → ℕ → Exec TurboWork
  download_turbo w idx =
      on_option (get_elem? w.manifest.layers idx)
        (λ desc. do
          gzip ← is_gzip_layer desc
          dir ← layer_dir H b w.manifest.layers idx
          download_layer H b.source_ref (dir <> "/layer.tar") desc false
          pure (record w { is_gzip = set w.is_gzip idx gzip }))
        (fail panicked)

  -- create
  unfoldable pub create_turbo : String → ℕ → Exec (Unit {0})
  unfolding string_eq nat_eq
  create_turbo dir idx = create_layer H dir (
      ("-s" ∷ decimal_ℤ (if b.mkfs then b.vsize else pos 64) ∷ "--turboOCI" ∷ [])
      ++ (if b.mkfs && idx == 0 && not (b.fs_type == "erofs") then "--mkfs" ∷ [] else []))

  -- apply
  unfoldable pub apply_turbo : String → Exec (Unit {0})
  unfolding string_eq
  apply_turbo dir = apply_turbo_oci H dir "gzip.meta" (
      if not (b.fs_type == "") && not (b.fs_type == "ext4")
      then "--fstype" ∷ b.fs_type ∷ []
      else [])

  -- commit
  unfoldable pub commit_turbo : String → String → Exec (Unit {0})
  commit_turbo dir meta_file = do
    commit_layer H dir dir false ("-z" ∷ "--fastoci" ∷ [])
    act H (rename (dir <> "/overlaybd.commit") (dir <> "/" <> meta_file))

  abbrev pub with_target : Config → String → Config
  with_target config dir = record config {
    upper = record no_upper {
      data_file = dir <> "/writable_data";
      index = dir <> "/writable_index";
      target = dir <> "/layer.tar";
    };
  }

  -- The index of a gzip layer's blob.
  abbrev pub gzip_index_path : String → Bool → String
  gzip_index_path dir gzip = if gzip then dir <> "/gzip.meta" else ""

  abbrev pub with_turbo_layer : Config → String → Descriptor → Bool → Config
  with_turbo_layer config dir desc gzip = record config {
    lowers =
        config.lowers
        ++ (record no_lower {
          target_file = dir <> "/layer.tar";
          target_digest = desc.digest;
          file = dir <> "/" <> fs_meta_file b.fs_type;
          gzip_index = gzip_index_path dir gzip;
        }
            ∷ []);
  }

  -- BuildLayer, for the layer `desc`
  unfoldable pub build_turbo_dir : TurboWork → String → ℕ → Descriptor → Bool → Exec TurboWork
  build_turbo_dir w dir idx desc gzip =
      let config = with_target w.overlaybd_config dir in
      let meta_file = fs_meta_file b.fs_type in
      do
        create_turbo dir idx
        write_layer_config H dir config
        apply_turbo dir
        commit_turbo dir meta_file
        act H (create (dir <> "/.turbo.ociv1"))
        build_archive_from_files H (dir <> "/turboOCIv1.tar.gz") (
            ((dir <> "/" <> meta_file) ∷ (dir <> "/.turbo.ociv1") ∷ [])
            ++ (if gzip then (dir <> "/gzip.meta") ∷ [] else []))
        ignore (act H (remove (dir <> "/writable_data")))
        ignore (act H (remove (dir <> "/writable_index")))
        pure (record w { overlaybd_config = with_turbo_layer config dir desc gzip })

  -- BuildLayer
  unfoldable pub build_turbo : TurboWork → ℕ → Exec TurboWork
  build_turbo w idx = do
    dir ← layer_dir H b w.manifest.layers idx
    on_option (get_elem? w.manifest.layers idx)
        (λ desc.
          on_option (get_elem? w.is_gzip idx) (λ gzip. build_turbo_dir w dir idx desc gzip)
            (fail panicked))
        (fail panicked)
