-- ===== src/Store/Image.antt =====
-- The conversion of an image (pkg/convertor/convertor.go): NewOverlaybdConvertor, Convert, commitImage
-- and IndexConvertFunc.
pub mod Result
use accelerated_container_im.Base.{
  ℕ, zero, suc, String, ◌<>◌, Bool, true, false, not, List, [], ◌∷◌, map, ◌==◌, string_eq,
  if◌then◌else◌,
}
use accelerated_container_im.Base.Dict.{Dict}
use accelerated_container_im.Base.Int.{ℤ, pos}
use accelerated_container_im.Base.Text.{decimal, trim_prefix}
use accelerated_container_im.Convertor.Engine.{plain_descriptor}
use accelerated_container_im.Convertor.Registry.{docker_manifest}
use accelerated_container_im.Host.{
  Host, stored_blob, store_blob, open_db, pusher_for, fetcher_for, get_image, platform_image,
}
use accelerated_container_im.Host.Exec.{Exec, act, ask, pure, fail, when, on_result, ◌>>=◌, ◌>>◌}
use accelerated_container_im.Host.Registry.{Descriptor, Manifest, Image}
use accelerated_container_im.Store.{Layer, StoreConvertor, ZfileConfig}
use accelerated_container_im.Store.Layers.{convert_store_layers}
use accelerated_container_im.Store.Remote.{push_object}

-- options; the client and the resolver are the host's.
pub record StoreOptions : Type 0 where
  pub wanted_fs_type : String
  pub dbstr : String
  pub img_ref : String
  pub wanted_algorithm : String
  pub wanted_block_size : ℤ
  pub wanted_vsize : ℤ

abbrev pub no_options : StoreOptions
no_options = record {
  wanted_fs_type = "";
  dbstr = "";
  img_ref = "";
  wanted_algorithm = "";
  wanted_block_size = pos 0;
  wanted_vsize = pos 0;
}

-- Option, of which none fails; WithResolver and WithClient are the host's.
abbrev pub StoreOption : Type 0
StoreOption = StoreOptions → StoreOptions

-- WithFsType, WithDbstr, WithImageRef, WithAlgorithm, WithBlockSize and WithVsize
unfoldable pub with_fs_type : String → StoreOption
with_fs_type fs_type o = record o { wanted_fs_type = fs_type }

unfoldable pub with_dbstr : String → StoreOption
with_dbstr dbstr o = record o { dbstr = dbstr }

unfoldable pub with_image_ref : String → StoreOption
with_image_ref img_ref o = record o { img_ref = img_ref }

unfoldable pub with_algorithm : String → StoreOption
with_algorithm algorithm o = record o { wanted_algorithm = algorithm }

unfoldable pub with_block_size : ℤ → StoreOption
with_block_size block_size o = record o { wanted_block_size = block_size }

unfoldable pub with_vsize : ℤ → StoreOption
with_vsize vsize o = record o { wanted_vsize = vsize }

-- The options in the order in which they are given.
unfoldable pub with_options : StoreOptions → List StoreOption → StoreOptions
with_options o [] = o
with_options o (option ∷ options) = with_options (option o) options

-- The manifest and the configuration with the converted layers, as commitImage fills them.
unfoldable pub with_layers : Manifest → List Layer → Manifest
with_layers m layers = record m { media_type = docker_manifest; layers = map (λ l. l.desc) layers }

unfoldable pub with_diff_ids : Image → List Layer → Image
with_diff_ids config layers = record config { diff_ids = map (λ l. l.diff_id) layers }

-- The labels of a manifest that keep its layers from being collected, from the layer `i` on.
unfoldable pub gc_labels : ℕ → List Descriptor → Dict String
unfolding decimal
gc_labels i [] = []
gc_labels i (layer ∷ layers) =
    ("containerd.io/gc.ref.content.l." <> decimal i, layer.digest) ∷ gc_labels (suc i) layers

module _ (H : Host) where
  -- NewOverlaybdConvertor
  unfoldable pub new_store_convertor : String → String → ZfileConfig → ℤ → Exec StoreConvertor
  unfolding string_eq trim_prefix
  new_store_convertor ref dbstr zfile vsize =
      let local : StoreConvertor = record {
        remote = false;
        ref = ref;
        host = "";
        repo = "";
        zfile = zfile;
        vsize = vsize;
      } in
      if dbstr == "" then pure local else (do
        act H (open_db dbstr)
        act H (pusher_for ref)
        act H (fetcher_for ref)
        spec ← on_result (H.parse_reference ref) pure fail
        pure (record local {
          remote = true;
          host = spec.0;
          repo = trim_prefix spec.1 (spec.0 <> "/");
        }))

module _ (H : Host) (c : StoreConvertor) where
  -- The descriptors that commitImage computes.
  unfoldable pub stored_config : Manifest → Image → List Layer → Descriptor
  unfolding with_diff_ids
  stored_config manifest config layers =
      plain_descriptor manifest.config.media_type (H.encode_image (with_diff_ids config layers))

  unfoldable pub stored_manifest : Manifest → Image → List Layer → Manifest
  unfolding stored_config with_layers
  stored_manifest manifest config layers = record (with_layers manifest layers) {
    config = stored_config manifest config layers;
  }

  -- commitImage: the configuration is stored and pushed before the manifest that names it. An encoded
  -- text is named by its digest.
  unfoldable pub commit_image : Manifest → Image → List Layer → Exec Descriptor
  unfolding stored_config stored_manifest gc_labels
  commit_image manifest config layers =
      let config_desc = stored_config manifest config layers in
      let final = stored_manifest manifest config layers in
      let desc = plain_descriptor docker_manifest (H.encode_manifest final) in
      do
        act H (store_blob (H.ref_key config_desc) config_desc [])
        when c.remote (push_object H c config_desc)
        act H (
            store_blob (H.ref_key desc) desc (
              ("containerd.io/gc.ref.content.config", config_desc.digest)
              ∷ gc_labels 0 final.layers))
        when c.remote (push_object H c desc)
        pure desc

  -- Convert
  unfoldable pub convert_in_store : ℕ → Manifest → String → Exec Descriptor
  convert_in_store tries manifest fs_type = do
    config ← ask H.image (stored_blob manifest.config)
    layers ← convert_store_layers H c fs_type tries manifest.layers config.diff_ids
    commit_image manifest config layers

module _ (H : Host) where
  -- The function that IndexConvertFunc returns.
  unfoldable pub index_convert : ℕ → List StoreOption → Exec Descriptor
  unfolding with_options
  index_convert tries options =
      let o = with_options no_options options in
      do
        target ← ask H.descriptor (get_image o.img_ref)
        manifest ← ask H.manifest (platform_image target)
        c ←
            new_store_convertor H o.img_ref o.dbstr
              (record { algorithm = o.wanted_algorithm; block_size = o.wanted_block_size })
              o.wanted_vsize
        convert_in_store H c tries manifest o.wanted_fs_type
