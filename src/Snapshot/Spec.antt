-- ===== src/Snapshot/Spec.antt =====
-- The configuration files of overlaybd devices (storage.go): ConstructOverlayBDSpec and what it uses.
use accelerated_container_im.Base.{
  String, ◌<>◌, Bool, true, false, not, ◌&&◌, ◌||◌, List, [], ◌∷◌, ◌++◌, if◌then◌else◌, ◌==◌,
  string_eq,
}
use accelerated_container_im.Base.Int.{ℤ}
use accelerated_container_im.Base.Text.{decimal_ℤ, trim_prefix}
use accelerated_container_im.Host.{Host, get_info, write_config, mkdir_all}
use accelerated_container_im.Host.Types.{Info, Config, no_lower, no_upper}
use accelerated_container_im.Host.Exec.{Exec, act, ask, pure, fail, on_result, ◌>>=◌, ◌>>◌}
use accelerated_container_im.Snapshot.{
  Registry, Snapshotter, upper_path, block_path, conf_path, init_debuglog_path,
}
use accelerated_container_im.Snapshot.Modes.{load_backing_store_config}
use accelerated_container_im.Tools.{create_layer, seal}

-- isGzipLayerType
unfoldable pub is_gzip_layer_type : String → Bool
unfolding string_eq
is_gzip_layer_type t =
    t == "application/vnd.oci.image.layer.v1.tar+gzip"
    || t == "application/vnd.docker.image.rootfs.diff.tar.gzip"

-- The loop over the mirrors in constructImageBlobURL.
unfoldable pub is_insecure : String → List Registry → Bool
unfolding string_eq
is_insecure host [] = false
is_insecure host (r ∷ rs) = (host == r.host && r.insecure) || is_insecure host rs

-- constructImageBlobURL behind the parse; a repository has no dots to clean away.
unfoldable pub blob_url : List Registry → String → String → String
unfolding is_insecure trim_prefix string_eq
blob_url mirrors hostname locator =
    let repo = trim_prefix locator (hostname <> "/") in
    let host = if hostname == "docker.io" then "registry-1.docker.io" else hostname in
    let scheme = if is_insecure host mirrors then "http://" else "https://" in
    scheme <> host <> "/v2/" <> repo <> "/blobs"

module _ (H : Host) (o : Snapshotter) where
  -- constructImageBlobURL
  unfoldable pub construct_image_blob_url : String → Exec String
  construct_image_blob_url ref =
      on_result (H.parse_reference ref)
        (λ (host, locator). pure (blob_url o.mirror_registry host locator)) fail

  -- atomicWriteOverlaybdTargetConfig
  unfoldable pub write_target_config : String → Config → Exec (Unit {0})
  write_target_config id config = act H (write_config (conf_path o id) config)

  -- constructSpecForAccelLayer
  unfoldable pub construct_spec_for_accel_layer : String → String → Exec (Unit {0})
  construct_spec_for_accel_layer id parent_id = do
    config ← load_backing_store_config H o parent_id
    write_target_config id (record config {
      lowers = config.lowers ++ (record no_lower { dir = upper_path o id } ∷ []);
    })

  abbrev pub bool_eq : Bool → Bool → Bool
  bool_eq true b = b
  bool_eq false b = not b

  abbrev pub is_current : Config → Bool → String → Bool
  is_current config accel path =
      bool_eq accel config.acceleration_layer && (path == config.record_trace_path && path == "")

  -- updateSpec
  unfoldable pub update_spec : String → Bool → String → Exec (Unit {0})
  unfolding string_eq
  update_spec id accel path = do
    config ← load_backing_store_config H o id
    if is_current config accel path
        then pure tt
        else write_target_config id
            (record config { record_trace_path = path; acceleration_layer = accel })

  -- prepareWritableOverlaybd
  unfoldable pub prepare_writable_overlaybd : String → ℤ → Exec (Unit {0})
  unfolding string_eq
  prepare_writable_overlaybd rwdir vsize = do
    act H (mkdir_all rwdir)
    create_layer H rwdir
        (decimal_ℤ vsize ∷ (if o.writable_layer_type == "sparse" then "-s" ∷ [] else []))

  -- sealWritableOverlaybd
  unfoldable pub seal_writable_overlaybd : String → Exec (Unit {0})
  seal_writable_overlaybd id = seal H (block_path o id) (upper_path o id) []

  -- The configuration that a layer starts from: its parent's lower layers.
  unfoldable pub parent_config : String → Info → Exec Config
  unfolding string_eq
  parent_config id info =
      let start : Config = record {
        repo_blob_url = "";
        lowers = [];
        upper = no_upper;
        result_file = init_debuglog_path o id;
        acceleration_layer = false;
        record_trace_path = "";
      } in
      if info.parent == "" then pure start else do
        parent ← ask H.info (get_info info.parent)
        config ← load_backing_store_config H o parent.0
        pure (record start { repo_blob_url = config.repo_blob_url; lowers = config.lowers })
