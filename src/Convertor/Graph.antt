-- ===== src/Convertor/Graph.antt =====
-- cmd/convertor/builder/builder.go: the conversion of an image or of an index of images. The
-- goroutines of one image are in Pipeline; here its layers go through the engine one by one, which is
-- one of their schedules, and so do the manifests of an index.
pub mod Layers
pub mod Result
pub mod Offline
pub mod Platforms
use accelerated_container_im.Base.{
  ℕ, zero, suc, String, ◌<>◌, Bool, true, false, not, ◌&&◌, Option, none, some, List, [], ◌∷◌, ◌==◌,
  string_eq, if◌then◌else◌,
}
use accelerated_container_im.Base.Dict.{lookup}
use accelerated_container_im.Base.Int.{ℤ}
use accelerated_container_im.Base.Lists.{length}
use accelerated_container_im.Base.Text.{decimal, replace_char, trim_prefix, text_slice}
use accelerated_container_im.Convertor.Engine.{
  Base, EngineType, artifact_type_of, plain_descriptor, overlaybd, turbo_oci,
}
use accelerated_container_im.Convertor.TurboOci.{new_turbo_engine}
use accelerated_container_im.Convertor.TurboOci.Convert.{build_turbo_image}
use accelerated_container_im.Convertor.Overlaybd.{
  Work, download_source_layer, build_layer, upload_layer, clean_up,
}
use accelerated_container_im.Convertor.Overlaybd.Dedup.{
  check_for_converted_layer, download_converted_layer, store_converted_layer_details,
  store_converted_manifest_details, check_for_converted_manifest,
}
use accelerated_container_im.Convertor.Overlaybd.Finish.{new_engine, upload_image}
use accelerated_container_im.Convertor.Registry.{
  is_manifest_type, is_index_type, oci_index, fetch_manifest_and_config, upload_bytes,
  tag_previously_converted_manifest,
}
use accelerated_container_im.Host.{
  Host, History, fetch, read_blob, resolve, fetcher_for, pusher_for, write_file, next_id,
}
use accelerated_container_im.Host.Exec.{
  Exec, act, ask, pure, fail, attempt, ignore, ensure, when, on_result, ◌>>=◌, ◌>>◌,
}
use accelerated_container_im.Host.Registry.{Descriptor, Manifest, Image, Index}
use accelerated_container_im.Host.Types.{Error, failed}

-- BuilderOptions, but for those of the HTTP client
pub record Options : Type 0 where
  pub ref : String
  pub target_ref : String
  pub work_dir : String
  pub oci : Bool
  pub fs_type : String
  pub mkfs : Bool
  pub vsize : ℤ
  pub has_db : Bool
  pub engine : EngineType
  pub reserve : Bool
  pub no_upload : Bool
  pub dump_manifest : Bool
  pub disable_sparse : Bool
  pub referrer : Bool

-- isAttestationManifest
unfoldable pub is_attestation_manifest : Descriptor → Bool
unfolding lookup string_eq
is_attestation_manifest desc = elim (lookup "vnd.docker.reference.type" desc.annotations) [
  | some v ↦ v == "attestation-manifest"
  | none ↦ false
]

-- The loop of process that filters the manifests.
unfoldable pub without_attestations : List Descriptor → List Descriptor
without_attestations [] = []
without_attestations (m ∷ ms) =
    let rest = without_attestations ms in if is_attestation_manifest m then rest else m ∷ rest

-- A descriptor whose content changed, with its other fields.
abbrev pub with_content : Descriptor → Descriptor → Descriptor
with_content src desc = record src {
  digest = desc.digest;
  size = desc.size;
  media_type = desc.media_type;
}

module _ (H : Host) (b : Base) where
  -- The download goroutine of a layer, with what the deduplication goroutine sends.
  unfoldable pub obtain_layer : Work → ℕ → Exec Work
  obtain_layer w idx = do
    checked ← attempt (check_for_converted_layer H b w idx)
    on_result checked
        (λ desc. do
          reused ← attempt (download_converted_layer H b w idx desc)
          on_result reused pure (λ _. do download_source_layer H b w idx; pure w))
        (λ _. do download_source_layer H b w idx; pure w)

  -- The four goroutines of a layer in turn
  unfoldable pub convert_one_layer : Work → ℕ → Exec Work
  convert_one_layer w idx = do
    obtained ← obtain_layer w idx
    built ← build_layer H b obtained idx
    uploaded ← upload_layer H b built idx
    ignore (store_converted_layer_details H b uploaded idx)
    pure uploaded

  -- The layers from `idx` on, of which `n` are left.
  unfoldable pub convert_layers : ℕ → Work → ℕ → Exec Work
  convert_layers zero w idx = pure w
  convert_layers (suc n) w idx = do done ← convert_one_layer w idx; convert_layers n done (suc idx)

  -- The conversion of an image that is not found converted
  unfoldable pub convert_image : Work → Exec Descriptor
  convert_image w = do
    done ← convert_layers (length w.manifest.layers) w 0
    (final, desc) ← upload_image H b done
    ignore (store_converted_manifest_details H b final)
    pure desc

  -- overlaybdBuilder.Build: an image that is found converted is only tagged.
  unfoldable pub build_image : Work → Exec Descriptor
  unfolding string_eq
  build_image w = ensure (clean_up H b) (do
    found ← attempt (check_for_converted_manifest H b)
    on_result found
        (λ desc. if desc.digest == "" then convert_image w else (do
          tagged ← attempt (tag_previously_converted_manifest H b.target_ref b.source_ref desc)
          on_result tagged (λ _. pure desc) (λ _. convert_image w)))
        (λ _. convert_image w))

module _ (H : Host) where
  -- The engine of an image, and its run.
  unfoldable pub run_engine : EngineType → Base → Manifest → Image → Exec Descriptor
  run_engine overlaybd b manifest config = do w ← new_engine H b manifest config; build_image H b w
  run_engine turbo_oci b manifest config =
      build_turbo_image H b (new_turbo_engine b manifest config)

module _ (H : Host) (o : Options) where
  -- The pusher of a result: one by digest, and one by the tag for the outermost.
  abbrev pub pusher_of : Bool → String
  pusher_of tag = if tag then o.target_ref else o.target_ref <> "@"

  -- The directory of a manifest, below WorkDir
  unfoldable pub manifest_dir : ℕ → Descriptor → String
  unfolding replace_char
  manifest_dir id src =
      decimal id
      <> "-"
      <> replace_char b'/' "_" (elim src.platform [ some p ↦ p | none ↦ "" ])
      <> "-"
      <> trim_prefix src.digest "sha256:"

  -- The engine's working directory is joined for a WorkDir that is clean and not empty.
  abbrev base_of : Descriptor → Bool → ℕ → String × String → Base
  base_of src tag id (host, locator) = record {
    source_ref = o.ref;
    target_ref = pusher_of tag;
    work_dir = o.work_dir <> "/" <> manifest_dir id src;
    oci = o.oci;
    fs_type = o.fs_type;
    mkfs = o.mkfs;
    vsize = o.vsize;
    has_db = o.has_db;
    host = host;
    repository = trim_prefix locator (host <> "/");
    input_desc = src;
    reserve = o.reserve;
    no_upload = o.no_upload;
    dump_manifest = o.dump_manifest;
    referrer = o.referrer;
    disable_sparse = o.disable_sparse;
  }

  -- buildOne
  unfoldable pub build_one : Descriptor → Bool → Exec Descriptor
  build_one src tag = do
    id ← ask H.number next_id
    (manifest, config) ← fetch_manifest_and_config H 0 o.ref src
    on_result (H.parse_reference o.ref)
        (λ parsed. do
          let b = base_of src tag id parsed
          desc ← run_engine H o.engine b manifest config
          pure (with_content src desc))
        fail

  -- The goroutines of an index: an attestation is passed over.
  unfoldable pub process_all :
      (Descriptor → Exec Descriptor) → List Descriptor → Exec (List Descriptor)
  process_all f [] = pure []
  process_all f (m ∷ ms) =
      let rest = process_all f ms in
      if is_attestation_manifest m
      then (do done ← rest; pure (m ∷ done))
      else (do target ← f m; done ← rest; pure (target ∷ done))

  -- The index that is uploaded
  abbrev pub final_index : Descriptor → Index → List Descriptor → Index
  final_index src index done = record {
    media_type = if o.oci then oci_index else index.media_type;
    manifests = without_attestations done;
    artifact_type = if o.referrer then artifact_type_of o.engine else index.artifact_type;
    subject =
        if o.referrer
        then some (plain_descriptor src.media_type (src.digest, src.size))
        else index.subject;
  }

  unfoldable pub upload_index : Index → Bool → Exec Descriptor
  upload_index index tag =
      let desc = plain_descriptor index.media_type (H.encode_index index) in
      do
        when o.dump_manifest (act H (write_file (o.work_dir <> "/index.json") desc.digest))
        upload_bytes H (pusher_of tag) desc
        pure desc

  -- The case of an index in process
  unfoldable pub process_index :
      (Descriptor → Exec Descriptor) → Descriptor → Bool → Exec Descriptor
  process_index f src tag = do
    act H (fetch o.ref src)
    index ← ask H.index (read_blob src)
    done ← process_all f index.manifests
    upload_index (final_index src index done) tag

  -- process, through at most `depth` nested indexes.
  unfoldable pub process : ℕ → Descriptor → Bool → Exec Descriptor
  process zero src tag = if is_manifest_type src.media_type then build_one src tag else fail failed
  process (suc depth) src tag =
      let deeper : Descriptor → Exec Descriptor = λ m. process depth m false in
      if is_manifest_type src.media_type
      then build_one src tag
      else if is_index_type src.media_type
      then process_index deeper src tag
      else fail failed

  -- graphBuilder.Build
  unfoldable pub build : ℕ → Exec (Unit {0})
  build depth = do
    act H (fetcher_for o.ref)
    act H (pusher_for (o.target_ref <> "@"))
    act H (pusher_for o.target_ref)
    src ← ask H.descriptor (resolve o.ref)
    process depth src true
    pure tt
