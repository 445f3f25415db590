-- ===== src/Tests/Convertor.antt =====
-- Runs of the image convertor (cmd/convertor/builder) on a host where every call succeeds, and examples
-- of the theorems on concrete inputs.
use accelerated_container_im.Base.{
  Option, ◌≡◌, ◌⊎◌, inl, inr, arith, refl, true, false, none, some, List, [], ◌∷◌, ◌++◌, string_eq,
  if◌then◌else◌,
}
use accelerated_container_im.Base.Dict.{lookup}
use accelerated_container_im.Base.Int.{pos}
use accelerated_container_im.Base.Lists.{All, none_left, both, length, get_elem?}
use accelerated_container_im.Convertor.Engine.{Base, overlaybd}
use accelerated_container_im.Convertor.Graph.{
  Options, convert_layers, process, process_index, build_one, run_engine, build_image,
  convert_image, convert_one_layer, obtain_layer,
}
use accelerated_container_im.Convertor.Graph.Result.{Matched, Described, convert-Matched}
use accelerated_container_im.Convertor.Graph.Layers.{commit_files, convert_layers-lowers}
use accelerated_container_im.Convertor.Graph.Offline.{is_read, build_one-Emits}
use accelerated_container_im.Convertor.Graph.Platforms.{
  Attests, IsImage, Reindexed, process_index-Reindexed,
}
use accelerated_container_im.Convertor.Overlaybd.{
  Work, download_source_layer, layer_dir, build_layer, commit_file_present, result_of, build_dir,
  convert_layer_dir, create_writable, commit_built, upload_layer, check_digest, clean_up,
  LayerResult,
}
use accelerated_container_im.Tools.{create_layer, all_exist, apply_overlaybd, commit_layer}
use accelerated_container_im.Convertor.Overlaybd.Dedup.{
  check_for_converted_layer, check_for_converted_manifest, store_converted_layer_details,
  store_converted_manifest_details, download_converted_layer,
}
use accelerated_container_im.Convertor.Overlaybd.Finish.{
  base_layer, new_engine, start_config, start_result, upload_image, add_base_layer, chain_results,
}
use accelerated_container_im.Convertor.Engine.{upload_manifest_and_config}
use accelerated_container_im.Convertor.Overlaybd.Reuse.{
  Reusable, download_layer-Checked, check_for_converted_layer-Reusable,
}
use accelerated_container_im.Convertor.Overlaybd.Start.{Chained, new_engine-Chained}
use accelerated_container_im.Convertor.Registry.{
  oci_manifest, oci_index, is_manifest_type, download_layer, fetch_manifest_and_config,
  fetch_manifest, fetch_config, write_layer_config, get_file_desc,
}
use accelerated_container_im.Convertor.TurboOci.{new_turbo_engine}
use accelerated_container_im.Convertor.TurboOci.Convert.{convert_turbo_layers}
use accelerated_container_im.Convertor.TurboOci.Targets.{
  indexed_blob, target_digests, convert_turbo_layers-targets,
}
use accelerated_container_im.Base.{map}
use accelerated_container_im.Convertor.Overlaybd.Marks.{
  Marked, Hashed, download_converted_layer-Marked, upload_layer-Same,
}
use accelerated_container_im.Base.Text.{decimal}
use accelerated_container_im.Host.{Op, History, Host, stat, verified}
use accelerated_container_im.Host.Exec.{◌>>=◌}
use accelerated_container_im.Host.Leaves.{Leaves, Anywhere}
use accelerated_container_im.Host.Registry.{Descriptor, Manifest, Image, Index}
use accelerated_container_im.Host.Returns.{Returns}
use accelerated_container_im.Host.Trace.{Emits}
use accelerated_container_im.Host.Types.{Error, ok, not_exist, no_lower}
use accelerated_container_im.Tests.{calm, calm_layer}

abbrev image_entry : Descriptor
image_entry = record {
  media_type = oci_manifest;
  digest = "sha256:amd64";
  size = pos 7;
  annotations = ("note", "first") ∷ [];
  platform = some "linux/amd64";
}

abbrev attestation_entry : Descriptor
attestation_entry = record image_entry {
  annotations = ("vnd.docker.reference.type", "attestation-manifest") ∷ [];
}

abbrev entries : List Descriptor
entries = image_entry ∷ attestation_entry ∷ []

abbrev options : Options
options = record {
  ref = "registry/image:1";
  target_ref = "registry/image:1_obd";
  work_dir = "tmp_conv";
  oci = true;
  fs_type = "ext4";
  mkfs = false;
  vsize = pos 64;
  has_db = false;
  engine = overlaybd;
  reserve = false;
  no_upload = true;
  dump_manifest = true;
  disable_sparse = false;
  referrer = true;
}

abbrev base : Base
base = record {
  source_ref = "registry/image:1";
  target_ref = "registry/image:1_obd";
  work_dir = "tmp_conv/1";
  oci = true;
  fs_type = "ext4";
  mkfs = false;
  vsize = pos 64;
  has_db = true;
  host = "registry";
  repository = "image";
  input_desc = image_entry;
  reserve = false;
  no_upload = false;
  dump_manifest = false;
  referrer = true;
  disable_sparse = false;
}

abbrev source_manifest : Manifest
source_manifest = record {
  media_type = oci_manifest;
  config = calm_layer;
  layers = calm_layer ∷ calm_layer ∷ [];
  artifact_type = "";
  subject = none;
}

abbrev source_config : Image
source_config = record { diff_ids = "sha256:a" ∷ "sha256:b" ∷ []; rest = "" }

abbrev work : Work
work = record {
  manifest = source_manifest;
  config = source_config;
  overlaybd_config = start_config false;
  results = start_result "sha256:chain" ∷ [];
  output = none;
}

-- No file is there yet; every other call succeeds, and all digests are right.
abbrev missing_files : Op → Option Error
missing_files (stat _) = some not_exist
missing_files _ = none

abbrev fresh : Host
fresh = record calm { acts = λ h op. missing_files op; holds = λ h op. ok true }

-- A registry whose index has an image and an attestation.
abbrev indexed : Host
indexed = record fresh {
  index = λ h op.
      ok (record {
        media_type = oci_index;
        manifests = entries;
        artifact_type = "";
        subject = none;
      });
}

all_known :
    (index : Index) → entries ≡ index.manifests → All (λ m. Attests m ⊎ IsImage m) index.manifests
unfolding is_manifest_type lookup string_eq
all_known index e = rw⁻¹ e (both (inr refl) (both (inl refl) none_left))

process_index-Reindexed_example :
    Returns
      (Reindexed indexed options image_entry)
      (process_index indexed options (λ m. process indexed options 1 m false) image_entry true)
process_index-Reindexed_example =
    process_index-Reindexed indexed options 1 image_entry true
      (λ h index e. all_known index (ground (arith, e)))

convert_layers-lowers_example :
    Returns
      (λ w.
        w.overlaybd_config.lowers
        ≡ (if base.mkfs then [] else record no_lower { file = base_layer } ∷ [])
          ++ commit_files base 0 source_manifest.layers)
      (do
        w ← new_engine fresh base source_manifest source_config
        convert_layers fresh base (length w.manifest.layers) w 0)
convert_layers-lowers_example = convert_layers-lowers fresh base source_manifest source_config

convert-Matched_example :
    Returns
      (λ r. Matched fresh base 2 r.0 × Described fresh base r)
      (do
        w ← new_engine fresh base source_manifest source_config
        done ← convert_layers fresh base (length w.manifest.layers) w 0
        upload_image fresh base done)
convert-Matched_example = convert-Matched fresh base source_manifest source_config refl

new_engine-Chained_example :
    Returns
      (λ w. Chained fresh base [] source_config.diff_ids source_manifest.layers w.results)
      (new_engine fresh base source_manifest source_config)
new_engine-Chained_example = new_engine-Chained fresh base source_manifest source_config

download_layer-Checked_example :
    Leaves Anywhere
      (λ _ h.
        (before : History) × (h ≡ verified calm_layer ∷ before)
        × (fresh.holds before (verified calm_layer) ≡ ok true))
      (download_layer fresh "registry/image:1" "tmp_conv/1/layer.tar" calm_layer true)
download_layer-Checked_example =
    download_layer-Checked fresh "registry/image:1" "tmp_conv/1/layer.tar" calm_layer true

check_for_converted_layer-Reusable_example :
    Leaves Anywhere
      (Reusable fresh base "sha256:chain")
      (check_for_converted_layer fresh base work 0)
check_for_converted_layer-Reusable_example =
    check_for_converted_layer-Reusable fresh base work 0 (start_result "sha256:chain") refl

build_one-Emits_example : Emits is_read (build_one fresh options image_entry true)
build_one-Emits_example = build_one-Emits fresh options refl refl refl image_entry true

-- An image with one layer is converted.
converts_image :
    (build_one fresh (record options { mkfs = true }) image_entry true []).0
    ≡ ok (record image_entry { digest = "sha256:manifest"; size = pos 5 })
unfolding build_one run_engine ◌>>=◌ string_eq fetch_manifest_and_config fetch_manifest
    is_manifest_type fetch_config new_engine chain_results build_image check_for_converted_manifest
    convert_image convert_layers convert_one_layer obtain_layer check_for_converted_layer
    download_source_layer layer_dir download_layer build_layer commit_file_present result_of
    build_dir convert_layer_dir create_writable create_layer all_exist write_layer_config
    apply_overlaybd commit_built commit_layer upload_layer get_file_desc check_digest
    store_converted_layer_details upload_image add_base_layer upload_manifest_and_config
    store_converted_manifest_details clean_up
converts_image = refl

convert_turbo_layers-targets_example :
    Returns
      (λ w.
        (map indexed_blob w.toci_layers ≡ map (λ l. some l.digest) source_manifest.layers)
        × (target_digests w.overlaybd_config
            ≡ (if base.mkfs then [] else "" ∷ []) ++ map (λ l. l.digest) source_manifest.layers))
      (convert_turbo_layers fresh base 2 (new_turbo_engine base source_manifest source_config) 0)
convert_turbo_layers-targets_example =
    convert_turbo_layers-targets fresh base source_manifest source_config

download_converted_layer-Marked_example :
    Marked 0
      (start_result "sha256:chain")
      image_entry
      "tmp_conv/1/0000_sha256:layer/overlaybd.commit"
      (download_converted_layer fresh base work 0 image_entry []).0
      (download_converted_layer fresh base work 0 image_entry []).1
unfolding decimal
download_converted_layer-Marked_example =
    download_converted_layer-Marked fresh base work 0 calm_layer (start_result "sha256:chain")
      image_entry [] refl refl

-- A layer that was downloaded converted.
abbrev reused : LayerResult
reused = record {
  desc = record image_entry { digest = "sha256:content" };
  chain_id = "sha256:chain";
  from_dedup = true;
}

abbrev reusing : Work
reusing = record work { results = reused ∷ [] }

upload_layer-Same_example :
    Returns
      (λ v.
        (x : LayerResult) × (get_elem? v.results 0 ≡ some x)
        × Hashed fresh base "tmp_conv/1/0000_sha256:layer/overlaybd.commit" "sha256:content"
            x.desc.size
        × (x.desc.digest ≡ "sha256:content")
        × (x.chain_id ≡ "sha256:chain"))
      (upload_layer fresh base reusing 0)
unfolding decimal
upload_layer-Same_example = upload_layer-Same fresh base reusing 0 calm_layer reused refl refl refl
