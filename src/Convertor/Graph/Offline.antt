-- ===== src/Convertor/Graph/Offline.antt =====
-- A conversion with NoUpload (builder.go, overlaybd_builder.go): what it does to the registry.
use accelerated_container_im.Base.{
  ℕ, zero, suc, String, ◌≡◌, refl, Bool, true, false, not, List, [], ◌∷◌, ◌++◌,
}
use accelerated_container_im.Convertor.Engine.{Base, overlaybd, upload_manifest_and_config}
use accelerated_container_im.Convertor.Graph.{
  Options, obtain_layer, convert_one_layer, convert_layers, convert_image, build_image, run_engine,
  build_one,
}
use accelerated_container_im.Convertor.Overlaybd.{
  Work, LayerResult, layer_dir, result_of, download_source_layer, create_writable, commit_built,
  commit_file_present, convert_layer_dir, build_dir, build_layer, check_digest, upload_layer,
  clean_up,
}
use accelerated_container_im.Convertor.Overlaybd.Dedup.{
  check_for_converted_layer, download_converted_layer, store_converted_layer_details,
  store_converted_manifest_details, check_for_converted_manifest,
}
use accelerated_container_im.Convertor.Overlaybd.Finish.{
  new_engine, chain_results, upload_base_layer, add_base_layer, upload_image,
}
use accelerated_container_im.Convertor.Registry.{
  fetch_manifest, fetch_config, fetch_manifest_and_config, download_layer, write_layer_config,
  get_file_desc,
}
use accelerated_container_im.Host.{Op, Host, push, copy_content}
use accelerated_container_im.Host.Exec.{Exec, when, attempt, fail, on_result, ◌>>=◌}
use accelerated_container_im.Host.Types.{Error, Result, err, not_found}
use accelerated_container_im.Host.Registry.{Descriptor, Manifest, Image}
use accelerated_container_im.Host.Trace.{Emits, emits_rules, Emits-pure, Emits-fail, Emits-ensure}
use accelerated_container_im.Tools.{all_exist, create_layer, apply_overlaybd, commit_layer}

-- The calls that do not write to the registry.
abbrev pub is_read : Op → Bool
is_read (push _ _) = false
is_read (copy_content _) = false
is_read _ = true

attempt-fail :
    {A : Type 0} {B : Type 0} (e : Error) (f : Result A → Exec B)
    → (attempt (fail e) >>= f) ≡ f (err e)
unfolding ◌>>=◌
attempt-fail e f = refl

module _ (H : Host) (b : Base) where
  layer_dir-Emits : (ls : List Descriptor) (i : ℕ) → Emits is_read (layer_dir H b ls i)
  unfolding layer_dir
  layer_dir-Emits ls i = search emits_rules depth 10

  result_of-Emits : (w : Work) (i : ℕ) → Emits is_read (result_of H b w i)
  unfolding result_of
  result_of-Emits w i = search emits_rules depth 10

  download_layer-Emits :
      (ref target : String) (d : Descriptor) (z : Bool)
      → Emits is_read (download_layer H ref target d z)
  unfolding download_layer
  download_layer-Emits ref target d z = search emits_rules depth 20

  source_layer-Emits : (w : Work) (i : ℕ) → Emits is_read (download_source_layer H b w i)
  unfolding download_source_layer
  source_layer-Emits w i = search (emits_rules, layer_dir-Emits, download_layer-Emits) depth 20

  convert_layer_dir-Emits :
      (w : Work) (dir : String) (i : ℕ) (r : LayerResult)
      → Emits is_read (convert_layer_dir H b w dir i r)
  unfolding convert_layer_dir create_writable write_layer_config commit_built create_layer
      apply_overlaybd commit_layer all_exist
  convert_layer_dir-Emits w dir i r = search emits_rules depth 30

  build_layer-Emits : (w : Work) (i : ℕ) → Emits is_read (build_layer H b w i)
  unfolding build_layer build_dir commit_file_present
  build_layer-Emits w i =
      search (emits_rules, layer_dir-Emits, result_of-Emits, convert_layer_dir-Emits) depth 30

  module _ (n : b.no_upload ≡ true) where
    -- What is under `if !e.noUpload` is not done.
    kept_back : (m : Exec (Unit {0})) → Emits is_read (when (not b.no_upload) m)
    unfolding when
    kept_back m = rw n (Emits-pure tt)

    upload_layer-Emits : (w : Work) (i : ℕ) → Emits is_read (upload_layer H b w i)
    unfolding upload_layer get_file_desc check_digest
    upload_layer-Emits w i =
        search (emits_rules, kept_back, layer_dir-Emits, result_of-Emits) depth 30

    upload_manifest-Emits :
        (m : Manifest) (c : Image) → Emits is_read (upload_manifest_and_config H b m c)
    unfolding upload_manifest_and_config
    upload_manifest-Emits m c = search (emits_rules, kept_back) depth 30

    upload_base-Emits : Emits is_read (upload_base_layer H b)
    unfolding upload_base_layer
    upload_base-Emits = search (emits_rules, kept_back) depth 30

    upload_image-Emits : (w : Work) → Emits is_read (upload_image H b w)
    unfolding upload_image add_base_layer
    upload_image-Emits w = search (emits_rules, upload_base-Emits, upload_manifest-Emits) depth 30

    -- Without a database, no layer and no manifest counts as converted.
    module _ (d : b.has_db ≡ false) where
      unknown : (m : Exec (Unit {0})) → Emits is_read (when b.has_db m)
      unfolding when
      unknown m = rw d (Emits-pure tt)

      check_layer-Emits : (w : Work) (i : ℕ) → Emits is_read (check_for_converted_layer H b w i)
      unfolding check_for_converted_layer
      check_layer-Emits w i = rw d (Emits-fail _)

      unconverted : check_for_converted_manifest H b ≡ fail not_found
      unfolding check_for_converted_manifest
      unconverted = rw d refl

      obtain-Emits : (w : Work) (i : ℕ) → Emits is_read (obtain_layer H b w i)
      unfolding obtain_layer download_converted_layer
      obtain-Emits w i =
          search
            (
              emits_rules, check_layer-Emits, layer_dir-Emits, result_of-Emits,
              download_layer-Emits, source_layer-Emits,
            )
            depth 30

      convert_one-Emits : (w : Work) (i : ℕ) → Emits is_read (convert_one_layer H b w i)
      unfolding convert_one_layer store_converted_layer_details
      convert_one-Emits w i =
          search (emits_rules, unknown, obtain-Emits, build_layer-Emits, upload_layer-Emits) depth
            30

      convert_layers-Emits : (k : ℕ) (w : Work) (i : ℕ) → Emits is_read (convert_layers H b k w i)
      unfolding convert_layers
      convert_layers-Emits zero w i = search emits_rules
      convert_layers-Emits (suc k) w i =
          search (emits_rules, convert_one-Emits, convert_layers-Emits k) depth 20

      convert_image-Emits : (w : Work) → Emits is_read (convert_image H b w)
      unfolding convert_image store_converted_manifest_details
      convert_image-Emits w =
          search (emits_rules, unknown, convert_layers-Emits, upload_image-Emits) depth 30

      pub build_image-Emits : (w : Work) → Emits is_read (build_image H b w)
      unfolding build_image clean_up on_result
      build_image-Emits w =
          Emits-ensure (rw (unconverted, attempt-fail not_found) (convert_image-Emits w))
            (search emits_rules depth 10)

module _ (H : Host) (o : Options) where
  chain_results-Emits :
      (b : Base) (chain : List String) (ls : List Descriptor) (ids : List String)
      → Emits is_read (chain_results H b chain ls ids)
  unfolding chain_results
  chain_results-Emits b chain [] ids = search emits_rules
  chain_results-Emits b chain (l ∷ ls) [] = search emits_rules
  chain_results-Emits b chain (l ∷ ls) (d ∷ ids) =
      search (emits_rules, chain_results-Emits b (chain ++ (d ∷ [])) ls ids) depth 12

  module _ (n : o.no_upload ≡ true) (d : o.has_db ≡ false) where
    run_engine-Emits :
        (b : Base) (m : Manifest) (c : Image)
        → b.no_upload ≡ true
        → b.has_db ≡ false
        → Emits is_read (run_engine H overlaybd b m c)
    unfolding run_engine new_engine
    run_engine-Emits b m c n d =
        search (emits_rules, chain_results-Emits, build_image-Emits) depth 20

    -- With the overlaybd engine, NoUpload and no database, the conversion of an image writes nothing to
    -- the registry: whatever the host answers, it never pushes and never copies content to a push.
    pub build_one-Emits :
        o.engine ≡ overlaybd
        → (src : Descriptor) (tag : Bool) → Emits is_read (build_one H o src tag)
    unfolding build_one fetch_manifest_and_config fetch_manifest fetch_config
    build_one-Emits e src tag =
        let engine : (b : Base) (m : Manifest) (c : Image)
            → b.no_upload ≡ true
            → b.has_db ≡ false
            → Emits is_read (run_engine H o.engine b m c) =
          rw e run_engine-Emits in
        search (emits_rules, engine) depth 40
