-- ===== src/Convertor/Overlaybd.antt =====
-- cmd/convertor/builder/overlaybd_builder.go: the engine that builds overlaybd layers. This file has
-- its state and what it does with one layer; the deduplication and the image are in its children.
pub mod Finish
pub mod Marks
pub mod Reuse
pub mod Start
pub mod Dedup
use accelerated_container_im.Base.{
  ℕ, zero, suc, String, ◌<>◌, Bool, true, false, not, ◌&&◌, Option, none, some, List, [], ◌∷◌, ◌++◌,
  ◌==◌, string_eq, nat_eq, if◌then◌else◌, ltb,
}
use accelerated_container_im.Base.Int.{ℤ, pos}
use accelerated_container_im.Base.Lists.{get_elem?, set}
use accelerated_container_im.Base.Text.{decimal, decimal_ℤ, text_slice}
use accelerated_container_im.Convertor.Engine.{Base, media_type_layer}
use accelerated_container_im.Convertor.Registry.{
  download_layer, write_layer_config, get_file_desc, upload_blob,
}
use accelerated_container_im.Host.{Host, stat, remove, remove_all}
use accelerated_container_im.Host.Exec.{
  Exec, act, ask, pure, fail, attempt, ignore, when, on_error, on_option, on_result, ◌>>=◌, ◌>>◌,
}
use accelerated_container_im.Host.Registry.{Descriptor, Manifest, Image}
use accelerated_container_im.Host.Types.{Error, failed, panicked, Config, Lower, no_lower, no_upper}
use accelerated_container_im.Snapshot.Label
use accelerated_container_im.Tools.{is_not_exist, create_layer, apply_overlaybd, commit_layer}

-- overlaybdConvertResult
pub record LayerResult : Type 0 where
  pub desc : Descriptor
  pub chain_id : String
  pub from_dedup : Bool

-- overlaybdBuilderEngine: what a conversion changes. `output` is outputDesc.
pub record Work : Type 0 where
  pub manifest : Manifest
  pub config : Image
  pub overlaybd_config : Config
  pub results : List LayerResult
  pub output : Option Descriptor

-- `%04d` of an index
abbrev pub four_digits : ℕ → String
four_digits i =
    (if ltb i 10 then "000" else if ltb i 100 then "00" else if ltb i 1000 then "0" else "")
    <> decimal i

-- chainIDtoUUID; a chain ID is "sha256:" and 64 digits.
unfoldable pub chain_id_to_uuid : String → String
unfolding text_slice
chain_id_to_uuid chain_id =
    let d = text_slice chain_id 7 39 in
    text_slice d 0 8
    <> "-"
    <> text_slice d 8 12
    <> "-"
    <> text_slice d 12 16
    <> "-"
    <> text_slice d 16 20
    <> "-"
    <> text_slice d 20 32

-- The UUID of the layer below, or "" at the bottom.
unfoldable pub parent_uuid : List LayerResult → ℕ → String
unfolding chain_id_to_uuid
parent_uuid results zero = ""
parent_uuid results (suc i) = elim (get_elem? results i) [
  | some r ↦ chain_id_to_uuid r.chain_id
  | none ↦ ""
]

module _ (H : Host) (b : Base) where
  -- getLayerDir: `layers` are those of the source manifest. The path is joined for a working directory
  -- that is clean and not empty.
  unfoldable pub layer_dir : List Descriptor → ℕ → Exec String
  layer_dir layers idx =
      on_option (get_elem? layers idx)
        (λ layer. pure (b.work_dir <> "/" <> four_digits idx <> "_" <> layer.digest))
        (fail panicked)

  unfoldable pub result_of : Work → ℕ → Exec LayerResult
  result_of w idx = on_option (get_elem? w.results idx) pure (fail panicked)

  -- DownloadLayer
  unfoldable pub download_source_layer : Work → ℕ → Exec (Unit {0})
  download_source_layer w idx =
      on_option (get_elem? w.manifest.layers idx)
        (λ desc. do
          dir ← layer_dir w.manifest.layers idx
          download_layer H b.source_ref (dir <> "/layer.tar") desc true)
        (fail panicked)

  -- create
  unfoldable pub create_writable : String → Bool → ℤ → Exec (Unit {0})
  create_writable dir mkfs vsize = create_layer H dir (
      decimal_ℤ vsize
      ∷ ((if b.disable_sparse then [] else "-s" ∷ []) ++ (if mkfs then "--mkfs" ∷ [] else [])))

  -- commit
  unfoldable pub commit_built : Work → String → ℕ → LayerResult → Exec (Unit {0})
  unfolding string_eq
  commit_built w dir idx result =
      let parent = parent_uuid w.results idx in
      commit_layer H dir dir false (
        ("-z" ∷ "-t" ∷ "--uuid" ∷ chain_id_to_uuid result.chain_id ∷ [])
        ++ (if parent == "" then [] else "--parent-uuid" ∷ parent ∷ []))

  -- Whether the commit file of a layer is there; another error than its absence stops the build.
  unfoldable pub commit_file_present : String → Exec Bool
  commit_file_present dir = do
    found ← attempt (act H (stat (dir <> "/overlaybd.commit")))
    on_result found (λ _. pure true) (λ e. if is_not_exist e then pure false else fail e)

  abbrev pub with_upper : Config → String → Config
  with_upper config dir = record config {
    upper = record no_upper {
      data_file = dir <> "/writable_data";
      index = dir <> "/writable_index";
    };
  }

  abbrev pub virtual_size : ℕ → ℤ
  virtual_size zero = if b.mkfs then b.vsize else pos 64
  virtual_size (suc _) = pos 0

  -- BuildLayer for a layer that is not from deduplication and has no commit file
  unfoldable pub convert_layer_dir : Work → String → ℕ → LayerResult → Exec Config
  unfolding nat_eq
  convert_layer_dir w dir idx result =
      let config = with_upper w.overlaybd_config dir in
      do
        create_writable dir (b.mkfs && idx == 0) (virtual_size idx)
        write_layer_config H dir config
        apply_overlaybd H dir []
        commit_built w dir idx result
        when (not b.reserve) (do
          ignore (act H (remove (dir <> "/layer.tar")))
          ignore (act H (remove (dir <> "/writable_data")))
          ignore (act H (remove (dir <> "/writable_index"))))
        pure config

  -- The tests of BuildLayer: a commit file belongs to a layer from deduplication, and only to one.
  unfoldable pub build_dir : Work → String → ℕ → LayerResult → Bool → Exec Config
  build_dir w dir idx result present =
      if result.from_dedup
      then (if present then pure w.overlaybd_config else fail failed)
      else if present
      then fail failed
      else convert_layer_dir w dir idx result

  abbrev pub built_on : Config → String → Config
  built_on config dir = record config {
    lowers = config.lowers ++ (record no_lower { file = dir <> "/overlaybd.commit" } ∷ []);
  }

  -- BuildLayer
  unfoldable pub build_layer : Work → ℕ → Exec Work
  build_layer w idx = do
    dir ← layer_dir w.manifest.layers idx
    present ← commit_file_present dir
    result ← result_of w idx
    config ← build_dir w dir idx result present
    pure (record w { overlaybd_config = built_on config dir })

  abbrev pub layer_descriptor : String → ℤ → Descriptor
  layer_descriptor digest size = record {
    media_type = media_type_layer b;
    digest = digest;
    size = size;
    annotations =
        ("containerd.io/snapshot/overlaybd/version", "0.1.0")
        ∷ (Label.blob_digest, digest)
        ∷ (Label.blob_size, decimal_ℤ size)
        ∷ [];
    platform = none;
  }

  -- The check of UploadLayer on a layer from deduplication.
  unfoldable pub check_digest : LayerResult → String → Exec (Unit {0})
  unfolding string_eq
  check_digest result digest =
      if result.from_dedup && not (digest == result.desc.digest) then fail failed else pure tt

  -- UploadLayer
  unfoldable pub upload_layer : Work → ℕ → Exec Work
  upload_layer w idx = do
    dir ← layer_dir w.manifest.layers idx
    found ← get_file_desc H (dir <> "/overlaybd.commit") false
    result ← result_of w idx
    check_digest result found.0
    let desc = layer_descriptor found.0 found.1
    when (not b.no_upload) (upload_blob H b.target_ref (dir <> "/overlaybd.commit") desc)
    pure (record w { results = set w.results idx (record result { desc = desc }) })

  -- Cleanup
  unfoldable pub clean_up : Exec (Unit {0})
  clean_up = when (not b.reserve) (ignore (act H (remove_all b.work_dir)))
