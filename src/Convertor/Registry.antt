-- ===== src/Convertor/Registry.antt =====
-- cmd/convertor/builder/builder_utils.go: what the image convertor does with registries and with the
-- files of a layer. Opening a file is one `stat` call.
use accelerated_container_im.Base.{
  ℕ, zero, suc, String, ◌<>◌, Bool, true, false, ◌||◌, Option, none, some, List, [], ◌∷◌, ◌==◌,
  string_eq, if◌then◌else◌,
}
use accelerated_container_im.Base.Text.{dir_name, trim_suffix}
use accelerated_container_im.Host.{
  Host, fetch, push, read_blob, verified, decompress, save, copy_content, hash_file, mkdir_all,
  create, stat, write_config,
}
use accelerated_container_im.Host.Exec.{
  Exec, act, ask, pure, fail, attempt, when, on_result, ◌>>=◌, ◌>>◌,
}
use accelerated_container_im.Host.Registry.{Descriptor, Manifest, Image}
use accelerated_container_im.Base.Int.{ℤ}
use accelerated_container_im.Tools.{is_not_exist}
use accelerated_container_im.Host.Types.{Error, already_exists, failed, panicked, Config}

abbrev pub oci_manifest : String
oci_manifest = "application/vnd.oci.image.manifest.v1+json"

abbrev pub docker_manifest : String
docker_manifest = "application/vnd.docker.distribution.manifest.v2+json"

abbrev pub oci_index : String
oci_index = "application/vnd.oci.image.index.v1+json"

abbrev pub docker_manifest_list : String
docker_manifest_list = "application/vnd.docker.distribution.manifest.list.v2+json"

unfoldable pub is_manifest_type : String → Bool
unfolding string_eq
is_manifest_type t = t == oci_manifest || t == docker_manifest

unfoldable pub is_index_type : String → Bool
unfolding string_eq
is_index_type t = t == oci_index || t == docker_manifest_list

-- `errdefs.IsAlreadyExists`
abbrev pub is_already_exists : Error → Bool
is_already_exists already_exists = true
is_already_exists _ = false

module _ (H : Host) where
  -- One turn of the loop of fetchManifest; a missing platform makes it panic.
  unfoldable pub first_match : Descriptor → Option String → Exec Descriptor → Exec Descriptor
  first_match d none rest = fail panicked
  first_match d (some p) rest = if H.platform_matches p then pure d else rest

  -- The loop of fetchManifest: the first descriptor with the default platform.
  unfoldable pub platform_manifest : List Descriptor → Exec Descriptor
  platform_manifest [] = fail failed
  platform_manifest (d ∷ ds) = first_match d d.platform (platform_manifest ds)

  -- fetch, for a manifest
  abbrev pub fetch_one : String → Descriptor → Exec Manifest
  fetch_one ref desc = do act H (fetch ref desc); ask H.manifest (read_blob desc)

  -- fetchManifest, through at most `depth` nested manifest lists.
  unfoldable pub fetch_manifest : ℕ → String → Descriptor → Exec Manifest
  fetch_manifest zero ref desc =
      if is_manifest_type desc.media_type then fetch_one ref desc else fail failed
  fetch_manifest (suc depth) ref desc =
      let deeper = fetch_manifest depth ref in
      if is_manifest_type desc.media_type
      then fetch_one ref desc
      else if is_index_type desc.media_type
      then (do
        act H (fetch ref desc)
        list ← ask H.index (read_blob desc)
        target ← platform_manifest list.manifests
        deeper target)
      else fail failed

  -- fetchConfig
  unfoldable pub fetch_config : String → Descriptor → Exec Image
  fetch_config ref desc = do act H (fetch ref desc); ask H.image (read_blob desc)

  -- fetchManifestAndConfig
  unfoldable pub fetch_manifest_and_config : ℕ → String → Descriptor → Exec (Manifest × Image)
  fetch_manifest_and_config depth ref desc = do
    manifest ← fetch_manifest depth ref desc
    config ← fetch_config ref manifest.config
    pure (manifest, config)

  -- downloadLayer: the digest is checked behind the copy.
  unfoldable pub download_layer : String → String → Descriptor → Bool → Exec (Unit {0})
  download_layer ref target desc decompressed = do
    act H (fetch ref desc)
    act H (mkdir_all (trim_suffix (dir_name target) "/"))
    act H (create target)
    when decompressed (act H (decompress target))
    act H (save target)
    good ← ask H.holds (verified desc)
    if good then pure tt else fail failed

  -- writeConfig
  unfoldable pub write_layer_config : String → Config → Exec (Unit {0})
  write_layer_config dir config = act H (write_config (dir <> "/config.json") config)

  -- getFileDesc
  unfoldable pub get_file_desc : String → Bool → Exec (String × ℤ)
  get_file_desc path decompressed = ask H.content (hash_file path decompressed)

  -- A push that finds the content in place needs no copy.
  unfoldable pub push_then : String → Descriptor → Exec (Unit {0}) → Exec (Unit {0})
  push_then pusher desc copy = do
    pushed ← attempt (act H (push pusher desc))
    on_result pushed (λ _. copy) (λ e. if is_already_exists e then pure tt else fail e)

  -- uploadBlob
  unfoldable pub upload_blob : String → String → Descriptor → Exec (Unit {0})
  upload_blob pusher path desc =
      push_then pusher desc (do act H (stat path); act H (copy_content desc))

  -- uploadBytes
  unfoldable pub upload_bytes : String → Descriptor → Exec (Unit {0})
  upload_bytes pusher desc = push_then pusher desc (act H (copy_content desc))

  -- tagPreviouslyConvertedManifest
  unfoldable pub tag_previously_converted_manifest : String → String → Descriptor → Exec (Unit {0})
  tag_previously_converted_manifest pusher ref desc = do
    fetch_one ref desc
    upload_bytes pusher desc

  -- addFileToArchive, which passes over a missing file, and the loop of buildArchiveFromFiles
  unfoldable pub add_files : String → List String → Exec (Unit {0})
  add_files target [] = pure tt
  add_files target (file ∷ files) =
      let rest = add_files target files in
      do
        opened ← attempt (act H (stat file))
        on_result opened (λ _. do act H (save (target <> ":" <> file)); rest)
            (λ e. if is_not_exist e then rest else fail e)

  -- buildArchiveFromFiles
  unfoldable pub build_archive_from_files : String → List String → Exec (Unit {0})
  build_archive_from_files target files = do act H (create target); add_files target files
