-- ===== src/Store/Loader.antt =====
-- contentLoader (pkg/convertor/convertor.go): files are packed as one layer in the content store.
use accelerated_container_im.Base.{
  String, ◌<>◌, Bool, true, none, List, [], ◌∷◌, ◌++◌, ◌==◌, string_eq, not, if◌then◌else◌,
}
use accelerated_container_im.Base.Dict.{Dict}
use accelerated_container_im.Base.Int.{ℤ}
use accelerated_container_im.Base.Text.{decimal_ℤ, parent_dir}
use accelerated_container_im.Convertor.Registry.{is_already_exists}
use accelerated_container_im.Host.{
  Host, open_writer, written, close_tar, copy_raw, copy_tar, write_header, commit_content,
  file_size, stat,
}
use accelerated_container_im.Host.Exec.{Exec, act, ask, pure, fail, attempt, on_result, ◌>>=◌, ◌>>◌}
use accelerated_container_im.Snapshot.Label
use accelerated_container_im.Store.{Layer, conv_name, unique_part}
use accelerated_container_im.Tools.{commit_layer}

-- ContentFile
pub record ContentFile : Type 0 where
  pub src_file_path : String
  pub dst_file_name : String

-- contentLoader
pub record ContentLoader : Type 0 where
  pub files : List ContentFile
  pub is_accel_layer : Bool
  pub loaded_fs_type : String

-- strings.Join
abbrev joined : List String → String
joined [] = ""
joined (s ∷ []) = s
joined (s ∷ t ∷ rest) = s <> "," <> joined (t ∷ rest)

abbrev pub layer_media_type : String
layer_media_type = "application/vnd.oci.image.layer.v1.tar"

-- The layer that Load returns, for the digest and the size of what was written.
unfoldable pub loaded_layer : ContentLoader → String × ℤ → Layer
unfolding decimal_ℤ string_eq
loaded_layer loader (digest, size) = record {
  desc = record {
    media_type = layer_media_type;
    digest = digest;
    size = size;
    annotations =
        (Label.overlaybd_version, "0.1.0")
          ∷ (Label.blob_digest, digest)
          ∷ (Label.blob_size, decimal_ℤ size)
          ∷ (if loader.is_accel_layer then (Label.acceleration_layer, "yes") ∷ [] else [])
        ++ (if not (loader.loaded_fs_type == "")
            then (Label.blob_fs_type, loader.loaded_fs_type) ∷ []
            else []);
    platform = none;
  };
  diff_id = digest;
}

module _ (H : Host) where
  -- The loop of Load, for one file: a sealed layer is committed as a tar file first, and copied as it
  -- is; its path is the answer.
  unfoldable pub load_file : String → ContentFile → Exec String
  unfolding parent_dir string_eq
  load_file writer file =
      let commit_path = parent_dir file.src_file_path in
      let commit_file = commit_path <> "/overlaybd.commit" in
      if file.dst_file_name == "overlaybd.commit"
      then (do
        commit_layer H commit_path commit_path true ("-z" ∷ "-t" ∷ [])
        act H (stat commit_file)
        act H (copy_raw writer commit_file)
        pure commit_file)
      else (do
        act H (stat file.src_file_path)
        size ← ask H.number (file_size file.src_file_path)
        act H (write_header writer file.dst_file_name size)
        act H (copy_tar writer file.src_file_path)
        pure file.src_file_path)

  unfoldable pub load_files : String → List ContentFile → Exec (List String)
  load_files writer [] = pure []
  load_files writer (file ∷ files) = do
    path ← load_file writer file
    paths ← load_files writer files
    pure (path ∷ paths)

  -- Content that is in the store already is no error.
  unfoldable pub commit_written : String → String × ℤ → Dict String → Exec (Unit {0})
  commit_written writer content labels = do
    committed ← attempt (act H (commit_content writer content labels))
    on_result committed pure (λ e. if is_already_exists e then pure tt else fail e)

  -- Load
  unfoldable pub load : ContentLoader → Exec Layer
  unfolding loaded_layer conv_name
  load loader = do
    part ← unique_part H
    act H (open_writer (conv_name part))
    paths ← load_files (conv_name part) loader.files
    act H (close_tar (conv_name part))
    content ← ask H.content (written (conv_name part))
    commit_written (conv_name part) content
        (("containerd.io/snapshot/overlaybd/build.layer-from", joined paths) ∷ [])
    pure (loaded_layer loader content)
