-- ===== src/Tools.antt =====
-- pkg/utils/cmd.go: the runs of the overlaybd tools, with the files that they read and leave.
use accelerated_container_im.Base.{
  String, ◌<>◌, Bool, true, false, not, ◌&&◌, List, [], ◌∷◌, ◌++◌, if◌then◌else◌, ◌==◌, string_eq,
}
use accelerated_container_im.Host.{
  Host, stat, run, rename, remove_all, mkdir_all, create, write_file, write_config,
}
use accelerated_container_im.Host.Types.{Error, not_exist, Config, Lower, no_upper}
use accelerated_container_im.Host.Exec.{
  Exec, act, pure, fail, attempt, ignore, on_result, ◌>>=◌, ◌>>◌,
}

abbrev pub is_not_exist : Error → Bool
is_not_exist not_exist = true
is_not_exist _ = false

abbrev bin_create : String
bin_create = "/opt/overlaybd/bin/overlaybd-create"

abbrev bin_commit : String
bin_commit = "/opt/overlaybd/bin/overlaybd-commit"

abbrev bin_apply : String
bin_apply = "/opt/overlaybd/bin/overlaybd-apply"

abbrev bin_turbo_oci_apply : String
bin_turbo_oci_apply = "/opt/overlaybd/bin/turboOCI-apply"

-- ConvertOption
pub record ConvertOption : Type 0 where
  pub tar_meta_path : String
  pub config : Config
  pub workdir : String
  pub ext4_fs_meta_path : String

abbrev no_lowers : List Lower → Bool
no_lowers [] = true
no_lowers (_ ∷ _) = false

module _ (H : Host) where
  -- The loop of Create: whether none of the files is missing.
  unfoldable pub all_exist : List String → Exec Bool
  all_exist [] = pure true
  all_exist (f ∷ fs) =
      let rest = all_exist fs in
      do
        there ← attempt (act H (stat f))
        on_result there (λ _. rest) (λ e. if is_not_exist e then pure false else rest)

  -- Create: an existing writable layer is kept.
  unfoldable pub create_layer : String → List String → Exec (Unit {0})
  create_layer dir opts =
      let data_path = dir <> "/writable_data" in
      let index_path = dir <> "/writable_index" in
      do
        exists ← all_exist (data_path ∷ index_path ∷ [])
        if exists then pure tt else act H (run bin_create ((data_path ∷ index_path ∷ []) ++ opts))

  -- Seal
  unfoldable pub seal : String → String → List String → Exec (Unit {0})
  seal dir to_dir opts = do
    act H (
        run bin_commit
          (("--seal" ∷ (dir <> "/writable_data") ∷ (dir <> "/writable_index") ∷ []) ++ opts))
    act H (rename (dir <> "/writable_data") (to_dir <> "/overlaybd.sealed"))
    ignore (act H (remove_all (dir <> "/writable_index")))

  -- Commit
  unfoldable pub commit_layer : String → String → Bool → List String → Exec (Unit {0})
  commit_layer dir to_dir true opts = do
    act H (
        run bin_commit (
          ("--commit_sealed"
            ∷ (dir <> "/overlaybd.sealed")
            ∷ (to_dir <> "/overlaybd.commit.temp")
            ∷ [])
          ++ opts))
    act H (rename (to_dir <> "/overlaybd.commit.temp") (to_dir <> "/overlaybd.commit"))
  commit_layer dir to_dir false opts = act H (
      run bin_commit (
        ((dir <> "/writable_data")
          ∷ (dir <> "/writable_index")
          ∷ (to_dir <> "/overlaybd.commit")
          ∷ [])
        ++ opts))

  -- ApplyOverlaybd
  unfoldable pub apply_overlaybd : String → List String → Exec (Unit {0})
  apply_overlaybd dir opts =
      act H (run bin_apply (((dir <> "/layer.tar") ∷ (dir <> "/config.json") ∷ []) ++ opts))

  -- ApplyTurboOCI
  unfoldable pub apply_turbo_oci : String → String → List String → Exec (Unit {0})
  apply_turbo_oci dir gzip_meta_file opts = act H (
      run bin_turbo_oci_apply (
        ((dir <> "/layer.tar")
          ∷ (dir <> "/config.json")
          ∷ "--gz_index_path"
          ∷ (dir <> "/" <> gzip_meta_file)
          ∷ [])
        ++ opts))

  -- GenerateTarMeta: a missing tar file is no error.
  unfoldable pub generate_tar_meta : String → String → Exec (Unit {0})
  generate_tar_meta src dst = do
    there ← attempt (act H (stat src))
    on_result there (λ _. act H (run bin_turbo_oci_apply (src ∷ dst ∷ "--export" ∷ [])))
        (λ e. if is_not_exist e then pure tt else fail e)

  -- ConvertLayer; the text of service.json is cut down to the one value that varies.
  unfoldable pub convert_layer_in : String → ConvertOption → String → Exec (Unit {0})
  unfolding string_eq
  convert_layer_in work opt fs_type =
      let data_path = work <> "/writable_data" in
      let index_path = work <> "/writable_index" in
      let target = work <> "/fake_target" in
      let service = work <> "/service.json" in
      let config = work <> "/config.v1.json" in
      do
        act H (mkdir_all work)
        act H (
            run bin_create (
              (data_path ∷ index_path ∷ "256" ∷ "-s" ∷ "--turboOCI" ∷ [])
              ++ (if not (fs_type == "erofs") && no_lowers opt.config.lowers
                  then "--mkfs" ∷ []
                  else [])))
        act H (create target)
        act H (write_file service (work <> "/cache"))
        act H (
            write_config config (record opt.config {
              upper = record no_upper {
                index = index_path;
                data_file = data_path;
                target = target;
              };
            }))
        act H (
            run bin_turbo_oci_apply (
              (opt.tar_meta_path ∷ config ∷ "--service_config_path" ∷ service ∷ "--fstype" ∷ fs_type
                ∷ [])
              ++ (if not (fs_type == "erofs") then "--import" ∷ [] else [])))
        act H (
            run bin_commit
              (data_path ∷ index_path ∷ opt.ext4_fs_meta_path ∷ "-z" ∷ "--turboOCI" ∷ []))

  unfoldable pub convert_layer : ConvertOption → String → Exec (Unit {0})
  unfolding string_eq
  convert_layer opt fs_type =
      convert_layer_in (if opt.workdir == "" then "tmp_conv" else opt.workdir) opt fs_type
