-- ===== src/Snapshot/Docker.antt =====
-- pkg/snapshot/docker.go: the init and container layers of the Docker runtime.
use accelerated_container_im.Base.{
  String, ◌<>◌, Bool, false, not, ◌&&◌, ◌||◌, List, [], ◌∷◌, ◌++◌, map, if◌then◌else◌, ◌==◌,
  string_eq,
}
use accelerated_container_im.Base.Text.{has_suffix, contains_text}
use accelerated_container_im.Host.{Host, get_info, stat, lock, unlock}
use accelerated_container_im.Host.Types.{failed, Info, Snapshot}
use accelerated_container_im.Host.Exec.{
  Exec, act, ask, pure, fail, attempt, ignore, ensure, when, on_result, ◌>>=◌, ◌>>◌,
}
use accelerated_container_im.Snapshot.{
  Snapshotter, StorageType, unknown, normal, Mount, ro_dir, upper_path, overlaybd_mountpoint,
  backstore_mark_file,
}
use accelerated_container_im.Snapshot.Modes.{is_block}
use accelerated_container_im.Snapshot.Identify.{identify_snapshot_storage_type}
use accelerated_container_im.Snapshot.Device.{fs_type_of}
use accelerated_container_im.Snapshot.Device.Mount.{attach_and_mount_block_device}
use accelerated_container_im.Snapshot.Device.Detach.{unmount_and_detach_block_device}
use accelerated_container_im.Snapshot.Mounts.{
  join, bind_mount, overlay_mount, supports_index, index_option, overlay_dirs, normal_overlay_mount,
}

-- IsDockerInitLayer, IsDockerContainerLayer
unfoldable pub is_docker_init_key : String → Bool
unfolding has_suffix contains_text
is_docker_init_key key = has_suffix key "-init" || contains_text key "-init-"

unfoldable pub is_docker_container_parent : String → Bool
unfolding has_suffix string_eq
is_docker_container_parent parent = not (parent == "") && has_suffix parent "-init"

-- The runtime and the mode for which the methods below apply.
abbrev pub docker_mode : Snapshotter → Bool
docker_mode o = o.runtime_type == "docker" && o.rw_mode == ro_dir

-- isDockerInitLayer, isDockerContainerLayer
unfoldable pub is_docker_init_layer : Snapshotter → String → Bool
unfolding is_docker_init_key string_eq
is_docker_init_layer o key = if docker_mode o then is_docker_init_key key else false

unfoldable pub is_docker_container_layer : Snapshotter → String → Bool
unfolding is_docker_container_parent string_eq
is_docker_container_layer o parent =
    if docker_mode o then is_docker_container_parent parent else false

module _ (H : Host) (o : Snapshotter) where
  -- prepareDockerInitLayer
  unfoldable pub prepare_docker_init_layer :
      Snapshot → String → Info → StorageType → Exec (List Mount)
  prepare_docker_init_layer s parent_id parent_info stype = do
    when (is_block stype) (do
      t ← fs_type_of H o parent_id parent_info
      attach_and_mount_block_device H o parent_id ro_dir t false)
    pure (bind_mount (upper_path o s.id) ("rw" ∷ "rbind" ∷ []))

  -- The lower directories behind the init layer's own. The first parent of the container layer is
  -- the init layer.
  abbrev parents_behind_init : List String → List String
  parents_behind_init [] = []
  parents_behind_init (_ ∷ ps) = map (upper_path o) ps

  unfoldable pub image_lowers : Snapshot → Info → Exec (List String)
  unfolding string_eq
  image_lowers s init_info = if init_info.parent == "" then pure [] else do
    top ← ask H.info (get_info init_info.parent)
    stype ← identify_snapshot_storage_type H o top.0 top.1
    pure (
        if is_block stype
        then overlaybd_mountpoint o top.0 ∷ []
        else parents_behind_init s.parent_ids)

  -- prepareDockerContainerLayer
  unfoldable pub prepare_docker_container_layer : Snapshot → String → Info → Exec (List Mount)
  prepare_docker_container_layer s init_id init_info = do
    lowers ← image_lowers s init_info
    off ← supports_index H
    pure (
        overlay_mount
          (index_option off ++ overlay_dirs H o s (join ":" (upper_path o init_id ∷ lowers))))

  -- PrepareDockerLayer
  unfoldable pub prepare_docker_layer :
      String → String → Snapshot → String → Info → Exec (List Mount × StorageType)
  unfolding string_eq
  prepare_docker_layer key parent s parent_id parent_info =
      if is_docker_init_layer o key
      then (do
        stype ←
            (if parent == ""
              then pure unknown
              else identify_snapshot_storage_type H o parent_id parent_info)
        m ← prepare_docker_init_layer s parent_id parent_info stype
        pure (m, stype))
      else if is_docker_container_layer o parent
      then (do m ← prepare_docker_container_layer s parent_id parent_info; pure (m, normal))
      else fail failed

  -- RemoveDockerLayer behind the parent's lock
  unfoldable pub destroy_image_device : String → String → Info → Exec (Unit {0})
  destroy_image_device key parent_id parent_info = do
    stype ← identify_snapshot_storage_type H o parent_id parent_info
    when (is_block stype) (do
      mark ← attempt (act H (stat (backstore_mark_file o parent_id)))
      on_result mark
          (λ _. ignore (unmount_and_detach_block_device H o parent_id parent_info.name key))
          (λ _. pure tt))

  -- RemoveDockerLayer
  unfoldable pub remove_docker_layer : String → Info → Exec (Unit {0})
  unfolding string_eq
  remove_docker_layer key info =
      if not (is_docker_init_layer o key)
      then pure tt
      else if info.parent == ""
      then pure tt
      else do
        top ← ask H.info (get_info info.parent)
        ignore (act H (lock top.0))
        ensure (act H (unlock top.0)) (destroy_image_device key top.0 top.1)

  -- dockerContainerLayerMount
  unfoldable pub docker_container_layer_mount : Info → Snapshot → String → Info → Exec (List Mount)
  unfolding string_eq
  docker_container_layer_mount parent_info s parent_id info =
      if parent_info.parent == "" then normal_overlay_mount H o s info else do
        top ← ask H.info (get_info parent_info.parent)
        stype ← identify_snapshot_storage_type H o top.0 top.1
        if is_block stype
            then (do
              off ← supports_index H
              pure (
                  overlay_mount (
                    index_option off
                    ++ overlay_dirs H o s
                        (upper_path o parent_id <> ":" <> overlaybd_mountpoint o top.0))))
            else normal_overlay_mount H o s info
