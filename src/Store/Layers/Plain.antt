-- ===== src/Store/Layers/Plain.antt =====
-- The parts of the conversion in the content store (pkg/convertor/convertor.go) that neither make nor
-- change snapshots.
use accelerated_container_im.Base.{String, Option, none, some, List, [], ◌∷◌, string_eq}
use accelerated_container_im.Base.Dict.{Dict}
use accelerated_container_im.Base.Int.{ℤ}
use accelerated_container_im.Convertor.Registry.{push_then}
use accelerated_container_im.Host.{Host}
use accelerated_container_im.Host.Registry.{Descriptor, Manifest, Image, LayerEntry}
use accelerated_container_im.Host.Trace.{Emits, emits_rules}
use accelerated_container_im.Store.{Layer, StoreConvertor, unique_part}
use accelerated_container_im.Store.Apply.Rollback.{is_plain}
use accelerated_container_im.Store.Image.{commit_image}
use accelerated_container_im.Store.Layers.{
  Slot, made, packing, send_to_content_store, find_converted, keep_or_pack, wait_layers,
}
use accelerated_container_im.Store.Loader.{
  ContentFile, ContentLoader, load_file, load_files, commit_written, load,
}
use accelerated_container_im.Store.Remote.{
  find_in_repo, find_elsewhere, find_remote, push_object, sent_to_remote,
}
use accelerated_container_im.Tools.{commit_layer}

module _ (H : Host) where
  pub unique_part-Emits : Emits is_plain (unique_part H)
  unfolding unique_part
  unique_part-Emits = search emits_rules depth 12

  load_file-Emits : (w : String) (f : ContentFile) → Emits is_plain (load_file H w f)
  unfolding load_file commit_layer
  load_file-Emits w f = search emits_rules depth 20

  load_files-Emits : (w : String) (fs : List ContentFile) → Emits is_plain (load_files H w fs)
  unfolding load_files
  load_files-Emits w [] = search emits_rules
  load_files-Emits w (f ∷ fs) =
      let ih = λ (u : Unit {0}). load_files-Emits w fs in
      search (emits_rules, load_file-Emits, ih) depth 12

  commit_written-Emits :
      (w : String) (x : String × ℤ) (l : Dict String) → Emits is_plain (commit_written H w x l)
  unfolding commit_written
  commit_written-Emits w x l = search emits_rules depth 12

  load-Emits : (l : ContentLoader) → Emits is_plain (load H l)
  unfolding load
  load-Emits l =
      search (emits_rules, unique_part-Emits, load_files-Emits, commit_written-Emits) depth 20

module _ (H : Host) (c : StoreConvertor) where
  find_in_repo-Emits : (i : String) → Emits is_plain (find_in_repo H c i)
  unfolding find_in_repo
  find_in_repo-Emits i = search emits_rules depth 20

  find_elsewhere-Emits :
      (i : String) (rs : List (Option LayerEntry)) → Emits is_plain (find_elsewhere H c i rs)
  unfolding find_elsewhere
  find_elsewhere-Emits i [] = search emits_rules
  find_elsewhere-Emits i (none ∷ rs) = find_elsewhere-Emits i rs
  find_elsewhere-Emits i (some r ∷ rs) =
      let ih = λ (u : Unit {0}). find_elsewhere-Emits i rs in search (emits_rules, ih) depth 20

  find_remote-Emits : (i : String) → Emits is_plain (find_remote H c i)
  unfolding find_remote
  find_remote-Emits i = search (emits_rules, find_in_repo-Emits, find_elsewhere-Emits) depth 12

  push_object-Emits : (d : Descriptor) → Emits is_plain (push_object H c d)
  unfolding push_object push_then
  push_object-Emits d = search emits_rules depth 20

  sent_to_remote-Emits : (d : Descriptor) (i : String) → Emits is_plain (sent_to_remote H c d i)
  unfolding sent_to_remote
  sent_to_remote-Emits d i = search (emits_rules, push_object-Emits) depth 12

  pub commit_image-Emits :
      (m : Manifest) (x : Image) (ls : List Layer) → Emits is_plain (commit_image H c m x ls)
  unfolding commit_image
  commit_image-Emits m x ls = search (emits_rules, push_object-Emits) depth 20

  module _ (fs_type : String) where
    send-Emits : (id : String) → Emits is_plain (send_to_content_store H c fs_type id)
    unfolding send_to_content_store
    send-Emits id = search (emits_rules, load-Emits H) depth 12

    pub find_converted-Emits : (i : String) → Emits is_plain (find_converted H c fs_type i)
    unfolding find_converted
    find_converted-Emits i = search (emits_rules, find_remote-Emits) depth 20

    pub keep_or_pack-Emits : (i id : String) → Emits is_plain (keep_or_pack H c fs_type i id)
    unfolding keep_or_pack
    keep_or_pack-Emits i id = search (emits_rules, send-Emits, sent_to_remote-Emits) depth 20

    pub wait_layers-Emits : (ss : List Slot) → Emits is_plain (wait_layers H c fs_type ss)
    unfolding wait_layers
    wait_layers-Emits [] = search emits_rules
    wait_layers-Emits (made l ∷ ss) =
        let ih = λ (u : Unit {0}). wait_layers-Emits ss in search (emits_rules, ih) depth 12
    wait_layers-Emits (packing id ∷ ss) =
        let ih = λ (u : Unit {0}). wait_layers-Emits ss in
        search (emits_rules, send-Emits, ih) depth 20
