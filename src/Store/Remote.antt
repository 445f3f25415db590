-- ===== src/Store/Remote.antt =====
-- The registry and the database of the conversion in the content store (pkg/convertor/convertor.go):
-- findRemote, pushObject and sentToRemote.
pub mod Reuse
use accelerated_container_im.Base.{
  String, ◌<>◌, Bool, Option, none, some, List, [], ◌∷◌, if◌then◌else◌,
}
use accelerated_container_im.Convertor.Engine.{plain_descriptor}
use accelerated_container_im.Convertor.Overlaybd.Dedup.{is_not_found, first_of}
use accelerated_container_im.Convertor.Registry.{is_already_exists, push_then}
use accelerated_container_im.Host.{
  Host, fetch, push, reader_at, copy_content, get_layer_entry, get_layer_entries,
  create_layer_entry, delete_layer_entry,
}
use accelerated_container_im.Host.Exec.{
  Exec, act, ask, pure, fail, attempt, on_result, on_option, ◌>>=◌, ◌>>◌,
}
use accelerated_container_im.Host.Registry.{Descriptor, LayerEntry}
use accelerated_container_im.Host.Types.{ok, not_found}
use accelerated_container_im.Store.{StoreConvertor}
use accelerated_container_im.Store.Loader.{layer_media_type}

-- The layer that a row of the database names.
unfoldable pub row_layer : LayerEntry → Descriptor
row_layer entry = plain_descriptor layer_media_type (entry.converted_digest, entry.data_size)

module _ (c : StoreConvertor) where
  -- With the annotation that makes a push mount the blob from another repository.
  unfoldable pub from_repo : String → Descriptor → Descriptor
  from_repo repository desc = record desc {
    annotations = ("containerd.io/distribution.source." <> c.host, repository) ∷ [];
  }

module _ (H : Host) (c : StoreConvertor) where
  -- The first half of findRemote: the row of the target repository. A row that cannot be read counts as
  -- none; a row whose layer the registry lacks is deleted.
  unfoldable pub find_in_repo : String → Exec (Option Descriptor)
  unfolding row_layer
  find_in_repo chain_id = do
    rows ← ask (λ h op. ok (H.layer_entries h op)) (get_layer_entry c.host c.repo chain_id)
    on_option (first_of rows)
        (λ entry. do
          fetched ← attempt (act H (fetch c.ref (row_layer entry)))
          on_result fetched (λ _. pure (some (row_layer entry)))
              (λ e.
                if is_not_found e
                then (do act H (delete_layer_entry c.host c.repo chain_id); pure none)
                else pure none))
        (pure none)

  -- The loop of findRemote: the first row from whose repository the layer can be mounted.
  unfoldable pub find_elsewhere : String → List (Option LayerEntry) → Exec Descriptor
  unfolding row_layer from_repo
  find_elsewhere chain_id [] = fail not_found
  find_elsewhere chain_id (none ∷ rows) = find_elsewhere chain_id rows
  find_elsewhere chain_id (some entry ∷ rows) =
      let rest = find_elsewhere chain_id rows in
      do
        pushed ← attempt (act H (push c.ref (from_repo c entry.repository (row_layer entry))))
        on_result pushed (λ _. rest)
            (λ e.
              if is_already_exists e
              then (do
                created ← attempt (
                    act H (
                      create_layer_entry c.host c.repo entry.converted_digest chain_id
                        entry.data_size))
                on_result created (λ _. pure (row_layer entry)) (λ _. rest))
              else rest)

  -- findRemote. Of the errors of the query, sql.ErrNoRows is the class not_found.
  unfoldable pub find_remote : String → Exec Descriptor
  find_remote chain_id = do
    found ← find_in_repo chain_id
    on_option found pure
        (do rows ← ask H.rows (get_layer_entries c.host chain_id); find_elsewhere chain_id rows)

  -- pushObject
  unfoldable pub push_object : Descriptor → Exec (Unit {0})
  push_object desc = do act H (reader_at desc); push_then H c.ref desc (act H (copy_content desc))

  -- sentToRemote
  unfoldable pub sent_to_remote : Descriptor → String → Exec (Unit {0})
  sent_to_remote desc chain_id = do
    push_object desc
    act H (create_layer_entry c.host c.repo desc.digest chain_id desc.size)
